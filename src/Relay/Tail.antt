-- ===== src/Relay/Tail.antt =====
-- `sniff`: the buffer over all that is fed to it.
use omny.Base.{
  ℕ, zero, suc, ◌+◌, ◌-◌, ◌≤◌, ◌<◌, ◌≡◌, refl, sym, ap, ◌∙◌, List, [], ◌∷◌, ◌++◌, arith, Bytes, ltb,
  leb, length, length-append, length-drop, drop, drop-drop, Bool-cases, inl, inr, leb→le, ltb→lt,
  ltb→ge,
}
use mathlib.Core.List.{append_assoc, append-nil}
use omny.Relay.{tail_size, feed}

-- The last `n` bytes of a text.
abbrev pub last : ℕ → Bytes → Bytes
last n xs = drop (length xs - n) xs

drop-append_le : (n : ℕ) (xs ys : Bytes) → n ≤ length xs → drop n (xs ++ ys) ≡ drop n xs ++ ys
drop-append_le zero xs ys h = refl
drop-append_le (suc n) [] ys h = absurd (omega arith)
drop-append_le (suc n) (x ∷ xs) ys h = drop-append_le n xs ys (omega arith)

drop-append_ge :
    (n : ℕ) (xs ys : Bytes) → length xs ≤ n → drop n (xs ++ ys) ≡ drop (n - length xs) ys
drop-append_ge n [] ys h = let e : n ≡ n - 0 = omega arith in ap (λ m. drop m ys) e
drop-append_ge zero (x ∷ xs) ys h = absurd (omega arith)
drop-append_ge (suc n) (x ∷ xs) ys h =
    let e : n - length xs ≡ suc n - suc (length xs) = omega arith in
    drop-append_ge n xs ys (omega arith) ∙ ap (λ m. drop m ys) e

drop-nil : (n : ℕ) → drop {A = ℕ} n [] ≡ []
drop-nil zero = refl
drop-nil (suc n) = refl

-- One chunk more.
pub feed-last :
    (seen chunk : Bytes) → feed (last tail_size seen) chunk ≡ last tail_size (seen ++ chunk)
unfolding feed
feed-last seen chunk = elim (Bool-cases (leb tail_size (length chunk))) [
  | inl e ↦
      let c = leb→le tail_size (length chunk) e in
      let n : length chunk - tail_size ≡ length (seen ++ chunk) - tail_size - length seen =
        omega (arith, l) in
      rw e (
        ap (λ n. drop n chunk) n
        ∙ sym
            (drop-append_ge (length (seen ++ chunk) - tail_size) seen chunk (omega (arith, l, c))))
  | inr e ↦ elim (Bool-cases (ltb tail_size (length kept + length chunk))) [
    | inl f ↦
        let c : length chunk < tail_size = ground (arith, e) in
        let g = ltb→lt tail_size (length kept + length chunk) f in
        let n : (length seen - tail_size) + (length kept + length chunk - tail_size)
            ≡ length (seen ++ chunk) - tail_size =
          omega (arith, l, k, g, c) in
        rw (e, f)
          (ap (λ xs. xs ++ chunk)
              (drop-drop (length kept + length chunk - tail_size) (length seen - tail_size) seen
                ∙ ap (λ n. drop n seen) n)
            ∙ sym (
                drop-append_le (length (seen ++ chunk) - tail_size) seen chunk
                  (omega (arith, l, c))))
    | inr f ↦
        let g = ltb→ge tail_size (length kept + length chunk) f in
        let n : length seen - tail_size ≡ length (seen ++ chunk) - tail_size =
          omega (arith, l, k, g) in
        rw (e, f)
          (ap (λ n. drop n seen ++ chunk) n
            ∙ sym (
                drop-append_le (length (seen ++ chunk) - tail_size) seen chunk
                  (omega (arith, l, k, g))))
  ]
]
  where
    kept : Bytes
    kept = drop (length seen - tail_size) seen

    l : length (seen ++ chunk) ≡ length seen + length chunk
    l = length-append seen chunk

    k : length kept ≡ length seen - (length seen - tail_size)
    k = length-drop (length seen - tail_size) seen

-- All chunks of a stream, one after another.
unfoldable pub feed_all : Bytes → List Bytes → Bytes
feed_all s [] = s
feed_all s (c ∷ cs) = feed_all (feed s c) cs

unfoldable pub flat : List Bytes → Bytes
flat [] = []
flat (c ∷ cs) = c ++ flat cs

feed_all-last :
    (seen : Bytes) (cs : List Bytes)
    → feed_all (last tail_size seen) cs ≡ last tail_size (seen ++ flat cs)
unfolding feed_all flat
feed_all-last seen [] = ap (last tail_size) (sym (append-nil seen))
feed_all-last seen (c ∷ cs) =
    ap (λ s. feed_all s cs) (feed-last seen c)
    ∙ feed_all-last (seen ++ c) cs
    ∙ ap (last tail_size) (append_assoc seen c (flat cs))

-- After any chunks, the buffer of a new `sniff` is the last 512 bytes of their concatenation, or all
-- of it where it is shorter.
pub feed_all_lem : (cs : List Bytes) → feed_all [] cs ≡ last tail_size (flat cs)
feed_all_lem cs = feed_all-last [] cs
