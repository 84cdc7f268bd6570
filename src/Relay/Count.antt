-- ===== src/Relay/Count.antt =====
-- internal/omny/relay.go, `sniff.count`: the usage in the last frame of a stream, found in its tail.
use mathlib.Core.Option
use omny.Base.{
  ==_iff, count as often, has_prefix-append, has_prefix_lem, ◌≤◌, ℕ, suc, ◌+◌, ◌-◌, ◌≡◌, ◌≢◌, refl,
  sym, ap, ◌∙◌, ◌⊎◌, inl, inr, true, false, ◌||◌, [], ◌∷◌, ◌++◌, Option, none, some, arith, All,
  Bytes, bytes, has_prefix, ◌==◌, if◌then◌else◌, length, drop, Bool-cases, Option-cases, some_inj,
  none_ne_some,
}
use omny.Key.{Spend, fill}

abbrev pub mark : Bytes
mark = bytes "\"usage\":"

-- `bytes.LastIndex`, and then what follows the mark; none for -1.
unfoldable pub after_last : Bytes → Option Bytes
after_last [] = none
after_last (c ∷ s) = elim (after_last s) [
  | some r ↦ some r
  | none ↦ if has_prefix mark (c ∷ s) then some (drop (length mark) (c ∷ s)) else none
]

-- `bytes.TrimLeft(…, " \t")`.
unfoldable pub trim_left : Bytes → Bytes
trim_left [] = []
trim_left (c ∷ s) = if c == 32 || c == 9 then trim_left s else c ∷ s

-- The loop over the bytes, at a depth: those up to the brace that closes the first one.
unfoldable pub object : ℕ → Bytes → Option Bytes
object depth [] = none
object depth (c ∷ s) =
    let deeper = object (suc depth) s in
    let same = object depth s in
    let shallower = object (depth - 1) s in
    if c == 123
    then Option.map (λ r. c ∷ r) deeper
    else if c == 125
    then (if depth == 1 then some (c ∷ []) else Option.map (λ r. c ∷ r) shallower)
    else Option.map (λ r. c ∷ r) same

-- The object at the start of what follows the mark.
unfoldable pub usage_text : Bytes → Option Bytes
usage_text [] = none
usage_text (c ∷ s) = if c == 123 then object 0 (c ∷ s) else none

-- `count`, with the reading of a usage by encoding/json as an argument.
unfoldable pub count : (Bytes → Option Spend) → Bytes → Option Spend
count unmarshal tail = elim (after_last tail) [
  | none ↦ none
  | some r ↦ elim (usage_text (trim_left r)) [
    | none ↦ none
    | some b ↦ Option.map fill (unmarshal b)
  ]
]

-- A text in which the mark does not stand.
abbrev pub Unmarked : Bytes → Type 0
Unmarked s = (x y : Bytes) → s ≢ x ++ (mark ++ y)

nil_lem : Unmarked []
nil_lem [] y e = ground arith
nil_lem (c ∷ x) y e = ground arith

no_mark :
    (c : ℕ) (s : Bytes)
    → after_last (c ∷ s) ≡ none
    → (after_last s ≡ none) × (has_prefix mark (c ∷ s) ≡ false)
unfolding after_last
no_mark c s h = elim (Option-cases (after_last s)) [
  | inr (r, f) ↦ absurd (none_ne_some (sym (rw (f, after_last) at h)))
  | inl f ↦ elim (Bool-cases (has_prefix mark (c ∷ s))) [
    | inl g ↦ absurd (none_ne_some (sym (rw (f, after_last, g) at h)))
    | inr g ↦ (f, g)
  ]
]

tails_eq : {c d : ℕ} {s t : Bytes} → c ∷ s ≡ d ∷ t → s ≡ t
tails_eq e = cc

after_last-Unmarked : (s : Bytes) → after_last s ≡ none → Unmarked s
after_last-Unmarked [] h x y e = nil_lem x y e
after_last-Unmarked (c ∷ s) h [] y e =
    let g : has_prefix mark (c ∷ s) ≡ true = rw e (has_prefix-append mark y) in
    let f = (no_mark c s h).1 in absurd (ground arith)
after_last-Unmarked (c ∷ s) h (d ∷ x) y e = after_last-Unmarked s (no_mark c s h).0 x y (tails_eq e)

-- What follows the last mark.
after_last_lem :
    (s r : Bytes)
    → after_last s ≡ some r
    → (pre : Bytes) × (c : ℕ) × (rest : Bytes) × (s ≡ pre ++ c ∷ rest)
      × (c ∷ rest ≡ mark ++ r)
      × Unmarked rest
unfolding after_last
after_last_lem [] r h = absurd (none_ne_some h)
after_last_lem (c ∷ s) r h = elim (Option-cases (after_last s)) [
  | inr (r', f) ↦
      let e : r' ≡ r = some_inj (rw (f, after_last) at h) in
      let (pre, d, rest, g, i, j) = after_last_lem s r (f ∙ ap some e) in
      (c ∷ pre, d, rest, ap (◌∷◌ c) g, i, j)
  | inl f ↦ elim (Bool-cases (has_prefix mark (c ∷ s))) [
    | inr g ↦ absurd (none_ne_some (rw (f, after_last, g) at h))
    | inl g ↦
        let e : drop (length mark) (c ∷ s) ≡ r = some_inj (rw (f, after_last, g) at h) in
        (
          [],
          c,
          s,
          refl,
          has_prefix_lem mark (c ∷ s) g ∙ ap (λ x. mark ++ x) e,
          after_last-Unmarked s f,
        )
  ]
]

trim_left_lem :
    (s : Bytes)
    → (blanks : Bytes) × (s ≡ blanks ++ trim_left s) × All (λ c. (c ≡ 32) ⊎ (c ≡ 9)) blanks
unfolding trim_left
trim_left_lem [] = ([], refl, tt)
trim_left_lem (c ∷ s) = elim (Bool-cases (c == 32 || c == 9)) [
  | inr e ↦ rw e ([], refl, tt)
  | inl e ↦
      let (b, f, g) = trim_left_lem s in
      let o : (c ≡ 32) ⊎ (c ≡ 9) = ground arith in rw e (c ∷ b, ap (◌∷◌ c) f, (o, g))
]

mapped_lem :
    (c : ℕ) (o : Option Bytes) (b : Bytes)
    → Option.map (λ r. c ∷ r) o ≡ some b
    → (r : Bytes) × (o ≡ some r) × (b ≡ c ∷ r)
unfolding Option.map
mapped_lem c none b h = absurd (none_ne_some h)
mapped_lem c (some r) b h = (r, refl, sym (some_inj h))

-- The bytes of an object have as many braces that close as open, the depth counted in.
object_lem :
    (depth : ℕ) (s b : Bytes)
    → 1 ≤ depth
    → object depth s ≡ some b
    → (post : Bytes) × (s ≡ b ++ post) × (often 123 b + depth ≡ often 125 b)
unfolding object
object_lem depth [] b l h = absurd (none_ne_some h)
object_lem depth (c ∷ s) b l h = elim (Bool-cases (c == 123)) [
  | inl e ↦
      let (r, f, g) = mapped_lem c (object (suc depth) s) b (rw e at h) in
      let (post, i, j) = object_lem (suc depth) s r (omega arith) f in
      (post, rw g (ap (◌∷◌ c) i), rw g (ground (arith, j)))
  | inr e ↦ elim (Bool-cases (c == 125)) [
    | inr f ↦
        let (r, k, g) = mapped_lem c (object depth s) b (rw (e, f) at h) in
        let (post, i, j) = object_lem depth s r l k in
        (post, rw g (ap (◌∷◌ c) i), rw g (ground (arith, j)))
    | inl f ↦ elim (Bool-cases (depth == 1)) [
      | inl d ↦
          let g : c ∷ [] ≡ b = some_inj (rw (e, f, d) at h) in
          (s, rw (← g) refl, rw (← g) (ground arith))
      | inr d ↦
          let (r, k, g) = mapped_lem c (object (depth - 1) s) b (rw (e, f, d) at h) in
          let (post, i, j) = object_lem (depth - 1) s r (ground arith) k in
          (post, rw g (ap (◌∷◌ c) i), rw g (ground (arith, j)))
    ]
  ]
]

usage_text_lem :
    (t b : Bytes)
    → usage_text t ≡ some b
    → (inner : Bytes) × (post : Bytes) × (b ≡ 123 ∷ inner)
      × (t ≡ b ++ post)
      × (often 123 b ≡ often 125 b)
unfolding usage_text object
usage_text_lem [] b h = absurd (none_ne_some h)
usage_text_lem (c ∷ s) b h = elim (Bool-cases (c == 123)) [
  | inr e ↦ absurd (none_ne_some (rw e at h))
  | inl e ↦
      let (r, f, g) = mapped_lem c (object 1 s) b (rw e at h) in
      let (post, i, j) = object_lem 1 s r (omega arith) f in
      let k : c ≡ 123 = (==_iff c 123).0 e in
      (r, post, g ∙ ap (λ x. x ∷ r) k, rw g (ap (◌∷◌ c) i), rw g (ground (arith, j)))
]

-- Where `count` finds a usage, the tail holds, right behind the last mark and blanks, an object with as
-- many closing braces as opening ones, and the usage is what is read of it, its total filled in. No
-- mark starts behind that one.
pub count_lem :
    (unmarshal : Bytes → Option Spend) (tail : Bytes) (v : Spend)
    → count unmarshal tail ≡ some v
    → (pre : Bytes) × (c : ℕ) × (rest : Bytes) × (blanks : Bytes) × (b : Bytes) × (post : Bytes)
      × (u : Spend) × (tail ≡ pre ++ c ∷ rest)
      × (c ∷ rest ≡ mark ++ (blanks ++ (b ++ post)))
      × Unmarked rest
      × All (λ x. (x ≡ 32) ⊎ (x ≡ 9)) blanks
      × ((inner : Bytes) × (b ≡ 123 ∷ inner))
      × (often 123 b ≡ often 125 b)
      × (unmarshal b ≡ some u)
      × (v ≡ fill u)
unfolding count Option.map
count_lem unmarshal tail v h = elim (Option-cases (after_last tail)) [
  | inl e ↦ absurd (none_ne_some (rw (e, count) at h))
  | inr (r, e) ↦ elim (Option-cases (usage_text (trim_left r))) [
    | inl f ↦ absurd (none_ne_some (rw (e, count, f) at h))
    | inr (b, f) ↦ elim (Option-cases (unmarshal b)) [
      | inl g ↦ absurd (none_ne_some (rw (e, count, f, g) at h))
      | inr (u, g) ↦
          let (pre, c, rest, i, j, k) = after_last_lem tail r e in
          let (blanks, l, m) = trim_left_lem r in
          let (inner, post, n, o, p) = usage_text_lem (trim_left r) b f in
          let w : fill u ≡ v = some_inj (rw (e, count, f, g) at h) in
          (
            pre,
            c,
            rest,
            blanks,
            b,
            post,
            u,
            i,
            j ∙ ap (λ x. mark ++ x) (l ∙ ap (λ x. blanks ++ x) o),
            k,
            m,
            (inner, n),
            p,
            g,
            sym w,
          )
    ]
  ]
]
