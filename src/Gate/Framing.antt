-- ===== src/Gate/Framing.antt =====
-- `gate` of a stream: what it holds back, and the line that it lets pass.
use mathlib.Core.List.{append_assoc, append-nil}
use omny.Base.{
  ◌≤◌, ◌≡◌, refl, sym, ap, ◌∙◌, inl, inr, List, [], ◌∷◌, ◌++◌, Option, none, some, arith, All,
  All-append, subst, Bytes, ltb, ltb→ge, length, Bool-cases, Option-cases,
}
use omny.Key.{Spend}
use omny.Relay.Tail.{flat}
use omny.Gate.{
  max_frame, Reply, SliceEnd, found, full, over, refused, passed, Refusal, verdict, line_data,
  on_line, gate_loop, gate_stream,
}

-- The bytes of slices.
abbrev pub text_of : List (Bytes × SliceEnd) → Bytes
text_of [] = []
text_of ((c, e) ∷ rest) = c ++ text_of rest

flat-append : (xs : List Bytes) (y : Bytes) → flat (xs ++ y ∷ []) ≡ flat xs ++ y
unfolding flat
flat-append [] y = append-nil y
flat-append (x ∷ xs) y = ap (λ z. x ++ z) (flat-append xs y) ∙ sym (append_assoc x (flat xs) y)

refused_ne_passed :
    {r : Refusal} {b : Bytes} {rest : List (Bytes × SliceEnd)} → refused r ≡ passed b rest → ⊥
refused_ne_passed e = cc

passed_inj :
    {a b : Bytes} {xs ys : List (Bytes × SliceEnd)}
    → passed a xs ≡ passed b ys
    → (a ≡ b) × (xs ≡ ys)
passed_inj e = (cc, cc)

module _ (unmarshal : Bytes → Option Reply) (trim : Bytes → Bytes) where
  -- The bytes held back are lines without content and then one with it, which carries no error; they
  -- are within the bound, and with the slices still to be read they are the whole stream.
  abbrev pub IsPassed : Bytes → Bytes → List (Bytes × SliceEnd) → Type 0
  IsPassed stream first rest =
      (lines : List Bytes) × (line : Bytes) × (content : Bytes) × (used : Option Spend) × (first
        ≡ flat lines ++ line)
      × All (λ l. line_data unmarshal trim l ≡ none) lines
      × (line_data unmarshal trim line ≡ some content)
      × (verdict unmarshal content ≡ some used)
      × (length first ≤ max_frame)
      × (first ++ text_of rest ≡ stream)

  gate_loop-IsPassed :
      (slices : List (Bytes × SliceEnd)) (lines : List Bytes) (first line : Bytes) (out : Bytes)
      (rest : List (Bytes × SliceEnd))
      → first ≡ flat lines ++ line
      → All (λ l. line_data unmarshal trim l ≡ none) lines
      → gate_loop unmarshal trim first line slices ≡ passed out rest
      → IsPassed (first ++ text_of slices) out rest
  unfolding gate_loop on_line
  gate_loop-IsPassed [] lines first line out rest e n h = absurd (ground arith)
  gate_loop-IsPassed ((c, over) ∷ more) lines first line out rest e n h =
      elim (Bool-cases (ltb max_frame (length (first ++ c)))) [
        | inl f ↦ absurd (refused_ne_passed (rw (f, gate_loop) at h))
        | inr f ↦ absurd (refused_ne_passed (rw (f, gate_loop) at h))
      ]
  gate_loop-IsPassed ((c, full) ∷ more) lines first line out rest e n h =
      elim (Bool-cases (ltb max_frame (length (first ++ c)))) [
        | inl f ↦ absurd (refused_ne_passed (rw (f, gate_loop) at h))
        | inr f ↦
            subst (λ s. IsPassed s out rest) (append_assoc first c (text_of more))
              (gate_loop-IsPassed more lines (first ++ c) (line ++ c) out rest
                (ap (λ x. x ++ c) e ∙ append_assoc (flat lines) line c) n (rw (f, gate_loop) at h))
      ]
  gate_loop-IsPassed ((c, found) ∷ more) lines first line out rest e n h =
      let l : first ++ c ≡ flat lines ++ (line ++ c) =
        ap (λ x. x ++ c) e ∙ append_assoc (flat lines) line c in
      elim (Bool-cases (ltb max_frame (length (first ++ c)))) [
        | inl f ↦ absurd (refused_ne_passed (rw (f, gate_loop) at h))
        | inr f ↦ elim (Option-cases (line_data unmarshal trim (line ++ c))) [
          | inl g ↦
              subst (λ s. IsPassed s out rest) (append_assoc first c (text_of more))
                (gate_loop-IsPassed more (lines ++ (line ++ c) ∷ []) (first ++ c) [] out rest
                  (l ∙ sym (append-nil _ ∙ flat-append lines (line ++ c)))
                  (All-append _ lines ((line ++ c) ∷ []) n (g, tt))
                  (rw (f, gate_loop, g, on_line) at h))
          | inr (d, g) ↦ elim (Option-cases (verdict unmarshal d)) [
            | inl i ↦ absurd (refused_ne_passed (rw (f, gate_loop, g, on_line, i) at h))
            | inr (u, i) ↦
                let (j, k) = passed_inj (rw (f, gate_loop, g, on_line, i) at h) in
                (
                  lines,
                  line ++ c,
                  d,
                  u,
                  sym j ∙ l,
                  n,
                  g,
                  i,
                  rw (← j) (ltb→ge max_frame (length (first ++ c)) f),
                  rw (← j, ← k) (append_assoc first c (text_of more)),
                )
          ]
        ]
      ]

  -- A stream that passes the gate loses nothing by it: what the gate held back and what is still to be
  -- read are the whole stream. It held back at most 256 KB: lines without content, and then one whose
  -- content carries no error.
  pub gate_stream-IsPassed :
      (slices : List (Bytes × SliceEnd)) (first : Bytes) (rest : List (Bytes × SliceEnd))
      → gate_stream unmarshal trim slices ≡ passed first rest
      → IsPassed (text_of slices) first rest
  unfolding gate_stream flat
  gate_stream-IsPassed slices first rest h = gate_loop-IsPassed slices [] [] [] first rest refl tt h
