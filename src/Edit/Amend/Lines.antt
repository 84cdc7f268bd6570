-- ===== src/Edit/Amend/Lines.antt =====
-- Splitting a file at its newlines and joining the lines.
use omny.Base.{
  ℕ, ◌≡◌, ◌≢◌, refl, ap, sym, ◌∙◌, inl, inr, List, [], ◌∷◌, arith, Bytes, ◌==◌, ==_iff, Bool-cases,
}
use omny.Edit.Splice.{join}
use omny.Edit.Amend.{newline, prefix_line, split, join_lines}

prefix_line-join :
    (c : ℕ) (ls : List Bytes) → ls ≢ [] → join_lines (prefix_line c ls) ≡ c ∷ join_lines ls
unfolding prefix_line join
prefix_line-join c [] h = absurd (h refl)
prefix_line-join c (l ∷ []) h = refl
prefix_line-join c (l ∷ r ∷ ls) h = refl

split-ne-nil : (s : Bytes) → split s ≢ []
unfolding split prefix_line
split-ne-nil [] e = ground arith
split-ne-nil (c ∷ s) e = ground (arith, split-ne-nil s, prefix_line-ne-nil c (split s))
  where
    prefix_line-ne-nil : (c : ℕ) (ls : List Bytes) → prefix_line c ls ≢ []
    prefix_line-ne-nil c [] e = ground arith
    prefix_line-ne-nil c (l ∷ ls) e = ground arith

newline-join : (ls : List Bytes) → ls ≢ [] → join_lines ([] ∷ ls) ≡ newline ∷ join_lines ls
unfolding join
newline-join [] h = absurd (h refl)
newline-join (l ∷ ls) h = refl

-- Joining the lines of a file gives the file back, byte for byte.
pub join-split : (s : Bytes) → join_lines (split s) ≡ s
unfolding split
join-split [] = unfold join in refl
join-split (c ∷ s) = elim (Bool-cases (c == newline)) [
  | inl e ↦ rw e (
      newline-join (split s) (split-ne-nil s)
      ∙ ap (◌∷◌ newline) (join-split s)
      ∙ ap (λ x. x ∷ s) (sym ((==_iff c newline).0 e)))
  | inr e ↦ rw e (prefix_line-join c (split s) (split-ne-nil s) ∙ ap (◌∷◌ c) (join-split s))
]
