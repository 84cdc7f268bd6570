-- ===== src/Order/Laws.antt =====
-- `Pool.order`: its list against the configured one.
use mathlib.Core.List.{Perm, perm_middle}
use mathlib.Core.List.Perm
use mathlib.Core.Path.{ap₂}
use omny.Base.{
  ℕ, suc, zero, ◌<◌, ◌≡◌, refl, ap, subst, true, false, List, [], ◌∷◌, ◌++◌, some, arith, ltb,
  if◌then◌else◌, Bool-cases, ltb→lt, some_inj, inl, inr, length, get_elem?, map, All,
}
use omny.Order.{ranked, sort_by_tier, order_by}
use omny.Order.Sorting.{
  IsSorted, of_tier, sort_by_tier-perm, sort_by_tier-IsSorted, sort_by_tier-of_tier,
  length-sort_by_tier, sort_by_tier-All,
}
use omny.Order.Placing.{fill, fill-ranked, order_by-fill}

module _ {ℓ} {A : Type ℓ} (d : A → ℕ) where
  -- The targets that were not measured, in order.
  unmeasured : List A → List A
  unmeasured [] = []
  unmeasured (t ∷ ts) = if ltb 0 (d t) then unmeasured ts else t ∷ unmeasured ts

  fill-perm :
      (ts : List A) (rs : List (A × ℕ))
      → length rs ≡ length (ranked d ts)
      → Perm (fill d ts rs) (map (λ r. r.0) rs ++ unmeasured ts)
  unfolding fill ranked unmeasured
  fill-perm [] [] h = Perm.refl []
  fill-perm [] (r ∷ rs) h = absurd (omega arith)
  fill-perm (t ∷ ts) [] h = elim (Bool-cases (ltb 0 (d t))) [
    | inl e ↦ absurd (ground arith)
    | inr e ↦ rw e (Perm.cons t (fill-perm ts [] (ground arith)))
  ]
  fill-perm (t ∷ ts) (r ∷ rs) h = elim (Bool-cases (ltb 0 (d t))) [
    | inl e ↦ rw e (Perm.cons r.0 (fill-perm ts rs (ground arith)))
    | inr e ↦ rw e (
        Perm.trans (Perm.cons t (fill-perm ts (r ∷ rs) (ground arith)))
          (Perm.symm (perm_middle (map (λ r. r.0) (r ∷ rs)) (unmeasured ts))))
  ]

  fill-unmeasured :
      (ts : List A) (rs : List (A × ℕ)) (i : ℕ) (t : A)
      → get_elem? ts i ≡ some t
      → d t ≡ 0
      → get_elem? (fill d ts rs) i ≡ some t
  unfolding fill
  fill-unmeasured [] rs i t e z = e
  fill-unmeasured (t ∷ ts) rs zero t' e z =
      let s : t ≡ t' = some_inj e in let f : ltb 0 (d t) ≡ false = rw (ap d s, z) refl in rw f e
  fill-unmeasured (t ∷ ts) [] (suc i) t' e z = elim (Bool-cases (ltb 0 (d t))) [
    | inl f ↦ rw f e
    | inr f ↦ rw f (fill-unmeasured ts [] i t' e z)
  ]
  fill-unmeasured (t ∷ ts) (r ∷ rs) (suc i) t' e z = elim (Bool-cases (ltb 0 (d t))) [
    | inl f ↦ rw f (fill-unmeasured ts rs i t' e z)
    | inr f ↦ rw f (fill-unmeasured ts (r ∷ rs) i t' e z)
  ]

  -- A rank that goes with its target.
  abbrev Matches : A × ℕ → Type 0
  Matches r = (r.1 ≡ d r.0) × (0 < r.1)

  ranked-Matches : (ts : List A) → All Matches (ranked d ts)
  unfolding ranked
  ranked-Matches [] = tt
  ranked-Matches (t ∷ ts) = elim (Bool-cases (ltb 0 (d t))) [
    | inl e ↦ rw e ((refl, ltb→lt 0 (d t) e), ranked-Matches ts)
    | inr e ↦ rw e (ranked-Matches ts)
  ]

  ranked-fill :
      (ts : List A) (rs : List (A × ℕ))
      → length rs ≡ length (ranked d ts)
      → All Matches rs
      → ranked d (fill d ts rs) ≡ rs
  unfolding fill ranked
  ranked-fill [] [] h m = refl
  ranked-fill [] (r ∷ rs) h m = absurd (omega arith)
  ranked-fill (t ∷ ts) [] h m = elim (Bool-cases (ltb 0 (d t))) [
    | inl e ↦ absurd (ground arith)
    | inr e ↦ rw (e, e) (ranked-fill ts [] (ground arith) tt)
  ]
  ranked-fill (t ∷ ts) (r ∷ rs) h m = elim (Bool-cases (ltb 0 (d t))) [
    | inl e ↦
        let f : ltb 0 (d r.0) ≡ true = ground (arith, m.0) in
        rw e (rw f (ap₂ ◌∷◌ (ground (arith, m.0)) (ranked-fill ts rs (ground arith) m.1)))
    | inr e ↦ rw e (rw e (ranked-fill ts (r ∷ rs) (ground arith) m))
  ]

  sorted_length : (ts : List A) → length (sort_by_tier (ranked d ts)) ≡ length (ranked d ts)
  sorted_length ts = length-sort_by_tier (ranked d ts)

  -- Ordering loses no target and adds none.
  pub order_by-perm : (ts : List A) → Perm (order_by d ts) ts
  order_by-perm ts = rw (order_by-fill d ts) (
      Perm.trans (fill-perm ts (sort_by_tier (ranked d ts)) (sorted_length ts)) (
        Perm.trans
          (Perm.append_right (unmeasured ts)
            (Perm.map (λ r. r.0) (sort_by_tier-perm (ranked d ts))))
          (Perm.symm whole)))
    where
      whole : Perm ts (map (λ r. r.0) (ranked d ts) ++ unmeasured ts)
      whole =
          subst (λ l. Perm l (map (λ r. r.0) (ranked d ts) ++ unmeasured ts)) (fill-ranked d ts)
            (fill-perm ts (ranked d ts) refl)

  -- A target with no measurement keeps its place; the measured targets stand in the places of the
  -- measured ones by nondecreasing tier, and those of one tier in their configured order.
  pub order_by_lem :
      (ts : List A)
      → ((i : ℕ) (t : A) → get_elem? ts i ≡ some t → d t ≡ 0 → get_elem? (order_by d ts) i ≡ some t)
        × IsSorted (ranked d (order_by d ts))
        × ((n : ℕ) → of_tier n (ranked d (order_by d ts)) ≡ of_tier n (ranked d ts))
  order_by_lem ts = (
    λ i t e z. rw (order_by-fill d ts) (fill-unmeasured ts (sort_by_tier (ranked d ts)) i t e z),
    rw (order_by-fill d ts, kept) (sort_by_tier-IsSorted (ranked d ts)),
    λ n. rw (order_by-fill d ts, kept) (sort_by_tier-of_tier n (ranked d ts)),
  )
    where
      kept : ranked d (fill d ts (sort_by_tier (ranked d ts))) ≡ sort_by_tier (ranked d ts)
      kept =
          ranked-fill ts (sort_by_tier (ranked d ts)) (sorted_length ts)
            (sort_by_tier-All Matches (ranked d ts) (ranked-Matches ts))
