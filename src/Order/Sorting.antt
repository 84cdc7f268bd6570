-- ===== src/Order/Sorting.antt =====
-- The stable sort by tier.
use mathlib.Core.List.{Perm}
use mathlib.Core.List.Perm
use omny.Base.{
  All, suc, ℕ, ◌≤◌, ◌≡◌, refl, ap, ◌∙◌, List, [], ◌∷◌, arith, leb, ◌==◌, if◌then◌else◌, Bool-cases,
  inl, inr, length,
}
use omny.Order.{tier, insert_by_tier, sort_by_tier}

module _ {ℓ} {A : Type ℓ} where
  -- Each rank's tier is at most that of every later one.
  abbrev pub IsSorted : List (A × ℕ) → Type 0
  IsSorted [] = Unit
  IsSorted (r ∷ rs) = All (λ s. tier r.1 ≤ tier s.1) rs × IsSorted rs

  -- The ranks of one tier, in order.
  pub of_tier : ℕ → List (A × ℕ) → List (A × ℕ)
  of_tier n [] = []
  of_tier n (r ∷ rs) = if tier r.1 == n then r ∷ of_tier n rs else of_tier n rs

  pub insert_by_tier-perm : (r : A × ℕ) (rs : List (A × ℕ)) → Perm (insert_by_tier r rs) (r ∷ rs)
  unfolding insert_by_tier
  insert_by_tier-perm r [] = Perm.refl (r ∷ [])
  insert_by_tier-perm r (s ∷ rs) = elim (Bool-cases (leb (tier r.1) (tier s.1))) [
    | inl e ↦ rw e (Perm.refl (r ∷ s ∷ rs))
    | inr e ↦ rw e (Perm.trans (Perm.cons s (insert_by_tier-perm r rs)) (Perm.swap r s rs))
  ]

  pub sort_by_tier-perm : (rs : List (A × ℕ)) → Perm (sort_by_tier rs) rs
  unfolding sort_by_tier
  sort_by_tier-perm [] = Perm.refl []
  sort_by_tier-perm (r ∷ rs) =
      Perm.trans (insert_by_tier-perm r (sort_by_tier rs)) (Perm.cons r (sort_by_tier-perm rs))

  insert_by_tier-All :
      (P : A × ℕ → Type 0) (r : A × ℕ) (rs : List (A × ℕ))
      → P r
      → All P rs
      → All P (insert_by_tier r rs)
  unfolding insert_by_tier
  insert_by_tier-All P r [] p h = (p, tt)
  insert_by_tier-All P r (s ∷ rs) p h = elim (Bool-cases (leb (tier r.1) (tier s.1))) [
    | inl e ↦ rw e (p, h)
    | inr e ↦ rw e (h.0, insert_by_tier-All P r rs p h.1)
  ]

  All-le_trans :
      (m n : ℕ) (rs : List (A × ℕ))
      → m ≤ n
      → All (λ s. n ≤ tier s.1) rs
      → All (λ s. m ≤ tier s.1) rs
  All-le_trans m n [] h a = tt
  All-le_trans m n (s ∷ rs) h a = (omega (arith, a.0), All-le_trans m n rs h a.1)

  insert_by_tier-IsSorted :
      (r : A × ℕ) (rs : List (A × ℕ)) → IsSorted rs → IsSorted (insert_by_tier r rs)
  unfolding insert_by_tier
  insert_by_tier-IsSorted r [] h = (tt, tt)
  insert_by_tier-IsSorted r (s ∷ rs) h = elim (Bool-cases (leb (tier r.1) (tier s.1))) [
    | inl e ↦
        let l : tier r.1 ≤ tier s.1 = ground (arith, e) in
        rw e ((l, All-le_trans (tier r.1) (tier s.1) rs l h.0), h)
    | inr e ↦ rw e (
      insert_by_tier-All (λ q. tier s.1 ≤ tier q.1) r rs (ground (arith, e)) h.0,
      insert_by_tier-IsSorted r rs h.1,
    )
  ]

  pub sort_by_tier-IsSorted : (rs : List (A × ℕ)) → IsSorted (sort_by_tier rs)
  unfolding sort_by_tier
  sort_by_tier-IsSorted [] = tt
  sort_by_tier-IsSorted (r ∷ rs) =
      insert_by_tier-IsSorted r (sort_by_tier rs) (sort_by_tier-IsSorted rs)

  insert_by_tier-of_tier :
      (n : ℕ) (r : A × ℕ) (rs : List (A × ℕ)) → of_tier n (insert_by_tier r rs) ≡ of_tier n (r ∷ rs)
  unfolding insert_by_tier of_tier
  insert_by_tier-of_tier n r [] = refl
  insert_by_tier-of_tier n r (s ∷ rs) = ground (arith, insert_by_tier-of_tier n r rs)

  -- The sort is stable: the ranks of a tier keep their order.
  pub sort_by_tier-of_tier :
      (n : ℕ) (rs : List (A × ℕ)) → of_tier n (sort_by_tier rs) ≡ of_tier n rs
  unfolding sort_by_tier of_tier
  sort_by_tier-of_tier n [] = refl
  sort_by_tier-of_tier n (r ∷ rs) =
      insert_by_tier-of_tier n r (sort_by_tier rs)
      ∙ ap (λ l. if tier r.1 == n then r ∷ l else l) (sort_by_tier-of_tier n rs)

  length-insert_by_tier :
      (r : A × ℕ) (rs : List (A × ℕ)) → length (insert_by_tier r rs) ≡ suc (length rs)
  unfolding insert_by_tier
  length-insert_by_tier r [] = refl
  length-insert_by_tier r (s ∷ rs) = ground (arith, length-insert_by_tier r rs)

  pub length-sort_by_tier : (rs : List (A × ℕ)) → length (sort_by_tier rs) ≡ length rs
  unfolding sort_by_tier
  length-sort_by_tier [] = refl
  length-sort_by_tier (r ∷ rs) =
      length-insert_by_tier r (sort_by_tier rs) ∙ ap suc (length-sort_by_tier rs)

  pub sort_by_tier-All :
      (P : A × ℕ → Type 0) (rs : List (A × ℕ)) → All P rs → All P (sort_by_tier rs)
  unfolding sort_by_tier
  sort_by_tier-All P [] h = tt
  sort_by_tier-All P (r ∷ rs) h =
      insert_by_tier-All P r (sort_by_tier rs) h.0 (sort_by_tier-All P rs h.1)
