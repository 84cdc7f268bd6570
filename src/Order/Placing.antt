-- ===== src/Order/Placing.antt =====
-- `Pool.order`: what the ordered list keeps of the configured one.
use omny.Base.{
  ℕ, suc, ◌<◌, ◌≤◌, ◌≡◌, refl, sym, ap, ◌∙◌, true, List, [], ◌∷◌, arith, ltb, if◌then◌else◌,
  Bool-cases, ltb→lt, inl, inr, length, set, map,
}
use omny.Order.{ranked, places, sort_by_tier, insert_by_tier, put_back, order_by}

module _ {ℓ} {A : Type ℓ} (d : A → ℕ) where
  -- The list with its measured targets replaced, in order, by those of `rs`.
  unfoldable pub fill : List A → List (A × ℕ) → List A
  fill [] rs = []
  fill (t ∷ ts) rs =
      if ltb 0 (d t)
      then elim rs [ [] ↦ t ∷ ts | r ∷ more ↦ r.0 ∷ fill ts more ]
      else t ∷ fill ts rs

  fill-nil : (ts : List A) → fill ts [] ≡ ts
  unfolding fill
  fill-nil [] = refl
  fill-nil (t ∷ ts) = ground (arith, fill-nil ts)

  places-suc : (i : ℕ) (ts : List A) → places d (suc i) ts ≡ map suc (places d i ts)
  unfolding places
  places-suc i [] = refl
  places-suc i (t ∷ ts) = elim (Bool-cases (ltb 0 (d t))) [
    | inl e ↦ rw e (ap (◌∷◌ (suc i)) (places-suc (suc i) ts))
    | inr e ↦ rw e (places-suc (suc i) ts)
  ]

  put_back-nil : (ts : List A) (is : List ℕ) → put_back ts is [] ≡ ts
  unfolding put_back
  put_back-nil ts [] = refl
  put_back-nil ts (i ∷ is) = refl

  put_back-suc :
      (v : A) (ts : List A) (is : List ℕ) (rs : List (A × ℕ))
      → put_back (v ∷ ts) (map suc is) rs ≡ v ∷ put_back ts is rs
  unfolding put_back
  put_back-suc v ts [] rs = refl
  put_back-suc v ts (i ∷ is) [] = refl
  put_back-suc v ts (i ∷ is) (r ∷ rs) = put_back-suc v (set ts i r.0) is rs

  put_back-fill : (ts : List A) (rs : List (A × ℕ)) → put_back ts (places d 0 ts) rs ≡ fill ts rs
  unfolding put_back places fill
  put_back-fill [] rs = refl
  put_back-fill (t ∷ ts) [] = put_back-nil (t ∷ ts) (places d 0 (t ∷ ts)) ∙ sym (fill-nil (t ∷ ts))
  put_back-fill (t ∷ ts) (r ∷ rs) = elim (Bool-cases (ltb 0 (d t))) [
    | inl e ↦ rw e (
        rw (places-suc 0 ts)
          (put_back-suc r.0 ts (places d 0 ts) rs ∙ ap (◌∷◌ r.0) (put_back-fill ts rs)))
    | inr e ↦ rw e (
        rw (places-suc 0 ts)
          (put_back-suc t ts (places d 0 ts) (r ∷ rs) ∙ ap (◌∷◌ t) (put_back-fill ts (r ∷ rs))))
  ]

  pub fill-ranked : (ts : List A) → fill ts (ranked d ts) ≡ ts
  unfolding fill ranked
  fill-ranked [] = refl
  fill-ranked (t ∷ ts) = elim (Bool-cases (ltb 0 (d t))) [
    | inl e ↦ rw e (ap (◌∷◌ t) (fill-ranked ts))
    | inr e ↦ rw e (ap (◌∷◌ t) (fill-ranked ts))
  ]

  sort_short : (rs : List (A × ℕ)) → length rs < 2 → sort_by_tier rs ≡ rs
  unfolding sort_by_tier insert_by_tier
  sort_short [] h = refl
  sort_short (r ∷ []) h = refl
  sort_short (r ∷ s ∷ rs) h = absurd (omega arith)

  length-ranked : (ts : List A) → length (ranked d ts) ≤ length ts
  unfolding ranked
  length-ranked [] = omega arith
  length-ranked (t ∷ ts) = ground (arith, length-ranked ts)

  -- On every branch the ordered list is the configured one with its measured targets sorted.
  pub order_by-fill : (ts : List A) → order_by d ts ≡ fill ts (sort_by_tier (ranked d ts))
  unfolding order_by
  order_by-fill ts = elim (Bool-cases (ltb (length ts) 2)) [
    | inl e ↦ rw e (sym (ap (fill ts) (sort_short (ranked d ts) (short ts e)) ∙ fill-ranked ts))
    | inr e ↦ elim (Bool-cases (ltb (length (ranked d ts)) 2)) [
      | inl f ↦
          rw (e, f) (sym (ap (fill ts) (sort_short (ranked d ts) (ltb→lt _ _ f)) ∙ fill-ranked ts))
      | inr f ↦ rw (e, f) (put_back-fill ts (sort_by_tier (ranked d ts)))
    ]
  ]
    where
      short : (ts : List A) → ltb (length ts) 2 ≡ true → length (ranked d ts) < 2
      short ts e = omega (arith, ltb→lt _ _ e, length-ranked ts)
