-- ===== src/Pool/Reload/Survival.antt =====
-- `adopt`: the keys of the heap.
use omny.Base.{
  some_inj, sym, ap, ◌∙◌, refl, get_elem?_of_lt, lt_of_get_elem?, All-lookup, ℕ, zero, suc, ◌<◌,
  ◌≤◌, ◌≡◌, subst, inl, inr, List, [], ◌∷◌, ◌++◌, some, some_inj, arith, length, length-append,
  get_elem?, All, All-append, length-modify, lookup, Bytes, Option-cases,
}
use omny.Config.{Provider, Config, Slot, slots}
use omny.Key.{Key}
use omny.Pool.{Pool, addresses}
use omny.Pool.Every.{Every, Every-modify}
use omny.Pool.Reload.{
  Store, new_key, assign, index_ids, adopt_slot, adopt_slots, adopt_providers, adopt,
}

All-lt_mono : (m n : ℕ) (ks : List ℕ) → m ≤ n → All (λ a. a < m) ks → All (λ a. a < n) ks
All-lt_mono m n [] h l = tt
All-lt_mono m n (a ∷ ks) h l = (omega (arith, l.0), All-lt_mono m n ks h l.1)

-- A property of the keys at their addresses that a reload cannot touch: it holds of a new key at a
-- new address, and does not read the provider.
pub record Steady (P : ℕ → Key → Type 0) (n : ℕ) : Type 0 where
  pub of_new : (a : ℕ) (prov : Provider) (sl : Slot) → n ≤ a → P a (new_key prov sl)
  pub of_assign : (a : ℕ) (prov : Provider) (k : Key) → P a k → P a (assign prov k)

Every-append_end :
    (P : ℕ → Key → Type 0) (xs : List Key) (x : Key)
    → Every P xs
    → P (length xs) x
    → Every P (xs ++ x ∷ [])
Every-append_end P [] x all h zero k e = subst (P 0) (some_inj e) h
Every-append_end P [] x all h (suc i) k e = absurd (ground arith)
Every-append_end P (y ∷ xs) x all h zero k e = all 0 k e
Every-append_end P (y ∷ xs) x all h (suc i) k e =
    Every-append_end (λ a. P (suc a)) xs x (λ a. all (suc a)) h i k e

index_ids-bounded :
    (n : ℕ) (old : List (Bytes × ℕ)) (ks : List ℕ) (cells : List Key)
    → All (λ a. a < n) ks
    → All (λ e. e.1 < n) old
    → All (λ e. e.1 < n) (index_ids old ks cells)
unfolding index_ids
index_ids-bounded n old [] cells h k = k
index_ids-bounded n old (a ∷ more) cells h k = elim (Option-cases (get_elem? cells a)) [
  | inl e ↦ rw (e, index_ids) (index_ids-bounded n old more cells h.1 k)
  | inr (c, e) ↦ rw (e, index_ids) (index_ids-bounded n ((c.id, a) ∷ old) more cells h.1 (h.0, k))
]

module _ (P : ℕ → Key → Type 0) (n : ℕ) (steady : Steady P n) (old : List (Bytes × ℕ)) where
  -- What the loops keep.
  record Kept (st : Store) : Type 0 where
    grows : n ≤ length st.cells
    every : Every P st.cells

  module _ (lt : All (λ e. e.1 < n) old) where
    adopt_slot-Kept :
        (prov : Provider) (sl : Slot) (st : Store)
        → Kept st
        → Kept (adopt_slot old prov sl st).1
          × ((adopt_slot old prov sl st).0 < length (adopt_slot old prov sl st).1.cells)
          × (length st.cells ≤ length (adopt_slot old prov sl st).1.cells)
    unfolding adopt_slot
    adopt_slot-Kept prov sl st h = elim (Option-cases (lookup sl.id old)) [
      | inl e ↦
          let l = length-append st.cells (new_key prov sl ∷ []) in
          rw (e, adopt_slot)
            (
              record {
                grows = omega (arith, l, h.grows);
                every =
                    Every-append_end P st.cells (new_key prov sl) h.every
                      (steady.of_new (length st.cells) prov sl h.grows);
              },
              omega (arith, l),
              omega (arith, l),
            )
      | inr (a, e) ↦
          let l = length-modify (assign prov) st.cells a in
          let b = All-lookup (λ a. a < n) sl.id old a lt e in
          rw (e, adopt_slot)
            (
              record {
                grows = omega (arith, l, h.grows);
                every =
                    Every-modify P P (assign prov) st.cells a h.every
                      (λ k _. steady.of_assign a prov k) (λ _ _ _ q. q);
              },
              omega (arith, l, b, h.grows),
              omega (arith, l),
            )
    ]

    adopt_slots-Kept :
        (prov : Provider) (sls : List Slot) (st : Store)
        → Kept st
        → Kept (adopt_slots old prov sls st).1
          × All
              (λ a. a < length (adopt_slots old prov sls st).1.cells)
              (adopt_slots old prov sls st).0
          × (length st.cells ≤ length (adopt_slots old prov sls st).1.cells)
    unfolding adopt_slots
    adopt_slots-Kept prov [] st h = (h, tt, omega arith)
    adopt_slots-Kept prov (sl ∷ more) st h =
        let (k, l, g) = adopt_slot-Kept prov sl st h in
        let (k', l', g') = adopt_slots-Kept prov more (adopt_slot old prov sl st).1 k in
        (k', (omega (arith, l, g'), l'), omega (arith, g, g'))

    adopt_providers-Kept :
        (fingerprint : Bytes → Bytes) (provs : List (Bytes × Provider)) (st : Store)
        → Kept st
        → let (keys, st') = adopt_providers fingerprint old provs st in
          Kept st'
          × All (λ a. a < length st'.cells) (addresses keys)
          × (length st.cells ≤ length st'.cells)
    unfolding adopt_providers addresses
    adopt_providers-Kept fingerprint [] st h = (h, tt, omega arith)
    adopt_providers-Kept fingerprint ((name, prov) ∷ more) st h =
        let sls = slots fingerprint prov name in
        let (k, l, g) = adopt_slots-Kept prov sls st h in
        let (k', l', g') =
          adopt_providers-Kept fingerprint more (adopt_slots old prov sls st).1 k in
        (k', All-append _ _ _ (All-lt_mono _ _ _ g' l) l', omega (arith, g, g'))

-- A property that a reload cannot touch holds after it if it held before, every address of the new
-- rings is in the heap, and no key of the heap is lost.
pub adopt-Every :
    (P : ℕ → Key → Type 0) (fingerprint : Bytes → Bytes) (p : Pool) (c : Config)
    → Steady P (length p.cells)
    → All (λ a. a < length p.cells) (addresses p.keys)
    → Every P p.cells
    → Every P (adopt fingerprint p c).cells
      × All (λ a. a < length (adopt fingerprint p c).cells) (addresses (adopt fingerprint p c).keys)
      × (length p.cells ≤ length (adopt fingerprint p c).cells)
unfolding adopt
adopt-Every P fingerprint p c steady lt all =
    let old = index_ids [] (addresses p.keys) p.cells in
    let b = index_ids-bounded (length p.cells) [] (addresses p.keys) p.cells lt tt in
    let (k, l, g) =
      adopt_providers-Kept P (length p.cells) steady old b fingerprint c.providers
        (record { cells = p.cells; seen = p.seen }) (record { grows = omega arith; every = all }) in
    (k.every, l, g)

-- A reload whose pool has its rings inside the heap keeps every key that the pool ever had, at its
-- address and with all of its state; at most the key's provider is another.
pub adopt_keeps :
    (fingerprint : Bytes → Bytes) (p : Pool) (c : Config) (a : ℕ) (k : Key)
    → All (λ a. a < length p.cells) (addresses p.keys)
    → get_elem? p.cells a ≡ some k
    → (prov : Provider) × (get_elem? (adopt fingerprint p c).cells a
        ≡ some (record k { prov = prov }))
adopt_keeps fp p c a k lt e =
    let P : ℕ → Key → Type 0 =
      λ b k'. (k : Key) → get_elem? p.cells b ≡ some k → k' ≡ record k { prov = k'.prov } in
    let steady : Steady P (length p.cells) = record {
      of_new = λ b prov sl l k f. absurd (omega (arith, l, lt_of_get_elem? p.cells b k f));
      of_assign = λ b prov k' h k f. ap (assign prov) (h k f);
    } in
    let (all, _, grows) =
      adopt-Every P fp p c steady lt
        (λ b k f k' g. subst (λ x. k ≡ record x { prov = k.prov }) (some_inj (sym f ∙ g)) refl) in
    let (k', f) =
      get_elem?_of_lt (adopt fp p c).cells a
        (omega (arith, grows, lt_of_get_elem? p.cells a k e)) in
    (k'.prov, f ∙ ap some (all a k' f k e))
