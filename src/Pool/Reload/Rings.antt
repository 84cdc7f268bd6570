-- ===== src/Pool/Reload/Rings.antt =====
-- `adopt`: the rings and the fingerprints after it.
use omny.Base.{
  ℕ, ◌≡◌, refl, ◌∙◌, inl, inr, List, [], ◌∷◌, ◌++◌, some, some_inj, arith, Bytes, All, get_elem?,
  modify, length, lookup, Bool-cases, Option-cases, none_ne_some, zero, suc, get_elem?-modify_self,
  get_elem?-modify_ne, ◌==◌, ==_iff, bytes_eq, bytes_eq_iff, subst,
}
use omny.Config.{Provider, Config, Slot, slots}
use omny.Key.{Key}
use omny.Pool.{Pool, addresses}
use omny.Pool.Reload.{
  Store, new_key, assign, index_ids, adopt_slot, adopt_slots, adopt_providers, adopt,
}

-- The key at an address has this fingerprint.
abbrev pub HasId : List Key → ℕ → Bytes → Type 0
HasId cells a id = (k : Key) × (get_elem? cells a ≡ some k) × (k.id ≡ id)

-- What `adopt` writes to the heap keeps the fingerprints of its keys.
pub record Keeps (before after : List Key) : Type 0 where
  pub ids : (a : ℕ) (id : Bytes) → HasId before a id → HasId after a id

pub Keeps-trans : (xs ys zs : List Key) → Keeps xs ys → Keeps ys zs → Keeps xs zs
Keeps-trans xs ys zs f g = record { ids = λ a id h. g.ids a id (f.ids a id h) }

get_elem?-append :
    (xs ys : List Key) (a : ℕ) (k : Key) → get_elem? xs a ≡ some k → get_elem? (xs ++ ys) a ≡ some k
get_elem?-append [] ys a k e = absurd (none_ne_some e)
get_elem?-append (x ∷ xs) ys zero k e = e
get_elem?-append (x ∷ xs) ys (suc a) k e = get_elem?-append xs ys a k e

get_elem?-end : (xs : List Key) (k : Key) → get_elem? (xs ++ k ∷ []) (length xs) ≡ some k
get_elem?-end [] k = refl
get_elem?-end (x ∷ xs) k = get_elem?-end xs k

append-Keeps : (xs ys : List Key) → Keeps xs (xs ++ ys)
append-Keeps xs ys = record { ids = λ a id (k, e, f). (k, get_elem?-append xs ys a k e, f) }

assign-Keeps : (prov : Provider) (xs : List Key) (b : ℕ) → Keeps xs (modify (assign prov) xs b)
assign-Keeps prov xs b = record {
  ids = λ a id (k, e, f). elim (Bool-cases (b == a)) [
    | inl s ↦
        (assign prov k, rw ((==_iff b a).0 s) (get_elem?-modify_self (assign prov) xs a k e), f)
    | inr s ↦ (k, get_elem?-modify_ne (assign prov) xs b a (λ t. ground (arith, s, t)) ∙ e, f)
  ];
}

-- The index leads each fingerprint to a key that has it.
index_ids-HasId :
    (old : List (Bytes × ℕ)) (ks : List ℕ) (cells : List Key)
    → All (λ e. HasId cells e.1 e.0) old
    → All (λ e. HasId cells e.1 e.0) (index_ids old ks cells)
unfolding index_ids
index_ids-HasId old [] cells h = h
index_ids-HasId old (a ∷ more) cells h = elim (Option-cases (get_elem? cells a)) [
  | inl e ↦ rw (e, index_ids) (index_ids-HasId old more cells h)
  | inr (k, e) ↦ rw (e, index_ids) (index_ids-HasId ((k.id, a) ∷ old) more cells ((k, e, refl), h))
]

found_id :
    (cells : List Key) (id : Bytes) (old : List (Bytes × ℕ)) (a : ℕ)
    → All (λ e. HasId cells e.1 e.0) old
    → lookup id old ≡ some a
    → HasId cells a id
unfolding lookup
found_id cells id [] a h e = absurd (none_ne_some e)
found_id cells id ((i, b) ∷ old) a (h, hs) e = elim (Bool-cases (bytes_eq i id)) [
  | inl s ↦
      let there : HasId cells b id = subst (λ j. HasId cells b j) ((bytes_eq_iff i id).0 s) h in
      let hit : some b ≡ some a = (rw s at e) in subst (λ x. HasId cells x id) (some_inj hit) there
  | inr s ↦ found_id cells id old a hs (rw s at e)
]

-- A ring has one key for each slot of its provider, in their order, with the slot's fingerprint.
abbrev pub Matches : List Key → List ℕ → List Slot → Type 0
Matches cells [] [] = Unit {0}
Matches cells (a ∷ ks) (sl ∷ sls) = HasId cells a sl.id × Matches cells ks sls
Matches cells _ _ = ⊥

-- The rings are those of the providers, in their order.
abbrev pub AreRings :
    (Bytes → Bytes) → List Key → List (Bytes × Provider) → List (Bytes × List ℕ) → Type 0
AreRings fp cells [] [] = Unit {0}
AreRings fp cells ((name, prov) ∷ provs) ((n, ks) ∷ rings) =
    (n ≡ name) × Matches cells ks (slots fp prov name) × AreRings fp cells provs rings
AreRings fp cells _ _ = ⊥

pub Matches-Keeps :
    (xs ys : List Key) (ks : List ℕ) (sls : List Slot)
    → Keeps xs ys
    → Matches xs ks sls
    → Matches ys ks sls
Matches-Keeps xs ys [] [] f h = tt
Matches-Keeps xs ys [] (sl ∷ sls) f h = absurd h
Matches-Keeps xs ys (a ∷ ks) [] f h = absurd h
Matches-Keeps xs ys (a ∷ ks) (sl ∷ sls) f (h, hs) =
    (f.ids a sl.id h, Matches-Keeps xs ys ks sls f hs)

module _ (base : List Key) (old : List (Bytes × ℕ))
    (indexed : All (λ e. HasId base e.1 e.0) old) where
  adopt_slot_id :
      (prov : Provider) (sl : Slot) (st : Store)
      → Keeps base st.cells
      → let (a, st') = adopt_slot old prov sl st in
        Keeps st.cells st'.cells × HasId st'.cells a sl.id
  unfolding adopt_slot
  adopt_slot_id prov sl st f = elim (Option-cases (lookup sl.id old)) [
    | inl e ↦
        rw (e, adopt_slot)
          (
            append-Keeps st.cells _,
            (new_key prov sl, get_elem?-end st.cells (new_key prov sl), refl),
          )
    | inr (a, e) ↦
        let keeps = assign-Keeps prov st.cells a in
        rw (e, adopt_slot)
          (keeps, keeps.ids a sl.id (f.ids a sl.id (found_id base sl.id old a indexed e)))
  ]

  adopt_slots-Matches :
      (prov : Provider) (sls : List Slot) (st : Store)
      → Keeps base st.cells
      → let (ks, st') = adopt_slots old prov sls st in
        Keeps st.cells st'.cells × Matches st'.cells ks sls
  unfolding adopt_slots
  adopt_slots-Matches prov [] st f = (record { ids = λ a id h. h }, tt)
  adopt_slots-Matches prov (sl ∷ more) st f =
      let (g, h) = adopt_slot_id prov sl st f in
      let st' = (adopt_slot old prov sl st).1 in
      let (g', h') = adopt_slots-Matches prov more st' (Keeps-trans base st.cells st'.cells f g) in
      let end = (adopt_slots old prov more st').1.cells in
      (Keeps-trans st.cells st'.cells end g g', (g'.ids _ sl.id h, h'))

  adopt_providers-AreRings :
      (fp : Bytes → Bytes) (provs : List (Bytes × Provider)) (st : Store)
      → Keeps base st.cells
      → let (rings, st') = adopt_providers fp old provs st in
        Keeps st.cells st'.cells × AreRings fp st'.cells provs rings
  unfolding adopt_providers
  adopt_providers-AreRings fp [] st f = (record { ids = λ a id h. h }, tt)
  adopt_providers-AreRings fp ((name, prov) ∷ more) st f =
      let sls = slots fp prov name in
      let (g, h) = adopt_slots-Matches prov sls st f in
      let (ks, st') = adopt_slots old prov sls st in
      let (g', h') =
        adopt_providers-AreRings fp more st' (Keeps-trans base st.cells st'.cells f g) in
      let end = (adopt_providers fp old more st').1.cells in
      (Keeps-trans st.cells st'.cells end g g', (refl, Matches-Keeps st'.cells end ks sls g' h, h'))

-- After a reload, of whatever pool, the rings are those of the new configuration and no others: for each
-- of its providers, in order, one key for each of its secrets, with that secret's fingerprint. Every key
-- of the heap keeps its fingerprint.
pub adopt-AreRings :
    (fp : Bytes → Bytes) (p : Pool) (c : Config)
    → Keeps p.cells (adopt fp p c).cells
      × AreRings fp (adopt fp p c).cells c.providers (adopt fp p c).keys
unfolding adopt
adopt-AreRings fp p c =
    let old = index_ids [] (addresses p.keys) p.cells in
    adopt_providers-AreRings p.cells old (index_ids-HasId [] (addresses p.keys) p.cells tt) fp
      c.providers (record { cells = p.cells; seen = p.seen }) (record { ids = λ a id h. h })
