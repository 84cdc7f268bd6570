-- ===== src/Pool/Reload/Seen.antt =====
-- `adopt`: the secrets that the scrubber knows.
use omny.Base.{
  sym, subst, ℕ, ◌≡◌, ◌≢◌, refl, inl, inr, List, [], ◌∷◌, some, Bytes, All, All-map, lookup, insert,
  lookup-insert, bytes_eq, bytes_eq_refl, Bool-cases, Option-cases,
}
use omny.Config.{Provider, Config, Slot, slots}
use omny.Pool.{Pool, addresses}
use omny.Pool.Reload.{Store, remember, index_ids, adopt_slot, adopt_slots, adopt_providers, adopt}

-- The table has an entry for this secret.
abbrev pub IsSeen : List (Bytes × Bytes) → Bytes → Type 0
IsSeen seen v = (id : Bytes) × (lookup v seen ≡ some id)

-- No entry is lost.
abbrev pub Grows : List (Bytes × Bytes) → List (Bytes × Bytes) → Type 0
Grows seen seen' = (v : Bytes) → IsSeen seen v → IsSeen seen' v

insert-Grows : (k id : Bytes) (seen : List (Bytes × Bytes)) → Grows seen (insert k id seen)
insert-Grows k id seen v (i, e) = elim (Bool-cases (bytes_eq k v)) [
  | inl f ↦ (id, rw (lookup-insert k v id seen) (rw f refl))
  | inr f ↦ (i, rw (lookup-insert k v id seen) (rw f e))
]

-- A secret that is not empty is remembered.
Remembers : Slot → List (Bytes × Bytes) → List (Bytes × Bytes) → Type 0
Remembers sl seen seen' = Grows seen seen' × (sl.val ≢ [] → IsSeen seen' sl.val)

remembered :
    (v id : Bytes) (seen : List (Bytes × Bytes))
    → let sl : Slot = record { id = id; val = v } in Remembers sl seen (remember sl seen)
unfolding Remembers
remembered [] id seen = (λ v h. h, λ n. absurd (n refl))
remembered (b ∷ bs) id seen = (
  insert-Grows (b ∷ bs) id seen,
  λ n. (id, rw (lookup-insert (b ∷ bs) (b ∷ bs) id seen) (rw (bytes_eq_refl (b ∷ bs)) refl)),
)

-- Each secret of a list has an entry.
abbrev pub AreSeen : List (Bytes × Bytes) → List Slot → Type 0
AreSeen seen sls = All (λ sl. sl.val ≢ [] → IsSeen seen sl.val) sls

-- Each secret of each provider has one.
abbrev pub AllSeen : (Bytes → Bytes) → List (Bytes × Bytes) → List (Bytes × Provider) → Type 0
AllSeen fp seen provs = All (λ e. AreSeen seen (slots fp e.1 e.0)) provs

module _ (fp : Bytes → Bytes) (old : List (Bytes × ℕ)) where
  adopt_slot-seen :
      (prov : Provider) (sl : Slot) (st : Store)
      → (adopt_slot old prov sl st).1.seen ≡ remember sl st.seen
  unfolding adopt_slot
  adopt_slot-seen prov sl st = elim (Option-cases (lookup sl.id old)) [
    | inl e ↦ rw (e, adopt_slot) refl
    | inr (a, e) ↦ rw (e, adopt_slot) refl
  ]

  adopt_slots-AreSeen :
      (prov : Provider) (sls : List Slot) (st : Store)
      → let seen = (adopt_slots old prov sls st).1.seen in Grows st.seen seen × AreSeen seen sls
  unfolding adopt_slots Remembers
  adopt_slots-AreSeen prov [] st = (λ v h. h, tt)
  adopt_slots-AreSeen prov (sl ∷ more) st =
      let st' = (adopt_slot old prov sl st).1 in
      let (g, h) = adopt_slots-AreSeen prov more st' in
      let (f, s) : Remembers sl st.seen st'.seen =
        subst (Remembers sl st.seen) (sym (adopt_slot-seen prov sl st))
          (remembered sl.val sl.id st.seen) in
      (λ v k. g v (f v k), (λ n. g sl.val (s n), h))

  adopt_providers-AllSeen :
      (provs : List (Bytes × Provider)) (st : Store)
      → let seen = (adopt_providers fp old provs st).1.seen in
        Grows st.seen seen × AllSeen fp seen provs
  unfolding adopt_providers
  adopt_providers-AllSeen [] st = (λ v h. h, tt)
  adopt_providers-AllSeen ((name, prov) ∷ more) st =
      let sls = slots fp prov name in
      let (f, s) = adopt_slots-AreSeen prov sls st in
      let (g, h) = adopt_providers-AllSeen more (adopt_slots old prov sls st).1 in
      (λ v k. g v (f v k), (All-map (λ sl k n. g sl.val (k n)) sls s, h))

-- After a reload the scrubber's table has every secret that it had before, also those that the reload
-- removed, and every secret of the new configuration's providers that is not empty.
pub adopt-AllSeen :
    (fp : Bytes → Bytes) (p : Pool) (c : Config)
    → Grows p.seen (adopt fp p c).seen × AllSeen fp (adopt fp p c).seen c.providers
unfolding adopt
adopt-AllSeen fp p c =
    adopt_providers-AllSeen fp (index_ids [] (addresses p.keys) p.cells) c.providers
      (record { cells = p.cells; seen = p.seen })
