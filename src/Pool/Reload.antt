-- ===== src/Pool/Reload.antt =====
-- pool.go, `adopt`: a new configuration takes over the keys that it still names, by fingerprint.
pub mod Survival
pub mod Reuse
pub mod Rings
pub mod Seen
use omny.Base.{
  ℕ, ◌/◌, true, false, List, [], ◌∷◌, ◌++◌, Option, none, some, Bytes, lookup, insert, get_elem?,
  modify, length,
}
use omny.Clock.{unix, year_day}
use omny.Config.{Provider, Config, Slot, slots}
use omny.Key.{Key, no_spend}
use omny.Pool.{Pool, addresses}

-- The map `old` from fingerprints to keys; a later key covers an earlier one.
unfoldable pub index_ids : List (Bytes × ℕ) → List ℕ → List Key → List (Bytes × ℕ)
index_ids old [] cells = old
index_ids old (a ∷ more) cells = elim (get_elem? cells a) [
  | none ↦ index_ids old more cells
  | some k ↦ index_ids ((k.id, a) ∷ old) more cells
]

-- `&Key{val: sl.val, id: sl.id}`, with its provider.
abbrev pub new_key : Provider → Slot → Key
new_key prov sl = record {
  val = sl.val;
  prov = prov;
  id = sl.id;
  until = 0;
  step = 0;
  dead = false;
  reqs = 0;
  errs = 0;
  mins = 0;
  live = 0;
  last = 0;
  ttft = 0;
  toks = no_spend;
  life = no_spend;
  blind = 0;
}

-- What the loops of `adopt` write.
pub record Store : Type 0 where
  pub cells : List Key
  pub seen : List (Bytes × Bytes)

-- `if sl.val != "" { p.seen[sl.val] = sl.id }`
abbrev pub remember : Slot → List (Bytes × Bytes) → List (Bytes × Bytes)
remember sl seen = elim sl.val [ [] ↦ seen | b ∷ bs ↦ insert sl.val sl.id seen ]

abbrev pub assign : Provider → Key → Key
assign prov k = record k { prov = prov }

unfoldable pub adopt_slot : List (Bytes × ℕ) → Provider → Slot → Store → ℕ × Store
adopt_slot old prov sl st = elim (lookup sl.id old) [
  | none ↦ (
    length st.cells,
    record { cells = st.cells ++ new_key prov sl ∷ []; seen = remember sl st.seen },
  )
  | some a ↦ (a, record { cells = modify (assign prov) st.cells a; seen = remember sl st.seen })
]

unfoldable pub adopt_slots : List (Bytes × ℕ) → Provider → List Slot → Store → List ℕ × Store
adopt_slots old prov [] st = ([], st)
adopt_slots old prov (sl ∷ more) st =
    let (a, st') = adopt_slot old prov sl st in
    let (rest, st'') = adopt_slots old prov more st' in (a ∷ rest, st'')

module _ (fingerprint : Bytes → Bytes) where
  unfoldable pub adopt_providers :
      List (Bytes × ℕ) → List (Bytes × Provider) → Store → List (Bytes × List ℕ) × Store
  adopt_providers old [] st = ([], st)
  adopt_providers old ((name, prov) ∷ more) st =
      let (ks, st') = adopt_slots old prov (slots fingerprint prov name) st in
      let (rest, st'') = adopt_providers old more st' in ((name, ks) ∷ rest, st'')

  -- `Pool.adopt`.
  unfoldable pub adopt : Pool → Config → Pool
  adopt p c =
      let old = index_ids [] (addresses p.keys) p.cells in
      let (keys, st) =
        adopt_providers old c.providers (record { cells = p.cells; seen = p.seen }) in
      record p { cells = st.cells; keys = keys; rr = λ _. 0; path = c.state; seen = st.seen }

  -- `pool`: the pool of a process that starts at `now`.
  unfoldable pub new_pool : ℕ → Config → Pool
  new_pool now c =
      adopt
        (record {
          cells = [];
          keys = [];
          rr = λ _. 0;
          day = year_day now;
          min = unix now / 60;
          path = [];
          seen = [];
          mute = λ _. false;
        })
        c
