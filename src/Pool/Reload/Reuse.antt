-- ===== src/Pool/Reload/Reuse.antt =====
-- What `adopt` takes for the slots of a new configuration: a key that the pool has, or a new one.
use mathlib.Core.List.{Memᴰ}
use omny.Base.{ℕ, ◌≡◌, ◌⊎◌, List, [], ◌∷◌, some, Bytes, get_elem?}
use omny.Config.{Provider, Config, Slot, slots}
use omny.Key.{Key}
use omny.Pool.{Pool, addresses}
use omny.Pool.Reload.Rings.{HasId}

-- A fingerprint that it does not lead from is that of none of its addresses.
abbrev Lacks : List ℕ → List Key → Bytes → Type 0
Lacks ks cells id = (b : ℕ) → Memᴰ b ks → HasId cells b id → ⊥

-- Each address of a ring is right for its slot.
abbrev pub AllSlots : (ℕ → Slot → Type 0) → List ℕ → List Slot → Type 0
AllSlots Q [] [] = Unit {0}
AllSlots Q (a ∷ ks) (sl ∷ sls) = Q a sl × AllSlots Q ks sls
AllSlots Q _ _ = ⊥

-- The same for the rings of all providers, in their order.
abbrev pub AllRings :
    (ℕ → Slot → Type 0) → (Bytes → Bytes) → List (Bytes × Provider) → List (Bytes × List ℕ) → Type 0
AllRings Q fp [] [] = Unit {0}
AllRings Q fp ((name, prov) ∷ provs) ((n, ks) ∷ rings) =
    (n ≡ name) × AllSlots Q ks (slots fp prov name) × AllRings Q fp provs rings
AllRings Q fp _ _ = ⊥

-- The slot has a key of the old rings with its fingerprint, in the state that it had; at most the
-- provider is another. Or no key of the old rings has its fingerprint, and it has another key.
abbrev pub IsReused : Pool → Pool → ℕ → Slot → Type 0
IsReused p q a sl =
    ((k : Key) × (prov : Provider) × Memᴰ a (addresses p.keys)
      × (get_elem? p.cells a ≡ some k)
      × (k.id ≡ sl.id)
      × (get_elem? q.cells a ≡ some (record k { prov = prov })))
    ⊎ ((b : ℕ) → Memᴰ b (addresses p.keys) → HasId p.cells b sl.id → ⊥)
