-- ===== src/Examples/Reloading.antt =====
-- The theorems on the rings and the secrets after a reload, at inputs that meet their conditions.
use mathlib.Core.List.{Memᴰ}
use omny.Base.{
  bytes_eq, lookup, ap, some_inj, length-take, ℕ, ◌*◌, ◌%◌, ◌≤◌, ◌≡◌, ◌≢◌, refl, ◌⊎◌, true, false,
  List, [], ◌∷◌, Option, none, some, Bytes, bytes, length, take, arith,
}
use omny.Clock.{second}
use omny.Config.{Provider, Slot, slots}
use omny.Base
use omny.Key
use omny.Clock
use omny.Pool
use omny.Pool.{Pool, pick}
use omny.Pool.Reload
use omny.Pool.Reload.{adopt, new_pool}
use omny.Pool.Reload.Rings.{HasId}
use omny.Pool.Reload.Seen.{Grows, AllSeen, adopt-AllSeen}
use omny.Pool.Traffic
use omny.Pool.Traffic.{Traffic, picks}
use omny.Pool.Traffic.Owners.{pick-owner}
use omny.Examples.Gateway.{fp, config, noon}

-- A reload of a fresh pool, and a pick since then.
abbrev fresh : Traffic
fresh = record { pool = new_pool fp noon config; held = []; served = [] }

abbrev or_fresh : Option Traffic → Traffic
or_fresh none = fresh
or_fresh (some t) = t

abbrev later : Traffic
later = or_fresh (
    Traffic.run fp ((noon, picks (bytes "groq")) ∷ [])
      (record fresh { pool = adopt fp fresh.pool config }))

abbrev pool_of : Option (Option ℕ × Pool) → Pool
pool_of none = later.pool
pool_of (some (hit, p)) = p

later_runs :
    Traffic.run fp
      ((noon, picks (bytes "groq")) ∷ [])
      (record fresh { pool = adopt fp fresh.pool config })
    ≡ some later
unfolding Traffic.run Traffic.step pick Pool.spin Pool.ring Pool.or_empty lookup bytes_eq Pool.roll
    Pool.roll_day Pool.roll_minute Pool.visit Pool.addresses Key.free Key.capped Key.spent
    Key.reached Clock.unix Clock.year_day new_pool adopt Reload.adopt_providers Reload.adopt_slots
    slots Reload.adopt_slot Reload.index_ids Base.insert Base.update
later_runs = refl

granted :
    pick noon later.pool (bytes "groq")
    ≡ some (some 1, pool_of (pick noon later.pool (bytes "groq")))
unfolding Traffic.run Traffic.step pick Pool.spin Pool.ring Pool.or_empty lookup bytes_eq Pool.roll
    Pool.roll_day Pool.roll_minute Pool.visit Pool.addresses Key.free Key.capped Key.spent
    Key.reached Clock.unix Clock.year_day new_pool adopt Reload.adopt_providers Reload.adopt_slots
    slots Reload.adopt_slot Reload.index_ids Base.insert Base.update
granted = refl

pick-owner_example :
    (q : Provider) × (sl : Slot) × (lookup (bytes "groq") config.providers ≡ some q)
    × Memᴰ sl (slots fp q (bytes "groq"))
    × HasId (pool_of (pick noon later.pool (bytes "groq"))).cells 1 sl.id
pick-owner_example =
    pick-owner fp fresh later config ((noon, picks (bytes "groq")) ∷ []) noon (bytes "groq") 1
      (pool_of (pick noon later.pool (bytes "groq"))) (refl, tt) later_runs granted

adopt-AllSeen_example :
    Grows fresh.pool.seen (adopt fp fresh.pool config).seen
    × AllSeen fp (adopt fp fresh.pool config).seen config.providers
adopt-AllSeen_example = adopt-AllSeen fp fresh.pool config
