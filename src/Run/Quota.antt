-- ===== src/Run/Quota.antt =====
-- The caps of the keys in a process that starts with a state file.
use omny.Base.{ℕ, ◌≡◌, true, Bool, [], Option, some, Bytes, get_elem?, lookup}
use omny.Config.{Config}
use omny.Clock.{year_day}
use omny.Key.{Key}
use omny.Pool.{Pool}
use omny.Pool.Every.{Every}
use omny.Pool.Reload.{new_pool}
use omny.Pool.Traffic.{Traffic}
use omny.Pool.Traffic.Ledger.{Ledger}
use omny.Pool.Traffic.Quota.{Within}
use omny.Proxy.Settling.{idle}
use omny.State.{Saved, or_zero, Files}
use omny.Run.{begun}

module _ (s : Saved) (today : Bool) where
  -- The file's count for the key fits the key's daily cap, where it is of this day.
  abbrev Allowed : Key → Type 0
  Allowed k = today ≡ true → Within k.prov.rpd (or_zero (lookup k.id s.keys)).reqs

  abbrev Revived : Key → Type 0
  Revived k = Ledger 0 k × (k.mins ≡ 0) × Within k.prov.rpd k.reqs × Allowed k

module _ (encode : Saved → Bytes) (decode : Bytes → Option Saved) (fp : Bytes → Bytes) (fs : Files)
    (now : ℕ) (c : Config) where
  -- The traffic of a process that just started, with what it restored.
  unfoldable pub resumed : Traffic
  resumed = idle (begun encode decode fp fs now c).server.pool []

  -- A state file of this day counts for each key of the configuration at most its `rpd`.
  abbrev pub FileFits : Type 0
  FileFits =
      (b : Bytes) (s : Saved) (a : ℕ) (k : Key)
      → fs c.state ≡ some b
      → decode b ≡ some s
      → s.day ≡ year_day now
      → get_elem? (new_pool fp now c).cells a ≡ some k
      → Within k.prov.rpd (or_zero (lookup k.id s.keys)).reqs
