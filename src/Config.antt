-- ===== src/Config.antt =====
-- internal/omny/config.go: the configuration as the loader leaves it, and what the pool and the
-- router ask of a provider. A provider is a struct here: the map of the source may also hold nil, where
-- the file has a null entry. A configuration of that kind is no value of this type; Run has the panic of
-- `check` at it.
use omny.Base.{ℕ, ◌++◌, Bool, List, [], ◌∷◌, Bytes, bytes, ltb, if◌then◌else◌, map}
use omny.Base.Int.{ℤ, pos, negsuc}

pub record Provider : Type 0 where
  pub url : Bytes
  pub keyless : Bool
  pub headers : List (Bytes × Bytes)
  pub keys : List Bytes
  pub rpd : ℤ
  pub rpm : ℤ
  pub ttft : ℤ

pub record Config : Type 0 where
  pub listen : Bytes
  pub token : Bytes
  pub tokens : List (Bytes × Bytes)
  pub state : Bytes
  pub pid : Bytes
  pub default : Bytes
  pub fallback : List Bytes
  pub providers : List (Bytes × Provider)
  pub aliases : List (Bytes × List Bytes)

-- `Provider.budget`: the declared time to a first token, where it is above the default.
unfoldable pub budget : Provider → ℕ → ℕ
budget p d = elim p.ttft [ pos t ↦ if ltb d t then t else d | negsuc _ ↦ d ]

pub record Slot : Type 0 where
  pub id : Bytes
  pub val : Bytes

module _ (fingerprint : Bytes → Bytes) where
  -- `Provider.slots`.
  unfoldable pub slots : Provider → Bytes → List Slot
  slots p name =
      if p.keyless
      then record { id = fingerprint (bytes "keyless/" ++ name); val = [] } ∷ []
      else map (λ v. record { id = fingerprint v; val = v }) p.keys
