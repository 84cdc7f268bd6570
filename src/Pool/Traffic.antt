-- ===== src/Pool/Traffic.antt =====
-- The pool under concurrent traffic: each critical section is an event, and any order of events is an
-- interleaving of the requests (proxy.go) with the reloads (serve.go). A request that picked a key
-- holds a reservation until it reports `fail`, `ok` or `done`; after `ok` it may charge the key's
-- usage and report a broken relay (`sour`).
pub mod Invariant
pub mod Events
pub mod Safety
pub mod Ledger
pub mod Quota
pub mod Stays
pub mod Owners
use omny.Base.{
  ℕ, Bool, true, false, List, [], ◌∷◌, Option, none, some, Bytes, get_elem?, remove_at, ◌>>=◌,
}
use omny.Config.{Config}
use omny.Key.{Spend}
use omny.Pool.{Pool, pick, fail, sour, done, charge, hush, ok}
use omny.Pool.Reload.{adopt}

pub record Traffic : Type 0 where
  pub pool : Pool
  -- the keys of the reservations, and of the replies that were committed
  pub held : List ℕ
  pub served : List ℕ

-- A request is named by the place of its key in `held` or `served`.
pub data Event : Type 0 where
  picks : Bytes → Event
  fails : ℕ → ℕ → ℕ → Event
  succeeds : ℕ → ℕ → Event
  leaves : ℕ → Event
  charges : ℕ → Option Spend → Event
  sours : ℕ → Event
  hushes : Bytes → Event
  reloads : Config → Event

abbrev pub hold : Option ℕ → List ℕ → List ℕ
hold none held = held
hold (some a) held = a ∷ held

-- An event of a request that is not there does nothing; `none` is a panic of the gateway.
abbrev at {ℓ} : {A : Type ℓ} → Option ℕ → A → (ℕ → A) → A
at none idle act = idle
at (some a) idle act = act a

module _ (fingerprint : Bytes → Bytes) where
  unfoldable pub step : ℕ → Traffic → Event → Option Traffic
  step now t (picks prov) =
      pick now t.pool prov >>= λ r. some (record t { pool = r.1; held = hold r.0 t.held })
  step now t (fails i code retry) = at (get_elem? t.held i) (some t) λ a.
      fail now t.pool a code retry >>= λ r.
      some (record t { pool = r.0; held = remove_at t.held i })
  step now t (succeeds i ttft) = at (get_elem? t.held i) (some t) λ a. ok now t.pool a ttft >>= λ r.
      some (record { pool = r.0; held = remove_at t.held i; served = a ∷ t.served })
  step now t (leaves i) =
      at (get_elem? t.held i) (some t)
        λ a. some (record t { pool = done t.pool a; held = remove_at t.held i })
  step now t (charges i s) =
      at (get_elem? t.served i) (some t) λ a. some (record t { pool = charge now t.pool a s })
  step now t (sours i) =
      at (get_elem? t.served i) (some t)
        λ a. sour now t.pool a >>= λ r. some (record t { pool = r.0 })
  step now t (hushes prov) = some (record t { pool = hush t.pool prov })
  step now t (reloads c) = some (record t { pool = adopt fingerprint t.pool c })

  -- Events in the order of their critical sections, each with the clock's reading.
  unfoldable pub run : List (ℕ × Event) → Traffic → Option Traffic
  run [] t = some t
  run ((now, e) ∷ more) t = step now t e >>= run more
