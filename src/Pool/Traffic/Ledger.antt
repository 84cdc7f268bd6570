-- ===== src/Pool/Traffic/Ledger.antt =====
-- The ledger of reservations, over any order of events, reloads among them.
use omny.Base.{ℕ, ◌+◌, ◌-◌, ◌≡◌, refl, List, [], ◌∷◌, some, arith, Bytes}
use omny.Config.{Config}
use omny.Key.{Key, measure}
use omny.Key.Bench.{OnLadder, bench-Benched}
use omny.Pool.{addresses}
use omny.Pool.Reload.{new_pool}
use omny.Pool.Traffic.{Traffic, Event, reloads, step, run}
use omny.Pool.Traffic.Invariant.{Stable, Inv}
use omny.Pool.Traffic.Safety.{Reloadable, request-Inv, reload-Inv}

-- A key is on the ladder, and its `live` is the number of its reservations.
abbrev pub Ledger : ℕ → Key → Type 0
Ledger n k = OnLadder k × (k.live ≡ n)

pub Ledger-Stable : Stable Ledger
unfolding measure
Ledger-Stable = record {
  on_ladder = λ n k h. h.0;
  of_roll = λ n k k' r h. (omega arith, omega arith);
  of_reserve = λ n now k f h. (h.0, omega arith);
  of_fail = λ n now code retry k r e h.
      let b =
        bench-Benched now (record k { live = k.live - 1; errs = k.errs + 1 }) code retry h.0 e in
      (b.on_ladder, omega (arith, b.same_live, h.1));
  of_sour = λ n now k r e h.
      let b = bench-Benched now (record k { errs = k.errs + 1 }) 0 0 h.0 e in
      (b.on_ladder, omega (arith, b.same_live, h.1));
  of_done = λ n k h. (h.0, omega arith);
  of_ok = λ n now ttft k h. (ground arith, ground arith);
  of_charge = λ n s k h. ground arith;
}

pub Ledger-Reloadable : Reloadable Ledger
Ledger-Reloadable = record { of_new = λ prov sl. (omega arith, refl); of_assign = λ n prov k h. h }

pub step-Ledger :
    (fingerprint : Bytes → Bytes) (now : ℕ) (t : Traffic) (e : Event)
    → Inv Ledger t
    → (t' : Traffic) × (step fingerprint now t e ≡ some t') × Inv Ledger t'
unfolding step
step-Ledger fp now t (reloads c) v = (_, refl, reload-Inv Ledger Ledger-Reloadable fp t c v)
step-Ledger fp now t e v = request-Inv Ledger Ledger-Stable fp now t e refl v

pub run-Ledger :
    (fingerprint : Bytes → Bytes) (es : List (ℕ × Event)) (t : Traffic)
    → Inv Ledger t
    → (t' : Traffic) × (run fingerprint es t ≡ some t') × Inv Ledger t'
unfolding run
run-Ledger fp [] t v = (t, refl, v)
run-Ledger fp ((now, e) ∷ more) t v =
    let (t', f, v') = step-Ledger fp now t e v in
    let (t'', g, v'') = run-Ledger fp more t' v' in (t'', rw f g, v'')

-- The traffic of a process that just started.
unfoldable pub start : (Bytes → Bytes) → ℕ → Config → Traffic
start fp now c = record { pool = new_pool fp now c; held = []; served = [] }

-- What a reload gives every new key holds of the keys of a new process.
pub start-Inv :
    (P : ℕ → Key → Type 0)
    → Reloadable P
    → (fp : Bytes → Bytes) (now : ℕ) (c : Config) → Inv P (start fp now c)
unfolding start new_pool addresses
start-Inv P R fp now c =
    reload-Inv P R fp (record { pool = _; held = []; served = [] }) c
      (record {
        sound = record { valid = tt; cursor = λ prov. omega arith };
        every = λ a k e. absurd (ground arith);
        held_valid = tt;
        served_valid = tt;
      })

-- From the start of the process, no sequence of picks, failures, successes, departures, charges,
-- broken relays and reloads, in any order and at any times, makes the pool panic. After it every key
-- is on the cooldown ladder, its `live` is the number of requests that hold it, and every cursor
-- and address is in range.
pub run-start :
    (fingerprint : Bytes → Bytes) (now : ℕ) (c : Config) (es : List (ℕ × Event))
    → (t : Traffic) × (run fingerprint es (start fingerprint now c) ≡ some t) × Inv Ledger t
run-start fp now c es =
    run-Ledger fp es (start fp now c) (start-Inv Ledger Ledger-Reloadable fp now c)
