-- ===== src/Examples/Witnesses.antt =====
-- Each theorem at an input that meets its conditions.
use omny.Base.{
  suc, suc, ℕ, ◌+◌, ◌*◌, ◌≤◌, ◌<◌, ◌≡◌, refl, ◌⊎◌, inl, inr, true, false, [], ◌∷◌, lookup, bytes_eq,
  some, arith, bytes, All, length, get_elem?, min, max, update,
}
use omny.Base.Int.{pos}
use omny.Clock.{year_day, second, minute}
use omny.Config.{Provider}
use omny.Key.{Key, bench, free, ladder, blameless}
use omny.Key.Bench.{failures, failures_cooldown, bench-free}
use omny.Pool.{Pool, roll, pick, grant, ring}
use omny.Pool.Every.{Every}
use omny.Pool.Visit.{elem}
use omny.Pool.Pick.{find_free, from_cursor}
use omny.Pool.Effects.{pick_lem}
use omny.Pool.Recovery.{soonest, soonest_lem, waits, rings}
use omny.Pool.Reload.{new_pool}
use omny.Pool.Traffic.{Traffic, run}
use omny.Pool.Traffic.Invariant.{Inv}
use omny.Pool.Traffic.Ledger.{Ledger, Ledger-Reloadable, start, start-Inv, run-start}
use omny.Pool.Reload
use omny.Config
use omny.State.{Saved, no_tally}
use omny.Route.{cut, route}
use omny.Route.Laws.{IsRoutable, route-HasPlace}
use omny.Order.{order_by, ranked}
use omny.Order.Sorting.{IsSorted, of_tier}
use omny.Order.Laws.{order_by_lem}
use omny.Proxy.{State, walk}
use omny.Proxy.Settling.{idle}
use omny.Proxy.Failover.{Settles, walk-Settles}
use omny.Relay.{tail_size, more, eof, pump}
use omny.Relay.Tail.{last, flat, feed_all, feed_all_lem}
use omny.Relay.Pumping.{Relays, pump_lem}
use omny.Admission
use omny.Admission.{begins, steps, leaves, moves, empty, room}
use omny.Admission.Bounds.{moves-empty, admit_eighth}
use omny.Examples.Gateway.{fp, groq, local, config, noon, history, key, waits as budgets, env}

run-start_example : (t : Traffic) × (run fp history (start fp noon config) ≡ some t) × Inv Ledger t
run-start_example = run-start fp noon config history

failures_cooldown_example :
    (k' : Key) × (d : ℕ) × (failures ((0, 500) ∷ (0, 429) ∷ []) key ≡ some k')
    × (get_elem? ladder (min 3 2) ≡ some d)
    × (bench noon k' 503 0 ≡ some (record k' { until = noon + d; step = min 3 3 }, d, false))
unfolding blameless
failures_cooldown_example =
    failures_cooldown ((0, 500) ∷ (0, 429) ∷ []) key noon 503 refl (refl, (refl, tt)) refl

bench-free_example : free (noon + second) (record key { until = noon + minute; step = 1 }) ≡ false
unfolding bench blameless
bench-free_example =
    bench-free noon key 500 0 {r = (record key { until = noon + minute; step = 1 }, minute, false)}
      (noon + second) (omega arith) refl (inl (omega arith)) (inr refl)

pub started : Inv Ledger (idle (new_pool fp noon config) [])
unfolding start
started = start-Inv Ledger Ledger-Reloadable fp noon config

pub routable : IsRoutable config
unfolding lookup bytes_eq cut
routable = record {
  default_known = (groq, refl);
  aliases_known = (((groq, refl), ((local, refl), tt)), tt);
}

pick_lem_example :
    let p = new_pool fp noon config in
    let q = roll noon p in
    let hit = find_free noon q.cells (from_cursor (q.rr (bytes "groq")) (ring q (bytes "groq"))) in
    (c : ℕ) × (pick noon p (bytes "groq")
      ≡ some (hit, grant (record q { rr = update q.rr (bytes "groq") c }) hit))
    × (c < max 1 (length (ring q (bytes "groq"))))
pick_lem_example = pick_lem noon (new_pool fp noon config) (bytes "groq") started.sound

abbrev pub state : State
state = record {
  pool = new_pool fp noon config;
  asked = 0;
  trace = record { tries = 0; prov = []; key = []; sent = []; ttft = 0 };
}

walk-Settles_example :
    Settles fp env budgets true
      (idle (new_pool fp noon config) [])
      (walk env budgets true (route config (bytes "fast")) [] state)
walk-Settles_example =
    walk-Settles fp env budgets true (route config (bytes "fast")) [] state []
      (route-HasPlace config (bytes "fast") routable) started

soonest_lem_example :
    let q = roll noon (new_pool fp noon config) in
    let d = (soonest noon (new_pool fp noon config) (bytes "groq" ∷ [])).1 in
    let ws = waits noon q.cells (rings q (bytes "groq" ∷ [])) in
    ((d ≡ 0) ⊎ (elem d ws ≡ true)) × All (λ w. 0 < w → (0 < d) × (d ≤ w)) ws
soonest_lem_example = soonest_lem noon (new_pool fp noon config) (bytes "groq" ∷ [])

abbrev pub cooling : Pool
cooling = record {
  cells = record key { until = noon + minute; step = 1 } ∷ [];
  keys = (bytes "groq", 0 ∷ []) ∷ [];
  rr = λ _. 0;
  day = noon;
  min = noon;
  path = [];
  seen = [];
  mute = λ _. false;
}

-- A state file that counts one request for the first key.
abbrev saved : Saved
saved = record { day = year_day noon; keys = (bytes "g1", record no_tally { reqs = 1 }) ∷ [] }

-- The measure of a target in the examples of the order is the target.
abbrev itself : ℕ → ℕ
itself n = n

order_by_lem_example :
    ((i t : ℕ)
      → get_elem? (3 * second ∷ 0 ∷ second ∷ []) i ≡ some t
      → itself t ≡ 0
      → get_elem? (order_by itself (3 * second ∷ 0 ∷ second ∷ [])) i ≡ some t)
    × IsSorted (ranked itself (order_by itself (3 * second ∷ 0 ∷ second ∷ [])))
    × ((n : ℕ)
        → of_tier n (ranked itself (order_by itself (3 * second ∷ 0 ∷ second ∷ [])))
          ≡ of_tier n (ranked itself (3 * second ∷ 0 ∷ second ∷ [])))
order_by_lem_example = order_by_lem itself (3 * second ∷ 0 ∷ second ∷ [])

feed_all_lem_example :
    feed_all [] (bytes "data: " ∷ bytes "{}" ∷ [])
    ≡ last tail_size (flat (bytes "data: " ∷ bytes "{}" ∷ []))
feed_all_lem_example = feed_all_lem (bytes "data: " ∷ bytes "{}" ∷ [])

pump_lem_example :
    Relays []
      ((bytes "ab", more) ∷ (bytes "c", eof) ∷ [])
      (record { sent = []; tail = []; room = 2 })
      (pump
        ((bytes "ab", more) ∷ (bytes "c", eof) ∷ [])
        (record { sent = []; tail = []; room = 2 }))
pump_lem_example =
    pump_lem [] ((bytes "ab", more) ∷ (bytes "c", eof) ∷ [])
      (record { sent = []; tail = []; room = 2 }) refl

moves-empty_example :
    Admission.Bounds.Inv
      (moves empty (begins 5 ∷ begins 7 ∷ steps 0 ∷ steps 1 ∷ steps 0 ∷ steps 0 ∷ leaves 0 ∷ []))
moves-empty_example =
    moves-empty (begins 5 ∷ begins 7 ∷ steps 0 ∷ steps 1 ∷ steps 0 ∷ steps 0 ∷ leaves 0 ∷ [])

admit_eighth_example :
    (moves empty (begins (room (pos 100)) ∷ steps 0 ∷ steps 0 ∷ [])).inside ≡ room (pos 100) ∷ []
unfolding empty moves
admit_eighth_example = admit_eighth empty (pos 100) (moves-empty []) refl tt (omega arith)
