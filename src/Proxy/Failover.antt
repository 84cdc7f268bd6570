-- ===== src/Proxy/Failover.antt =====
-- `walk`: its end, and the reservations that it makes.
use omny.Base.{
  ℕ, suc, ◌+◌, ◌≡◌, refl, sym, ◌∙◌, subst, ap, Bool, false, ◌&&◌, List, [], ◌∷◌, Option, none, some,
  Bytes, All, get_elem?_of_lt, Bool-cases, inl, inr, ◌⊎◌, if◌then◌else◌,
}
use omny.Config.{budget}
use omny.Key.{Key, Spend}
use omny.Pool.{Pool, done, charge, hush, talks}
use omny.Pool.Traffic.{Traffic, Event, leaves, charges, hushes, step, run}
use omny.Pool.Traffic.Invariant.{Inv}
use omny.Pool.Traffic.Ledger.{Ledger}
use omny.Order.{tighten}
use omny.Route.{Target}
use omny.Route.Laws.{HasPlace}
use omny.Proxy.{
  Env, Waits, State, End, ended_ok, ended_gone, ended_truncated, unserved, rejected, Failure,
  Outcome, token, failed, Relayed, written, write_failed, read_failed, once, unmetered, note_mute,
  attempt, on_failure, on_relayed, on_token, on_outcome, on_key, tried_before, on_target, walk,
  mine, judge, cost,
}
use omny.Proxy.Settling.{
  idle, holding, granted, Reaches, Reaches-trans, one_event, picks_settled, fails_settled,
  succeeds_settled, sours_settled,
}

muted_lem :
    (prov : Bytes) (r : Outcome × State) (p : Pool)
    → r.1.pool ≡ p
    → ((note_mute prov r).1.pool ≡ p) ⊎ ((note_mute prov r).1.pool ≡ hush p prov)
unfolding note_mute
muted_lem prov (token d u, s) p e = inr (ap (λ q. hush q prov) e)
muted_lem prov (failed f, s) p e = inl e

module _ (fp : Bytes → Bytes) (env : Env) (waits : Waits) (stream : Bool) where
  -- A part of a walk returns, and the traffic that it makes ends with no reservation.
  abbrev pub Settles : Traffic → Option (End × State) → Type 0
  Settles t r =
      (end : End) × (s : State) × (served : List ℕ) × (r ≡ some (end, s))
      × Reaches fp t (idle s.pool served)
      × Inv Ledger (idle s.pool served)

  Settles-after :
      (t u : Traffic) (r : Option (End × State)) → Reaches fp t u → Settles u r → Settles t r
  Settles-after t u r e (end, s, served, f, g, v) =
      (end, s, served, f, Reaches-trans fp t u (idle s.pool served) e g, v)

  abbrev Continues : (List Bytes → State → Option (End × State)) → Type 0
  Continues rest =
      (tried : List Bytes) (s : State) (served : List ℕ)
      → Inv Ledger (idle s.pool served)
      → Settles (idle s.pool served) (rest tried s)

  stopped :
      (end : End) (s : State) (served : List ℕ)
      → Inv Ledger (idle s.pool served)
      → Settles (idle s.pool served) (some (end, s))
  stopped end s served v = (end, s, served, refl, ([], unfold run in refl), v)

  on_failure-Settles :
      (a : ℕ) (f : Failure) (rest : List Bytes → State → Option (End × State)) (tried : List Bytes)
      (s : State) (served : List ℕ)
      → Continues rest
      → Inv Ledger (holding s.pool a served)
      → Settles (holding s.pool a served) (on_failure env waits stream a f rest tried s)
  unfolding on_failure
  on_failure-Settles a f rest tried s served k v = elim (Bool-cases (env.left s.asked)) [
    | inl e ↦
        let s' : State = record s { pool = done s.pool a; asked = suc s.asked } in
        let (r, w) =
          one_event fp (env.now s.asked) (holding s.pool a served) (idle s'.pool served) (leaves 0)
            v (unfold step in refl) in
        rw e (Settles-after _ _ _ r (stopped ended_gone s' served w))
    | inr e ↦
        let (r, g, t, w) = fails_settled fp (env.now s.asked) s.pool served a f.code f.retry v in
        let s' : State = record s { pool = r.0; asked = suc s.asked } in
        rw e (
          rw g (
            Settles-after _ (idle s'.pool served) _ t (elim (Bool-cases (mine f)) [
              | inl m ↦ rw m (stopped (rejected f.code) s' served w)
              | inr m ↦ rw m (k tried s' served w)
            ])))
  ]

  on_relayed-Settles :
      (a : ℕ) (x : Relayed) (s : State) (served : List ℕ)
      → Inv Ledger (idle s.pool (a ∷ served))
      → Settles (idle s.pool (a ∷ served)) (on_relayed env waits stream a x s)
  unfolding on_relayed
  on_relayed-Settles a written s served v = stopped ended_ok s (a ∷ served) v
  on_relayed-Settles a write_failed s served v = stopped ended_gone s (a ∷ served) v
  on_relayed-Settles a read_failed s served v = elim (Bool-cases (env.left s.asked)) [
    | inl e ↦ rw e (stopped ended_gone s (a ∷ served) v)
    | inr e ↦
        let (r, g, t, w) = sours_settled fp (env.now s.asked) s.pool served a v in
        let s' : State = record s { pool = r.0 } in
        rw e (rw g (Settles-after _ _ _ t (stopped ended_truncated s' (a ∷ served) w)))
  ]

  on_token-Settles :
      (a ttft : ℕ) (used : Option Spend) (s : State) (served : List ℕ)
      → Inv Ledger (holding s.pool a served)
      → Settles (holding s.pool a served) (on_token env waits stream a ttft used s)
  unfolding on_token
  on_token-Settles a ttft used s served v =
      let (r, g, t, w) = succeeds_settled fp (env.now s.asked) s.pool served a ttft v in
      let n = suc s.asked in
      let p' = charge (env.now n) r.0 a (cost used (env.sniffed n)) in
      let (t', w') =
        one_event fp (env.now n) (idle r.0 (a ∷ served)) (idle p' (a ∷ served))
          (charges 0 (cost used (env.sniffed n))) w (unfold step in refl) in
      rw g (
        Settles-after _ _ _ t
          (Settles-after _ _ _ t' (on_relayed-Settles a (env.relayed n) _ served w')))

  once_lem :
      (s : State) (k : Key) (t : Target) (meter : Bool)
      → HasPlace t
      → (r : Outcome × State) × (once env waits stream s k t meter ≡ some r) × (r.1.pool ≡ s.pool)
  unfolding once
  once_lem s k t meter (p, e) =
      let within =
        if stream then tighten k (budget p waits.ttft) waits.floor else budget p waits.idle in
      let answer =
        env.up s.asked
          (record { key = k.val; target = t; provider = p; meter = meter; within = within }) in
      ((judge (env.took s.asked) answer, record s { asked = suc s.asked }), rw e refl, refl)

  -- An attempt changes nothing of the pool but, perhaps, that the provider is remembered as mute.
  attempt_lem :
      (s : State) (k : Key) (t : Target)
      → HasPlace t
      → (r : Outcome × State) × (attempt env waits stream s k t ≡ some r)
        × ((r.1.pool ≡ s.pool) ⊎ (r.1.pool ≡ hush s.pool t.prov))
  unfolding attempt
  attempt_lem s k t h =
      let meter = stream && talks s.pool t.prov in
      let (r, e, f) = once_lem s k t meter h in
      elim (Bool-cases (meter && unmetered r.0)) [
        | inl b ↦
            let (r', e', f') = once_lem r.1 k t false h in
            (note_mute t.prov r', rw e (rw b (rw e' refl)), muted r' (f' ∙ f))
        | inr b ↦ (r, rw e (rw b refl), inl f)
      ]
    where
      muted :
          (r : Outcome × State)
          → r.1.pool ≡ s.pool
          → ((note_mute t.prov r).1.pool ≡ s.pool)
            ⊎ ((note_mute t.prov r).1.pool ≡ hush s.pool t.prov)
      muted r f = muted_lem t.prov r s.pool f

  on_outcome-Settles :
      (a : ℕ) (rest : List Bytes → State → Option (End × State)) (tried : List Bytes)
      (r : Outcome × State) (served : List ℕ)
      → Continues rest
      → Inv Ledger (holding r.1.pool a served)
      → Settles (holding r.1.pool a served) (on_outcome env waits stream a rest tried r)
  unfolding on_outcome
  on_outcome-Settles a rest tried (token ttft used, s) served c v =
      on_token-Settles a ttft used s served v
  on_outcome-Settles a rest tried (failed f, s) served c v =
      on_failure-Settles a f rest tried s served c v

  muted_settled :
      (now : ℕ) (p p' : Pool) (a : ℕ) (prov : Bytes) (served : List ℕ)
      → (p' ≡ p) ⊎ (p' ≡ hush p prov)
      → Inv Ledger (holding p a served)
      → Reaches fp (holding p a served) (holding p' a served) × Inv Ledger (holding p' a served)
  unfolding step run
  muted_settled now p p' a prov served (inl e) v =
      let es : List (ℕ × Event) = [] in
      ((es, rw e refl), subst (λ q. Inv Ledger (holding q a served)) (sym e) v)
  muted_settled now p p' a prov served (inr e) v =
      one_event fp now (holding p a served) (holding p' a served) (hushes prov) v (rw e refl)

  on_key-Settles :
      (a : ℕ) (t : Target) (rest : List Bytes → State → Option (End × State)) (tried : List Bytes)
      (s : State) (served : List ℕ)
      → HasPlace t
      → Continues rest
      → Inv Ledger (holding s.pool a served)
      → Settles (holding s.pool a served) (on_key env waits stream a t rest tried s)
  unfolding on_key
  on_key-Settles a t rest tried s served h c v =
      let (k, e) = get_elem?_of_lt s.pool.cells a v.held_valid.0 in
      let tr = s.trace in
      let s' : State = record s {
        trace = record tr { tries = tr.tries + 1; prov = t.prov; key = k.id; sent = t.model };
      } in
      let (r, f, g) = attempt_lem s' k t h in
      let (m, w) = muted_settled (env.now s.asked) s.pool r.1.pool a t.prov served g v in
      rw e (rw f (Settles-after _ _ _ m (on_outcome-Settles a rest tried r served c w)))

  on_target-Settles :
      (t : Target) (rest : List Bytes → State → Option (End × State)) (tried : List Bytes)
      (s : State) (served : List ℕ)
      → HasPlace t
      → Continues rest
      → Inv Ledger (idle s.pool served)
      → Settles (idle s.pool served) (on_target env waits stream t rest tried s)
  unfolding on_target
  on_target-Settles t rest tried s served h c v = elim (Bool-cases (tried_before t.prov tried)) [
    | inl b ↦ rw b (c tried s served v)
    | inr b ↦
        let (hit, p', e, m, w) = picks_settled fp (env.now s.asked) s.pool served t.prov v in
        rw b (rw e (Settles-after _ _ _ m (picked hit p' w)))
  ]
    where
      picked :
          (hit : Option ℕ) (p' : Pool)
          → Inv Ledger (granted p' hit served)
          → Settles (granted p' hit served) (elim hit [
            | none ↦ rest tried (record s { pool = p'; asked = suc s.asked })
            | some a ↦
                on_key env waits stream a t rest
                  (t.prov ∷ tried)
                  (record s { pool = p'; asked = suc s.asked })
          ])
      picked none p' w = c tried (record s { pool = p'; asked = suc s.asked }) served w
      picked (some a) p' w =
          on_key-Settles a t rest (t.prov ∷ tried) (record s { pool = p'; asked = suc s.asked })
            served h c w

  -- A walk over targets that have their providers, from a pool whose ledger is settled: it ends
  -- without a panic, whatever the network, the client and the clock do, and what it does to the pool
  -- is a run of picks, failures, successes, departures, charges, broken relays and mutes that
  -- releases every reservation that it makes.
  pub walk-Settles :
      (ts : List Target) (tried : List Bytes) (s : State) (served : List ℕ)
      → All HasPlace ts
      → Inv Ledger (idle s.pool served)
      → Settles (idle s.pool served) (walk env waits stream ts tried s)
  unfolding walk
  walk-Settles [] tried s served h v = stopped unserved s served v
  walk-Settles (t ∷ ts) tried s served h v =
      on_target-Settles t (walk env waits stream ts) tried s served h.0
        (λ tried' s' served' v'. walk-Settles ts tried' s' served' h.1 v') v
