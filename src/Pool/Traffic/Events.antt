-- ===== src/Pool/Traffic/Events.antt =====
-- Each event of a request, and the invariant after it.
use omny.Base.{
  ℕ, ◌<◌, max, ◌≡◌, refl, sym, ◌∙◌, subst, ◌∷◌, Option, none, some, some_inj, arith, Bytes, length,
  length-modify, get_elem?, lt_of_get_elem?, All-get_elem?, update, remove_at,
}
use omny.Key.{Key, Spend}
use omny.Pool.{ring, roll, charge, done, grant, reserve, release, account, succeed}
use omny.Pool.Visit.{length-roll}
use omny.Pool.Pick.{find_free, from_cursor, find_free-some}
use omny.Pool.Effects.{
  roll-IsSound, modify-IsSound, pick-IsSound, pick_lem, fail_lem, sour_lem, ok_lem,
}
use omny.Pool.Traffic.{Traffic, picks, fails, succeeds, leaves, charges, sours, hold, step}
use omny.Pool.Traffic.Invariant.{
  Stable, Inv, All-remove_at, All-resize, roll-Every, release-Every, write-Every, reserve-Every,
  found, after_write,
}

module _ (P : ℕ → Key → Type 0) (S : Stable P) (now : ℕ) (t : Traffic) (v : Inv P t) where
  pub fails-Inv :
      (fingerprint : Bytes → Bytes) (i code retry a : ℕ)
      → get_elem? t.held i ≡ some a
      → (t' : Traffic) × (step fingerprint now t (fails i code retry) ≡ some t') × Inv P t'
  unfolding step
  fails-Inv fingerprint i code retry a e =
      let (k, g, h) = found P S now t v a (All-get_elem? _ t.held i a v.held_valid e) in
      let (r, b, f) = fail_lem now t.pool a k g code retry (S.on_ladder _ k h) in
      (
        _,
        rw e (rw f),
        after_write P S now t v a (λ _. r.0) (remove_at t.held i) t.served
            (release-Every P S (roll now t.pool).cells t.held i a (λ _. r.0) e
              (λ k' g' h'.
                S.of_fail _ now code retry k r b (subst (P _) (some_inj (sym g' ∙ g)) h'))
              (roll-Every P S now t.pool t.held v.every))
            (All-remove_at _ t.held i v.held_valid) v.served_valid,
      )

  pub succeeds-Inv :
      (fingerprint : Bytes → Bytes) (i ttft a : ℕ)
      → get_elem? t.held i ≡ some a
      → (t' : Traffic) × (step fingerprint now t (succeeds i ttft) ≡ some t') × Inv P t'
  unfolding step
  succeeds-Inv fingerprint i ttft a e =
      let l = All-get_elem? (λ a. a < length t.pool.cells) t.held i a v.held_valid e in
      let (k, g, h) = found P S now t v a l in
      (
        _,
        rw e (rw (ok_lem now t.pool a k g ttft)),
        after_write P S now t v a (λ _. succeed now ttft k) (remove_at t.held i) (a ∷ t.served)
            (release-Every P S (roll now t.pool).cells t.held i a (λ _. succeed now ttft k) e
              (λ k' g' h'. S.of_ok _ now ttft k (subst (P _) (some_inj (sym g' ∙ g)) h'))
              (roll-Every P S now t.pool t.held v.every))
            (All-remove_at _ t.held i v.held_valid) (l, v.served_valid),
      )

  pub leaves-Inv :
      (fingerprint : Bytes → Bytes) (i a : ℕ)
      → get_elem? t.held i ≡ some a
      → (t' : Traffic) × (step fingerprint now t (leaves i) ≡ some t') × Inv P t'
  unfolding step done
  leaves-Inv fingerprint i a e =
      let l = length-modify release t.pool.cells a in
      (
        _,
        rw e,
        record {
          sound = modify-IsSound t.pool release a v.sound;
          every =
              release-Every P S t.pool.cells t.held i a release e (λ k _ h. S.of_done _ k h)
                v.every;
          held_valid = All-resize _ _ _ (omega (arith, l)) (All-remove_at _ t.held i v.held_valid);
          served_valid = All-resize _ _ t.served (omega (arith, l)) v.served_valid;
        },
      )

  pub charges-Inv :
      (fingerprint : Bytes → Bytes) (i a : ℕ) (s : Option Spend)
      → get_elem? t.served i ≡ some a
      → (t' : Traffic) × (step fingerprint now t (charges i s) ≡ some t') × Inv P t'
  unfolding step charge
  charges-Inv fingerprint i a s e = (
    _,
    rw e,
    after_write P S now t v a (account s) t.held t.served
        (write-Every P S (roll now t.pool).cells t.held a (account s) (λ k _ h. S.of_charge _ s k h)
          (roll-Every P S now t.pool t.held v.every))
        v.held_valid v.served_valid,
  )

  pub sours-Inv :
      (fingerprint : Bytes → Bytes) (i a : ℕ)
      → get_elem? t.served i ≡ some a
      → (t' : Traffic) × (step fingerprint now t (sours i) ≡ some t') × Inv P t'
  unfolding step
  sours-Inv fingerprint i a e =
      let (k, g, h) = found P S now t v a (All-get_elem? _ t.served i a v.served_valid e) in
      let (r, b, f) = sour_lem now t.pool a k g (S.on_ladder _ k h) in
      (
        _,
        rw e (rw f),
        after_write P S now t v a (λ _. r.0) t.held t.served
            (write-Every P S (roll now t.pool).cells t.held a (λ _. r.0)
              (λ k' g' h'. S.of_sour _ now k r b (subst (P _) (some_inj (sym g' ∙ g)) h'))
              (roll-Every P S now t.pool t.held v.every))
            v.held_valid v.served_valid,
      )

  pub picks-Inv :
      (fingerprint : Bytes → Bytes) (prov : Bytes)
      → (t' : Traffic) × (step fingerprint now t (picks prov) ≡ some t') × Inv P t'
  unfolding step
  picks-Inv fingerprint prov =
      let (c, e, l) = pick_lem now t.pool prov v.sound in
      let q = roll now t.pool in
      let hit = find_free now q.cells (from_cursor (q.rr prov) (ring q prov)) in
      (_, rw e, granted c l hit refl)
    where
      granted :
          (c : ℕ)
          → c < max 1 (length (ring (roll now t.pool) prov))
          → (hit : Option ℕ)
          → find_free now
              (roll now t.pool).cells
              (from_cursor ((roll now t.pool).rr prov) (ring (roll now t.pool) prov))
            ≡ hit
          → Inv P (record {
            pool = grant (record (roll now t.pool) { rr = update (roll now t.pool).rr prov c }) hit;
            held = hold hit t.held;
            served = t.served;
          })
      granted c l none f = record {
        sound = pick-IsSound (roll now t.pool) prov c none l (roll-IsSound now t.pool v.sound);
        every = roll-Every P S now t.pool t.held v.every;
        held_valid = All-resize _ _ t.held (omega (arith, length-roll now t.pool)) v.held_valid;
        served_valid =
            All-resize _ _ t.served (omega (arith, length-roll now t.pool)) v.served_valid;
      }
      granted c l (some a) f =
          let (k, g, fr, _) = find_free-some now (roll now t.pool).cells _ a f in
          let q = roll now t.pool in
          let n = length-modify reserve q.cells a in
          let lt = lt_of_get_elem? q.cells a k g in
          record {
            sound = pick-IsSound q prov c (some a) l (roll-IsSound now t.pool v.sound);
            every =
                reserve-Every P S q.cells t.held a k g (S.of_reserve _ now k fr)
                  (roll-Every P S now t.pool t.held v.every);
            held_valid = (
              omega (arith, n, lt),
              All-resize _ _ t.held (omega (arith, n, length-roll now t.pool)) v.held_valid,
            );
            served_valid =
                All-resize _ _ t.served (omega (arith, n, length-roll now t.pool)) v.served_valid;
          }
