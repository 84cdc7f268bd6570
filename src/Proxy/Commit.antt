-- ===== src/Proxy/Commit.antt =====
-- A walk that served its request: the answer of the upstream that it committed to.
use mathlib.Core.List.{Memᴰ}
use omny.Base.{
  ℕ, suc, ◌≡◌, refl, sym, ap, ◌∙◌, inl, inr, Bool, true, false, ◌&&◌, List, [], ◌∷◌, Option, some,
  arith, Bytes, leb, if◌then◌else◌, >>=-some, pair_inj, get_elem?, Bool-cases, Option-cases,
  some_inj,
}
use omny.Config.{Provider, budget}
use omny.Order.{tighten}
use omny.Key.{Key, Spend}
use omny.Pool.{pick, fail, sour, talks, ok}
use omny.Route.{Target}
use omny.Proxy.{
  Walk, Failure, mine, Request, Response, unreachable, response, Relayed, written, write_failed,
  read_failed, Env, Waits, State, ended_ok, ended_gone, ended_truncated, unserved, rejected,
  Outcome, token, failed, judge, unmetered, note_mute, tried_before, once, attempt, on_failure,
  on_relayed, on_token, on_outcome, on_key, on_target, walk,
}

failed-ne-token : {f : Failure} {d : ℕ} {u : Option Spend} → failed f ≡ token d u → ⊥
failed-ne-token e = cc

gone-ne-ok : ended_gone ≡ ended_ok → ⊥
gone-ne-ok e = cc

truncated-ne-ok : ended_truncated ≡ ended_ok → ⊥
truncated-ne-ok e = cc

rejected-ne-ok : {code : ℕ} → rejected code ≡ ended_ok → ⊥
rejected-ne-ok e = cc

unserved-ne-ok : unserved ≡ ended_ok → ⊥
unserved-ne-ok e = cc

token_inj : {d d' : ℕ} {u u' : Option Spend} → token d u ≡ token d' u' → u ≡ u'
token_inj e = cc

judge-token :
    (took d : ℕ) (r : Response) (u : Option Spend)
    → judge took r ≡ token d u
    → (code : ℕ) × (retry : ℕ) × (r ≡ response code retry (some u) true) × (leb 400 code ≡ false)
unfolding judge
judge-token took d unreachable u h = absurd (failed-ne-token h)
judge-token took d (response code retry gated timely) u h = elim (Bool-cases (leb 400 code)) [
  | inl e ↦ absurd (failed-ne-token (rw (e, judge) at h))
  | inr e ↦ elim (Option-cases gated) [
    | inl f ↦ absurd (failed-ne-token (rw (e, f, judge) at h))
    | inr (used, f) ↦ elim (Bool-cases timely) [
      | inr g ↦ absurd (failed-ne-token (rw (e, f, g, judge) at h))
      | inl g ↦
          let k : used ≡ u = token_inj (rw (e, f, g, judge) at h) in
          (code, retry, rw (f, g, k) refl, e)
    ]
  ]
]

module _ (env : Env) (waits : Waits) (stream : Bool) where
  -- The `m`-th question was this request for the target, and its answer passed the gate in time.
  pub record IsAccepted (t : Target) (m : ℕ) (used : Option Spend) : Type 0 where
    pub key : Bytes
    pub provider : Provider
    pub meter : Bool
    pub within : ℕ
    pub code : ℕ
    pub retry : ℕ
    pub placed : t.place ≡ some provider
    pub streams : meter ≡ true → stream ≡ true
    pub answered :
        env.up m
          (record { key = key; target = t; provider = provider; meter = meter; within = within })
        ≡ response code retry (some used) true
    pub fine : leb 400 code ≡ false

  -- What an attempt with a first token asked, and what it left of the state.
  abbrev Accepts : State → Target → Option Spend → State → Type 0
  Accepts s t used s' = (m : ℕ) × (s'.asked ≡ suc m) × (s'.trace ≡ s.trace) × IsAccepted t m used

  once-token :
      (s : State) (k : Key) (t : Target) (meter : Bool) (d : ℕ) (u : Option Spend) (s' : State)
      → (meter ≡ true → stream ≡ true)
      → once env waits stream s k t meter ≡ some (token d u, s')
      → Accepts s t u s'
  unfolding once
  once-token s k t meter d u s' streams h =
      let (p, e, h') = >>=-some t.place _ h in
      let within =
        if stream then tighten k (budget p waits.ttft) waits.floor else budget p waits.idle in
      let req : Request = record {
        key = k.val;
        target = t;
        provider = p;
        meter = meter;
        within = within;
      } in
      let (j, g) = pair_inj (some_inj h') in
      let (code, retry, r, fine) = judge-token (env.took s.asked) d (env.up s.asked req) u j in
      (
        s.asked,
        ap (λ x. x.asked) (sym g),
        ap (λ x. x.trace) (sym g),
        record {
          key = k.val;
          provider = p;
          meter = meter;
          within = within;
          code = code;
          retry = retry;
          placed = e;
          streams = streams;
          answered = r;
          fine = fine;
        },
      )

  once-trace :
      (s : State) (k : Key) (t : Target) (meter : Bool) (r : Outcome × State)
      → once env waits stream s k t meter ≡ some r
      → r.1.trace ≡ s.trace
  unfolding once
  once-trace s k t meter r h =
      let (p, e, h') = >>=-some t.place _ h in ap (λ x. x.1.trace) (sym (some_inj h'))

  note_mute-token :
      (prov : Bytes) (r : Outcome × State) (d : ℕ) (u : Option Spend) (s' : State)
      → note_mute prov r ≡ (token d u, s')
      → (q : State) × (r ≡ (token d u, q)) × (s'.asked ≡ q.asked) × (s'.trace ≡ q.trace)
  unfolding note_mute
  note_mute-token prov (token d' u', q) d u s' h =
      let (e, f) = pair_inj h in
      (q, ap (λ x. (x, q)) e, ap (λ x. x.asked) (sym f), ap (λ x. x.trace) (sym f))
  note_mute-token prov (failed f, q) d u s' h = absurd (failed-ne-token (pair_inj h).0)

  attempt-token :
      (s : State) (k : Key) (t : Target) (d : ℕ) (u : Option Spend) (s' : State)
      → attempt env waits stream s k t ≡ some (token d u, s')
      → Accepts s t u s'
  unfolding attempt
  attempt-token s k t d u s' h =
      let meter = stream && talks s.pool t.prov in
      let allowed : meter ≡ true → stream ≡ true = λ e. ground arith in
      let (r, e, h') = >>=-some (once env waits stream s k t meter) _ h in
      elim (Bool-cases (meter && unmetered r.0)) [
        | inr f ↦ once-token s k t meter d u s' allowed (e ∙ (rw f at h'))
        | inl f ↦
            let (r', e', h'') = >>=-some (once env waits stream r.1 k t false) _ (rw f at h') in
            let (q, g, asked, trace) = note_mute-token t.prov r' d u s' (some_inj h'') in
            let (m, a, tr, acc) =
              once-token r.1 k t false d u q (λ x. absurd (ground arith)) (e' ∙ ap some g) in
            (m, asked ∙ a, trace ∙ tr ∙ once-trace s k t meter r e, acc)
      ]

  -- The walk served the request from an answer for one of the targets, named in the trace, whose
  -- relay was the question after the next.
  pub record Served (ts : List Target) (s' : State) : Type 0 where
    pub target : Target
    pub listed : Memᴰ target ts
    pub asked : ℕ
    pub used : Option Spend
    pub accepted : IsAccepted target asked used
    pub relayed : env.relayed (suc (suc asked)) ≡ written
    pub prov : s'.trace.prov ≡ target.prov
    pub sent : s'.trace.sent ≡ target.model

  -- Only a reply that was written whole ends a walk well.
  on_relayed-ok :
      (a : ℕ) (r : Relayed) (s s' : State)
      → on_relayed env waits stream a r s ≡ some (ended_ok, s')
      → (r ≡ written) × (s' ≡ s)
  unfolding on_relayed
  on_relayed-ok a written s s' h = (refl, sym (pair_inj (some_inj h)).1)
  on_relayed-ok a write_failed s s' h = absurd (gone-ne-ok (pair_inj (some_inj h)).0)
  on_relayed-ok a read_failed s s' h = elim (Bool-cases (env.left s.asked)) [
    | inl e ↦ absurd (gone-ne-ok (pair_inj (some_inj (rw e at h))).0)
    | inr e ↦
        let (r, f, h') = >>=-some (sour (env.now s.asked) s.pool a) _ (rw e at h) in
        absurd (truncated-ne-ok (pair_inj (some_inj h')).0)
  ]

  on_token-ok :
      (a ttft m : ℕ) (u : Option Spend) (s s' : State)
      → s.asked ≡ suc m
      → on_token env waits stream a ttft u s ≡ some (ended_ok, s')
      → (env.relayed (suc (suc m)) ≡ written)
        × (s'.trace.prov ≡ s.trace.prov)
        × (s'.trace.sent ≡ s.trace.sent)
  unfolding on_token
  on_token-ok a ttft m u s s' e h =
      let (r, f, h') = >>=-some (ok (env.now s.asked) s.pool a ttft) _ h in
      let (g, same) = on_relayed-ok a (env.relayed (suc s.asked)) _ s' h' in
      (
        ap (λ n. env.relayed (suc n)) (sym e) ∙ g,
        ap (λ x. x.trace.prov) same,
        ap (λ x. x.trace.sent) same,
      )

  -- The same over another list that has the target.
  pub Served-move :
      (ts us : List Target) (s' : State)
      → ((t : Target) → Memᴰ t ts → Memᴰ t us)
      → Served ts s'
      → Served us s'
  Served-move ts us s' f v = record {
    target = v.target;
    listed = f v.target v.listed;
    asked = v.asked;
    used = v.used;
    accepted = v.accepted;
    relayed = v.relayed;
    prov = v.prov;
    sent = v.sent;
  }

  on_failure-ok :
      (P : State → Type 0) (a : ℕ) (f : Failure) (rest : Walk env waits stream) (tried : List Bytes)
      (s s' : State)
      → ((u : State) → rest tried u ≡ some (ended_ok, s') → P s')
      → on_failure env waits stream a f rest tried s ≡ some (ended_ok, s')
      → P s'
  unfolding on_failure
  on_failure-ok P a f rest tried s s' k h = elim (Bool-cases (env.left s.asked)) [
    | inl e ↦ absurd (gone-ne-ok (pair_inj (some_inj (rw e at h))).0)
    | inr e ↦
        let (r, g, h') = >>=-some (fail (env.now s.asked) s.pool a f.code f.retry) _ (rw e at h) in
        elim (Bool-cases (mine f)) [
          | inl i ↦ absurd (rejected-ne-ok (pair_inj (some_inj (rw i at h'))).0)
          | inr i ↦ k _ (rw i at h')
        ]
  ]

  on_outcome-Served :
      (a : ℕ) (t : Target) (ts : List Target) (tried : List Bytes) (o : Outcome) (q s' : State)
      (key : Key) (s : State)
      → ((tried : List Bytes) (u : State)
          → walk env waits stream ts tried u ≡ some (ended_ok, s')
          → Served ts s')
      → s.trace.prov ≡ t.prov
      → s.trace.sent ≡ t.model
      → attempt env waits stream s key t ≡ some (o, q)
      → on_outcome env waits stream a (walk env waits stream ts) tried (o, q) ≡ some (ended_ok, s')
      → Served (t ∷ ts) s'
  unfolding on_outcome
  on_outcome-Served a t ts tried (token d u) q s' key s k e f g h =
      let (m, asked, trace, acc) = attempt-token s key t d u q g in
      let (rel, prov, sent) = on_token-ok a d m u q s' asked h in
      record {
        target = t;
        listed = Memᴰ.head refl;
        asked = m;
        used = u;
        accepted = acc;
        relayed = rel;
        prov = prov ∙ ap (λ x. x.prov) trace ∙ e;
        sent = sent ∙ ap (λ x. x.sent) trace ∙ f;
      }
  on_outcome-Served a t ts tried (failed x) q s' key s k e f g h =
      on_failure-ok (Served (t ∷ ts)) a x (walk env waits stream ts) tried q s'
        (λ u i. Served-move ts (t ∷ ts) s' (λ x. Memᴰ.tail) (k tried u i)) h

  on_key-Served :
      (a : ℕ) (t : Target) (ts : List Target) (tried : List Bytes) (s s' : State)
      → ((tried : List Bytes) (u : State)
          → walk env waits stream ts tried u ≡ some (ended_ok, s')
          → Served ts s')
      → on_key env waits stream a t (walk env waits stream ts) tried s ≡ some (ended_ok, s')
      → Served (t ∷ ts) s'
  unfolding on_key on_outcome
  on_key-Served a t ts tried s s' k h =
      let (key, e, h1) = >>=-some (get_elem? s.pool.cells a) _ h in
      let ((o, q), f, h2) = >>=-some (attempt env waits stream _ key t) _ h1 in
      on_outcome-Served a t ts tried o q s' key _ k refl refl f h2

  -- A walk that ends well served the request from the answer to a question that it put for one of its
  -- targets: a status below 400 whose body passed the gate before the budget was over, and whose relay
  -- to the client was complete. The trace names that target.
  pub walk-Served :
      (ts : List Target) (tried : List Bytes) (s s' : State)
      → walk env waits stream ts tried s ≡ some (ended_ok, s')
      → Served ts s'
  unfolding walk on_target
  walk-Served [] tried s s' h = absurd (unserved-ne-ok (pair_inj (some_inj h)).0)
  walk-Served (t ∷ ts) tried s s' h =
      let k : (tried : List Bytes) (u : State)
          → walk env waits stream ts tried u ≡ some (ended_ok, s')
          → Served ts s' =
        λ tried u. walk-Served ts tried u s' in
      elim (Bool-cases (tried_before t.prov tried)) [
        | inl e ↦ Served-move ts (t ∷ ts) s' (λ x. Memᴰ.tail) (k tried s (rw e at h))
        | inr e ↦
            let ((hit, p), f, h') = >>=-some (pick (env.now s.asked) s.pool t.prov) _ (rw e at h) in
            elim (Option-cases hit) [
              | inl g ↦ Served-move ts (t ∷ ts) s' (λ x. Memᴰ.tail) (k tried _ (rw g at h'))
              | inr (a, g) ↦ on_key-Served a t ts (t.prov ∷ tried) _ s' k (rw g at h')
            ]
      ]
