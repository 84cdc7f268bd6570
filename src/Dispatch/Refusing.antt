-- ===== src/Dispatch/Refusing.antt =====
-- `dispatch`: the codes of its refusals.
use omny.Base.{
  ℕ, suc, ◌≡◌, subst, ◌⊎◌, inl, inr, Bool, true, false, ◌&&◌, List, [], ◌∷◌, ◌++◌, Option, some,
  arith, Bytes, Bool-cases, Option-cases, some_inj, >>=-some, pair_inj, get_elem?, ltb, leb, map,
}
use omny.Config.{Config}
use omny.Pool.{pick, fail, sour, ok}
use omny.Pool.Recovery.{soonest}
use omny.Order.{order}
use omny.Route.{Target, route}
use omny.Proxy.{
  Env, Waits, State, End, ended_ok, ended_gone, ended_truncated, unserved, rejected, Failure, mine,
  Walk, Outcome, token, failed, Relayed, written, write_failed, read_failed, attempt, on_failure,
  on_relayed, on_token, on_outcome, on_key, tried_before, on_target, walk,
}
use omny.Dispatch.{
  Answer, walked, gone_napping, exhausted, Loop, decided, prov_of, on_end, try_walk, after_nap,
  on_name, finish, names_loop, dispatch,
}

-- The end of a walk that rejects the request has the code of a client's mistake.
abbrev pub Fair : End → Type 0
Fair (rejected code) = (code ≡ 400) ⊎ (code ≡ 422)
Fair _ = Unit {0}

abbrev pub FairAnswer : Answer → Type 0
FairAnswer (walked unserved) = ⊥
FairAnswer (walked (rejected code)) = (code ≡ 400) ⊎ (code ≡ 422)
FairAnswer _ = Unit {0}

mine_lem : (f : Failure) → mine f ≡ true → (f.code ≡ 400) ⊎ (f.code ≡ 422)
unfolding mine
mine_lem f h = ground arith

module _ (env : Env) (waits : Waits) (stream : Bool) where
  -- Of a result that is known.
  abbrev pub IsFair : Option (End × State) → Type 0
  IsFair r = (e : End) (s' : State) → r ≡ some (e, s') → Fair e

  fair : (e : End) (s : State) → Fair e → IsFair (some (e, s))
  fair e s f e' s' h = subst Fair (pair_inj (some_inj h)).0 f

  on_failure-IsFair :
      (a : ℕ) (f : Failure) (rest : Walk env waits stream) (tried : List Bytes) (s : State)
      → ((u : State) → IsFair (rest tried u))
      → IsFair (on_failure env waits stream a f rest tried s)
  unfolding on_failure
  on_failure-IsFair a f rest tried s k e s' h = elim (Bool-cases (env.left s.asked)) [
    | inl i ↦ fair ended_gone _ tt e s' (rw i at h)
    | inr i ↦
        let (r, g, h') = >>=-some (fail (env.now s.asked) s.pool a f.code f.retry) _ (rw i at h) in
        elim (Bool-cases (mine f)) [
          | inl m ↦ fair (rejected f.code) _ (mine_lem f m) e s' (rw m at h')
          | inr m ↦ k _ e s' (rw m at h')
        ]
  ]

  on_relayed-IsFair : (a : ℕ) (r : Relayed) (s : State) → IsFair (on_relayed env waits stream a r s)
  unfolding on_relayed
  on_relayed-IsFair a written s e s' h = fair ended_ok s tt e s' h
  on_relayed-IsFair a write_failed s e s' h = fair ended_gone s tt e s' h
  on_relayed-IsFair a read_failed s e s' h = elim (Bool-cases (env.left s.asked)) [
    | inl i ↦ fair ended_gone _ tt e s' (rw i at h)
    | inr i ↦
        let (r, g, h') = >>=-some (sour (env.now s.asked) s.pool a) _ (rw i at h) in
        fair ended_truncated _ tt e s' h'
  ]

  on_outcome-IsFair :
      (a : ℕ) (rest : Walk env waits stream) (tried : List Bytes) (o : Outcome × State)
      → ((tried : List Bytes) (u : State) → IsFair (rest tried u))
      → IsFair (on_outcome env waits stream a rest tried o)
  unfolding on_outcome on_token
  on_outcome-IsFair a rest tried (token ttft used, s) k e s' h =
      let (r, g, h') = >>=-some (ok (env.now s.asked) s.pool a ttft) _ h in
      on_relayed-IsFair a _ _ e s' h'
  on_outcome-IsFair a rest tried (failed f, s) k e s' h =
      on_failure-IsFair a f rest tried s (k tried) e s' h

  walk-IsFair :
      (ts : List Target) (tried : List Bytes) (s : State)
      → IsFair (walk env waits stream ts tried s)
  unfolding walk on_target on_key
  walk-IsFair [] tried s e s' h = fair unserved s tt e s' h
  walk-IsFair (t ∷ ts) tried s e s' h =
      let k : (tried : List Bytes) (u : State) → IsFair (walk env waits stream ts tried u) =
        λ tried u. walk-IsFair ts tried u in
      elim (Bool-cases (tried_before t.prov tried)) [
        | inl i ↦ k tried s e s' (rw i at h)
        | inr i ↦
            let ((hit, p), f, g) = >>=-some (pick (env.now s.asked) s.pool t.prov) _ (rw i at h) in
            elim (Option-cases hit) [
              | inl j ↦ k tried _ e s' (rw j at g)
              | inr (a, j) ↦
                  let (key, l, g1) = >>=-some (get_elem? _ a) _ (rw j at g) in
                  let (o, m, g2) = >>=-some (attempt env waits stream _ key t) _ g1 in
                  on_outcome-IsFair a (walk env waits stream ts) (t.prov ∷ tried) o k e s' g2
            ]
      ]

  module _ (pause : ℕ) (c : Config) where
    abbrev pub Refuses : Option (Answer × State) → Type 0
    Refuses r = (a : Answer) (s' : State) → r ≡ some (a, s') → FairAnswer a

    honest : (a : Answer) (s : State) → FairAnswer a → Refuses (some (a, s))
    honest a s f a' s' h = subst FairAnswer (pair_inj (some_inj h)).0 f

    on_end-Refuses :
        (next : State → Option (Answer × State)) (e : End) (s : State)
        → Fair e
        → ((u : State) → Refuses (next u))
        → Refuses (on_end env waits pause stream c next (e, s))
    unfolding on_end decided
    on_end-Refuses next ended_ok s f k = honest (walked ended_ok) s tt
    on_end-Refuses next ended_gone s f k = honest (walked ended_gone) s tt
    on_end-Refuses next ended_truncated s f k = honest (walked ended_truncated) s tt
    on_end-Refuses next (rejected code) s f k = honest (walked (rejected code)) s f
    on_end-Refuses next unserved s f k = k s

    try_walk-Refuses :
        (ts : List Target) (next : State → Option (Answer × State)) (s : State)
        → ((u : State) → Refuses (next u))
        → Refuses (try_walk env waits pause stream c ts next s)
    unfolding try_walk
    try_walk-Refuses ts next s k a s' h =
        let ((e, u), f, g) = >>=-some (walk env waits stream ts [] s) _ h in
        on_end-Refuses next e u (walk-IsFair ts [] s e u f) k a s' g

    after_nap-Refuses :
        (ts : List Target) (next : State → Option (Answer × State)) (s : State)
        → ((u : State) → Refuses (next u))
        → Refuses (after_nap env waits pause stream c ts next s)
    unfolding after_nap
    after_nap-Refuses ts next s k a s' h =
        let (p, d) = soonest (env.now s.asked) s.pool (map prov_of ts) in
        elim (Bool-cases (ltb 0 d && leb d pause)) [
          | inr e ↦ k _ a s' (rw e at h)
          | inl e ↦ elim (Bool-cases (env.left (suc s.asked))) [
            | inl f ↦ honest gone_napping _ tt a s' (rw (e, f) at h)
            | inr f ↦ try_walk-Refuses ts next _ k a s' (rw (e, f) at h)
          ]
        ]

    abbrev LoopRefuses : Loop env waits pause stream c → Type 0
    LoopRefuses loop =
        (tried : List Bytes) (seen : List Target) (s : State) → Refuses (loop tried seen s)

    on_name-Refuses :
        (first : Bool) (name : Bytes) (rest : Loop env waits pause stream c)
        → LoopRefuses rest
        → LoopRefuses (on_name env waits pause stream c first name rest)
    unfolding on_name
    on_name-Refuses first name rest k tried seen s a s' h =
        let (p, ts) = order (env.now s.asked) s.pool (route c name) in
        let more = k (name ∷ tried) (seen ++ ts) in
        elim (Bool-cases (tried_before name tried)) [
          | inl e ↦ k tried seen s a s' (rw e at h)
          | inr e ↦
              try_walk-Refuses ts _ _
                (λ u. elim (Bool-cases first) [
                  | inl f ↦ rw f (after_nap-Refuses ts (rest (name ∷ tried) (seen ++ ts)) u more)
                  | inr f ↦ rw f (more u)
                ])
                a s' (rw e at h)
        ]

    names_loop-Refuses :
        (names : List Bytes) → LoopRefuses (names_loop env waits pause stream c names)
    unfolding names_loop finish
    names_loop-Refuses [] tried seen s a s' h = honest (exhausted _) _ tt a s' h
    names_loop-Refuses (name ∷ names) tried seen s a s' h =
        on_name-Refuses false name (names_loop env waits pause stream c names)
          (names_loop-Refuses names) tried seen s a s' h

    -- A request is rejected only with 400 or 422, the codes of its own mistake, and never with the code
    -- of another failure of an upstream.
    pub dispatch-FairAnswer :
        (name : Bytes) (s s' : State) (a : Answer)
        → dispatch env waits pause stream c name s ≡ some (a, s')
        → FairAnswer a
    unfolding dispatch
    dispatch-FairAnswer name s s' a h =
        on_name-Refuses true name (names_loop env waits pause stream c c.fallback)
          (names_loop-Refuses c.fallback) [] [] s a s' h
