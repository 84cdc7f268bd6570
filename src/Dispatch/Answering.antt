-- ===== src/Dispatch/Answering.antt =====
-- `dispatch`: its answers, and the pool after it.
use omny.Base.{
  ℕ, suc, ◌≡◌, refl, Bool, true, false, ◌&&◌, List, [], ◌∷◌, ◌++◌, Option, some, arith, All,
  All-set, Bytes, ltb, leb, length, set, map, inl, inr, Bool-cases, Option-cases,
}
use omny.Config.{Config}
use omny.Pool.{Pool, roll}
use omny.Pool.Visit.{length-roll}
use omny.Pool.Effects.{roll-IsSound}
use omny.Pool.Recovery.{soonest}
use omny.Pool.Traffic.Invariant.{Inv, roll-Every, All-resize}
use omny.Pool.Traffic.Ledger.{Ledger, Ledger-Stable}
use omny.Route.{Target, route}
use omny.Route.Laws.{IsRoutable, HasPlace, route-HasPlace}
use omny.Order.{ranked, places, put_back, sort_by_tier, order_by, order, speed}
use omny.Order.Sorting.{sort_by_tier-All}
use omny.Proxy.{Env, Waits, State, End, tried_before}
use omny.Proxy.Settling.{idle}
use omny.Proxy.Failover.{walk-Settles}
use omny.Dispatch.{
  Answer, decided, prov_of, Loop, on_end, try_walk, after_nap, on_name, finish, names_loop,
  dispatch, exhausted, gone_napping,
}

pub roll-Inv :
    (now : ℕ) (p : Pool) (served : List ℕ)
    → Inv Ledger (idle p served)
    → Inv Ledger (idle (roll now p) served)
roll-Inv now p served v = record {
  sound = roll-IsSound now p v.sound;
  every = roll-Every Ledger Ledger-Stable now p [] v.every;
  held_valid = tt;
  served_valid = All-resize _ _ served (omega (arith, length-roll now p)) v.served_valid;
}

module _ {A : Type 0} (P : A → Type 0) (d : A → ℕ) where
  ranked-All : (ts : List A) → All P ts → All (λ r. P r.0) (ranked d ts)
  unfolding ranked
  ranked-All [] h = tt
  ranked-All (t ∷ ts) h = elim (Bool-cases (ltb 0 (d t))) [
    | inl e ↦ rw e (h.0, ranked-All ts h.1)
    | inr e ↦ rw e (ranked-All ts h.1)
  ]

  put_back-All :
      (is : List ℕ) (rs : List (A × ℕ)) (ts : List A)
      → All P ts
      → All (λ r. P r.0) rs
      → All P (put_back ts is rs)
  unfolding put_back
  put_back-All [] rs ts h k = h
  put_back-All (i ∷ is) [] ts h k = h
  put_back-All (i ∷ is) (r ∷ rs) ts h k =
      put_back-All is rs (set ts i r.0) (All-set P ts i r.0 h k.0) k.1

  pub order_by-All : (ts : List A) → All P ts → All P (order_by d ts)
  unfolding order_by
  order_by-All ts h = elim (Bool-cases (ltb (length ts) 2)) [
    | inl e ↦ rw e h
    | inr e ↦ rw e (elim (Bool-cases (ltb (length (ranked d ts)) 2)) [
      | inl f ↦ rw f h
      | inr f ↦ rw f (
          put_back-All (places d 0 ts) (sort_by_tier (ranked d ts)) ts h
            (sort_by_tier-All (λ r. P r.0) (ranked d ts) (ranked-All ts h)))
    ])
  ]

module _ (fp : Bytes → Bytes) (env : Env) (waits : Waits) (pause : ℕ) (stream : Bool)
    (c : Config) where
  -- A request is answered, and the pool is settled after it.
  abbrev pub IsAnswered : Option (Answer × State) → Type 0
  IsAnswered r =
      (a : Answer) × (s : State) × (served : List ℕ) × (r ≡ some (a, s))
      × Inv Ledger (idle s.pool served)

  -- A continuation that answers from every settled pool.
  abbrev Answers : (State → Option (Answer × State)) → Type 0
  Answers next =
      (s : State) (served : List ℕ) → Inv Ledger (idle s.pool served) → IsAnswered (next s)

  on_end-IsAnswered :
      (next : State → Option (Answer × State)) (end : End) (s : State) (served : List ℕ)
      → Answers next
      → Inv Ledger (idle s.pool served)
      → IsAnswered (on_end env waits pause stream c next (end, s))
  unfolding on_end
  on_end-IsAnswered next end s served k v = elim (Option-cases (decided end)) [
    | inl f ↦ rw (f, on_end) (k s served v)
    | inr (a, f) ↦ rw (f, on_end) (a, s, served, refl, v)
  ]

  try_walk-IsAnswered :
      (ts : List Target) (next : State → Option (Answer × State))
      → All HasPlace ts
      → Answers next
      → Answers (try_walk env waits pause stream c ts next)
  unfolding try_walk
  try_walk-IsAnswered ts next h k s served v =
      let (end, s', served', e, _, w) = walk-Settles fp env waits stream ts [] s served h v in
      rw e (on_end-IsAnswered next end s' served' k w)

  after_nap-IsAnswered :
      (ts : List Target) (next : State → Option (Answer × State))
      → All HasPlace ts
      → Answers next
      → Answers (after_nap env waits pause stream c ts next)
  unfolding after_nap soonest
  after_nap-IsAnswered ts next h k s served v =
      let now = env.now s.asked in
      let w = roll-Inv now s.pool served v in
      let d = (soonest now s.pool (map prov_of ts)).1 in
      elim (Bool-cases (ltb 0 d && leb d pause)) [
        | inr e ↦ rw e (k _ served w)
        | inl e ↦ rw e (elim (Bool-cases (env.left (suc s.asked))) [
          | inl f ↦ rw f (gone_napping, _, served, refl, w)
          | inr f ↦ rw f (try_walk-IsAnswered ts next h k _ served w)
        ])
      ]

  order-Inv :
      (now : ℕ) (p : Pool) (ts : List Target) (served : List ℕ)
      → Inv Ledger (idle p served)
      → All HasPlace ts
      → Inv Ledger (idle (order now p ts).0 served) × All HasPlace (order now p ts).1
  unfolding order
  order-Inv now p ts served v h = elim (Bool-cases (ltb (length ts) 2)) [
    | inl e ↦ rw e (v, h)
    | inr e ↦
        rw e
          (roll-Inv now p served v, order_by-All HasPlace (λ t. speed now (roll now p) t.prov) ts h)
  ]

  abbrev LoopAnswers : Loop env waits pause stream c → Type 0
  LoopAnswers loop = (tried : List Bytes) (seen : List Target) → Answers (loop tried seen)

  on_name-IsAnswered :
      (first : Bool) (name : Bytes) (rest : Loop env waits pause stream c)
      → IsRoutable c
      → LoopAnswers rest
      → LoopAnswers (on_name env waits pause stream c first name rest)
  unfolding on_name
  on_name-IsAnswered first name rest r k tried seen s served v =
      elim (Bool-cases (tried_before name tried)) [
        | inl e ↦ rw e (k tried seen s served v)
        | inr e ↦
            let (w, h) =
              order-Inv (env.now s.asked) s.pool (route c name) served v
                (route-HasPlace c name r) in
            let ts = (order (env.now s.asked) s.pool (route c name)).1 in
            let more = k (name ∷ tried) (seen ++ ts) in
            rw e (
              try_walk-IsAnswered ts _ h
                (λ u served' x. elim (Bool-cases first) [
                  | inl f ↦ rw f (after_nap-IsAnswered ts _ h more u served' x)
                  | inr f ↦ rw f (more u served' x)
                ])
                _ served w)
      ]

  names_loop-IsAnswered :
      (names : List Bytes) → IsRoutable c → LoopAnswers (names_loop env waits pause stream c names)
  unfolding names_loop finish soonest
  names_loop-IsAnswered [] r tried seen s served v =
      (exhausted _, _, served, refl, roll-Inv (env.now s.asked) s.pool served v)
  names_loop-IsAnswered (name ∷ names) r tried seen s served v =
      on_name-IsAnswered false name (names_loop env waits pause stream c names) r
        (names_loop-IsAnswered names r) tried seen s served v

  -- With a configuration whose routes have their providers and a settled pool, `dispatch` answers
  -- every request: no walk over the requested name, the nap and the fallbacks panics, and the pool is
  -- settled again after the answer, with no reservation of the request left.
  pub dispatch-IsAnswered :
      (name : Bytes) (s : State) (served : List ℕ)
      → IsRoutable c
      → Inv Ledger (idle s.pool served)
      → IsAnswered (dispatch env waits pause stream c name s)
  unfolding dispatch
  dispatch-IsAnswered name s served r v =
      on_name-IsAnswered true name (names_loop env waits pause stream c c.fallback) r
        (names_loop-IsAnswered c.fallback r) [] [] s served v
