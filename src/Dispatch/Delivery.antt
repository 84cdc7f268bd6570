-- ===== src/Dispatch/Delivery.antt =====
-- `dispatch`: the answer of an upstream that a served request comes from.
use mathlib.Core.List.{Memᴰ}
use omny.Base.{
  ℕ, suc, ◌≡◌, refl, sym, ap, ◌∙◌, ◌⊎◌, inl, inr, Bool, true, false, ◌&&◌, List, [], ◌∷◌, ◌++◌,
  Option, some, All, All-map, Bytes, ltb, leb, length, map, >>=-some, Bool-cases, some_inj,
  pair_inj, pair_eq, subst,
}
use omny.Config.{Config}
use omny.Pool.Recovery.{soonest}
use omny.Pool.{Pool, roll}
use omny.Route.{Target, route}
use omny.Order.{order, speed}
use omny.Proxy.{
  Env, Waits, State, End, ended_ok, ended_gone, ended_truncated, unserved, rejected, tried_before,
  walk,
}
use omny.Proxy.Commit.{Served, Served-move, walk-Served}
use omny.Dispatch.{
  Answer, walked, gone_napping, exhausted, decided, prov_of, Loop, on_end, try_walk, after_nap,
  on_name, finish, names_loop, dispatch,
}
use omny.Dispatch.Answering.{order_by-All}

All-self {ℓ} : {A : Type ℓ} (xs : List A) → All (λ x. Memᴰ x xs) xs
All-self [] = tt
All-self (x ∷ xs) = (Memᴰ.head refl, All-map (λ y m. Memᴰ.tail m) xs (All-self xs))

All-Mem {ℓ κ} : {A : Type ℓ} (P : A → Type κ) (x : A) (xs : List A) → All P xs → Memᴰ x xs → P x
All-Mem P x [] h m = elim m [ ]
All-Mem P x (y ∷ ys) h (Memᴰ.head e) = subst P (sym e) h.0
All-Mem P x (y ∷ ys) h (Memᴰ.tail m) = All-Mem P x ys h.1 m

end_inj : {e e' : End} → walked e ≡ walked e' → e ≡ e'
end_inj h = cc

napping-ne-walked : {e : End} → gone_napping ≡ walked e → ⊥
napping-ne-walked h = cc

exhausted-ne-walked : {d : ℕ} {e : End} → exhausted d ≡ walked e → ⊥
exhausted-ne-walked h = cc

order-All :
    (P : Target → Type 0) (now : ℕ) (p : Pool) (ts : List Target)
    → All P ts
    → All P (order now p ts).1
unfolding order
order-All P now p ts h = elim (Bool-cases (ltb (length ts) 2)) [
  | inl e ↦ rw e h
  | inr e ↦ rw e (order_by-All P (λ t. speed now (roll now p) t.prov) ts h)
]

module _ (env : Env) (waits : Waits) (pause : ℕ) (stream : Bool) (c : Config) where
  -- One of the names has a target from whose answer the request was served.
  abbrev pub IsDelivered : List Bytes → State → Type 0
  IsDelivered names s' =
      (name : Bytes) × Memᴰ name names × Served env waits stream (route c name) s'

  module _ (s' : State) where
    abbrev Well : Option (Answer × State) → Type 0
    Well r = r ≡ some (walked ended_ok, s')

    on_end-ok :
        (next : State → Option (Answer × State)) (e : End) (q : State)
        → Well (on_end env waits pause stream c next (e, q))
        → ((e ≡ ended_ok) × (q ≡ s')) ⊎ Well (next q)
    unfolding on_end decided
    on_end-ok next ended_ok q h = inl (refl, (pair_inj (some_inj h)).1)
    on_end-ok next ended_gone q h =
        inl (end_inj (pair_inj (some_inj h)).0, (pair_inj (some_inj h)).1)
    on_end-ok next ended_truncated q h =
        inl (end_inj (pair_inj (some_inj h)).0, (pair_inj (some_inj h)).1)
    on_end-ok next (rejected code) q h =
        inl (end_inj (pair_inj (some_inj h)).0, (pair_inj (some_inj h)).1)
    on_end-ok next unserved q h = inr h

    try_walk-ok :
        (P : Type 0) (ts : List Target) (next : State → Option (Answer × State)) (s : State)
        → (Served env waits stream ts s' → P)
        → ((u : State) → Well (next u) → P)
        → Well (try_walk env waits pause stream c ts next s)
        → P
    unfolding try_walk
    try_walk-ok P ts next s here later h =
        let ((e, q), f, g) = >>=-some (walk env waits stream ts [] s) _ h in
        elim (on_end-ok next e q g) [
          | inl (i, j) ↦
              here (walk-Served env waits stream ts [] s s' (f ∙ ap (λ x. some x) (pair_eq i j)))
          | inr i ↦ later q i
        ]

    after_nap-ok :
        (P : Type 0) (ts : List Target) (next : State → Option (Answer × State)) (s : State)
        → (Served env waits stream ts s' → P)
        → ((u : State) → Well (next u) → P)
        → Well (after_nap env waits pause stream c ts next s)
        → P
    unfolding after_nap
    after_nap-ok P ts next s here later h =
        let (p, d) = soonest (env.now s.asked) s.pool (map prov_of ts) in
        elim (Bool-cases (ltb 0 d && leb d pause)) [
          | inr e ↦ later _ (rw e at h)
          | inl e ↦ elim (Bool-cases (env.left (suc s.asked))) [
            | inl f ↦ absurd (napping-ne-walked (pair_inj (some_inj (rw (e, f) at h))).0)
            | inr f ↦ try_walk-ok P ts next _ here later (rw (e, f) at h)
          ]
        ]

    -- The order of the targets does not matter.
    Served-order :
        (name : Bytes) (now : ℕ) (p : Pool)
        → Served env waits stream (order now p (route c name)).1 s'
        → Served env waits stream (route c name) s'
    Served-order name now p v =
        Served-move env waits stream (order now p (route c name)).1 (route c name) s'
          (λ t m.
            All-Mem (λ x. Memᴰ x (route c name)) t (order now p (route c name)).1
              (order-All (λ x. Memᴰ x (route c name)) now p (route c name)
                (All-self (route c name)))
              m)
          v

    abbrev LoopDelivers : List Bytes → Loop env waits pause stream c → Type 0
    LoopDelivers names loop =
        (tried : List Bytes) (seen : List Target) (s : State)
        → Well (loop tried seen s)
        → IsDelivered names s'

    on_name-ok :
        (first : Bool) (name : Bytes) (names : List Bytes) (rest : Loop env waits pause stream c)
        → LoopDelivers names rest
        → LoopDelivers (name ∷ names) (on_name env waits pause stream c first name rest)
    unfolding on_name
    on_name-ok first name names rest k tried seen s h =
        let skip : IsDelivered names s' → IsDelivered (name ∷ names) s' =
          λ (n, m, v). (n, Memᴰ.tail m, v) in
        let (p, ts) = order (env.now s.asked) s.pool (route c name) in
        let next : State → Option (Answer × State) = rest (name ∷ tried) (seen ++ ts) in
        let here : Served env waits stream ts s' → IsDelivered (name ∷ names) s' =
          λ v. (name, Memᴰ.head refl, Served-order name (env.now s.asked) s.pool v) in
        let later : (u : State) → Well (next u) → IsDelivered (name ∷ names) s' =
          λ u g. skip (k (name ∷ tried) (seen ++ ts) u g) in
        elim (Bool-cases (tried_before name tried)) [
          | inl e ↦ skip (k tried seen s (rw e at h))
          | inr e ↦
              try_walk-ok (IsDelivered (name ∷ names) s') ts _ _ here
                (λ u g. elim (Bool-cases first) [
                  | inr f ↦ later u (rw f at g)
                  | inl f ↦
                      after_nap-ok (IsDelivered (name ∷ names) s') ts next u here later (rw f at g)
                ])
                (rw e at h)
        ]

    names_loop-ok :
        (names : List Bytes) → LoopDelivers names (names_loop env waits pause stream c names)
    unfolding names_loop finish
    names_loop-ok [] tried seen s h = absurd (exhausted-ne-walked (pair_inj (some_inj h)).0)
    names_loop-ok (name ∷ names) tried seen s h =
        on_name-ok false name names (names_loop env waits pause stream c names)
          (names_loop-ok names) tried seen s h

  -- A request that is answered well was served from one answer of an upstream, for a target of its
  -- model's name or of a fallback: a status below 400 whose body passed the gate in time and whose relay
  -- to the client was complete. The trace names that target.
  pub dispatch-IsDelivered :
      (name : Bytes) (s s' : State)
      → dispatch env waits pause stream c name s ≡ some (walked ended_ok, s')
      → IsDelivered (name ∷ c.fallback) s'
  unfolding dispatch
  dispatch-IsDelivered name s s' h =
      on_name-ok s' true name c.fallback (names_loop env waits pause stream c c.fallback)
        (names_loop-ok s' c.fallback) [] [] s h
