-- ===== src/Dispatch.antt =====
-- internal/omny/proxy.go: `dispatch` from the parsed body on, and `try`: a request's model and the
-- fallback aliases are walked one after another, the first of them again after a nap.
pub mod Answering
pub mod Delivery
pub mod Refusing
use omny.Base.{
  ℕ, suc, ◌≤◌, Bool, true, false, ◌&&◌, List, [], ◌∷◌, ◌++◌, Option, none, some, Bytes, ltb, leb,
  if◌then◌else◌, ◌>>=◌, map,
}
use omny.Config.{Config}
use omny.Pool.Recovery.{soonest}
use omny.Route.{Target, route}
use omny.Order.{order}
use omny.Proxy.{
  Env, Waits, State, End, ended_ok, ended_gone, ended_truncated, unserved, rejected, tried_before,
  walk,
}

-- How a request ends: with the end of a walk that served or refused it, with the client gone during
-- the nap, or with 503 and the wait that Retry-After is made of, 0 for none.
pub data Answer : Type 0 where
  walked : End → Answer
  gone_napping : Answer
  exhausted : ℕ → Answer

-- `try`: the answer, where the walk was the last one.
unfoldable pub decided : End → Option Answer
decided unserved = none
decided ended_ok = some (walked ended_ok)
decided ended_gone = some (walked ended_gone)
decided ended_truncated = some (walked ended_truncated)
decided (rejected code) = some (walked (rejected code))

abbrev pub prov_of : Target → Bytes
prov_of t = t.prov

module _ (env : Env) (waits : Waits) (pause : ℕ) (stream : Bool) (c : Config) where
  abbrev pub Loop : Type 0
  Loop = List Bytes → List Target → State → Option (Answer × State)

  -- What `try` makes of the end of a walk: the answer, or `next` where it decides nothing.
  unfoldable pub on_end : (State → Option (Answer × State)) → End × State → Option (Answer × State)
  on_end next (end, s) = elim (decided end) [ some a ↦ some (a, s) | none ↦ next s ]

  unfoldable pub try_walk :
      List Target → (State → Option (Answer × State)) → State → Option (Answer × State)
  try_walk ts next s = walk env waits stream ts [] s >>= on_end next

  -- The nap before the second walk of the first name, where a key recovers soon enough.
  unfoldable pub after_nap :
      List Target → (State → Option (Answer × State)) → State → Option (Answer × State)
  after_nap ts next s =
      let (p, d) = soonest (env.now s.asked) s.pool (map prov_of ts) in
      let s' = record s { pool = p; asked = suc s.asked } in
      let s'' = record s { pool = p; asked = suc (suc s.asked) } in
      let again = try_walk ts next s'' in
      if ltb 0 d && leb d pause
      then (if env.left (suc s.asked) then some (gone_napping, s'') else again)
      else next s'

  -- The body of the loop over the names.
  unfoldable pub on_name : Bool → Bytes → Loop → Loop
  on_name first name rest tried seen s =
      let (p, ts) = order (env.now s.asked) s.pool (route c name) in
      let s' = record s { pool = p; asked = suc s.asked } in
      let next : State → Option (Answer × State) = rest (name ∷ tried) (seen ++ ts) in
      let done = try_walk ts (λ u. if first then after_nap ts next u else next u) s' in
      if tried_before name tried then rest tried seen s else done

  -- After the loop: nothing served the request.
  unfoldable pub finish : Loop
  finish tried seen s =
      let (p, d) = soonest (env.now s.asked) s.pool (map prov_of seen) in
      some (exhausted d, record s { pool = p; asked = suc s.asked })

  unfoldable pub names_loop : List Bytes → Loop
  names_loop [] = finish
  names_loop (name ∷ names) = on_name false name (names_loop names)

  -- `dispatch`.
  unfoldable pub dispatch : Bytes → State → Option (Answer × State)
  dispatch name s = on_name true name (names_loop c.fallback) [] [] s
