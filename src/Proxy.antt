-- ===== src/Proxy.antt =====
-- internal/omny/proxy.go: `attempt`, `once` and `walk`, the failover over a list of targets. The
-- network, the client and the clock are an environment that answers the n-th question put to it.
pub mod Settling
pub mod Failover
pub mod Commit
use omny.Base.{
  ℕ, suc, ◌+◌, ◌≤◌, Bool, true, false, ◌&&◌, ◌||◌, List, [], ◌∷◌, Option, none, some, Bytes,
  bytes_eq, ltb, leb, ◌==◌, if◌then◌else◌, ◌>>=◌, get_elem?,
}
use omny.Config.{Provider, budget}
use omny.Key.{Key, Spend}
use omny.Pool.{Pool, pick, fail, sour, done, charge, talks, hush, ok}
use omny.Order.{tighten}
use omny.Route.{Target}

-- `failure`, without its text.
pub record Failure : Type 0 where
  pub code : ℕ
  pub retry : ℕ

-- `failure.mine`: the client's own mistake.
unfoldable pub mine : Failure → Bool
mine f = f.code == 400 || f.code == 422

-- The request that `once` sends, and what it is sent with.
pub record Request : Type 0 where
  pub key : Bytes
  pub target : Target
  pub provider : Provider
  pub meter : Bool
  pub within : ℕ

-- What comes of it: no request can be built or the round trip fails, or a response has a status, a
-- reset hint, what the gate made of the body (a usage, if it named one) and whether the timer was
-- still running then.
pub data Response : Type 0 where
  unreachable : Response
  response : ℕ → ℕ → Option (Option Spend) → Bool → Response

-- How `relay` ends: all written, the client's side broke, or the upstream's.
pub data Relayed : Type 0 where
  written write_failed read_failed : Relayed

pub record Env : Type 0 where
  -- the answer to a request, the time to its first token, and the usage sniffed from a stream
  pub up : ℕ → Request → Response
  pub took : ℕ → ℕ
  pub sniffed : ℕ → Option Spend
  -- the clock, whether the client is gone, and the end of a relay
  pub now : ℕ → ℕ
  pub left : ℕ → Bool
  pub relayed : ℕ → Relayed

-- The waits of `server`.
pub record Waits : Type 0 where
  pub ttft : ℕ
  pub idle : ℕ
  pub floor : ℕ

-- `trace`, as far as `walk` writes it.
pub record Trace : Type 0 where
  pub tries : ℕ
  pub prov : Bytes
  pub key : Bytes
  pub sent : Bytes
  pub ttft : ℕ

pub record State : Type 0 where
  pub pool : Pool
  pub asked : ℕ
  pub trace : Trace

-- The end of a walk: a reply was committed or the client left, the client's request was refused
-- upstream, or no target took it.
pub data End : Type 0 where
  ended_ok ended_gone ended_truncated unserved : End
  rejected : ℕ → End

pub data Outcome : Type 0 where
  token : ℕ → Option Spend → Outcome
  failed : Failure → Outcome

-- `once` from the answer on, with `flunk`: a first token or a failure.
unfoldable pub judge : ℕ → Response → Outcome
judge took unreachable = failed (record { code = 0; retry = 0 })
judge took (response code retry gated timely) =
    if leb 400 code then failed (record { code = code; retry = retry }) else elim gated [
      | none ↦ failed (record { code = code; retry = retry })
      | some used ↦
          if timely then token took used else failed (record { code = code; retry = retry })
    ]

-- `result.cost`: the usage that the gate found, or else that of the sniffed tail.
unfoldable pub cost : Option Spend → Option Spend → Option Spend
cost none tail = tail
cost (some s) tail = some s

-- The failure of a metered request that may be tried again without the injected field.
unfoldable pub unmetered : Outcome → Bool
unmetered (token _ _) = false
unmetered (failed f) = f.code == 400

-- A provider that answers only without the field is remembered.
unfoldable pub note_mute : Bytes → Outcome × State → Outcome × State
note_mute prov (token d u, s) = (token d u, record s { pool = hush s.pool prov })
note_mute prov (failed f, s) = (failed f, s)

unfoldable pub tried_before : Bytes → List Bytes → Bool
tried_before prov [] = false
tried_before prov (p ∷ ps) = bytes_eq p prov || tried_before prov ps

module _ (env : Env) (waits : Waits) (stream : Bool) where
  -- `once`; `none` is the panic of a target without a provider.
  unfoldable pub once : State → Key → Target → Bool → Option (Outcome × State)
  once s k t meter = t.place >>= λ p.
      let within =
        if stream then tighten k (budget p waits.ttft) waits.floor else budget p waits.idle in
      let answer =
        env.up s.asked
          (record { key = k.val; target = t; provider = p; meter = meter; within = within }) in
      some (judge (env.took s.asked) answer, record s { asked = suc s.asked })

  -- `attempt`.
  unfoldable pub attempt : State → Key → Target → Option (Outcome × State)
  attempt s k t =
      let meter = stream && talks s.pool t.prov in
      once s k t meter >>= λ r.
      if meter && unmetered r.0
      then (once r.1 k t false >>= λ r'. some (note_mute t.prov r'))
      else some r

  abbrev pub Walk : Type 0
  Walk = List Bytes → State → Option (End × State)

  -- After a failed attempt with the key at `a`: the rest of the targets, or the end.
  unfoldable pub on_failure : ℕ → Failure → Walk → Walk
  on_failure a f rest tried s =
      if env.left s.asked
      then some (ended_gone, record s { pool = done s.pool a; asked = suc s.asked })
      else fail (env.now s.asked) s.pool a f.code f.retry >>= λ r.
          let s' = record s { pool = r.0; asked = suc s.asked } in
          if mine f then some (rejected f.code, s') else rest tried s'

  -- After the relay of a reply.
  unfoldable pub on_relayed : ℕ → Relayed → State → Option (End × State)
  on_relayed a written s = some (ended_ok, s)
  on_relayed a write_failed s = some (ended_gone, s)
  on_relayed a read_failed s =
      if env.left s.asked
      then some (ended_gone, s)
      else sour (env.now s.asked) s.pool a >>= λ r. some (ended_truncated, record s { pool = r.0 })

  -- After a first token: `ok`, the relay, and `charge`.
  unfoldable pub on_token : ℕ → ℕ → Option Spend → State → Option (End × State)
  on_token a ttft used s = ok (env.now s.asked) s.pool a ttft >>= λ r.
      let tr = s.trace in
      let n = suc s.asked in
      on_relayed a (env.relayed n) (record s {
        pool = charge (env.now n) r.0 a (cost used (env.sniffed n));
        asked = suc n;
        trace = record tr { ttft = ttft };
      })

  -- What `walk` makes of an attempt with the key at `a`.
  unfoldable pub on_outcome : ℕ → Walk → List Bytes → Outcome × State → Option (End × State)
  on_outcome a rest tried (token ttft used, s) = on_token a ttft used s
  on_outcome a rest tried (failed f, s) = on_failure a f rest tried s

  -- The body of the loop, with the key that `pick` granted.
  unfoldable pub on_key : ℕ → Target → Walk → Walk
  on_key a t rest tried s = get_elem? s.pool.cells a >>= λ k.
      let tr = s.trace in
      let s' = record s {
        trace = record tr { tries = tr.tries + 1; prov = t.prov; key = k.id; sent = t.model };
      } in
      attempt s' k t >>= on_outcome a rest tried

  unfoldable pub on_target : Target → Walk → Walk
  on_target t rest tried s =
      if tried_before t.prov tried
      then rest tried s
      else pick (env.now s.asked) s.pool t.prov >>= λ r.
          let s' = record s { pool = r.1; asked = suc s.asked } in
          elim r.0 [ none ↦ rest tried s' | some a ↦ on_key a t rest (t.prov ∷ tried) s' ]

  -- `walk`.
  unfoldable pub walk : List Target → Walk
  walk [] tried s = some (unserved, s)
  walk (t ∷ ts) tried s = on_target t (walk ts) tried s
