-- ===== src/Handler.antt =====
-- internal/omny/serve.go: `mux`, `guard`, `shield` and the handlers behind them, with proxy.go `chat`.
-- The choice among the patterns is that of net/http's ServeMux, an argument; pages are the values that
-- `send` encodes. `none` is a panic.
pub mod Pages
pub mod Serving
use omny.Base.{
  ℕ, Bool, true, false, List, [], ◌∷◌, Option, none, some, Bytes, bytes, bytes_eq, lookup, map,
  if◌then◌else◌, ◌>>=◌,
}
use omny.Config.{Config}
use omny.Pool.{Pool, roll, ready}
use omny.Loader.{is_empty}
use omny.Access.{guard}
use omny.Admission.{Admission}
use omny.Body.{Decoder, Want, Plan}
use omny.Proxy.{Env, Waits}
use omny.Probe.{Depth, shallow, deep, Ping, Dialed, Shot, asked, jobs, collect}
use omny.Report.{Bill, Card, bill, report}
use omny.Serve.{Server, models, reload}
use omny.Chat.{Out, Reply, refuse, Reader, mark, chat}

-- `server`, with the counters beside its configuration and pool.
pub record Gateway : Type 0 where
  pub server : Server
  pub memory : Admission
  pub seq : ℕ

-- A request as the handlers see it: its line, its headers Authorization and X-Request-Id, its value of
-- `probe`, its body, and the time and the network that it meets, with the order in which the
-- goroutines of a probe end.
pub record Call (U : Type 0) : Type 0 where
  pub line : Bytes
  pub auth : Bytes
  pub id : Bytes
  pub depth : Bytes
  pub upload : U
  pub now : ℕ
  pub net : Plan → Env
  pub dial : ℕ → Ping → Dialed
  pub shuffle : List (Bytes × Shot) → List (Bytes × Shot)

-- What is written: a text, a refusal, an answer of `chat` with its id and outcome, a page of ids, of
-- cards (told whether the cost of a probe is announced) or of the bill, or what the ServeMux writes of
-- a request that no pattern matches.
pub data Page : Type 0 where
  plain : Bytes → Page
  turned_away : Reply → Page
  told : Bytes → Out → Reply → Page
  models_page : List Bytes → Page
  status_page : Bool → List (Card × Option Shot) → Page
  usage_page : Bill → Page
  unrouted : Page

pub data Endpoint : Type 0 where
  at_healthz at_readyz at_chat at_models at_status at_usage : Endpoint

-- `mux`.
abbrev pub patterns : List (Bytes × Endpoint)
patterns =
    (bytes "GET /healthz", at_healthz)
    ∷ (bytes "GET /readyz", at_readyz)
    ∷ (bytes "POST /v1/chat/completions", at_chat)
    ∷ (bytes "GET /v1/models", at_models)
    ∷ (bytes "GET /status", at_status)
    ∷ (bytes "GET /usage", at_usage)
    ∷ []

-- The cases of `status`: an error, no probe, or a probe of a depth.
unfoldable pub depth_of : Bytes → Option (Option Depth)
depth_of d =
    if is_empty d
    then some none
    else if bytes_eq d (bytes "models")
    then some (some shallow)
    else if bytes_eq d (bytes "chat")
    then some (some deep)
    else none

-- The loop over the cards.
unfoldable pub with_shots : List (Bytes × Shot) → List Card → List (Card × Option Shot)
with_shots got [] = []
with_shots got (c ∷ cards) = (c, lookup c.key got) ∷ with_shots got cards

unfoldable pub costs : Depth → Bool
costs shallow = false
costs deep = true

-- `shield`: a panic becomes a response.
unfoldable pub shield : Option (Page × Gateway) → Page
shield none = turned_away (refuse 500 none)
shield (some (page, g)) = page

module _ (fp canonical quote : Bytes → Bytes) (patience : ℕ) where
  -- `status`, of the rolled pool's cards.
  unfoldable pub status_at :
      {U : Type 0} → Call U → Config → List Card → Option (Option Depth) → Page
  status_at call c cards none = turned_away (refuse 400 none)
  status_at call c cards (some none) = status_page false (with_shots [] cards)
  status_at call c cards (some (some depth)) =
      let shots = jobs canonical quote call.dial fp patience (asked c) depth c.providers in
      status_page (costs depth) (with_shots (collect (call.shuffle shots) []) cards)

  unfoldable pub status : {U : Type 0} → Call U → Server → Page × Pool
  status call s =
      let (p, cards) = report call.now s.pool in
      (status_at call s.config cards (depth_of call.depth), p)

  module _ {U D : Type 0} (reader : Reader U) (dec : Bytes → Decoder D) (peek : Bytes → Option Want)
      (waits : Waits) (pause : ℕ) (run : Bytes) (base36 : ℕ → Bytes)
      (serve_mux : List Bytes → Bytes → Option Bytes) where
    -- The handlers behind the guard.
    unfoldable pub enter : Endpoint → Call U → Gateway → Option (Page × Gateway)
    enter at_healthz call g = some (plain (bytes "ok\n"), g)
    enter at_readyz call g =
        let s = g.server in
        let page =
          if ready call.now s.pool
          then plain (bytes "ready\n")
          else turned_away (refuse 503 none) in
        some (page, record g { server = record s { pool = roll call.now s.pool } })
    enter at_chat call g =
        let (id, seq) = mark run base36 call.id g.seq in
        chat reader dec peek waits pause call.net call.upload g.server g.memory >>= λ (r, s, m).
        some (told id r.0 r.1, record { server = s; memory = m; seq = seq })
    enter at_models call g = some (models_page (models g.server.config.aliases), g)
    enter at_status call g =
        let s = g.server in
        let (page, p) = status call s in some (page, record g { server = record s { pool = p } })
    enter at_usage call g =
        let s = g.server in
        let (p, b) = bill call.now s.pool in
        some (usage_page b, record g { server = record s { pool = p } })

    -- `guard`.
    unfoldable pub guarded : Endpoint → Call U → Gateway → Option (Page × Gateway)
    guarded e call g = elim (guard g.server.config call.auth) [
      | none ↦ some (turned_away (refuse 401 none), g)
      | some name ↦ enter e call g
    ]

    unfoldable pub route_call : Option Endpoint → Call U → Gateway → Option (Page × Gateway)
    route_call none call g = some (unrouted, g)
    route_call (some e) call g = guarded e call g

    -- The pattern that the ServeMux chooses, and its handler.
    unfoldable pub handle : Call U → Gateway → Option (Page × Gateway)
    handle call g =
        route_call (serve_mux (map (λ r. r.0) patterns) call.line >>= λ pat. lookup pat patterns)
          call g
