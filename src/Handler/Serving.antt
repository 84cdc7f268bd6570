-- ===== src/Handler/Serving.antt =====
-- One request to the gateway: what it is told, and what it leaves.
use omny.Base.{
  if◌then◌else◌, ℕ, ◌≡◌, refl, sym, ◌∙◌, subst, ◌⊎◌, inl, inr, Bool, true, false, List, Option,
  none, some, Bytes, bytes, lookup, map, Option-cases, none_ne_some, ◌>>=◌,
}
use omny.Config.{Config}
use omny.Pool.{roll, ready}
use omny.Proxy.{Waits}
use omny.Dispatch.Answering.{roll-Inv}
use omny.Access.{guard}
use omny.Body.{Decoder, Want}
use omny.Body.Locating.{Reads}
use omny.Report.{Card, bill, report}
use omny.Loader.Accepted.{IsAccepted}
use omny.Serve.{Server}
use omny.Serve.Living.{IsReady}
use omny.Chat.{refuse, kind_of, Reader, mark, out_busy}
use omny.Chat.Replies.{IsProper}
use omny.Chat.Holding.{chat-IsTold}
use omny.Handler.Pages.{IsAnswer, handle-IsAnswer}
use omny.Handler.{
  Gateway, Call, Page, plain, turned_away, told, unrouted, Endpoint, at_healthz, at_readyz, at_chat,
  at_models, at_status, at_usage, patterns, depth_of, status_at, status, enter, guarded, route_call,
  handle,
}

-- A refusal has its code's type, and none is the 500 of a panic.
abbrev pub IsMeant : Page → Type 0
IsMeant (turned_away r) = (r ≡ refuse 400 none) ⊎ (r ≡ refuse 401 none) ⊎ (r ≡ refuse 503 none)
IsMeant (told id out r) = IsProper r
IsMeant _ = Unit {0}

busy : IsProper (refuse 503 none)
unfolding refuse kind_of
busy = inl (refl, refl, λ n e. absurd (none_ne_some e))

ready-IsMeant :
    (ok : Bool) → IsMeant (if ok then plain (bytes "ready\n") else turned_away (refuse 503 none))
ready-IsMeant true = tt
ready-IsMeant false = inr (inr refl)

module _ (split_host_port : Bytes → Option Bytes) (parse_url : Bytes → Option (Bytes × Bytes))
    (blank : Bytes → Bool) (parse : Bytes → Option Config) (fp canonical quote : Bytes → Bytes)
    (patience : ℕ) {U D : Type 0} (reader : Reader U) (dec : Bytes → Decoder D)
    (peek : Bytes → Option Want) (waits : Waits) (pause : ℕ) (run : Bytes) (base36 : ℕ → Bytes)
    (serve_mux : List Bytes → Bytes → Option Bytes) where
  abbrev Ready : Server → Type 0
  Ready s = IsReady fp split_host_port parse_url blank parse waits pause s

  -- What is to be shown of every request: refusals with their types, the configuration and the memory as
  -- before, and a server that can answer the next one.
  pub record IsServed (g : Gateway) (r : Page × Gateway) : Type 0 where
    pub meant : IsMeant r.0
    pub config : r.1.server.config ≡ g.server.config
    pub memory : r.1.memory ≡ g.memory
    pub steady : Ready r.1.server

  -- A handler that only rolls the pool.
  rolled-IsServed :
      (g : Gateway) (page : Page) (now : ℕ)
      → IsMeant page
      → Ready g.server
      → IsServed g (page, record g { server = record g.server { pool = roll now g.server.pool } })
  rolled-IsServed g page now h r = record {
    meant = h;
    config = refl;
    memory = refl;
    steady = record {
      accepted = r.accepted;
      served = r.served;
      settled = roll-Inv now g.server.pool r.served r.settled;
    };
  }

  -- A handler that changes nothing.
  same-IsServed : (g : Gateway) (page : Page) → IsMeant page → Ready g.server → IsServed g (page, g)
  same-IsServed g page h r = record { meant = h; config = refl; memory = refl; steady = r }

  module _ (call : Call U) (g : Gateway) (reads : (b : Bytes) → Reads (dec b) b)
      (r : Ready g.server) where
    abbrev Serves : Option (Page × Gateway) → Type 0
    Serves o = (x : Page × Gateway) × (o ≡ some x) × IsServed g x

    status-IsMeant :
        (cards : List Card)
        → IsMeant
            (status_at fp canonical quote patience call g.server.config cards (depth_of call.depth))
    unfolding status_at
    status-IsMeant cards = elim (Option-cases (depth_of call.depth)) [
      | inl e ↦ rw (e, status_at) (inl refl)
      | inr (none, e) ↦ rw (e, status_at) tt
      | inr (some d, e) ↦ rw (e, status_at) tt
    ]

    chat-IsServed : Serves (
        enter fp canonical quote patience reader dec peek waits pause run base36 serve_mux at_chat
          call g)
    unfolding enter
    chat-IsServed =
        let id = mark run base36 call.id g.seq in
        elim (chat-IsTold fp reader dec peek waits pause call.net call.upload g.server r.served
          r.accepted.routable r.settled g.memory reads) [
            | inl (_, e) ↦ (
              (told id.0 out_busy (refuse 503 none), record g { seq = id.1 }),
              rw e refl,
              record { meant = busy; config = refl; memory = refl; steady = r },
            )
            | inr (x, e, t) ↦ (
              (told id.0 x.0.0 x.0.1, record { server = x.1; memory = g.memory; seq = id.1 }),
              rw e refl,
              record {
                meant = t.proper;
                config = t.config;
                memory = refl;
                steady = record {
                  accepted =
                      subst (IsAccepted split_host_port parse_url blank) (sym t.config) r.accepted;
                  served = t.served;
                  settled = t.settled;
                };
              },
            )
          ]

    enter-IsServed :
        (e : Endpoint)
        → Serves (
            enter fp canonical quote patience reader dec peek waits pause run base36 serve_mux e
              call g)
    unfolding enter status bill report
    enter-IsServed at_healthz = (_, refl, same-IsServed g _ tt r)
    enter-IsServed at_readyz =
        (_, refl, rolled-IsServed g _ call.now (ready-IsMeant (ready call.now g.server.pool)) r)
    enter-IsServed at_chat = chat-IsServed
    enter-IsServed at_models = (_, refl, same-IsServed g _ tt r)
    enter-IsServed at_status = (_, refl, rolled-IsServed g _ call.now (status-IsMeant _) r)
    enter-IsServed at_usage = (_, refl, rolled-IsServed g _ call.now tt r)

    -- Who is not let in gets a refusal, and changes nothing.
    abbrev pub IsLocked : Page × Gateway → Type 0
    IsLocked x =
        guard g.server.config call.auth ≡ none
        → (x.1 ≡ g) × ((x.0 ≡ turned_away (refuse 401 none)) ⊎ (x.0 ≡ unrouted))

    abbrev pub Handles : Option (Page × Gateway) → Type 0
    Handles o =
        (x : Page × Gateway) × (o ≡ some x)
        × IsServed g x
        × IsLocked x
        × IsAnswer fp canonical quote patience reader dec peek waits pause run base36 serve_mux call
            g x

    -- The same without the page of the pattern.
    abbrev Lets : Option (Page × Gateway) → Type 0
    Lets o = (x : Page × Gateway) × (o ≡ some x) × IsServed g x × IsLocked x

    guarded-Lets :
        (e : Endpoint)
        → Lets (
            guarded fp canonical quote patience reader dec peek waits pause run base36 serve_mux e
              call g)
    unfolding guarded
    guarded-Lets e = elim (Option-cases (guard g.server.config call.auth)) [
      | inl f ↦ (
        (turned_away (refuse 401 none), g),
        rw (f, guarded) refl,
        same-IsServed g _ (inr (inl refl)) r,
        λ _. (refl, inl refl),
      )
      | inr (name, f) ↦
          let (x, h, i) = enter-IsServed e in
          (x, rw (f, guarded) h, i, λ k. absurd (none_ne_some (sym k ∙ f)))
    ]

    handle-Lets :
        Lets (
          handle fp canonical quote patience reader dec peek waits pause run base36 serve_mux call
            g)
    unfolding handle route_call
    handle-Lets =
        elim (Option-cases
          (serve_mux (map (λ r. r.0) patterns) call.line >>= λ pat. lookup pat patterns)) [
            | inl e ↦ (
              (unrouted, g),
              rw (e, route_call) refl,
              same-IsServed g _ tt r,
              λ _. (refl, inr refl),
            )
            | inr (p, e) ↦ let (x, h, i, j) = guarded-Lets p in (x, rw (e, route_call) h, i, j)
          ]

    -- Every request to a server that can answer is answered without a panic, and the answer is that of
    -- the pattern that the ServeMux chooses for the request's line. Where the guard lets it in: for
    -- healthz "ok"; for readyz "ready" or a refusal with 503, by whether the rolled pool is ready; for a
    -- chat request the reply, outcome, server and memory of `chat`, under the request's id; for models
    -- the aliases and their entries, ascending; for usage the bill; for status a refusal with 400 where
    -- `probe` is neither absent nor `models` nor `chat`, else the report's card of each key with what the
    -- probe that was asked for found of it, with its cost announced for `chat` only. Who bears no token
    -- gets 401 or the page of no pattern, and changes nothing. Every refusal has the type of its code.
    -- After the request the configuration and the memory are as before, and the server can answer the
    -- next one.
    -- It is a condition that the decoder of a body keeps its offset in the body and grows it with each
    -- token.
    pub handle-IsServed :
        Handles (
          handle fp canonical quote patience reader dec peek waits pause run base36 serve_mux call
            g)
    handle-IsServed =
        let (x, h, i, j) = handle-Lets in
        (
          x,
          h,
          i,
          j,
          handle-IsAnswer fp canonical quote patience reader dec peek waits pause run base36
              serve_mux call g x h,
        )
