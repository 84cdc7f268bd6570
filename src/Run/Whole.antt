-- ===== src/Run/Whole.antt =====
-- A process from its start to its exit: its pages and what the next process finds.
use omny.Handler.Pages.{IsAnswer}
use omny.Base.{
  update, bytes_eq, Bool-cases, false, Bool-cases, update, false, bytes_eq, ℕ, ◌≡◌, Bool, true,
  List, [], ◌∷◌, Option, some, Bytes,
}
use omny.Config.{Config}
use omny.Pool.{Pool}
use omny.Pool.Reload.{new_pool}
use omny.Pool.Traffic.Ledger.{Ledger}
use omny.Proxy.{Waits}
use omny.Admission.{empty}
use omny.Body.{Decoder, Want}
use omny.State.{Saved, Calls, snapshot, resume}
use omny.Serve.{reload}
use omny.Serve.Living.{IsReady}
use omny.Chat.{Reader}
use omny.Handler.{Gateway, Page}
use omny.Handler.Serving.{IsMeant}
use omny.Run.{
  without_pid, marks_pid, or_kept, marks_pid, without_pid, reload, or_kept, Event, asks, hangs_up,
  ticks, Ended, life, begun,
}

module _ (split_host_port : Bytes → Option Bytes) (parse_url : Bytes → Option (Bytes × Bytes))
    (blank : Bytes → Bool) (parse : Bytes → Option Config) (encode : Saved → Bytes)
    (decode : Bytes → Option Saved) (fp canonical quote : Bytes → Bytes) (patience : ℕ)
    {U D : Type 0} (reader : Reader U) (dec : Bytes → Decoder D) (peek : Bytes → Option Want)
    (waits : Waits) (pause : ℕ) (run_id : Bytes) (base36 : ℕ → Bytes)
    (serve_mux : List Bytes → Bytes → Option Bytes) (has_null : Bytes → Bool) where
  -- A gateway that can answer and holds no memory of a request.
  abbrev pub IsIdle : Gateway → Type 0
  IsIdle g =
      IsReady fp split_host_port parse_url blank parse waits pause g.server × (g.memory ≡ empty)

  -- No file that a reload reads has a null provider.
  abbrev pub NoNulls : List (Event U) → Type 0
  NoNulls [] = Unit {0}
  NoNulls (asks call ∷ es) = NoNulls es
  NoNulls (hangs_up b ∷ es) = (has_null b ≡ false) × NoNulls es
  NoNulls (ticks calls ∷ es) = NoNulls es

  -- The pages are the answers to the requests, in their order, each of the gateway that the events
  -- before it left.
  abbrev pub Answers : List (Event U) → Gateway → List Page → Type 0
  Answers [] g pages = pages ≡ []
  Answers (asks call ∷ es) g pages =
      (x : Page × Gateway) × (rest : List Page) × (pages ≡ x.0 ∷ rest)
      × IsMeant x.0
      × IsAnswer fp canonical quote patience reader dec peek waits pause run_id base36 serve_mux
          call g x
      × Answers es x.1 rest
  Answers (hangs_up b ∷ es) g pages =
      Answers es
        (record g { server = (reload fp split_host_port parse_url blank parse b g.server).0 }) pages
  Answers (ticks calls ∷ es) g pages = Answers es g pages

  abbrev Lives : List (Event U) → Gateway → Type 0
  Lives es g =
      (pages : List Page) × (saves : List (Calls × Pool)) × (t : Gateway) × (life split_host_port
          parse_url blank parse encode decode fp canonical quote patience reader dec peek waits
          pause run_id base36 serve_mux has_null es g
        ≡ some (pages, saves, t))
      × Answers es g pages
      × IsIdle t

  -- What is to be shown of a process that began with a gateway: the pages that answer its requests, an
  -- accepted configuration and no memory held at the end, and a last save that the next process takes
  -- over.
  pub record IsWhole (c : Config) (es : List (Event U)) (g : Gateway) (e : Ended) : Type 0 where
    pub answers : Answers es g e.pages
    pub idle : IsIdle e.gateway
    pub resumes :
        (later : ℕ) (d : Config)
        → e.saved ≡ true
        → d.state ≡ e.gateway.server.pool.path
        → bytes_eq c.pid d.state ≡ false
        → decode (encode (snapshot e.gateway.server.pool)) ≡ some (snapshot e.gateway.server.pool)
        → (begun encode decode fp e.after later d).server.pool
          ≡ resume (snapshot e.gateway.server.pool) (new_pool fp later d)
