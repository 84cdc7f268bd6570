-- ===== src/Run.antt =====
-- internal/omny/run.go, `Run`: a process from its start to its last save. The requests, the hangups
-- and the ticks of the flusher are one list, each of them whole; the orders in which their accesses to
-- the pool interleave are those of Pool.Traffic. The file is read by `Load`. Logging is left out.
pub mod Resuming
pub mod Quota
pub mod Whole
use omny.Base.{
  ℕ, Bool, true, false, ◌&&◌, not, List, [], ◌∷◌, ◌++◌, Option, none, some, Bytes, bytes, update,
  if◌then◌else◌, ◌>>=◌,
}
use omny.Config.{Config}
use omny.Pool.{Pool}
use omny.Loader.{is_empty, load}
use omny.Admission.{empty}
use omny.Body.{Decoder, Want}
use omny.Proxy.{Waits}
use omny.State.{Saved, Files, Calls, restore}
use omny.State.Atomic.{final}
use omny.State.Flushing.{flush}
use omny.Serve.{Server, new_server, reload}
use omny.Chat.{Reader}
use omny.Handler.{Gateway, Call, Page, handle}

-- A request, a hangup with the bytes that the configuration file has then, or a tick of the flusher
-- with the fate of its calls.
pub data Event (U : Type 0) : Type 0 where
  asks : Call U → Event U
  hangs_up : Bytes → Event U
  ticks : Calls → Event U

-- The process around the server: its number, whether the pidfile can be written and removed, whether
-- the address can be bound, and the result of the shutdown.
pub record World : Type 0 where
  pub pid : Bytes
  pub pid_written : Bool
  pub pid_removed : Bool
  pub bound : Bool
  pub shut : Bool

-- How a process ends: the pages that it wrote, the files when the saves begin, the files after each
-- call of the saves and whether the last save succeeded, the files at the exit, whether `Run` returned
-- nil, and the gateway.
pub record Ended : Type 0 where
  pub pages : List Page
  pub before : Files
  pub saves : List Files
  pub saved : Bool
  pub after : Files
  pub fine : Bool
  pub gateway : Gateway

pub data Start : Type 0 where
  no_start : Start
  ended : Ended → Start

-- `s.pool.restore()`, whose error is only logged.
unfoldable pub or_kept : Pool → Option Pool → Pool
or_kept p none = p
or_kept p (some q) = q

-- Whether the pidfile is written, and so removed at the end.
unfoldable pub marks_pid : World → Config → Bool
marks_pid w c = not (is_empty c.pid) && w.pid_written

unfoldable pub with_pid : World → Config → Files → Files
with_pid w c fs = if marks_pid w c then update fs c.pid (some (w.pid ++ bytes "\n")) else fs

unfoldable pub without_pid : World → Config → Files → Files
without_pid w c fs = if marks_pid w c && w.pid_removed then update fs c.pid none else fs

module _ (encode : Saved → Bytes) (decode : Bytes → Option Saved) where
  -- The gateway before it listens.
  unfoldable pub begun : (Bytes → Bytes) → Files → ℕ → Config → Gateway
  begun fp fs now c =
      let s = new_server fp now c in
      record {
        server = record s { pool = or_kept s.pool (restore encode decode fs s.pool) };
        memory = empty;
        seq = 0;
      }

  -- From the end of listening on: the last save, and the removal of the pidfile.
  unfoldable pub leave :
      World → Config → Files → Calls → List Page × List (Calls × Pool) × Gateway → Ended
  leave w c listening stop (pages, saves, g) =
      let (states, saved) = flush encode decode saves (stop, g.server.pool) listening in
      record {
        pages = pages;
        before = listening;
        saves = states;
        saved = saved;
        after = without_pid w c (final listening states);
        fine = w.bound && w.shut;
        gateway = g;
      }

module _ (split_host_port : Bytes → Option Bytes) (parse_url : Bytes → Option (Bytes × Bytes))
    (blank : Bytes → Bool) (parse : Bytes → Option Config) (encode : Saved → Bytes)
    (decode : Bytes → Option Saved) (fp canonical quote : Bytes → Bytes) (patience : ℕ)
    {U D : Type 0} (reader : Reader U) (dec : Bytes → Decoder D) (peek : Bytes → Option Want)
    (waits : Waits) (pause : ℕ) (run_id : Bytes) (base36 : ℕ → Bytes)
    (serve_mux : List Bytes → Bytes → Option Bytes) (has_null : Bytes → Bool) where
  -- What happens while the server listens: the pages, and the pool at each tick. A panic is `none`.
  unfoldable pub life :
      List (Event U) → Gateway → Option (List Page × List (Calls × Pool) × Gateway)
  life [] g = some ([], [], g)
  life (asks call ∷ es) g =
      handle fp canonical quote patience reader dec peek waits pause run_id base36 serve_mux call g
      >>= λ (page, t). life es t >>= λ (pages, saves, u). some (page ∷ pages, saves, u)
  life (hangs_up b ∷ es) g =
      let r = reload fp split_host_port parse_url blank parse b g.server in
      elim (has_null b) [ true ↦ none | false ↦ life es (record g { server = r.0 }) ]
  life (ticks calls ∷ es) g =
      life es g >>= λ (pages, saves, u). some (pages, (calls, g.server.pool) ∷ saves, u)

  -- `Run`, from the loaded configuration on.
  unfoldable pub run_with : World → Files → ℕ → List (Event U) → Calls → Config → Option Start
  run_with w fs now es stop c =
      life (if w.bound then es else []) (begun encode decode fp fs now c) >>= λ r.
      some (ended (leave encode decode w c (with_pid w c fs) stop r))

  -- `Run`, of the bytes of the configuration file. Where a provider of the file is null, `check` reads
  -- a field of nil, here and in a reload, which is a panic.
  unfoldable pub run : World → Files → ℕ → List (Event U) → Calls → Bytes → Option Start
  run w fs now es stop b = elim (has_null b) [
    | true ↦ none
    | false ↦ elim (load split_host_port parse_url blank parse b) [
      | none ↦ some no_start
      | some c ↦ run_with w fs now es stop c
    ]
  ]
