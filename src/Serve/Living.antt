-- ===== src/Serve/Living.antt =====
-- A server from request to request and from reload to reload.
use omny.Base.{
  subst, sym, pair_inj, some_inj, ℕ, ◌≡◌, refl, Bool, List, [], ◌∷◌, Option, none, some, Bytes,
  Option-cases, inl, inr,
}
use omny.Config.{Config}
use omny.Pool.Traffic.Invariant.{Inv}
use omny.Pool.Traffic.Ledger.{Ledger, Ledger-Reloadable, start, start-Inv}
use omny.Pool.Traffic.Safety.{reload-Inv}
use omny.Proxy.{Waits, State}
use omny.Proxy.Settling.{idle}
use omny.Dispatch.{Answer, dispatch}
use omny.Dispatch.Answering.{dispatch-IsAnswered}
use omny.Loader.{load}
use omny.Loader.Accepted.{IsAccepted, load-IsAccepted}
use omny.Serve.{
  Server, new_server, Visit, reloads, asks, Outcome, reloaded, refused, answered, fresh, reload,
  visit, live,
}

module _ (fp : Bytes → Bytes) (split_host_port : Bytes → Option Bytes)
    (parse_url : Bytes → Option (Bytes × Bytes)) (blank : Bytes → Bool)
    (parse : Bytes → Option Config) (waits : Waits) (pause : ℕ) where
  -- A server that can answer: its configuration is accepted and no reservation is open.
  pub record IsReady (s : Server) : Type 0 where
    pub accepted : IsAccepted split_host_port parse_url blank s.config
    pub served : List ℕ
    pub settled : Inv Ledger (idle s.pool served)

  -- A request has an answer. A reload leaves the server as it was where the file is refused, and
  -- puts the file's configuration in force where it is accepted.
  abbrev pub IsHandled : Visit → Outcome → Server → Server → Type 0
  IsHandled (asks env stream name) o s t =
      (a : Answer) × (st : State) × (dispatch env waits pause stream s.config name (fresh s.pool)
        ≡ some (a, st))
      × (o ≡ answered a)
      × (t ≡ record s { pool = st.pool })
  IsHandled (reloads b) o s t = elim (load split_host_port parse_url blank parse b) [
    | none ↦ (o ≡ refused) × (t ≡ s)
    | some c ↦ (o ≡ reloaded) × (t.config ≡ c)
  ]

  -- Every visit is handled, each by the server that the one before it left.
  pub data AreHandled : List Visit → List Outcome → Server → Server → Type 0 where
    rests : {s : Server} → AreHandled [] [] s s
    goes :
        {v : Visit} {vs : List Visit} {o : Outcome} {os : List Outcome} {s t u : Server}
        → IsHandled v o s t
        → AreHandled vs os t u
        → AreHandled (v ∷ vs) (o ∷ os) s u

  abbrev pub VisitHandles : Visit → Server → Type 0
  VisitHandles v s =
      (o : Outcome) × (t : Server) × (visit fp split_host_port parse_url blank parse waits pause v s
        ≡ some (o, t))
      × IsHandled v o s t
      × IsReady t

  reload-IsReady : (b : Bytes) (s : Server) → IsReady s → VisitHandles (reloads b) s
  unfolding visit reload
  reload-IsReady b s r = elim (Option-cases (load split_host_port parse_url blank parse b)) [
    | inl e ↦ (refused, s, rw (e, reload) refl, rw (e, IsHandled) (refl, refl), r)
    | inr (c, e) ↦ (
      reloaded,
      _,
      rw (e, reload) refl,
      rw (e, IsHandled) (refl, refl),
      record {
        accepted = load-IsAccepted split_host_port parse_url blank parse b c e;
        served = r.served;
        settled = reload-Inv Ledger Ledger-Reloadable fp (idle s.pool r.served) c r.settled;
      },
    )
  ]

  -- After a reload, of whatever file, the server can answer.
  pub reload_ready :
      (b : Bytes) (s : Server)
      → IsReady s
      → IsReady (reload fp split_host_port parse_url blank parse b s).0
  unfolding visit
  reload_ready b s r =
      let (o, t, e, _, r') = reload-IsReady b s r in
      subst IsReady (sym (pair_inj (some_inj e)).1) r'

  visit-IsReady : (v : Visit) (s : Server) → IsReady s → VisitHandles v s
  unfolding visit fresh
  visit-IsReady (reloads b) s r = reload-IsReady b s r
  visit-IsReady (asks env stream name) s r =
      let (a, st, served, e, w) =
        dispatch-IsAnswered fp env waits pause stream s.config name (fresh s.pool) r.served
          r.accepted.routable r.settled in
      (
        answered a,
        _,
        rw e refl,
        (a, st, e, refl, refl),
        record { accepted = r.accepted; served = served; settled = w },
      )

  live-IsReady :
      (vs : List Visit) (s : Server)
      → IsReady s
      → (os : List Outcome) × (t : Server) × (live fp split_host_port parse_url blank parse waits
            pause vs s
          ≡ some (os, t))
        × AreHandled vs os s t
        × IsReady t
  unfolding live
  live-IsReady [] s r = ([], s, refl, rests, r)
  live-IsReady (v ∷ vs) s r =
      let (o, t, e, h, r') = visit-IsReady v s r in
      let (os, u, f, hs, w) = live-IsReady vs t r' in (o ∷ os, u, rw (e, f) refl, goes h hs, w)

  -- A server that starts with a file that loads handles every sequence of requests and reloads, in any
  -- order and number: no visit panics, each request is answered by the configuration then in force, a
  -- file that does not load changes nothing, and the last configuration is an accepted one.
  pub live-AreHandled :
      (b : Bytes) (now : ℕ) (c : Config) (vs : List Visit)
      → load split_host_port parse_url blank parse b ≡ some c
      → (os : List Outcome) × (t : Server) × (live fp split_host_port parse_url blank parse waits
            pause vs
            (new_server fp now c)
          ≡ some (os, t))
        × AreHandled vs os (new_server fp now c) t
        × IsAccepted split_host_port parse_url blank t.config
  unfolding new_server start
  live-AreHandled b now c vs h =
      let (os, t, e, hs, r) = live-IsReady vs (new_server fp now c) (record {
        accepted = load-IsAccepted split_host_port parse_url blank parse b c h;
        served = [];
        settled = start-Inv Ledger Ledger-Reloadable fp now c;
      }) in
      (os, t, e, hs, r.accepted)
