-- ===== src/Handler/Pages.antt =====
-- The page of each endpoint, for a request that the guard lets in.
use omny.Base.{
  if◌then◌else◌, arith, bytes_eq_iff, subst, ℕ, ◌≡◌, ◌≢◌, refl, sym, ap, ◌∙◌, ◌⊎◌, inl, inr, Bool,
  true, false, List, [], ◌∷◌, Option, none, some, Bytes, bytes, bytes_eq, lookup, map, Bool-cases,
  Option-cases, some_inj, none_ne_some, All,
}
use omny.Pool.{ready}
use omny.Proxy.{Waits}
use omny.Access.{guard}
use omny.Body.{Decoder, Want}
use omny.Probe.{shallow, deep, Shot, asked, jobs, collect}
use omny.Report.{Card, bill, report}
use omny.Loader.{is_empty}
use omny.Chat.Reading.{is_empty-nil, is_empty-ne}
use omny.Serve.{models}
use omny.Serve.Models.{listed, named, IsAscending, models_lem}
use omny.Chat.{Out, Reply, refuse, Reader, mark, chat}
use omny.Handler.{
  Gateway, Call, Page, plain, turned_away, told, models_page, status_page, usage_page, unrouted,
  Endpoint, at_healthz, at_readyz, at_chat, at_models, at_status, at_usage, patterns, depth_of,
  with_shots, costs, status_at, status, enter, guarded, route_call, handle,
}

with_shots-cards :
    (got : List (Bytes × Shot)) (cards : List Card) → map (λ r. r.0) (with_shots got cards) ≡ cards
unfolding with_shots
with_shots-cards got [] = refl
with_shots-cards got (c ∷ cards) = ap (λ x. c ∷ x) (with_shots-cards got cards)

with_shots-shots :
    (got : List (Bytes × Shot)) (cards : List Card)
    → All (λ r. r.1 ≡ lookup r.0.key got) (with_shots got cards)
unfolding with_shots
with_shots-shots got [] = tt
with_shots-shots got (c ∷ cards) = (refl, with_shots-shots got cards)

differs : (b c : Bytes) → bytes_eq b c ≡ false → b ≢ c
differs b c h e = let t = (bytes_eq_iff b c).1 e in ground (arith, t, h)

module _ (fp canonical quote : Bytes → Bytes) (patience : ℕ) {U D : Type 0} (reader : Reader U)
    (dec : Bytes → Decoder D) (peek : Bytes → Option Want) (waits : Waits) (pause : ℕ) (run : Bytes)
    (base36 : ℕ → Bytes) (serve_mux : List Bytes → Bytes → Option Bytes) (call : Call U)
    (g : Gateway) where
  -- What a probe of some depth found, in the order in which its goroutines ended.
  abbrev pub Probed : Bytes → Bool → List (Bytes × Shot) → Type 0
  Probed word cost got =
      ((word ≡ []) × (cost ≡ false) × (got ≡ []))
      ⊎ ((word ≡ bytes "models")
          × (cost ≡ false)
          × (got
              ≡ collect
                  (call.shuffle (
                    jobs canonical quote call.dial fp patience (asked g.server.config) shallow
                      g.server.config.providers))
                  []))
      ⊎ ((word ≡ bytes "chat")
          × (cost ≡ true)
          × (got
              ≡ collect
                  (call.shuffle (
                    jobs canonical quote call.dial fp patience (asked g.server.config) deep
                      g.server.config.providers))
                  []))

  -- The status page has the card of each key in the report, each with what the probe found of it.
  pub record IsStatus (page : Page) : Type 0 where
    pub cost : Bool
    pub got : List (Bytes × Shot)
    pub rows : List (Card × Option Shot)
    pub shown : page ≡ status_page cost rows
    pub cards : map (λ r. r.0) rows ≡ (report call.now g.server.pool).1
    pub shots : All (λ r. r.1 ≡ lookup r.0.key got) rows
    pub probed : Probed call.depth cost got

  abbrev pub Misasked : Bytes → Type 0
  Misasked word = (word ≢ []) × (word ≢ bytes "models") × (word ≢ bytes "chat")

  -- The request is let in, and the ServeMux chooses this pattern.
  abbrev pub Asks : Bytes → Type 0
  Asks pat =
      ((name : Bytes) × (guard g.server.config call.auth ≡ some name))
      × (serve_mux (map (λ r. r.0) patterns) call.line ≡ some pat)

  -- The page of a request, and the gateway that it leaves, by the pattern that it matches.
  pub record IsAnswer (x : Page × Gateway) : Type 0 where
    pub health : Asks (bytes "GET /healthz") → x.0 ≡ plain (bytes "ok\n")
    pub readiness :
        Asks (bytes "GET /readyz")
        → ((ready call.now g.server.pool ≡ true) × (x.0 ≡ plain (bytes "ready\n")))
          ⊎ ((ready call.now g.server.pool ≡ false) × (x.0 ≡ turned_away (refuse 503 none)))
    pub chatting :
        Asks (bytes "POST /v1/chat/completions")
        → (out : Out) × (reply : Reply) × (x.0 ≡ told (mark run base36 call.id g.seq).0 out reply)
          × (chat reader dec peek waits pause call.net call.upload g.server g.memory
              ≡ some ((out, reply), x.1.server, x.1.memory))
    pub listing :
        Asks (bytes "GET /v1/models")
        → (ids : List Bytes) × (x.0 ≡ models_page ids)
          × IsAscending ids
          × ((z : Bytes) → listed z ids ≡ named z g.server.config.aliases)
    pub standing :
        Asks (bytes "GET /status")
        → (Misasked call.depth × (x.0 ≡ turned_away (refuse 400 none))) ⊎ IsStatus x.0
    pub billing : Asks (bytes "GET /usage") → x.0 ≡ usage_page (bill call.now g.server.pool).1
    pub nowhere : serve_mux (map (λ r. r.0) patterns) call.line ≡ none → x.0 ≡ unrouted

  shots_of :
      (cost : Bool) (got : List (Bytes × Shot))
      → Probed call.depth cost got
      → IsStatus (status_page cost (with_shots got (report call.now g.server.pool).1))
  shots_of cost got h = record {
    cost = cost;
    got = got;
    rows = with_shots got (report call.now g.server.pool).1;
    shown = refl;
    cards = with_shots-cards got (report call.now g.server.pool).1;
    shots = with_shots-shots got (report call.now g.server.pool).1;
    probed = h;
  }

  abbrev Stands : Page → Type 0
  Stands page = (Misasked call.depth × (page ≡ turned_away (refuse 400 none))) ⊎ IsStatus page

  status-Stands : Stands (status fp canonical quote patience call g.server).0
  unfolding status status_at depth_of costs
  status-Stands = elim (Bool-cases (is_empty call.depth)) [
    | inl e ↦
        rw (e, status, status_at, depth_of)
          (inr (shots_of false [] (inl (is_empty-nil call.depth e, refl, refl))))
    | inr e ↦ elim (Bool-cases (bytes_eq call.depth (bytes "models"))) [
      | inl f ↦
          rw (e, f, status, status_at, depth_of, costs)
            (inr (shots_of false _ (inr (inl ((bytes_eq_iff call.depth _).0 f, refl, refl)))))
      | inr f ↦ elim (Bool-cases (bytes_eq call.depth (bytes "chat"))) [
        | inl h ↦
            rw (e, f, h, status, status_at, depth_of, costs)
              (inr (shots_of true _ (inr (inr ((bytes_eq_iff call.depth _).0 h, refl, refl)))))
        | inr h ↦
            rw (e, f, h, status, status_at, depth_of)
              (inl
                ((is_empty-ne call.depth e, differs call.depth _ f, differs call.depth _ h), refl))
      ]
    ]
  ]

  -- A request that is let in is answered by the handler of the pattern that it matches.
  handle-enter :
      (pat : Bytes) (e : Endpoint)
      → Asks pat
      → lookup pat patterns ≡ some e
      → handle fp canonical quote patience reader dec peek waits pause run base36 serve_mux call g
        ≡ enter fp canonical quote patience reader dec peek waits pause run base36 serve_mux e call
            g
  unfolding handle route_call guarded
  handle-enter pat e ((name, f), m) h = rw (handle, m, h, route_call, guarded, f) refl

  lost :
      serve_mux (map (λ r. r.0) patterns) call.line ≡ none
      → handle fp canonical quote patience reader dec peek waits pause run base36 serve_mux call g
        ≡ some (unrouted, g)
  unfolding handle route_call
  lost m = rw (handle, m) refl

  ready_page :
      (ok : Bool) (page : Page)
      → page ≡ (if ok then plain (bytes "ready\n") else turned_away (refuse 503 none))
      → ((ok ≡ true) × (page ≡ plain (bytes "ready\n")))
        ⊎ ((ok ≡ false) × (page ≡ turned_away (refuse 503 none)))
  ready_page true page h = inl (refl, h)
  ready_page false page h = inr (refl, h)

  chat_page :
      (x : Page × Gateway)
      → enter fp canonical quote patience reader dec peek waits pause run base36 serve_mux at_chat
          call g
        ≡ some x
      → (out : Out) × (reply : Reply) × (x.0 ≡ told (mark run base36 call.id g.seq).0 out reply)
        × (chat reader dec peek waits pause call.net call.upload g.server g.memory
            ≡ some ((out, reply), x.1.server, x.1.memory))
  unfolding enter
  chat_page x h =
      elim (Option-cases
        (chat reader dec peek waits pause call.net call.upload g.server g.memory)) [
          | inl e ↦ absurd (none_ne_some (rw (e, enter) at h))
          | inr ((r, s, m), e) ↦
              let same = some_inj (rw (e, enter) at h) in
              (
                r.0,
                r.1,
                sym (ap (λ y. y.0) same),
                e ∙ ap (λ y. some (r, y.1.server, y.1.memory)) same,
              )
        ]

  -- Whatever `handle` returns is the answer of the pattern.
  pub handle-IsAnswer :
      (x : Page × Gateway)
      → handle fp canonical quote patience reader dec peek waits pause run base36 serve_mux call g
        ≡ some x
      → IsAnswer x
  unfolding enter lookup bytes_eq
  handle-IsAnswer x h =
      let page : (pat : Bytes) (e : Endpoint) (y : Page × Gateway)
          → Asks pat
          → lookup pat patterns ≡ some e
          → enter fp canonical quote patience reader dec peek waits pause run base36 serve_mux e
              call g
            ≡ some y
          → x.0 ≡ y.0 =
        λ pat e y a l k. ap (λ z. z.0) (some_inj (sym h ∙ handle-enter pat e a l ∙ k)) in
      record {
        health = λ a. page (bytes "GET /healthz") at_healthz _ a refl refl;
        readiness = λ a.
            ready_page (ready call.now g.server.pool) x.0
              (page (bytes "GET /readyz") at_readyz _ a refl refl);
        chatting = λ a.
            chat_page x (sym (handle-enter (bytes "POST /v1/chat/completions") at_chat a refl) ∙ h);
        listing = λ a.
            let (up, same) = models_lem g.server.config.aliases in
            (
              models g.server.config.aliases,
              page (bytes "GET /v1/models") at_models _ a refl refl,
              up,
              same,
            );
        standing = λ a.
            subst Stands (sym (page (bytes "GET /status") at_status _ a refl refl)) status-Stands;
        billing = λ a. page (bytes "GET /usage") at_usage _ a refl refl;
        nowhere = λ m. ap (λ z. z.0) (some_inj (sym h ∙ lost m));
      }
