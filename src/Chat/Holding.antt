-- ===== src/Chat/Holding.antt =====
-- `dispatch` as a whole: the memory of a request, and its answer.
use omny.Base.{
  ◌==◌, ◌∙◌, none_ne_some, some_inj, ℕ, ◌+◌, ◌-◌, ◌≡◌, ◌≢◌, refl, sym, ap, ◌⊎◌, inl, inr, true,
  List, [], ◌∷◌, Option, none, some, arith, Bytes, ltb, Bool-cases, Option-cases,
}
use omny.Pool.Traffic.Invariant.{Inv}
use omny.Pool.Traffic.Ledger.{Ledger}
use omny.Route.Laws.{IsRoutable}
use omny.Admission.{Admission, begins, steps, moves, move, advance, load, swap, room, release}
use omny.Body.{Decoder, Want, Plan, locate, read_body}
use omny.Body.Locating.{Reads, locate_lem}
use omny.Loader.{is_empty}
use omny.Proxy.{Env, Waits, State}
use omny.Proxy.Settling.{idle}
use omny.Dispatch.{Answer, dispatch}
use omny.Dispatch.Answering.{dispatch-IsAnswered}
use omny.Dispatch.Refusing.{dispatch-FairAnswer}
use omny.Serve.{Server, fresh}
use omny.Chat.Reading.{is_empty-nil, is_empty-ne}
use omny.Chat.Replies.{IsProper, on_answer-IsProper}
use omny.Chat.{
  out_oversized, out_malformed, Out, Reply, refuse, kind_of, on_answer, Reader, admit, Parsed,
  denied, planned, slurp, of_plan, parsed, on_parsed, chat, out_busy,
}

-- `admit` is the load and the swap of one request where no other one stands in the loop.
pub moves-admit :
    (m : Admission) (n : ℕ)
    → let quiet : Admission = record m { trying = [] } in
      moves quiet (begins n ∷ steps 0 ∷ steps 0 ∷ [])
      ≡ (elim (admit quiet n) [ none ↦ quiet | some held ↦ held ])
unfolding moves move load swap advance admit
moves-admit m n = elim (Bool-cases (ltb m.hold (m.held + n))) [
  | inl f ↦ rw f refl
  | inr f ↦ let g : (m.held == m.held) ≡ true = ground arith in rw f (rw g refl)
]

-- A release right after the admission restores the memory.
release-admit : (m held : Admission) (n : ℕ) → admit m n ≡ some held → release held 0 (some n) ≡ m
unfolding admit release
release-admit m held n e = elim (Bool-cases (ltb m.hold (m.held + n))) [
  | inl f ↦ absurd (none_ne_some (rw (f, admit) at e))
  | inr f ↦
      let same : m.held + n - n ≡ m.held = omega arith in
      ap (λ x. release x 0 (some n)) (sym (some_inj (rw (f, admit) at e)))
      ∙ ap (λ x. record m { held = x }) same
]

module _ (fp : Bytes → Bytes) {U D : Type 0} (reader : Reader U) (dec : Bytes → Decoder D)
    (peek : Bytes → Option Want) (waits : Waits) (pause : ℕ) (net : Plan → Env) where
  -- Why a request is refused before it is dispatched, by the code: its body is not read, or it is not
  -- the object of a request, or it names no model.
  abbrev pub Refusable : U → Out × Reply → Type 0
  Refusable u r =
      ((r ≡ (out_oversized, refuse 413 none)) × (slurp reader u ≡ none))
      ⊎ ((r ≡ (out_malformed, refuse 400 none))
          × ((b : Bytes) × (slurp reader u ≡ some b)
              × ((w : Want) → peek b ≡ some w → w.model ≡ [])))

  -- The plan of a body that was read whole and names a model.
  abbrev pub IsPlanOf : U → Plan → Type 0
  IsPlanOf u p =
      (slurp reader u ≡ some p.body)
      × (peek p.body ≡ some p.want)
      × (locate (dec p.body) p.body ≡ some (p.lo, p.hi, p.end))
      × (p.want.model ≢ [])

  -- The request was refused and changed nothing, or it was dispatched once by the configuration in
  -- force and got that answer.
  abbrev pub Happened : U → Server → Out × Reply → Server → Type 0
  Happened u s r t =
      (Refusable u r × (t ≡ s))
      ⊎ ((p : Plan) × (a : Answer) × (st : State) × IsPlanOf u p
          × (dispatch (net p) waits pause p.want.stream s.config p.want.model (fresh s.pool)
              ≡ some (a, st))
          × (r ≡ on_answer a)
          × (t ≡ record s { pool = st.pool }))

  pub record IsTold (u : U) (s : Server) (r : (Out × Reply) × Server) : Type 0 where
    pub proper : IsProper r.0.1
    pub served : List ℕ
    pub settled : Inv Ledger (idle r.1.pool served)
    pub config : r.1.config ≡ s.config
    pub happened : Happened u s r.0 r.1

  module _ (u : U) (s : Server) (served : List ℕ) (routable : IsRoutable s.config)
      (settled : Inv Ledger (idle s.pool served)) where
    -- The result of the checks: one of their refusals, or the plan.
    abbrev Checked : Parsed → Type 0
    Checked q =
        ((out : Out) × (code : ℕ) × (q ≡ denied out code)
          × IsProper (refuse code none)
          × Refusable u (out, refuse code none))
        ⊎ ((p : Plan) × (q ≡ planned p) × IsPlanOf u p)

    bad_request :
        (b : Bytes)
        → slurp reader u ≡ some b
        → ((w : Want) → peek b ≡ some w → w.model ≡ [])
        → Checked (denied out_malformed 400)
    unfolding refuse kind_of
    bad_request b e f =
        inl (out_malformed, 400, refl, inr (inl refl, refl, refl), inr (refl, (b, e, f)))

    of_plan-Checked :
        (p : Plan)
        → slurp reader u ≡ some p.body
        → peek p.body ≡ some p.want
        → locate (dec p.body) p.body ≡ some (p.lo, p.hi, p.end)
        → Checked (of_plan (some p))
    unfolding of_plan
    of_plan-Checked p e f g = elim (Bool-cases (is_empty p.want.model)) [
      | inl i ↦ rw i (
          bad_request p.body e
            (λ w h. ap (λ x. x.model) (some_inj (sym h ∙ f)) ∙ is_empty-nil p.want.model i))
      | inr i ↦ rw i (inr (p, refl, (e, f, g, is_empty-ne p.want.model i)))
    ]

    parsed-Checked :
        ((b : Bytes) → Reads (dec b) b)
        → (q : Parsed) × (parsed reader dec peek u ≡ some q) × Checked q
    unfolding parsed read_body of_plan refuse kind_of
    parsed-Checked v = elim (Option-cases (slurp reader u)) [
      | inl e ↦ (
        denied out_oversized 413,
        rw (e, parsed) refl,
        inl (out_oversized, 413, refl, inr (inr (inl refl), refl, refl), inl (refl, e)),
      )
      | inr (b, e) ↦ elim (Option-cases (peek b)) [
        | inl f ↦ (
          denied out_malformed 400,
          rw (e, parsed, read_body, f) refl,
          bad_request b e (λ w g. absurd (none_ne_some (sym f ∙ g))),
        )
        | inr (w, f) ↦
            let (sp, g, _) = locate_lem (dec b) b (v b) in
            let p : Plan = record { body = b; want = w; lo = sp.0; hi = sp.1; end = sp.2 } in
            (of_plan (some p), rw (e, parsed, read_body, f, g) refl, of_plan-Checked p e f g)
      ]
    ]

    on_parsed-IsTold :
        (q : Parsed)
        → Checked q
        → (r : (Out × Reply) × Server) × (on_parsed reader dec peek waits pause net s q ≡ some r)
          × IsTold u s r
    unfolding on_parsed fresh
    on_parsed-IsTold q (inl (out, code, e, proper, why)) = (
      ((out, refuse code none), s),
      rw e refl,
      record {
        proper = proper;
        served = served;
        settled = settled;
        config = refl;
        happened = inl (why, refl);
      },
    )
    on_parsed-IsTold q (inr (p, e, plan)) =
        let (a, st, served', f, w) =
          dispatch-IsAnswered fp (net p) waits pause p.want.stream s.config p.want.model
            (fresh s.pool) served routable settled in
        let fair =
          dispatch-FairAnswer (net p) waits p.want.stream pause s.config p.want.model (fresh s.pool)
            st a f in
        (
          (on_answer a, record s { pool = st.pool }),
          rw e (rw f refl),
          record {
            proper = on_answer-IsProper a fair;
            served = served';
            settled = w;
            config = refl;
            happened = inr (p, a, st, plan, f, refl, refl);
          },
        )

    -- Of a server that is settled and routable: where the memory has no room for a request, it is told that the gateway is busy, and nothing
    -- changes. Else it is answered without a panic: with a refusal of its body, or, its body read whole
    -- and its model named, as one dispatch answers it. After it the pool is settled, the configuration
    -- is in force, and the memory is as before the request, whatever its end.
    -- It is a condition that the decoder of a body keeps its offset in the body and grows it with each
    -- token.
    pub chat-IsTold :
        (m : Admission)
        → ((b : Bytes) → Reads (dec b) b)
        → ((admit m (room (reader.content_length u)) ≡ none)
            × (chat reader dec peek waits pause net u s m
                ≡ some ((out_busy, refuse 503 none), s, m)))
          ⊎ ((r : (Out × Reply) × Server) × (chat reader dec peek waits pause net u s m
                ≡ some (r.0, r.1, m))
              × IsTold u s r)
    unfolding chat
    chat-IsTold m v = elim (Option-cases (admit m (room (reader.content_length u)))) [
      | inl e ↦ inl (e, rw (e, chat) refl)
      | inr (held, e) ↦
          let (q, f, c) = parsed-Checked v in
          let (r, g, t) = on_parsed-IsTold q c in
          inr (
            r,
            rw (e, chat, f, g)
                (ap (λ x. some (r.0, r.1, x))
                  (release-admit m held (room (reader.content_length u)) e)),
            t,
          )
    ]
