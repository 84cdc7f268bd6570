-- ===== src/Wire/Transparent.antt =====
-- An exchange with an upstream, from the client's body to the bytes that are written to the client.
use mathlib.Core.List.{Memᴰ}
use omny.Base.{
  leb, ltb, ℕ, zero, suc, ◌-◌, ◌≡◌, refl, sym, ap, ◌∙◌, ◌⊎◌, inl, inr, Bool, true, false, List, ◌∷◌,
  Option, none, some, arith, Bytes, length, Bool-cases, Option-cases,
}
use omny.Config.{Provider, Config}
use omny.Key.{Spend}
use omny.Route.{Target, route}
use omny.Proxy.{Request, unreachable, response, written, Waits, State, ended_ok}
use omny.Dispatch.{walked, dispatch}
use omny.Dispatch.Delivery.{dispatch-IsDelivered}
use omny.Body.{Plan, send}
use omny.Body.Sending.{IsPlan, IsSent, send_lem}
use omny.Gate.{
  verdict, max_reply, Refusal, judged, Reply, SliceEnd, Gated, refused, passed, waiting, Replied,
  rejected, accepted, gate_stream, gate_reply,
}
use omny.Gate.Framing.{text_of}
use omny.Gate.Forwarding.{relay-IsForwarded}
use omny.Relay.{ReadEnd, Pumped, all_sent, client_gone, upstream_broke, relay}
use omny.Relay.Tail.{flat}
use omny.Relay.Pumping.{chunks}
use omny.Wire.{Turn, Codec, of_stream, of_reply, gated, exchange, relay_gated, end_of, wire}

-- What the upstream sends as its body.
abbrev pub BodyOf : Bool → Turn → Bytes → Type 0
BodyOf true u b = text_of u.slices ≡ b
BodyOf false u b = u.body ≡ some b

gone_ne_sent : some client_gone ≡ some all_sent → ⊥
gone_ne_sent e = cc

unreachable-ne-response :
    {code retry : ℕ} {used : Option (Option Spend)} {timely : Bool}
    → unreachable ≡ response code retry used timely
    → ⊥
unreachable-ne-response e = cc

rejected-ne-accepted :
    {r : Refusal} {b : Bytes} {used : Option Spend} → rejected r ≡ accepted b used → ⊥
rejected-ne-accepted e = cc

accepted_inj : {b b' : Bytes} {u u' : Option Spend} → accepted b u ≡ accepted b' u' → b ≡ b'
accepted_inj e = cc

-- A reply that the gate accepts is the one that was read.
gate_reply-accepted :
    (unmarshal : Bytes → Option Reply) (valid : Bytes → Bool) (o : Option Bytes) (b : Bytes)
    (used : Option Spend)
    → gate_reply unmarshal valid o ≡ accepted b used
    → o ≡ some b
unfolding gate_reply judged
gate_reply-accepted unmarshal valid none b used h = absurd (rejected-ne-accepted h)
gate_reply-accepted unmarshal valid (some x) b used h =
    elim (Bool-cases (ltb max_reply (length x))) [
      | inl e ↦ absurd (rejected-ne-accepted (rw e at h))
      | inr e ↦ elim (Bool-cases (valid x)) [
        | inr f ↦ absurd (rejected-ne-accepted (rw (e, f) at h))
        | inl f ↦ elim (Option-cases (verdict unmarshal x)) [
          | inl g ↦ absurd (rejected-ne-accepted (rw (e, f, g) at h))
          | inr (u, g) ↦ ap some (accepted_inj (rw (e, f, g) at h))
        ]
      ]
    ]

Replied-cases :
    (codec : Codec) (stream : Bool) (r : Replied)
    → (of_reply codec stream r ≡ none)
      ⊎ ((b : Bytes) × (used : Option Spend) × (r ≡ accepted b used))
unfolding of_reply
Replied-cases codec stream (rejected r) = inl refl
Replied-cases codec stream (accepted b used) = inr (b, used, refl)

relay_reply :
    (b : Bytes) (reads : List (Bytes × ReadEnd)) (room : ℕ)
    → (relay false b reads room).0 ≡ some all_sent
    → (relay false b reads room).1.sent ≡ b
unfolding relay
relay_reply b reads zero h = absurd (gone_ne_sent h)
relay_reply b reads (suc room) h = refl

Gated-cases :
    (codec : Codec) (stream : Bool) (g : Gated)
    → (of_stream codec stream g ≡ none)
      ⊎ ((first : Bytes) × (rest : List (Bytes × SliceEnd)) × (g ≡ passed first rest))
unfolding of_stream
Gated-cases codec stream (refused r) = inl refl
Gated-cases codec stream (passed first rest) = inr (first, rest, refl)
Gated-cases codec stream waiting = inl refl

module _ (codec : Codec) where
  -- The reads of the relay go on where the gate stopped.
  abbrev pub GoesOn : Turn → Type 0
  GoesOn u =
      (first : Bytes) (rest : List (Bytes × SliceEnd))
      → gate_stream codec.unmarshal codec.trim u.slices ≡ passed first rest
      → flat (chunks u.reads) ≡ text_of rest

  module _ (stream : Bool) where
    end_of-written : (r : Option Pumped) → end_of codec stream r ≡ written → r ≡ some all_sent
    unfolding end_of
    end_of-written none h = cc
    end_of-written (some all_sent) h = refl
    end_of-written (some client_gone) h = cc
    end_of-written (some upstream_broke) h = cc

    -- Nothing is written whole that did not pass the gate.
    none-ne-written :
        (u : Turn) → end_of codec stream (relay_gated codec stream u none).0 ≡ written → ⊥
    unfolding end_of relay_gated
    none-ne-written u h = cc

  -- A relay that is complete gave the client the whole body of the upstream.
  whole :
      (stream : Bool) (u : Turn)
      → GoesOn u
      → end_of codec stream (relay_gated codec stream u (gated codec stream u)).0 ≡ written
      → (b : Bytes) × BodyOf stream u b
        × ((relay_gated codec stream u (gated codec stream u)).1.sent ≡ b)
  unfolding gated of_stream of_reply relay_gated
  whole true u g h =
      elim (Gated-cases codec true (gate_stream codec.unmarshal codec.trim u.slices)) [
        | inl e ↦ absurd (none-ne-written true u (rw e at h))
        | inr (first, rest, e) ↦
            let done = end_of-written true (relay true first u.reads u.room).0 (rw e at h) in
            elim (relay-IsForwarded codec.unmarshal codec.trim u.slices first rest u.reads u.room e
              (g first rest e)) [
                | inl (_, same) ↦ (text_of u.slices, refl, rw e same)
                | inr (gone, _, _) ↦ absurd (gone_ne_sent (sym gone ∙ done))
              ]
      ]
  whole false u g h =
      elim (Replied-cases codec false (gate_reply codec.unmarshal codec.valid u.body)) [
        | inl e ↦ absurd (none-ne-written false u (rw e at h))
        | inr (b, used, e) ↦
            let done = end_of-written false (relay false b u.reads u.room).0 (rw e at h) in
            (
              b,
              gate_reply-accepted codec.unmarshal codec.valid u.body b used e,
              rw e (relay_reply b u.reads u.room done),
            )
      ]

  -- An exchange with an answer sent a body.
  exchanged :
      (stream : Bool) (plan : Plan) (n : ℕ) (u : Turn) (r : Request) (code retry : ℕ)
      (used : Option (Option Spend)) (timely : Bool)
      → IsPlan codec.marshal codec.members codec.encode plan
      → exchange codec stream plan n u r ≡ response code retry used timely
      → (b : Bytes) × (send codec.marshal codec.members codec.encode plan r.target.model r.meter
          ≡ some (b, length b))
        × IsSent codec.marshal codec.members codec.encode plan r.target.model r.meter b
        × (u.reached b (length b) ≡ true)
  unfolding exchange
  exchanged stream plan n u r code retry used timely v h =
      elim (send_lem codec.marshal codec.members codec.encode plan r.target.model r.meter v) [
        | inl (e, _, _) ↦ absurd (unreachable-ne-response (rw (e, exchange) at h))
        | inr (b, e, i) ↦ elim (Bool-cases (u.reached b (length b))) [
          | inl f ↦ (b, e, i, f)
          | inr f ↦ absurd (unreachable-ne-response (rw (e, exchange, f) at h))
        ]
      ]

  -- The relay of the walk's question after the next is that of this turn.
  wire-relayed :
      (stream : Bool) (plan : Plan) (turns : ℕ → Turn) (took now : ℕ → ℕ) (left : ℕ → Bool) (n : ℕ)
      → (wire codec stream plan turns took now left).relayed (suc (suc n))
        ≡ end_of codec stream (relay_gated codec stream (turns n) (gated codec stream (turns n))).0
  unfolding wire
  wire-relayed stream plan turns took now left n =
      let e : suc (suc n) - 2 ≡ n = omega arith in
      ap
        (λ m.
          end_of codec stream (relay_gated codec stream (turns m) (gated codec stream (turns m))).0)
        e

  -- One exchange that was passed on unchanged.
  pub record IsTransparent (stream : Bool) (c : Config) (plan : Plan) (turns : ℕ → Turn)
      (s' : State) : Type 0 where
    pub name : Bytes
    pub named : Memᴰ name (plan.want.model ∷ c.fallback)
    pub target : Target
    pub routed : Memᴰ target (route c name)
    pub asked : ℕ
    pub key : Bytes
    pub provider : Provider
    pub placed : target.place ≡ some provider
    pub meter : Bool
    pub streams : meter ≡ true → stream ≡ true
    pub within : ℕ
    pub code : ℕ
    pub fine : leb 400 code ≡ false
    pub retry : ℕ
    pub used : Option Spend
    pub answered :
        exchange codec stream plan asked (turns asked) (record {
          key = key;
          target = target;
          provider = provider;
          meter = meter;
          within = within;
        })
        ≡ response code retry (some used) true
    pub body : Bytes
    pub sends :
        send codec.marshal codec.members codec.encode plan target.model meter
        ≡ some (body, length body)
    pub kept : IsSent codec.marshal codec.members codec.encode plan target.model meter body
    pub got : (turns asked).reached body (length body) ≡ true
    pub reply : Bytes
    pub replied : BodyOf stream (turns asked) reply
    pub gets :
        (relay_gated codec stream (turns asked) (gated codec stream (turns asked))).1.sent ≡ reply
    pub prov : s'.trace.prov ≡ target.prov
    pub model : s'.trace.sent ≡ target.model

  -- The client of a request that is answered well, whose plan has its offsets in order, got the whole
  -- body of the answer of one upstream, from its first byte on, and that upstream was asked with the
  -- client's body for a target of the request's model or of a fallback: with the target's model in place
  -- of the client's, with the usage option where it was added, and with every other byte kept.
  pub dispatch-IsTransparent :
      (stream : Bool) (waits : Waits) (pause : ℕ) (c : Config) (plan : Plan) (turns : ℕ → Turn)
      (took now : ℕ → ℕ) (left : ℕ → Bool) (s s' : State)
      → IsPlan codec.marshal codec.members codec.encode plan
      → ((n : ℕ) → GoesOn (turns n))
      → dispatch (wire codec stream plan turns took now left) waits pause stream c plan.want.model s
        ≡ some (walked ended_ok, s')
      → IsTransparent stream c plan turns s'
  unfolding wire
  dispatch-IsTransparent stream waits pause c plan turns took now left s s' v goes h =
      let env = wire codec stream plan turns took now left in
      let (name, m, served) =
        dispatch-IsDelivered env waits pause stream c plan.want.model s s' h in
      let n = served.asked in
      let acc = served.accepted in
      let (b, text, got) =
        whole stream (turns n) (goes n)
          (sym (wire-relayed stream plan turns took now left n) ∙ served.relayed) in
      let (sent, e, is, reach) = exchanged stream plan n (turns n) _ _ _ _ _ v acc.answered in
      record {
        name = name;
        named = m;
        target = served.target;
        routed = served.listed;
        asked = n;
        key = acc.key;
        provider = acc.provider;
        placed = acc.placed;
        meter = acc.meter;
        streams = acc.streams;
        within = acc.within;
        code = acc.code;
        fine = acc.fine;
        retry = acc.retry;
        used = served.used;
        answered = acc.answered;
        body = sent;
        sends = e;
        kept = is;
        got = reach;
        reply = b;
        replied = text;
        gets = got;
        prov = served.prov;
        model = served.sent;
      }
