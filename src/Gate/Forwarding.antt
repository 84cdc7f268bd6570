-- ===== src/Gate/Forwarding.antt =====
-- The gate and the relay together: what the client receives of a stream that the gate let pass.
use mathlib.Core.List.{append_assoc}
use omny.Base.{
  ℕ, zero, suc, ◌≡◌, refl, sym, ap, ◌∙◌, ◌⊎◌, inl, inr, true, List, [], ◌∷◌, ◌++◌, Option, some,
  Bytes, take,
}
use omny.Relay.{ReadEnd, Pumped, client_gone, Stream, relay}
use omny.Relay.Tail.{flat}
use omny.Relay.Pumping.{chunks, ending, pump_lem}
use omny.Gate.{Reply, SliceEnd, passed, gate_stream}
use omny.Gate.Framing.{text_of, gate_stream-IsPassed}

-- The first chunks are a prefix of all.
flat-take : (n : ℕ) (cs : List Bytes) → (more : Bytes) × (flat cs ≡ flat (take n cs) ++ more)
unfolding flat
flat-take zero cs = (flat cs, refl)
flat-take (suc n) [] = ([], refl)
flat-take (suc n) (c ∷ cs) =
    let (more, e) = flat-take n cs in
    (more, ap (λ x. c ++ x) e ∙ sym (append_assoc c (flat (take n cs)) more))

-- The client has the whole stream, with the end of its last read, or a prefix of it after it left.
abbrev pub IsForwarded : Bytes → List (Bytes × ReadEnd) → Option Pumped × Stream → Type 0
IsForwarded stream reads o =
    ((o.0 ≡ ending reads) × (o.1.sent ≡ stream))
    ⊎ ((o.0 ≡ some client_gone) × (more : Bytes) × (stream ≡ o.1.sent ++ more))

-- Where a stream passes the gate, and the reads of the relay give what the gate left of it, the client
-- receives the stream from its first byte on and in order: all of it, or a prefix where it left. The
-- bytes that the gate held back are neither lost nor repeated.
pub relay-IsForwarded :
    (unmarshal : Bytes → Option Reply) (trim : Bytes → Bytes) (slices : List (Bytes × SliceEnd))
    (first : Bytes) (rest : List (Bytes × SliceEnd)) (reads : List (Bytes × ReadEnd)) (room : ℕ)
    → gate_stream unmarshal trim slices ≡ passed first rest
    → flat (chunks reads) ≡ text_of rest
    → IsForwarded (text_of slices) reads (relay true first reads room)
unfolding relay
relay-IsForwarded unmarshal trim slices first rest reads zero h g = inr (refl, text_of slices, refl)
relay-IsForwarded unmarshal trim slices first rest reads (suc r) h g =
    let (_, _, _, _, _, _, _, _, _, whole) =
      gate_stream-IsPassed unmarshal trim slices first rest h in
    elim (pump_lem [] reads (record { sent = first; tail = []; room = r }) refl) [
      | inl (e, s, _) ↦ inl (e, s ∙ ap (λ x. first ++ x) g ∙ whole)
      | inr (e, n, s) ↦
          let (more, f) = flat-take n (chunks reads) in
          inr (
            e,
            more,
            sym whole
                ∙ ap (λ x. first ++ x) (sym g ∙ f)
                ∙ sym (append_assoc first (flat (take n (chunks reads))) more)
                ∙ ap (λ x. x ++ more) (sym s),
          )
    ]
