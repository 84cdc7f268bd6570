-- ===== src/Relay/Pumping.antt =====
-- `pump`: what the client receives and what the tail holds when the loop ends.
use mathlib.Core.List.{append_assoc, append-nil}
use omny.Base.{
  zero_or_suc, ℕ, suc, ◌≡◌, refl, sym, ap, ◌∙◌, ◌⊎◌, inl, inr, true, false, List, [], ◌∷◌, ◌++◌,
  Option, none, some, Bytes, take,
}
use omny.Relay.{
  tail_size, feed, ReadEnd, more, eof, broken, Pumped, all_sent, client_gone, upstream_broke,
  Stream, relay_chunk, after_read, pump,
}
use omny.Relay.Tail.{last, flat, feed-last}

-- The chunks up to the first read that ends the stream, and the end that it gives.
unfoldable pub chunks : List (Bytes × ReadEnd) → List Bytes
chunks [] = []
chunks ((c, more) ∷ reads) = c ∷ chunks reads
chunks ((c, eof) ∷ reads) = c ∷ []
chunks ((c, broken) ∷ reads) = c ∷ []

unfoldable pub ending : List (Bytes × ReadEnd) → Option Pumped
ending [] = none
ending ((c, more) ∷ reads) = ending reads
ending ((c, eof) ∷ reads) = some all_sent
ending ((c, broken) ∷ reads) = some upstream_broke

-- All chunks arrive and the tail is that of all of them, or the client leaves after some of them.
-- `fed` is what the tail was fed before.
abbrev pub Relays : Bytes → List (Bytes × ReadEnd) → Stream → Option Pumped × Stream → Type 0
Relays fed reads st (r, st') =
    ((r ≡ ending reads)
      × (st'.sent ≡ st.sent ++ flat (chunks reads))
      × (st'.tail ≡ last tail_size (fed ++ flat (chunks reads))))
    ⊎ ((r ≡ some client_gone) × (n : ℕ) × (st'.sent ≡ st.sent ++ flat (take n (chunks reads))))

-- A chunk arrives whole and is fed, or the write fails and nothing of it arrives.
relay_chunk_lem :
    (fed : Bytes) (st : Stream) (c : Bytes)
    → st.tail ≡ last tail_size fed
    → ((st' : Stream) × (relay_chunk st c ≡ (st', true))
        × (st'.sent ≡ st.sent ++ c)
        × (st'.tail ≡ last tail_size (fed ++ c)))
      ⊎ ((st' : Stream) × (relay_chunk st c ≡ (st', false)) × (st'.sent ≡ st.sent))
unfolding relay_chunk
relay_chunk_lem fed st [] h =
    inl (st, refl, sym (append-nil st.sent), h ∙ ap (last tail_size) (sym (append-nil fed)))
relay_chunk_lem fed st (b ∷ bs) h = elim (zero_or_suc st.room) [
  | inl e ↦ inr (
    record { sent = st.sent; tail = feed st.tail (b ∷ bs); room = 0 },
    rw (e, relay_chunk) refl,
    refl,
  )
  | inr (r, e) ↦ inl (
    record { sent = st.sent ++ b ∷ bs; tail = feed st.tail (b ∷ bs); room = r },
    rw (e, relay_chunk) refl,
    refl,
    rw h (feed-last fed (b ∷ bs)),
  )
]

regroup :
    (sent c : Bytes) (s s' : Bytes) (cs : List Bytes)
    → s ≡ sent ++ c
    → s' ≡ s ++ flat cs
    → s' ≡ sent ++ (c ++ flat cs)
regroup sent c s s' cs e f = f ∙ ap (λ x. x ++ flat cs) e ∙ append_assoc sent c (flat cs)

-- Where the tail is that of what was fed so far, what the client receives from then on is what the
-- upstream sends, in order: all of it up to the read that ends the stream, with the end that the read
-- gives and the tail of all that was fed; or, where the client breaks off, the first chunks of it.
pub pump_lem :
    (fed : Bytes) (reads : List (Bytes × ReadEnd)) (st : Stream)
    → st.tail ≡ last tail_size fed
    → Relays fed reads st (pump reads st)
unfolding pump chunks ending flat after_read
pump_lem fed [] st h =
    inl (refl, sym (append-nil st.sent), h ∙ ap (last tail_size) (sym (append-nil fed)))
pump_lem fed ((c, more) ∷ reads) st h = elim (relay_chunk_lem fed st c h) [
  | inl (st', e, f, g) ↦ rw e (elim (pump_lem (fed ++ c) reads st' g) [
    | inl (r, s, t) ↦ inl (
      r,
      regroup st.sent c st'.sent _ (chunks reads) f s,
      t ∙ ap (last tail_size) (append_assoc fed c (flat (chunks reads))),
    )
    | inr (r, n, s) ↦ inr (r, suc n, regroup st.sent c st'.sent _ (take n (chunks reads)) f s)
  ])
  | inr (st', e, f) ↦ rw e (inr (refl, 0, f ∙ sym (append-nil st.sent)))
]
pump_lem fed ((c, eof) ∷ reads) st h = elim (relay_chunk_lem fed st c h) [
  | inl (st', e, f, g) ↦ rw e (
      inl (
        refl,
        f ∙ ap (λ x. st.sent ++ x) (sym (append-nil c)),
        g ∙ ap (λ x. last tail_size (fed ++ x)) (sym (append-nil c)),
      ))
  | inr (st', e, f) ↦ rw e (inr (refl, 0, f ∙ sym (append-nil st.sent)))
]
pump_lem fed ((c, broken) ∷ reads) st h = elim (relay_chunk_lem fed st c h) [
  | inl (st', e, f, g) ↦ rw e (
      inl (
        refl,
        f ∙ ap (λ x. st.sent ++ x) (sym (append-nil c)),
        g ∙ ap (λ x. last tail_size (fed ++ x)) (sym (append-nil c)),
      ))
  | inr (st', e, f) ↦ rw e (inr (refl, 0, f ∙ sym (append-nil st.sent)))
]
