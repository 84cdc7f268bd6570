-- ===== src/Relay.antt =====
-- internal/omny/relay.go: `sniff`, the bounded tail of a stream, and `pump`, the loop that relays it.
pub mod Tail
pub mod Pumping
pub mod Count
pub mod Headers
use omny.Base.{
  ℕ, zero, suc, ◌+◌, ◌-◌, ◌≤◌, Bool, true, false, List, [], ◌∷◌, ◌++◌, Option, none, some, Bytes,
  ltb, leb, if◌then◌else◌, length, drop, ◌==◌,
}

-- `len(s.buf)`.
abbrev pub tail_size : ℕ
tail_size = 512

-- `sniff.feed`, over the bytes `s.buf[:s.n]`: a chunk of at least the buffer's size replaces them by
-- its tail, and another drops what does not fit from their front.
unfoldable pub feed : Bytes → Bytes → Bytes
feed s p =
    if leb tail_size (length p)
    then drop (length p - tail_size) p
    else if ltb tail_size (length s + length p)
    then drop (length s + length p - tail_size) s ++ p
    else s ++ p

-- One `Read` of the upstream: bytes, and nil, `io.EOF` or another error.
pub data ReadEnd : Type 0 where
  more eof broken : ReadEnd

-- How the relay ends: nil, `errGone`, or an upstream error.
pub data Pumped : Type 0 where
  all_sent client_gone upstream_broke : Pumped

-- The loop of `pump`: what the client has received, the tail that was fed, and the writes that the
-- client still takes. A list of reads with no end stands for a stream that stays open.
pub record Stream : Type 0 where
  pub sent : Bytes
  pub tail : Bytes
  pub room : ℕ

-- `each` and `w.Write` of a chunk that is not empty; false where the write fails.
unfoldable pub relay_chunk : Stream → Bytes → Stream × Bool
relay_chunk st [] = (st, true)
relay_chunk st (b ∷ bs) =
    let fed = feed st.tail (b ∷ bs) in
    elim st.room [
      | zero ↦ (record { sent = st.sent; tail = fed; room = zero }, false)
      | suc r ↦ (record { sent = st.sent ++ b ∷ bs; tail = fed; room = r }, true)
    ]

-- What the error of a read decides.
unfoldable pub after_read : ReadEnd → Stream → Option Pumped × Stream → Option Pumped × Stream
after_read more st rest = rest
after_read eof st rest = (some all_sent, st)
after_read broken st rest = (some upstream_broke, st)

-- `pump`; `none` while the upstream has sent no more.
unfoldable pub pump : List (Bytes × ReadEnd) → Stream → Option Pumped × Stream
pump [] st = (none, st)
pump ((chunk, end) ∷ reads) st =
    let (st', done) = relay_chunk st chunk in
    let rest = pump reads st' in if done then after_read end st' rest else (some client_gone, st')

-- `relay`: the gated bytes, and for a stream the rest of it. The tail is fed only the rest.
unfoldable pub relay : Bool → Bytes → List (Bytes × ReadEnd) → ℕ → Option Pumped × Stream
relay stream first reads zero = (some client_gone, record { sent = []; tail = []; room = zero })
relay stream first reads (suc r) =
    if stream
    then pump reads (record { sent = first; tail = []; room = r })
    else (some all_sent, record { sent = first; tail = []; room = r })
