-- ===== src/Chat.antt =====
-- internal/omny/proxy.go: `mark`, `dispatch` with the checks before its loop, and what `dispatch` and
-- `try` write of an answer; internal/omny/body.go `slurp`. Reading a body from the network and the
-- JSON readers are arguments, and so is the network that a plan meets. The texts of the refusals are
-- left out. `none` is a panic.
pub mod Reading
pub mod Marking
pub mod Replies
pub mod Holding
use omny.Base.{
  ℕ, suc, ◌+◌, ◌-◌, ◌/◌, Bool, true, false, ◌&&◌, ◌||◌, not, List, [], ◌∷◌, ◌++◌, Option, none,
  some, Bytes, bytes, ltb, leb, ◌==◌, if◌then◌else◌, ◌>>=◌, take, length,
}
use omny.Base.Int.{ℤ, pos, negsuc}
use omny.Clock.{second}
use omny.Loader.{is_empty}
use omny.Admission.{Admission, max_body, room, release}
use omny.Body.{Decoder, Want, Plan, read_body}
use omny.Proxy.{Env, Waits, End, ended_ok, ended_gone, ended_truncated, unserved, rejected}
use omny.Dispatch.{Answer, walked, gone_napping, exhausted, dispatch}
use omny.Serve.{Server, fresh}

-- `mark`: no rune of the client's id is outside the printable ones. A byte from 128 on is a part of
-- a rune from 128 on, or reads as U+FFFD.
unfoldable pub printable : Bytes → Bool
printable [] = true
printable (c ∷ cs) = not (ltb c 32 || ltb 126 c) && printable cs

-- `got[:64]` of a longer id.
unfoldable pub clipped : Bytes → Bytes
clipped got = if ltb 64 (length got) then take 64 got else got

module _ (run : Bytes) (base36 : ℕ → Bytes) where
  -- The id that is made of the next number, and the counter after it.
  unfoldable pub made : ℕ → Bytes × ℕ
  made seq = (run ++ (bytes "-" ++ base36 (suc seq)), suc seq)

  -- `mark`, of the header and the counter.
  unfoldable pub mark : Bytes → ℕ → Bytes × ℕ
  mark got seq =
      if not (is_empty got) && printable (clipped got) then (clipped got, seq) else made seq

-- `tr.out`.
pub data Out : Type 0 where
  out_busy out_oversized out_malformed out_gone out_rejected out_exhausted out_ok : Out
  out_truncated : Out

-- What the client gets of a request: a refusal with its code, the type of its error and the seconds
-- of Retry-After, the answer of an upstream up to the end of a walk, or nothing more, as it is gone.
pub data Reply : Type 0 where
  refused : ℕ → Bytes → Option ℕ → Reply
  forwarded : End → Reply
  silence : Reply

unfoldable pub kind_of : ℕ → Bytes
kind_of code = if code == 503 then bytes "omny_exhausted" else bytes "omny_error"

-- `refuse`, after a header Retry-After or without it.
unfoldable pub refuse : ℕ → Option ℕ → Reply
refuse code retry = refused code (kind_of code) retry

-- `int(math.Ceil(d.Seconds()))`, with an exact division.
unfoldable pub seconds_up : ℕ → ℕ
seconds_up d = (d + (second - 1)) / second

-- What `try` and the end of `dispatch` write. `try` goes on after a walk that ended unserved, so that
-- is never an answer.
unfoldable pub on_answer : Answer → Out × Reply
on_answer (walked ended_ok) = (out_ok, forwarded ended_ok)
on_answer (walked ended_gone) = (out_gone, silence)
on_answer (walked ended_truncated) = (out_truncated, forwarded ended_truncated)
on_answer (walked unserved) = (out_exhausted, refuse 503 none)
on_answer (walked (rejected code)) = (out_rejected, refuse code none)
on_answer gone_napping = (out_gone, silence)
on_answer (exhausted d) =
    (out_exhausted, refuse 503 (if ltb 0 d then some (seconds_up d) else none))

-- The body of a request as net/http gives it: its announced length, http.MaxBytesReader, and the two
-- ways to read it to its end, `none` for an error.
pub record Reader (U : Type 0) : Type 0 where
  pub content_length : U → ℤ
  pub limit : ℕ → U → U
  pub read_all : U → Option Bytes
  pub read_from : U → Option Bytes

-- `admit`, where no other request steps between its load and its swap.
unfoldable pub admit : Admission → ℕ → Option Admission
admit m n =
    if ltb m.hold (m.held + n)
    then none
    else some (record m { held = m.held + n; inside = n ∷ m.inside })

-- The checks before the loop: a refusal, or the plan.
pub data Parsed : Type 0 where
  denied : Out → ℕ → Parsed
  planned : Plan → Parsed

module _ {U : Type 0} (reader : Reader U) where
  unfoldable pub slurp : U → Option Bytes
  slurp u =
      let src = reader.limit max_body u in
      elim (reader.content_length u) [
        | negsuc _ ↦ reader.read_all src
        | pos n ↦ if n == 0 || ltb max_body n then reader.read_all src else reader.read_from src
      ]

unfoldable pub of_plan : Option Plan → Parsed
of_plan none = denied out_malformed 400
of_plan (some p) = if is_empty p.want.model then denied out_malformed 400 else planned p

module _ {U D : Type 0} (reader : Reader U) (dec : Bytes → Decoder D)
    (peek : Bytes → Option Want) where
  unfoldable pub parsed : U → Option Parsed
  parsed u = elim (slurp reader u) [
    | none ↦ some (denied out_oversized 413)
    | some b ↦ read_body (dec b) peek b >>= λ r. some (of_plan r)
  ]

  module _ (waits : Waits) (pause : ℕ) (net : Plan → Env) where
    -- The rest of `dispatch`, of the checks' result.
    unfoldable pub on_parsed : Server → Parsed → Option ((Out × Reply) × Server)
    on_parsed s (denied out code) = some ((out, refuse code none), s)
    on_parsed s (planned p) =
        dispatch (net p) waits pause p.want.stream s.config p.want.model (fresh s.pool)
        >>= λ (a, st). some (on_answer a, record s { pool = st.pool })

    -- `dispatch`: the reservation, and its release on every path.
    unfoldable pub chat : U → Server → Admission → Option ((Out × Reply) × Server × Admission)
    chat u s m =
        let n = room (reader.content_length u) in
        elim (admit m n) [
          | none ↦ some ((out_busy, refuse 503 none), s, m)
          | some held ↦ parsed u >>= on_parsed s >>= λ (r, t). some (r, t, release held 0 (some n))
        ]
