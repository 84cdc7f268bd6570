-- ===== src/Wire.antt =====
-- internal/omny/proxy.go, `once` and `flunk`, with what they call: `send` makes the body, `gate` reads
-- the answer, `after` its reset hint and `relay` writes it to the client. Together they are an
-- environment of the walk. JSON, numbers and the upstream's behaviour are arguments.
pub mod Transparent
pub mod Whole
use omny.Base.{
  ℕ, zero, suc, ◌-◌, Bool, true, false, not, List, [], ◌∷◌, Option, none, some, Bytes,
  if◌then◌else◌,
}
use omny.Key.{Spend}
use omny.Proxy.{
  Request, Response, unreachable, response, Relayed, written, write_failed, read_failed, Env,
}
use omny.Body.{Plan, send}
use omny.Gate.{
  Reply, SliceEnd, Hints, Gated, refused, passed, waiting, Replied, rejected, accepted, gate_reply,
  gate_stream, after,
}
use omny.Relay.{ReadEnd, Pumped, all_sent, client_gone, upstream_broke, Stream, relay}
use omny.Relay.Count.{count}

-- How the upstream and the client behave in one exchange: whether the round trip with a body of an
-- announced length succeeds, the status and headers, the body as the gate slices it or reads it whole, whether it came within the budget,
-- the reads of what the gate left, and the writes that the client takes.
pub record Turn : Type 0 where
  pub reached : Bytes → ℕ → Bool
  pub code : ℕ
  pub get : Bytes → Bytes
  pub slices : List (Bytes × SliceEnd)
  pub body : Option Bytes
  pub timely : Bool
  pub reads : List (Bytes × ReadEnd)
  pub room : ℕ

-- The readers and writers of the packages that the exchange uses.
pub record Codec : Type 0 where
  pub unmarshal : Bytes → Option Reply
  pub usage : Bytes → Option Spend
  pub valid : Bytes → Bool
  pub trim : Bytes → Bytes
  pub hints : ℕ → Hints
  pub marshal : Bytes → Bytes
  pub members : Bytes → Option (List (Bytes × Bytes))
  pub encode : List (Bytes × Bytes) → Bytes

module _ (codec : Codec) (stream : Bool) where
  -- What the gate lets pass: the bytes that it holds, and the usage that it names.
  unfoldable pub of_stream : Gated → Option (Bytes × Option Spend)
  of_stream (refused _) = none
  of_stream (passed first _) = some (first, none)
  of_stream waiting = none

  unfoldable pub of_reply : Replied → Option (Bytes × Option Spend)
  of_reply (rejected _) = none
  of_reply (accepted b used) = some (b, used)

  unfoldable pub gated : Turn → Option (Bytes × Option Spend)
  gated u =
      if stream
      then of_stream (gate_stream codec.unmarshal codec.trim u.slices)
      else of_reply (gate_reply codec.unmarshal codec.valid u.body)

  unfoldable pub used_of : Option (Bytes × Option Spend) → Option (Option Spend)
  used_of none = none
  used_of (some (b, used)) = some used

  -- A request whose body cannot be made is not sent.
  unfoldable pub exchange : Plan → ℕ → Turn → Request → Response
  exchange plan n u r =
      elim (send codec.marshal codec.members codec.encode plan r.target.model r.meter) [
        | none ↦ unreachable
        | some (body, len) ↦
            if not (u.reached body len)
            then unreachable
            else response u.code (after (codec.hints n) u.get) (used_of (gated u)) u.timely
      ]

  -- The relay of what the gate let pass.
  unfoldable pub relay_gated : Turn → Option (Bytes × Option Spend) → Option Pumped × Stream
  relay_gated u none = (none, record { sent = []; tail = []; room = u.room })
  relay_gated u (some (first, used)) = relay stream first u.reads u.room

  -- An upstream that stays silent is cut off by the idle timer.
  unfoldable pub end_of : Option Pumped → Relayed
  end_of none = read_failed
  end_of (some all_sent) = written
  end_of (some client_gone) = write_failed
  end_of (some upstream_broke) = read_failed

  -- The environment of a walk: the relay is the question after the next one to the upstream's turn.
  unfoldable pub wire : Plan → (ℕ → Turn) → (ℕ → ℕ) → (ℕ → ℕ) → (ℕ → Bool) → Env
  wire plan turns took now left = record {
    up = λ n r. exchange plan n (turns n) r;
    took = took;
    sniffed = λ n. let u = turns (n - 2) in count codec.usage (relay_gated u (gated u)).1.tail;
    now = now;
    left = left;
    relayed = λ n. let u = turns (n - 2) in end_of (relay_gated u (gated u)).0;
  }
