-- ===== src/Examples/Proxying.antt =====
-- A request from end to end, at an input that meets the conditions of the theorem on it.
use omny.Base.{
  length, take, ltb, ◌==◌, if◌then◌else◌, min, ℕ, ◌*◌, true, false, [], ◌∷◌, Option, none, some,
  arith, Bytes, bytes, bytes_eq,
}
use omny.Base.Int.{pos}
use omny.Clock.{second}
use omny.Clock
use omny.Config
use omny.Key
use omny.Pool
use omny.Pool.Reload
use omny.Order
use omny.Route
use omny.Proxy
use omny.Proxy.{State, Env}
use omny.Dispatch
use omny.Dispatch.{Answer, dispatch}
use omny.Access
use omny.Loader
use omny.Body
use omny.Body.{Plan, Want, Token, opens, closes, text, Decoder}
use omny.Gate
use omny.Gate.{Hints}
use omny.Relay
use omny.Relay.{eof}
use omny.Relay.Count
use omny.Wire
use omny.Wire.{Turn, Codec, wire}
use omny.Chat
use omny.Chat.{Reader}
use omny.Admission
use omny.Serve
use omny.Serve.{Server}
use omny.Body.Locating.{Reads}
use omny.Examples.Gateway.{config, noon, waits}
use omny.Examples.Witnesses.{state}
use omny.Examples.Streaming.{slices, no_error, quoted, no_members, no_text}

abbrev codec : Codec
codec = record {
  unmarshal = no_error;
  usage = λ _. none;
  valid = λ _. true;
  trim = Count.trim_left;
  hints = λ _. record { seconds = λ _. none; date = λ _. none; duration = λ _. none };
  marshal = quoted;
  members = no_members;
  encode = no_text;
}

-- A body that names an alias.
abbrev pub plan : Plan
plan = record {
  body = bytes "{\"model\":\"fast\"}";
  want = record { model = bytes "fast"; stream = true; options = none };
  lo = 9;
  hi = 15;
  end = 15;
}

abbrev turn : ℕ → Turn
turn _ = record {
  reached = λ b n. length b == n;
  code = 200;
  get = λ _. [];
  slices = slices;
  body = none;
  timely = true;
  reads = (bytes "data: [DONE]\n", eof) ∷ [];
  room = 5;
}

abbrev world : Env
world = wire codec true plan turn (λ _. second) (λ _. noon) (λ _. false)

abbrev state_of : Option (Answer × State) → State
state_of none = state
state_of (some (a, s)) = s

abbrev after_it : State
after_it = state_of (dispatch world waits (5 * second) true config (bytes "fast") state)

-- The body of the plan, and readers of bodies and tokens that know it.
abbrev pub reader : Reader Bytes
reader = record {
  content_length = λ b. pos (length b);
  limit = λ n b. take n b;
  read_all = some;
  read_from = some;
}

abbrev read_token : Bytes → ℕ → Option (Token × ℕ)
read_token b d =
    if ltb (length b) 16
    then none
    else if d == 0
    then some (opens, 1)
    else if d == 1
    then some (text (bytes "model"), 8)
    else if ltb d 16
    then some (closes, 16)
    else none

abbrev pub decoder : Bytes → Decoder ℕ
decoder b = record {
  start = λ _. 0;
  token = read_token b;
  more = λ d. ltb d 15;
  decode = λ d. if d == 8 then some (bytes "\"fast\"", 15) else none;
  offset = λ d. min d (length b);
}

pub decoder-Reads : (b : Bytes) → Reads (decoder b) b
decoder-Reads b = record { inside = λ d. omega arith; grows = λ d d' t e. ground arith }

abbrev pub peek : Bytes → Option Want
peek b = if bytes_eq b plan.body then some plan.want else none

abbrev pub net : Plan → Env
net p = wire codec p.want.stream p turn (λ _. second) (λ _. noon) (λ _. false)

abbrev pub server : Server
server = record { config = config; pool = state.pool }

abbrev server_after : Server
server_after = record server { pool = after_it.pool }
