-- ===== src/Examples/Gateway.antt =====
-- A small gateway: two providers with keys, a fingerprint that is the key itself, and an environment.
use omny.Base.{suc, zero, ◌*◌, ℕ, true, false, List, [], ◌∷◌, none, some, Bytes, bytes}
use omny.Base.Int.{pos}
use omny.Clock.{second, day_length}
use omny.Config.{Provider, Config}
use omny.Key.{Key}
use omny.Pool.Traffic.{Event, picks, fails, succeeds, leaves, charges, sours}
use omny.Pool.Reload.{new_key}
use omny.Proxy.{Env, Waits, Request, Response, response, unreachable, written}

abbrev pub fp : Bytes → Bytes
fp v = v

abbrev pub groq : Provider
groq = record {
  url = bytes "https://g";
  keyless = false;
  headers = [];
  keys = bytes "g1" ∷ bytes "g2" ∷ [];
  rpd = pos 2;
  rpm = pos 0;
  ttft = pos 0;
}

abbrev pub local : Provider
local = record {
  url = bytes "http://l";
  keyless = true;
  headers = [];
  keys = [];
  rpd = pos 0;
  rpm = pos 0;
  ttft = pos 0;
}

abbrev pub config : Config
config = record {
  listen = bytes "127.0.0.1:8080";
  token = bytes "t";
  tokens = [];
  state = bytes "s";
  pid = [];
  default = bytes "groq";
  fallback = [];
  providers = (bytes "groq", groq) ∷ (bytes "local", local) ∷ [];
  aliases = (bytes "fast", bytes "groq/llama" ∷ bytes "local/qwen" ∷ []) ∷ [];
}

-- 1 January 2024.
abbrev pub noon : ℕ
noon = 738885 * day_length

abbrev pub history : List (ℕ × Event)
history =
    (noon, picks (bytes "groq"))
    ∷ (noon, picks (bytes "groq"))
    ∷ (noon, fails 1 500 0)
    ∷ (noon, succeeds 0 (2 * second))
    ∷ (noon, charges 0 none)
    ∷ (noon, sours 0)
    ∷ (noon, picks (bytes "local"))
    ∷ (noon, leaves 0)
    ∷ []

abbrev pub key : Key
key = new_key groq (record { id = bytes "g1"; val = bytes "g1" })

abbrev pub waits : Waits
waits = record { ttft = 15 * second; idle = 60 * second; floor = 2 * second }

-- The first answer is a server error, every later one a reply.
abbrev answer : ℕ → Request → Response
answer n r = elim n [ suc m ↦ response 200 0 (some none) true | zero ↦ unreachable ]

abbrev pub env : Env
env = record {
  up = answer;
  took = λ _. second;
  sniffed = λ _. none;
  now = λ _. noon;
  left = λ _. false;
  relayed = λ _. written;
}
