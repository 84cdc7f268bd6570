-- ===== src/Examples/Streaming.antt =====
-- The theorems on request bodies, the gate and the relay, at inputs that meet their conditions.
use omny.Base.{
  ◌≢◌, ℕ, ◌+◌, ◌≤◌, ◌≡◌, refl, ◌⊎◌, true, false, [], ◌∷◌, ◌++◌, some, none, arith, All, bytes,
  bytes_eq, Bytes, List, Option, length, min, ltb, ◌==◌, if◌then◌else◌, lookup, get_elem?,
  has_prefix, count as often,
}
use omny.Base.Int.{pos, ◌+ℤ◌}
use omny.Key.{Spend, fill}
use omny.Access
use omny.Loader
use omny.Body.{Token, opens, closes, text, Decoder, Plan, Span, locate, slice, last_solid, send}
use omny.Body.Locating.{Reads, locate_lem}
use omny.Body.Sending.{IsSent, send_lem}
use omny.Gate
use omny.Gate.{Reply, SliceEnd, found, over, passed, gate_stream}
use omny.Gate.Framing.{text_of}
use omny.Gate.Forwarding.{IsForwarded, relay-IsForwarded}
use omny.Relay.{eof, relay}
use omny.Relay.Tail.{flat}
use omny.Relay.Pumping.{chunks}
use omny.Relay.Count
use omny.Relay.Count.{count, count_lem, mark, trim_left, Unmarked}
use omny.Relay.Headers
use omny.Relay.Headers.{
  IsHeader, either_of, typed_as, first_value, content_type, Headers, head, head_lem,
}

-- A body, and a decoder that reads its tokens.
abbrev body : Bytes
body = bytes "{\"model\":\"x\"}"

abbrev read_token : ℕ → Option (Token × ℕ)
read_token d =
    if d == 0
    then some (opens, 1)
    else if d == 1
    then some (text (bytes "model"), 8)
    else if ltb d 13
    then some (closes, 13)
    else none

abbrev decoder : Decoder ℕ
decoder = record {
  start = λ _. 0;
  token = read_token;
  more = λ d. ltb d 12;
  decode = λ d. if d == 8 then some (bytes "\"x\"", 12) else none;
  offset = λ d. min d 13;
}

decoder-Reads : Reads decoder body
decoder-Reads = record { inside = λ d. omega arith; grows = λ d d' t e. ground arith }

locate_lem_example :
    (s : Span) × (locate decoder body ≡ some s)
    × (((s.0 ≡ 0) × (s.1 ≡ 0) × (s.2 ≡ 0))
        ⊎ ((d₀ : ℕ) × (d : ℕ) × (d' : ℕ) × (raw : Bytes) × (decoder.more d₀ ≡ true)
            × (decoder.token d₀ ≡ some (text (bytes "model"), d))
            × (decoder.decode d ≡ some (raw, d'))
            × (s.1 ≡ decoder.offset d')
            × (s.0 + length raw ≡ s.1)
            × (s.1 ≤ length body)
            × (slice body s.0 s.1 ≡ raw)
            × (last_solid body ≡ some s.2)
            × (get_elem? body s.2 ≡ some 125)))
locate_lem_example = locate_lem decoder body decoder-Reads

abbrev plan : Plan
plan = record {
  body = body;
  want = record { model = bytes "x"; stream = true; options = none };
  lo = 9;
  hi = 12;
  end = 12;
}

abbrev pub quoted : Bytes → Bytes
quoted b = bytes "\"" ++ (b ++ bytes "\"")

abbrev pub no_members : Bytes → Option (List (Bytes × Bytes))
no_members _ = none

abbrev pub no_text : List (Bytes × Bytes) → Bytes
no_text _ = []

send_lem_example :
    ((send quoted no_members no_text plan (bytes "y") true ≡ none)
      × (plan.hi ≡ 0)
      × (no_members plan.body ≡ none))
    ⊎ ((sent : Bytes) × (send quoted no_members no_text plan (bytes "y") true
          ≡ some (sent, length sent))
        × IsSent quoted no_members no_text plan (bytes "y") true sent)
send_lem_example =
    send_lem quoted no_members no_text plan (bytes "y") true
      (record { ordered = omega arith; before_brace = omega arith; inside = omega arith })

-- A stream of a blank line and an event, and then another event.
abbrev pub slices : List (Bytes × SliceEnd)
slices = (bytes "\n", found) ∷ (bytes "data: {}\n", found) ∷ (bytes "data: [DONE]\n", over) ∷ []

abbrev pub no_error : Bytes → Option Reply
no_error _ = some (record { error = false; usage = none })

pub slices_pass :
    gate_stream no_error trim_left slices
    ≡ passed (bytes "\ndata: {}\n") ((bytes "data: [DONE]\n", over) ∷ [])
unfolding gate_stream Gate.gate_loop Gate.on_line Gate.line_data Gate.trim_breaks Gate.is_break
    Access.cut_prefix Loader.is_empty Gate.verdict Gate.filled trim_left bytes_eq
slices_pass = refl

relay-IsForwarded_example :
    IsForwarded
      (text_of slices)
      ((bytes "data: [DONE]\n", eof) ∷ [])
      (relay true (bytes "\ndata: {}\n") ((bytes "data: [DONE]\n", eof) ∷ []) 5)
unfolding flat chunks text_of
relay-IsForwarded_example =
    relay-IsForwarded no_error trim_left slices (bytes "\ndata: {}\n")
      ((bytes "data: [DONE]\n", over) ∷ []) ((bytes "data: [DONE]\n", eof) ∷ []) 5 slices_pass refl

abbrev spent_three : Bytes → Option Spend
spent_three _ = some (record { in_toks = pos 1; out_toks = pos 2; total = pos 0 })

count_lem_example :
    (pre : Bytes) × (c : ℕ) × (rest : Bytes) × (blanks : Bytes) × (b : Bytes) × (post : Bytes)
    × (u : Spend) × (bytes "{\"usage\": {}}" ≡ pre ++ c ∷ rest)
    × (c ∷ rest ≡ mark ++ (blanks ++ (b ++ post)))
    × Unmarked rest
    × All (λ x. (x ≡ 32) ⊎ (x ≡ 9)) blanks
    × ((inner : Bytes) × (b ≡ 123 ∷ inner))
    × (often 123 b ≡ often 125 b)
    × (spent_three b ≡ some u)
    × (record { in_toks = pos 1; out_toks = pos 2; total = pos 3 } ≡ fill u)
unfolding count Count.after_last has_prefix Count.usage_text trim_left Count.object fill ◌+ℤ◌
count_lem_example =
    count_lem spent_three (bytes "{\"usage\": {}}")
      (record { in_toks = pos 1; out_toks = pos 2; total = pos 3 }) refl

abbrev upstream : Headers
upstream =
    (bytes "Set-Cookie", bytes "s" ∷ [])
    ∷ (bytes "Content-Type", bytes "text/event-stream" ∷ [])
    ∷ (bytes "X-Ratelimit-Reset", bytes "3" ∷ [])
    ∷ []

upstream-IsHeader : IsHeader upstream
unfolding lookup bytes_eq
upstream-IsHeader = (refl, (refl, (refl, tt)))

head_lem_example :
    ((h : Bytes)
      → Headers.is_limit h ≡ true
      → lookup h (head [] upstream) ≡ either_of (lookup h upstream) (lookup h []))
    × (lookup content_type (head [] upstream)
        ≡ typed_as (first_value (lookup content_type upstream)) (lookup content_type []))
    × ((h : Bytes)
        → Headers.is_limit h ≡ false
        → h ≢ content_type
        → lookup h (head [] upstream) ≡ lookup h [])
head_lem_example = head_lem [] upstream upstream-IsHeader
