-- ===== src/Gate.antt =====
-- internal/omny/gate.go: `gate`, `verdict` and `after`. What encoding/json, bytes.TrimSpace and the
-- parsers of numbers, times and durations read is an argument.
pub mod Framing
pub mod Forwarding
use omny.Base.{
  ℕ, zero, suc, ◌+◌, ◌≤◌, Bool, true, false, not, ◌&&◌, ◌||◌, List, [], ◌∷◌, ◌++◌, Option, none,
  some, Bytes, bytes, bytes_eq, ltb, ◌==◌, if◌then◌else◌, length,
}
use omny.Base.Int.{ℤ, pos, negsuc}
use omny.Key.{Spend, fill}
use omny.Access.{cut_prefix}
use omny.Loader.{is_empty}

-- 256 KB and 64 MB.
abbrev pub max_frame : ℕ
max_frame = 262144

abbrev pub max_reply : ℕ
max_reply = 67108864

-- Why a response is no content.
pub data Refusal : Type 0 where
  unread too_large no_json no_content ended : Refusal
  carries_error : Refusal

-- What `json.Unmarshal` reads of a response: whether it has an error, and its usage.
pub record Reply : Type 0 where
  pub error : Bool
  pub usage : Option Spend

unfoldable pub filled : Option Spend → Option Spend
filled none = none
filled (some s) = some (fill s)

-- The end of one `ReadSlice`: it found a newline, the buffer was full, or the stream ended or broke.
pub data SliceEnd : Type 0 where
  found full over : SliceEnd

-- `bytes.TrimRight(line, "\r\n")`.
unfoldable pub is_break : ℕ → Bool
is_break c = c == 13 || c == 10

unfoldable pub trim_breaks : Bytes → Bytes
trim_breaks [] = []
trim_breaks (c ∷ s) = elim (trim_breaks s) [
  | [] ↦ if is_break c then [] else c ∷ []
  | d ∷ r ↦ c ∷ d ∷ r
]

-- How the gate leaves a stream: refused, with its first bytes and the slices that are still to be
-- read, or waiting for a slice.
pub data Gated : Type 0 where
  refused : Refusal → Gated
  passed : Bytes → List (Bytes × SliceEnd) → Gated
  waiting : Gated

-- How the gate leaves a reply: its bytes, and the usage that it names.
pub data Replied : Type 0 where
  rejected : Refusal → Replied
  accepted : Bytes → Option Spend → Replied

module _ (unmarshal : Bytes → Option Reply) where
  -- `verdict`: none where the response carries an error.
  unfoldable pub verdict : Bytes → Option (Option Spend)
  verdict b = elim (unmarshal b) [
    | none ↦ some none
    | some v ↦ if v.error then none else some (filled v.usage)
  ]

  -- The verdict on a whole reply.
  unfoldable pub judged : Bytes → Option (Option Spend) → Replied
  judged b none = rejected carries_error
  judged b (some used) = accepted b used

  -- `gate` of a reply that is no stream: of its bytes, at most one more than the largest reply is
  -- read.
  unfoldable pub gate_reply : (Bytes → Bool) → Option Bytes → Replied
  gate_reply valid none = rejected unread
  gate_reply valid (some b) =
      if ltb max_reply (length b)
      then rejected too_large
      else if not (valid b)
      then rejected no_json
      else judged b (verdict b)

  -- A whole line: nothing where it is no content, a verdict where it is.
  unfoldable pub line_data : (Bytes → Bytes) → Bytes → Option Bytes
  line_data trim line = elim (cut_prefix (bytes "data:") (trim_breaks line)) [
    | none ↦ none
    | some d ↦
        if is_empty (trim d) || bytes_eq (trim d) (bytes "[DONE]") then none else some (trim d)
  ]

  -- After a whole line: the loop goes on, or the gate decides.
  unfoldable pub on_line : (Bytes → Bytes) → Bytes → Bytes → List (Bytes × SliceEnd) → Gated → Gated
  on_line trim first line rest next = elim (line_data trim line) [
    | none ↦ next
    | some d ↦ elim (verdict d) [ none ↦ refused carries_error | some _ ↦ passed first rest ]
  ]

  -- The loop of `gate` of a stream, over the slices that are read of it.
  unfoldable pub gate_loop : (Bytes → Bytes) → Bytes → Bytes → List (Bytes × SliceEnd) → Gated
  gate_loop trim first line [] = waiting
  gate_loop trim first line ((c, e) ∷ rest) =
      let first' = first ++ c in
      let line' = line ++ c in
      elim (ltb max_frame (length first')) [
        | true ↦ refused no_content
        | false ↦ elim e [
          | full ↦ gate_loop trim first' line' rest
          | over ↦ refused ended
          | found ↦ on_line trim first' line' rest (gate_loop trim first' [] rest)
        ]
      ]

  -- `gate` of a stream.
  unfoldable pub gate_stream : (Bytes → Bytes) → List (Bytes × SliceEnd) → Gated
  gate_stream trim slices = gate_loop trim [] [] slices

-- The parsers that `after` tries on a header, each with the wait that it reads.
pub record Hints : Type 0 where
  pub seconds : Bytes → Option ℤ
  pub date : Bytes → Option ℤ
  pub duration : Bytes → Option ℤ

unfoldable pub positive : ℤ → Option ℕ
positive (pos zero) = none
positive (pos (suc n)) = some (suc n)
positive (negsuc n) = none

-- One header: the first parser that reads it decides.
unfoldable pub hint : Hints → Bytes → Option ℕ
hint h [] = none
hint h (x ∷ v) = elim (h.seconds (x ∷ v)) [
  | some d ↦ positive d
  | none ↦ elim (h.date (x ∷ v)) [
    | some d ↦ positive d
    | none ↦ elim (h.duration (x ∷ v)) [ some d ↦ positive d | none ↦ none ]
  ]
]

-- `after`: the loop over the names of the headers.
unfoldable pub first_hint : Hints → (Bytes → Bytes) → List Bytes → ℕ
first_hint h get [] = 0
first_hint h get (n ∷ names) = elim (hint h (get n)) [ some d ↦ d | none ↦ first_hint h get names ]

unfoldable pub after : Hints → (Bytes → Bytes) → ℕ
after h get =
    first_hint h get
      (bytes "Retry-After" ∷ bytes "X-RateLimit-Reset-Requests" ∷ bytes "X-RateLimit-Reset" ∷ [])
