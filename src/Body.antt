-- ===== src/Body.antt =====
-- internal/omny/body.go: `readBody`, `locate`, `step`, `send` and `swap`. What the package
-- encoding/json reads and writes is an argument: the decoder of a stream of tokens, the reading of the
-- wanted fields and of all fields of an object, and the writing of a text and of an object.
pub mod Locating
pub mod Sending
use omny.Base.{
  ℕ, zero, suc, ◌+◌, ◌-◌, ◌≤◌, Bool, true, false, not, ◌&&◌, ◌||◌, List, [], ◌∷◌, ◌++◌, Option,
  none, some, Bytes, bytes, bytes_eq, lookup, insert, ltb, ◌==◌, if◌then◌else◌, ◌>>=◌, length, take,
  drop, get_elem?,
}
use omny.Loader.{is_none}

-- `json.Token`, as far as it is told apart.
pub data Token : Type 0 where
  opens closes : Token
  text : Bytes → Token
  other : Token

-- `json.Decoder` over some bytes: the next token, whether the current array or object has more, the
-- next value as raw bytes, and `InputOffset`.
pub record Decoder (D : Type 0) : Type 0 where
  pub start : Bytes → D
  pub token : D → Option (Token × D)
  pub more : D → Bool
  pub decode : D → Option (Bytes × D)
  pub offset : D → ℕ

-- `want`: the fields of the request, a nil `Options` is none.
pub record Want : Type 0 where
  pub model : Bytes
  pub stream : Bool
  pub options : Option Bytes

pub record Plan : Type 0 where
  pub body : Bytes
  pub want : Want
  pub lo : ℕ
  pub hi : ℕ
  pub end : ℕ

abbrev pub counted : Bytes
counted = bytes "{\"include_usage\":true}"

abbrev pub inject : Bytes
inject = bytes ",\"stream_options\":" ++ counted

unfoldable pub is_space : ℕ → Bool
is_space c = c == 32 || c == 10 || c == 9 || c == 13

-- The first loop of `locate`: the index of the last byte that is no white space, none for -1.
unfoldable pub last_solid : Bytes → Option ℕ
last_solid [] = none
last_solid (c ∷ s) = elim (last_solid s) [
  | some i ↦ some (suc i)
  | none ↦ if is_space c then none else some 0
]

-- Offsets of the model's value and of the last brace; all 0 where they were not found.
abbrev pub Span : Type 0
Span = ℕ × ℕ × ℕ

-- `b[lo:hi]`.
unfoldable pub slice : Bytes → ℕ → ℕ → Bytes
slice b lo hi = take (hi - lo) (drop lo b)

-- What a walk over the decoder comes to, an error or the end of the fuel, told apart.
pub data Walked (A : Type 0) : Type 0 where
  walked : A → Walked A
  broken : Walked A
  stuck : Walked A

module _ {D : Type 0} (dec : Decoder D) where
  -- The loop of `step`, at a depth.
  unfoldable pub skip : ℕ → ℕ → D → Walked D
  skip fuel zero d = walked d
  skip zero (suc depth) d = stuck
  skip (suc fuel) (suc depth) d = elim (dec.token d) [
    | none ↦ broken
    | some (opens, d') ↦ skip fuel (suc (suc depth)) d'
    | some (closes, d') ↦ skip fuel depth d'
    | some (text _, d') ↦ skip fuel (suc depth) d'
    | some (other, d') ↦ skip fuel (suc depth) d'
  ]

  -- `step`: one value.
  unfoldable pub step : ℕ → D → Walked D
  step fuel d = elim (dec.token d) [
    | none ↦ broken
    | some (opens, d') ↦ skip fuel 1 d'
    | some (closes, d') ↦ walked d'
    | some (text _, d') ↦ walked d'
    | some (other, d') ↦ walked d'
  ]

  -- The value of `model`, checked against the bytes; `none` is the panic of a slice beyond them.
  unfoldable pub at_value : Bytes → ℕ → Bytes → ℕ → Option Span
  at_value b end raw at =
      if ltb at (length raw)
      then some (0, 0, 0)
      else if ltb (length b) at
      then none
      else if bytes_eq (slice b (at - length raw) at) raw
      then some (at - length raw, at, end)
      else some (0, 0, 0)

  unfoldable pub is_model : Token → Bool
  is_model (text k) = bytes_eq k (bytes "model")
  is_model opens = false
  is_model closes = false
  is_model other = false

  -- After a value was skipped: an error gives the span up.
  unfoldable pub on_walked : (D → Option Span) → Walked D → Option Span
  on_walked rest (walked d) = rest d
  on_walked rest broken = some (0, 0, 0)
  on_walked rest stuck = none

  -- The loop of `locate` over the fields; `none` also where the fuel runs out.
  unfoldable pub fields : ℕ → Bytes → ℕ → D → Option Span
  fields zero b end d = none
  fields (suc fuel) b end d = elim (dec.more d) [
    | false ↦ some (0, 0, 0)
    | true ↦ elim (dec.token d) [
      | none ↦ some (0, 0, 0)
      | some (k, d') ↦ elim (is_model k) [
        | true ↦ elim (dec.decode d') [
          | none ↦ some (0, 0, 0)
          | some (raw, d'') ↦ at_value b end raw (dec.offset d'')
        ]
        | false ↦ on_walked (fields fuel b end) (step fuel d')
      ]
    ]
  ]

  -- `locate`, from the last brace on. Each round reads a token, of which there are at most as many as
  -- bytes.
  unfoldable pub from_brace : Bytes → ℕ → Option Span
  from_brace b end = elim (dec.token (dec.start b)) [
    | some (opens, d) ↦ fields (suc (length b)) b end d
    | some (_, d) ↦ some (0, 0, 0)
    | none ↦ some (0, 0, 0)
  ]

  unfoldable pub locate : Bytes → Option Span
  locate b = elim (last_solid b) [
    | none ↦ some (0, 0, 0)
    | some end ↦ elim (get_elem? b end) [
      | none ↦ none
      | some c ↦ if end == 0 || not (c == 125) then some (0, 0, 0) else from_brace b end
    ]
  ]

  -- `readBody`, with `peek` as an argument: a plan, an error, or a panic.
  unfoldable pub read_body : (Bytes → Option Want) → Bytes → Option (Option Plan)
  read_body peek b = elim (peek b) [
    | none ↦ some none
    | some w ↦
        locate b >>= λ s. some (some (record { body = b; want = w; lo = s.0; hi = s.1; end = s.2 }))
  ]

module _ (marshal : Bytes → Bytes) (members : Bytes → Option (List (Bytes × Bytes)))
    (encode : List (Bytes × Bytes) → Bytes) where
  -- `swap`: the fields of the object with the model's name, and with the option where it is asked for
  -- and not there.
  unfoldable pub swap : Bytes → Bytes → Want → Bool → Option Bytes
  swap b model asked meter =
      if bytes_eq model asked.model && (not meter || not (is_none asked.options))
      then some b
      else members b >>= λ m.
          let named = insert (bytes "model") (marshal model) m in
          some (
            encode (
              if meter && is_none (lookup (bytes "stream_options") named)
              then insert (bytes "stream_options") counted named
              else named))

  -- `send`: the bytes that the readers give one after another, and the announced length.
  unfoldable pub send : Plan → Bytes → Bool → Option (Bytes × ℕ)
  send p model meter =
      let add = meter && is_none p.want.options in
      let name = marshal model in
      let head = take p.lo p.body in
      let tail = drop p.hi p.body in
      let mid = slice p.body p.hi p.end in
      let last = drop p.end p.body in
      if bytes_eq model p.want.model && not add
      then some (p.body, length p.body)
      else if p.hi == 0
      then (swap p.body model p.want meter >>= λ b. some (b, length b))
      else if not add
      then some (head ++ (name ++ tail), length head + length name + length tail)
      else some (
        head ++ (name ++ (mid ++ (inject ++ last))),
        length head + length name + length mid + length inject + length last,
      )
