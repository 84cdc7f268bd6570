-- ===== src/Edit/Commands.antt =====
-- internal/edit/cli.go: `drop`, `parse`, `secret`, `plus` and `CLI`. The flags of the package flag,
-- the scanner's first line and `strings.TrimSpace` are arguments.
pub mod Dropping
pub mod Positions
use omny.Base.{
  has_prefix, ℕ, zero, suc, ◌+◌, Bool, true, false, not, ◌&&◌, ◌||◌, List, [], ◌∷◌, ◌++◌, Option,
  none, some, Bytes, bytes, bytes_eq, ◌==◌, ltb, if◌then◌else◌, length,
}
use omny.Loader.{is_empty}
use omny.Edit.Result.{
  Failure, unmatched, ambiguous, too_many, no_input, empty_input, bad_flags, no_name, endpoint_url,
  keyless_key, want_two, unknown_command, Result, done, failed, panics, ◌>>=◌,
}
use omny.Edit.Splice.{index}
use omny.Edit.Tweaks.{Tweak, birth, bare, keys, pin}

-- The test of `drop`: the key itself, or a prefix of its fingerprint.
unfoldable pub names : (Bytes → Bytes) → Bytes → Bytes → Bool
names fingerprint want v = bytes_eq v want || has_prefix want (fingerprint v)

-- The loop of `drop`: the keys that are kept, and how many are not.
unfoldable pub drop_loop : (Bytes → Bytes) → Bytes → List Bytes → List Bytes → ℕ → List Bytes × ℕ
drop_loop fingerprint want [] out hit = (out, hit)
drop_loop fingerprint want (v ∷ ks) out hit = elim (names fingerprint want v) [
  | true ↦ drop_loop fingerprint want ks out (hit + 1)
  | false ↦ drop_loop fingerprint want ks (out ++ v ∷ []) hit
]

unfoldable pub dropped : Bytes → List Bytes × ℕ → Result (List Bytes)
dropped want (out, hit) =
    if hit == 0
    then failed (unmatched want)
    else if ltb 1 hit
    then failed (ambiguous want hit)
    else done out

unfoldable pub drop_key : (Bytes → Bytes) → List Bytes → Bytes → Result (List Bytes)
drop_key fingerprint ks want = dropped want (drop_loop fingerprint want ks [] 0)

-- The values of the flags of `add`.
pub record Flags : Type 0 where
  pub url : Bytes
  pub model : Bytes
  pub keyless : Bool

-- The loop of `parse`, with fuel; none where it runs out. `fs.Parse` sets flags and leaves the
-- arguments from the first one on that is no flag, or fails.
unfoldable pub parse_loop :
    (Flags → List Bytes → Option (Flags × List Bytes))
    → ℕ
    → Flags
    → List Bytes
    → List Bytes
    → Option (Result (Flags × List Bytes))
parse_loop flags zero f args places = none
parse_loop flags (suc fuel) f args places = elim (flags f args) [
  | none ↦ some (failed bad_flags)
  | some (f', rest) ↦ elim rest [
    | [] ↦ some (done (f', places))
    | a ∷ more ↦ parse_loop flags fuel f' more (places ++ a ∷ [])
  ]
]

-- `parse`: each round takes one argument, so there is fuel for one more round than arguments.
unfoldable pub parse :
    (Flags → List Bytes → Option (Flags × List Bytes))
    → List Bytes
    → Option (Result (Flags × List Bytes))
parse flags args =
    parse_loop flags (suc (length args)) (record { url = []; model = []; keyless = false }) args []

-- The line that is read from the input, if there is one.
unfoldable pub from_input : (Bytes → Bytes) → Option Bytes → Result Bytes
from_input trim none = failed no_input
from_input trim (some text) = if is_empty (trim text) then failed empty_input else done (trim text)

unfoldable pub secret : (Bytes → Bytes) → Option Bytes → List Bytes → Result Bytes
secret trim input [] = from_input trim input
secret trim input (k ∷ []) = if bytes_eq k (bytes "-") then from_input trim input else done k
secret trim input (k ∷ l ∷ rest) = failed (too_many (length (k ∷ l ∷ rest)))

-- What a command does: it validates the file, lists its providers, or edits one of them.
pub data Action : Type 0 where
  validates lists : Action
  edits : Bytes → List Tweak → Action

module _ (quote : Bytes → Bytes) (blank : Bytes → Bool) (trim : Bytes → Bytes)
    (input : Option Bytes) where
  -- The tweak of `plus` that makes the provider, where a URL is given.
  unfoldable pub birth_work : Bytes → Bytes → Result (List Tweak)
  birth_work prov [] = done []
  birth_work prov (x ∷ url) = elim (index (x ∷ url) (bytes "/chat/completions")) [
    | some _ ↦ failed endpoint_url
    | none ↦ done (birth prov (x ∷ url) ∷ [])
  ]

  -- The one that arms it.
  unfoldable pub arm_work : Bytes → Bool → List Bytes → Result (List Tweak)
  arm_work prov true [] = done (bare quote blank prov ∷ [])
  arm_work prov true (k ∷ rest) = failed (keyless_key k)
  arm_work prov false rest = secret trim input rest >>= λ key.
      done (keys quote blank prov (λ ks. done (ks ++ key ∷ [])) ∷ [])

  -- The one that names the model, where one is given.
  unfoldable pub pin_work : Bytes → Bytes → List Tweak
  pin_work prov [] = []
  pin_work prov (x ∷ model) = pin quote blank prov (x ∷ model) ∷ []

  -- `plus`, after `parse`: the provider and the tweaks that `amend` gets.
  unfoldable pub plus : Flags × List Bytes → Result (Bytes × List Tweak)
  plus (f, []) = failed no_name
  plus (f, prov ∷ rest) = birth_work prov f.url >>= λ born.
      arm_work prov f.keyless rest >>= λ arms. done (prov, born ++ (arms ++ pin_work prov f.model))

  -- `rm` wants two arguments.
  unfoldable pub remove : (Bytes → Bytes) → List Bytes → Result Action
  remove fingerprint (prov ∷ key ∷ []) =
      done (edits prov (keys quote blank prov (λ ks. drop_key fingerprint ks key) ∷ []))
  remove fingerprint _ = failed want_two

  -- The result of `parse`, which never runs out of fuel.
  unfoldable pub add_args : Option (Result (Flags × List Bytes)) → Result (Flags × List Bytes)
  add_args none = panics
  add_args (some r) = r

  -- `CLI`: what a command line asks for; `add` and `rm` go on to `amend`.
  unfoldable pub cli :
      (Bytes → Bytes)
      → (Flags → List Bytes → Option (Flags × List Bytes))
      → List Bytes
      → Result Action
  cli fingerprint flags [] = panics
  cli fingerprint flags (name ∷ args) =
      if bytes_eq name (bytes "check")
      then done validates
      else if bytes_eq name (bytes "ls")
      then done lists
      else if bytes_eq name (bytes "add")
      then (add_args (parse flags args) >>= plus >>= λ work. done (edits work.0 work.1))
      else if bytes_eq name (bytes "rm")
      then remove fingerprint args
      else failed (unknown_command name)
