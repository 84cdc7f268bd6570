-- ===== src/Loader.antt =====
-- internal/omny/config.go: `Config.check`, what a configuration file is refused for. A map is listed
-- in the order of its sorted keys. The readings of addresses and of blank text by the packages net,
-- net/url and strings are arguments.
pub mod Accepted
pub mod File
use omny.Base.{
  ℕ, zero, suc, Bool, true, false, ◌&&◌, ◌||◌, not, List, [], ◌∷◌, ◌++◌, Option, none, some, Bytes,
  bytes, bytes_eq, lookup, ◌>>=◌, if◌then◌else◌,
}
use omny.Base.Int.{ℤ, pos, negsuc}
use omny.Config.{Provider, Config}
use omny.Route.{cut}

-- One constructor for each call of `add`.
pub data Problem : Type 0 where
  no_token : Problem
  token_empty : Bytes → Problem
  listen_malformed listen_wide no_state no_providers : Problem
  no_url bad_url keyless_with_keys : Bytes → Problem
  key_empty : Bytes → ℕ → Problem
  key_twice : Bytes → ℕ → Bytes → Problem
  negative_rpd negative_rpm negative_ttft : Bytes → Problem
  unarmed : Problem
  alias_empty : Bytes → Problem
  alias_malformed alias_unknown : Bytes → Bytes → Problem
  no_default default_unknown : Problem
  fallback_unknown : Bytes → Problem

unfoldable pub when : Bool → Problem → List Problem
when b x = if b then x ∷ [] else []

unfoldable pub is_empty {ℓ} : {A : Type ℓ} → List A → Bool
is_empty [] = true
is_empty (_ ∷ _) = false

unfoldable pub is_none {ℓ} : {A : Type ℓ} → Option A → Bool
is_none none = true
is_none (some _) = false

unfoldable pub negative : ℤ → Bool
negative (pos _) = false
negative (negsuc _) = true

unfoldable pub token_problems : List (Bytes × Bytes) → List Problem
token_problems [] = []
token_problems ((n, t) ∷ ts) = when (is_empty t) (token_empty n) ++ token_problems ts

-- The host of the listening address, where it has a port.
unfoldable pub listen_problems : Option Bytes → List Problem
listen_problems none = listen_malformed ∷ []
listen_problems (some host) =
    when (is_empty host || bytes_eq host (bytes "0.0.0.0") || bytes_eq host (bytes "::"))
      listen_wide

-- Whether a parsed address has a host and one of the two schemes.
unfoldable pub is_http : Option (Bytes × Bytes) → Bool
is_http none = false
is_http (some (scheme, host)) =
    not (is_empty host) && (bytes_eq scheme (bytes "http") || bytes_eq scheme (bytes "https"))

unfoldable pub number_problems : Bytes → Provider → List Problem
number_problems n p =
    when (negative p.rpd) (negative_rpd n)
    ++ when (negative p.rpm) (negative_rpm n)
    ++ when (negative p.ttft) (negative_ttft n)

-- Whether `armed` is above 0 after the loop.
unfoldable pub any_armed : List (Bytes × Provider) → Bool
any_armed [] = false
any_armed ((_, p) ∷ ps) = not (is_empty p.keys) || p.keyless || any_armed ps

-- One entry of the alias `a`.
unfoldable pub entry_problems : List (Bytes × Provider) → Bytes → Bytes → List Problem
entry_problems ps a e =
    let (prov, model, ok) = cut e in
    if not ok || is_empty model || is_empty prov
    then alias_malformed a e ∷ []
    else when (is_none (lookup prov ps)) (alias_unknown a prov)

unfoldable pub entries_problems : List (Bytes × Provider) → Bytes → List Bytes → List Problem
entries_problems ps a [] = []
entries_problems ps a (e ∷ es) = entry_problems ps a e ++ entries_problems ps a es

unfoldable pub alias_problems : List (Bytes × Provider) → List (Bytes × List Bytes) → List Problem
alias_problems ps [] = []
alias_problems ps ((a, es) ∷ more) =
    when (is_empty es) (alias_empty a) ++ entries_problems ps a es ++ alias_problems ps more

unfoldable pub default_problems : Config → List Problem
default_problems c =
    if is_empty c.default
    then no_default ∷ []
    else when (is_none (lookup c.default c.providers)) default_unknown

unfoldable pub fallback_problems : List (Bytes × List Bytes) → List Bytes → List Problem
fallback_problems aliases [] = []
fallback_problems aliases (a ∷ more) =
    when (is_none (lookup a aliases)) (fallback_unknown a) ++ fallback_problems aliases more

module _ (split_host_port : Bytes → Option Bytes) (parse_url : Bytes → Option (Bytes × Bytes))
    (blank : Bytes → Bool) where
  -- The keys of one provider from the i-th on, and `twice` after them.
  unfoldable pub key_problems :
      Bytes → ℕ → List Bytes → List (Bytes × Bytes) → List Problem × List (Bytes × Bytes)
  key_problems n i [] twice = ([], twice)
  key_problems n i (k ∷ ks) twice = elim (blank k) [
    | true ↦ let (es, tw) = key_problems n (suc i) ks twice in (key_empty n i ∷ es, tw)
    | false ↦ elim (lookup k twice) [
      | some was ↦ let (es, tw) = key_problems n (suc i) ks twice in (key_twice n i was ∷ es, tw)
      | none ↦ key_problems n (suc i) ks ((k, n) ∷ twice)
    ]
  ]

  unfoldable pub url_problems : Bytes → Provider → List Problem
  url_problems n p =
      if is_empty p.url then no_url n ∷ [] else when (not (is_http (parse_url p.url))) (bad_url n)

  unfoldable pub provider_problems : List (Bytes × Provider) → List (Bytes × Bytes) → List Problem
  provider_problems [] twice = []
  provider_problems ((n, p) ∷ ps) twice =
      let (es, tw) = key_problems n 0 p.keys twice in
      url_problems n p
      ++ when (p.keyless && not (is_empty p.keys)) (keyless_with_keys n)
      ++ es
      ++ number_problems n p
      ++ provider_problems ps tw

  -- `check`: the problems in the order of the source.
  unfoldable pub check : Config → List Problem
  check c =
      when (is_empty c.token && is_empty c.tokens) no_token
      ++ token_problems c.tokens
      ++ listen_problems (split_host_port c.listen)
      ++ when (is_empty c.state) no_state
      ++ when (is_empty c.providers) no_providers
      ++ provider_problems c.providers []
      ++ when (not (is_empty c.providers) && not (any_armed c.providers)) unarmed
      ++ alias_problems c.providers c.aliases
      ++ default_problems c
      ++ fallback_problems c.aliases c.fallback

  -- `Load`, where `Parse` reads a configuration from the bytes of a file.
  unfoldable pub load : (Bytes → Option Config) → Bytes → Option Config
  load parse b = parse b >>= λ c. if is_empty (check c) then some c else none
