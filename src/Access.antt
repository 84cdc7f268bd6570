-- ===== src/Access.antt =====
-- internal/omny/config.go, `Config.who`, and internal/omny/serve.go, `guard`: whose token a request
-- bears. The comparisons take constant time in the source; their result is that of an equality.
pub mod Tokens
use omny.Base.{
  ℕ, Bool, true, false, ◌&&◌, not, List, [], ◌∷◌, ◌++◌, Option, none, some, Bytes, bytes, bytes_eq,
  ◌==◌, if◌then◌else◌,
}
use omny.Config.{Config}
use omny.Loader.{is_empty}

-- The test of one candidate token.
unfoldable pub matches : Bytes → Bytes → Bool
matches tok t = not (is_empty t) && bytes_eq tok t

-- The loop over `c.Tokens`, in some order of the map, from the name found so far.
unfoldable pub search_tokens : Bytes → List (Bytes × Bytes) → Bytes → Bytes
search_tokens tok [] name = name
search_tokens tok ((n, t) ∷ ts) name = search_tokens tok ts (if matches tok t then n else name)

-- `Config.who`.
unfoldable pub who : Config → Bytes → Bytes
who c tok = search_tokens tok c.tokens (if matches tok c.token then bytes "-" else [])

-- `strings.CutPrefix`.
unfoldable pub cut_prefix : Bytes → Bytes → Option Bytes
cut_prefix [] s = some s
cut_prefix (x ∷ xs) [] = none
cut_prefix (x ∷ xs) (y ∷ ys) = if x == y then cut_prefix xs ys else none

abbrev pub bearer : Bytes
bearer = bytes "Bearer "

-- `guard`: the caller's name that the handler gets, or none where the request is refused with 401.
unfoldable pub guard : Config → Bytes → Option Bytes
guard c header = elim (cut_prefix bearer header) [
  | none ↦ none
  | some got ↦ if is_empty (who c got) then none else some (who c got)
]
