-- ===== src/Admission.antt =====
-- internal/omny/serve.go, `admit` and `release`, and the reservation that proxy.go's `dispatch` asks
-- for: the memory that request bodies may take, counted by an atomic that many requests change at
-- once. Each load and each compare-and-swap is a step of its own.
pub mod Bounds
use omny.Base.{
  ℕ, zero, suc, ◌+◌, ◌-◌, ◌*◌, ◌≤◌, Bool, true, false, List, [], ◌∷◌, Option, none, some, ltb, ◌==◌,
  if◌then◌else◌, get_elem?, remove_at,
}
use omny.Base.Int.{ℤ, pos, negsuc}

-- 32 MB.
abbrev pub max_body : ℕ
max_body = 33554432

-- `room`: the body's declared length, or the largest body where it is unknown or larger.
unfoldable pub room : ℤ → ℕ
room (pos n) = if ltb max_body n then max_body else n
room (negsuc _) = max_body

-- Where a request stands in the loop of `admit`, with the size that it asks for.
pub data Phase : Type 0 where
  loading : ℕ → Phase
  swapping : ℕ → ℕ → Phase

pub record Admission : Type 0 where
  pub hold : ℕ
  pub held : ℕ
  pub trying : List Phase
  pub inside : List ℕ

pub data Move : Type 0 where
  begins steps leaves : ℕ → Move

-- The request at place `i` loads the counter, and is refused if its size does not fit.
unfoldable pub load : Admission → ℕ → ℕ → Admission
load s i n =
    if ltb s.hold (s.held + n)
    then record s { trying = remove_at s.trying i }
    else record s { trying = swapping n s.held ∷ remove_at s.trying i }

-- Its compare-and-swap; a failed one sends it back to the top of the loop.
unfoldable pub swap : Admission → ℕ → ℕ → ℕ → Admission
swap s i n seen =
    if s.held == seen
    then record s { held = seen + n; trying = remove_at s.trying i; inside = n ∷ s.inside }
    else record s { trying = loading n ∷ remove_at s.trying i }

unfoldable pub advance : Admission → ℕ → Option Phase → Admission
advance s i none = s
advance s i (some (loading n)) = load s i n
advance s i (some (swapping n seen)) = swap s i n seen

-- `release`, of the request at place `i` inside.
unfoldable pub release : Admission → ℕ → Option ℕ → Admission
release s i none = s
release s i (some n) = record s { held = s.held - n; inside = remove_at s.inside i }

unfoldable pub move : Admission → Move → Admission
unfolding load swap advance release
move s (begins n) = record s { trying = loading n ∷ s.trying }
move s (steps i) = advance s i (get_elem? s.trying i)
move s (leaves i) = release s i (get_elem? s.inside i)

unfoldable pub moves : Admission → List Move → Admission
moves s [] = s
moves s (m ∷ ms) = moves (move s m) ms

-- A server that just started: `hold` is eight of the largest bodies.
abbrev pub empty : Admission
empty = record { hold = 8 * max_body; held = 0; trying = []; inside = [] }
