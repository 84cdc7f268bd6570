-- ===== src/Order.antt =====
-- internal/omny/speed.go, `tier`, `Pool.speed`, `Pool.order` and `Pool.tighten`: faster targets first.
pub mod Sorting
pub mod Placing
pub mod Laws
use omny.Base.{
  ℕ, zero, suc, ◌+◌, ◌*◌, ◌/◌, ◌≤◌, min, max, Bool, true, false, ◌&&◌, List, [], ◌∷◌, Option, none,
  some, Bytes, ltb, leb, ◌==◌, if◌then◌else◌, get_elem?, set, length, map,
}
use omny.Clock.{second}
use omny.Key.{Key, free}
use omny.Pool.{Pool, ring, roll}
use omny.Route.{Target}

-- 250 milliseconds.
abbrev pub grain : ℕ
grain = 250000000

-- `bits.Len64`: 64 rounds are enough for a 64-bit number.
unfoldable pub bit_len : ℕ → ℕ → ℕ
bit_len zero n = 0
bit_len (suc f) n = let rest = suc (bit_len f (n / 2)) in if n == 0 then 0 else rest

unfoldable pub tier : ℕ → ℕ
tier d = if leb d grain then 0 else bit_len 64 (d / grain)

-- The loop of `Pool.speed`: the sum and the number of the times of a ring's free measured keys.
unfoldable pub speed_sum : ℕ → List Key → List ℕ → ℕ × ℕ → ℕ × ℕ
speed_sum now cells [] acc = acc
speed_sum now cells (a ∷ more) (sum, n) = speed_sum now cells more (elim (get_elem? cells a) [
  | none ↦ (sum, n)
  | some k ↦ if ltb 0 k.ttft && free now k then (sum + k.ttft, n + 1) else (sum, n)
])

unfoldable pub speed : ℕ → Pool → Bytes → ℕ
speed now p prov =
    let (sum, n) = speed_sum now p.cells (ring p prov) (0, 0) in if n == 0 then 0 else sum / n

module _ {ℓ} {A : Type ℓ} where
  -- `ranked`, with the time of a target given by a function.
  unfoldable pub ranked : (A → ℕ) → List A → List (A × ℕ)
  ranked d [] = []
  ranked d (t ∷ ts) = if ltb 0 (d t) then (t, d t) ∷ ranked d ts else ranked d ts

  -- The indices of the measured targets.
  unfoldable pub places : (A → ℕ) → ℕ → List A → List ℕ
  places d i [] = []
  places d i (t ∷ ts) = if ltb 0 (d t) then i ∷ places d (suc i) ts else places d (suc i) ts

  -- `slices.SortStableFunc` by tier.
  unfoldable pub insert_by_tier : A × ℕ → List (A × ℕ) → List (A × ℕ)
  insert_by_tier r [] = r ∷ []
  insert_by_tier r (s ∷ rs) =
      if leb (tier r.1) (tier s.1) then r ∷ s ∷ rs else s ∷ insert_by_tier r rs

  unfoldable pub sort_by_tier : List (A × ℕ) → List (A × ℕ)
  sort_by_tier [] = []
  sort_by_tier (r ∷ rs) = insert_by_tier r (sort_by_tier rs)

  -- `for j, r := range rs { ts[at[j]] = r.t }`
  unfoldable pub put_back : List A → List ℕ → List (A × ℕ) → List A
  put_back ts [] rs = ts
  put_back ts (i ∷ is) [] = ts
  put_back ts (i ∷ is) (r ∷ rs) = put_back (set ts i r.0) is rs

  unfoldable pub order_by : (A → ℕ) → List A → List A
  order_by d ts =
      if ltb (length ts) 2
      then ts
      else if ltb (length (ranked d ts)) 2
      then ts
      else put_back ts (places d 0 ts) (sort_by_tier (ranked d ts))

-- `Pool.order`: the ordered targets, and the pool, whose counters it rolled if there was a choice.
unfoldable pub order : ℕ → Pool → List Target → Pool × List Target
order now p ts =
    if ltb (length ts) 2
    then (p, ts)
    else let q = roll now p in (q, order_by (λ t. speed now q t.prov) ts)

-- `Pool.tighten`: the budget for a first token, with `slack` 3.
unfoldable pub tighten : Key → ℕ → ℕ → ℕ
tighten k want floor = if k.ttft == 0 then want else min want (max floor (3 * k.ttft))
