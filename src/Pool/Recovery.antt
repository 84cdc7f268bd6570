-- ===== src/Pool/Recovery.antt =====
-- pool.go, `Pool.soonest`: how long until a key of the given targets may serve.
use omny.Base.{
  ℕ, ◌-◌, ◌*◌, ◌%◌, ◌≤◌, ◌<◌, max, ◌≡◌, refl, ◌⊎◌, inl, inr, true, false, ◌&&◌, ◌||◌, List, [], ◌∷◌,
  ◌++◌, none, some, arith, Bytes, ltb, ◌==◌, if◌then◌else◌, get_elem?, All, Bool-cases,
  Option-cases,
}
use omny.Clock.{second, unix}
use omny.Key.{Key, spent, capped}
use omny.Pool.{Pool, ring, roll}
use omny.Pool.Visit.{elem}

-- `k.until.Sub(now)`, or the rest of the minute if that is longer and the minute's cap is reached; a
-- difference below 0 counts as 0, which the caller treats alike.
unfoldable pub wait_of : ℕ → Key → ℕ
wait_of now k =
    let d = k.until - now in if capped k then max d ((60 - unix now % 60) * second) else d

-- One round of the loop: the best wait so far and a key.
unfoldable pub sooner : ℕ → ℕ → Key → ℕ
sooner now best k =
    let d = wait_of now k in
    if k.dead || spent k then best else if ltb 0 d && (best == 0 || ltb d best) then d else best

unfoldable pub soonest_of : ℕ → List Key → List ℕ → ℕ → ℕ
soonest_of now cells [] best = best
soonest_of now cells (a ∷ more) best =
    soonest_of now cells more
      (elim (get_elem? cells a) [ none ↦ best | some k ↦ sooner now best k ])

-- The rings of the targets' providers, one after another.
unfoldable pub rings : Pool → List Bytes → List ℕ
rings p [] = []
rings p (prov ∷ provs) = ring p prov ++ rings p provs

-- `Pool.soonest`, of the providers of the targets.
unfoldable pub soonest : ℕ → Pool → List Bytes → Pool × ℕ
soonest now p provs = let q = roll now p in (q, soonest_of now q.cells (rings q provs) 0)

-- The waits of a list's keys that are neither dead nor spent.
pub waits : ℕ → List Key → List ℕ → List ℕ
waits now cells [] = []
waits now cells (a ∷ more) = elim (get_elem? cells a) [
  | none ↦ waits now cells more
  | some k ↦
      if k.dead || spent k then waits now cells more else wait_of now k ∷ waits now cells more
]

least : ℕ → List ℕ → ℕ
least best [] = best
least best (d ∷ ds) = least (if ltb 0 d && (best == 0 || ltb d best) then d else best) ds

sooner_skip : (now best : ℕ) (k : Key) → (k.dead || spent k) ≡ true → sooner now best k ≡ best
unfolding sooner
sooner_skip now best k f = rw f

sooner_take :
    (now best : ℕ) (k : Key)
    → (k.dead || spent k) ≡ false
    → sooner now best k ≡ (
        if ltb 0 (wait_of now k) && (best == 0 || ltb (wait_of now k) best)
        then wait_of now k
        else best)
unfolding sooner
sooner_take now best k f = rw f

soonest_of-least :
    (now : ℕ) (cells : List Key) (ks : List ℕ) (best : ℕ)
    → soonest_of now cells ks best ≡ least best (waits now cells ks)
unfolding soonest_of waits least
soonest_of-least now cells [] best = refl
soonest_of-least now cells (a ∷ more) best = elim (Option-cases (get_elem? cells a)) [
  | inl e ↦ rw (e, soonest_of, waits) (soonest_of-least now cells more best)
  | inr (k, e) ↦ elim (Bool-cases (k.dead || spent k)) [
    | inl f ↦
        rw (e, soonest_of, waits)
          (rw (f, sooner_skip now best k f) (soonest_of-least now cells more best))
    | inr f ↦
        rw (e, soonest_of, waits)
          (rw (f, sooner_take now best k f) (soonest_of-least now cells more _))
  ]
]

least-le :
    (best : ℕ) (ds : List ℕ)
    → (0 < best → (0 < least best ds) × (least best ds ≤ best))
      × All (λ d. 0 < d → (0 < least best ds) × (least best ds ≤ d)) ds
unfolding least
least-le best [] = (λ h. (h, omega arith), tt)
least-le best (d ∷ ds) =
    let b = if ltb 0 d && (best == 0 || ltb d best) then d else best in
    let (h, r) = least-le b ds in (λ p. ground (arith, h), ((λ p. ground (arith, h)), r))

least-mem : (best : ℕ) (ds : List ℕ) → (least best ds ≡ best) ⊎ (elem (least best ds) ds ≡ true)
unfolding least
least-mem best [] = inl refl
least-mem best (d ∷ ds) =
    ground (arith, least-mem (if ltb 0 d && (best == 0 || ltb d best) then d else best) ds)

-- Where it is positive, `soonest` is the wait of some key of the targets that is neither dead nor
-- spent, and the least positive one; where it is 0, no such key has a positive wait.
pub soonest_lem :
    (now : ℕ) (p : Pool) (provs : List Bytes)
    → let q = roll now p in
      let d = (soonest now p provs).1 in
      let ws = waits now q.cells (rings q provs) in
      ((d ≡ 0) ⊎ (elem d ws ≡ true)) × All (λ w. 0 < w → (0 < d) × (d ≤ w)) ws
unfolding soonest
soonest_lem now p provs =
    let q = roll now p in
    let ws = waits now q.cells (rings q provs) in
    rw (soonest_of-least now q.cells (rings q provs) 0) (least-mem 0 ws, (least-le 0 ws).1)
