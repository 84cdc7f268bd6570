-- ===== src/Admission/Bounds.antt =====
-- The memory counter, over the steps of many requests.
use omny.Base.{
  ℕ, zero, suc, ◌+◌, ◌*◌, ◌≤◌, ◌<◌, ◌≡◌, refl, true, false, List, [], ◌∷◌, Option, none, some,
  arith, ltb, ◌==◌, get_elem?, remove_at, All, All-get_elem?, length, Bool-cases, inl, inr,
}
use omny.Base.Int.{ℤ, pos, negsuc}
use omny.Admission.{
  max_body, room, Phase, loading, swapping, Admission, Move, begins, steps, leaves, load, swap,
  advance, release, move, moves, empty,
}

pub sum : List ℕ → ℕ
sum [] = 0
sum (n ∷ ns) = n + sum ns

-- What a request saw fits.
abbrev Fits : ℕ → Phase → Type 0
Fits hold (loading n) = Unit
Fits hold (swapping n seen) = seen + n ≤ hold

pub record Inv (s : Admission) : Type 0 where
  pub exact : s.held ≡ sum s.inside
  pub bounded : s.held ≤ s.hold
  fits : All (Fits s.hold) s.trying

All-remove_at : (P : Phase → Type 0) (xs : List Phase) (i : ℕ) → All P xs → All P (remove_at xs i)
All-remove_at P [] i h = h
All-remove_at P (x ∷ xs) zero h = h.1
All-remove_at P (x ∷ xs) (suc i) h = (h.0, All-remove_at P xs i h.1)

sum-remove_at :
    (ns : List ℕ) (i n : ℕ) → get_elem? ns i ≡ some n → sum (remove_at ns i) + n ≡ sum ns
unfolding sum
sum-remove_at [] i n e = absurd (ground arith)
sum-remove_at (m ∷ ns) zero n e = ground arith
sum-remove_at (m ∷ ns) (suc i) n e = omega (arith, sum-remove_at ns i n e)

advance-Inv :
    (s : Admission) (i : ℕ) (x : Option Phase)
    → get_elem? s.trying i ≡ x
    → Inv s
    → Inv (advance s i x)
unfolding advance load swap sum
advance-Inv s i none e v = v
advance-Inv s i (some (loading n)) e v = elim (Bool-cases (ltb s.hold (s.held + n))) [
  | inl b ↦
      rw b
        (record { exact = v.exact; bounded = v.bounded; fits = All-remove_at _ s.trying i v.fits })
  | inr b ↦ rw b (record {
    exact = v.exact;
    bounded = v.bounded;
    fits = (ground arith, All-remove_at _ s.trying i v.fits);
  })
]
advance-Inv s i (some (swapping n seen)) e v = elim (Bool-cases (s.held == seen)) [
  | inl b ↦
      let f = All-get_elem? (Fits s.hold) s.trying i (swapping n seen) v.fits e in
      rw b (record {
        exact = ground (arith, v.exact);
        bounded = f;
        fits = All-remove_at _ s.trying i v.fits;
      })
  | inr b ↦ rw b (record {
    exact = v.exact;
    bounded = v.bounded;
    fits = (tt, All-remove_at _ s.trying i v.fits);
  })
]

release-Inv :
    (s : Admission) (i : ℕ) (x : Option ℕ) → get_elem? s.inside i ≡ x → Inv s → Inv (release s i x)
unfolding release
release-Inv s i none e v = v
release-Inv s i (some n) e v =
    let l = sum-remove_at s.inside i n e in
    record { exact = omega (arith, l, v.exact); bounded = omega (arith, v.bounded); fits = v.fits }

move-Inv : (s : Admission) (m : Move) → Inv s → Inv (move s m)
unfolding move
move-Inv s (begins n) v = record { exact = v.exact; bounded = v.bounded; fits = (tt, v.fits) }
move-Inv s (steps i) v = advance-Inv s i (get_elem? s.trying i) refl v
move-Inv s (leaves i) v = release-Inv s i (get_elem? s.inside i) refl v

moves-Inv : (s : Admission) (ms : List Move) → Inv s → Inv (moves s ms)
unfolding moves
moves-Inv s [] v = v
moves-Inv s (m ∷ ms) v = moves-Inv (move s m) ms (move-Inv s m v)

-- However the loads, swaps and releases of any number of requests interleave, the counter is the sum
-- of the sizes of the requests inside, so a release never takes it below 0, and it stays within the
-- cap.
pub moves-empty : (ms : List Move) → Inv (moves empty ms)
moves-empty ms =
    moves-Inv empty ms (record { exact = unfold sum in refl; bounded = omega arith; fits = tt })

-- A reservation is at most the largest body.
pub room_bounds : (n : ℤ) → room n ≤ max_body
unfolding room
room_bounds (pos n) = ground arith
room_bounds (negsuc n) = omega arith

sum_le : (b : ℕ) (ns : List ℕ) → All (λ n. n ≤ b) ns → sum ns ≤ length ns * b
unfolding sum
sum_le b [] h = omega arith
sum_le b (n ∷ ns) h = grind (arith, h.0, sum_le b ns h.1)

-- With fewer than eight requests inside, none larger than the largest body, a request that reserves
-- room for its body is admitted by one load and one swap with no other step between them.
pub admit_eighth :
    (s : Admission) (len : ℤ)
    → Inv s
    → s.hold ≡ 8 * max_body
    → All (λ n. n ≤ max_body) s.inside
    → length s.inside < 8
    → (moves s (begins (room len) ∷ steps 0 ∷ steps 0 ∷ [])).inside ≡ room len ∷ s.inside
unfolding moves move load swap advance
admit_eighth s len v h b l =
    let r = room_bounds len in
    let m = sum_le max_body s.inside b in
    let fit : s.held + room len ≤ s.hold = omega (arith, h, r, m, v.exact, l) in
    let f : ltb s.hold (s.held + room len) ≡ false = ground (arith, fit) in
    let g : (s.held == s.held) ≡ true = ground arith in rw f (rw g refl)
