-- ===== src/Pool/Effects.antt =====
-- What each operation of the pool does to the heap, to the rings and to the cursors.
use omny.Base.{
  bytes_eq, not, ◌==◌, bytes_eq_iff, Bool-cases, ◌++◌, ℕ, ◌+◌, ◌-◌, ◌<◌, max, ◌≡◌, refl, sym, ap,
  subst, inl, inr, Bool, List, [], ◌∷◌, Option, none, some, Bytes, length, get_elem?, modify,
  length-modify, All, lookup, update,
}
use omny.Key.{Key, bench}
use omny.Key.Bench.{OnLadder, bench_total}
use omny.Pool.{
  Pool, addresses, ring, or_empty, roll, pick, fail, sour, ok, grant, reserve, write, succeed,
}
use omny.Pool.Visit.{length-roll, keys-roll, rr-roll}
use omny.Pool.Pick.{find_free, from_cursor, spin_lem}

All-left : (P : ℕ → Type 0) (xs ys : List ℕ) → All P (xs ++ ys) → All P xs
All-left P [] ys h = tt
All-left P (x ∷ xs) ys h = (h.0, All-left P xs ys h.1)

All-right : (P : ℕ → Type 0) (xs ys : List ℕ) → All P (xs ++ ys) → All P ys
All-right P [] ys h = h
All-right P (x ∷ xs) ys h = All-right P xs ys h.1

lookup-All :
    (P : ℕ → Type 0) (prov : Bytes) (m : List (Bytes × List ℕ))
    → All P (addresses m)
    → All P (or_empty (lookup prov m))
unfolding lookup addresses or_empty
lookup-All P prov [] h = tt
lookup-All P prov ((j, ks) ∷ m) h = elim (Bool-cases (bytes_eq j prov)) [
  | inl e ↦ rw e (All-left P ks (addresses m) h)
  | inr e ↦ rw e (lookup-All P prov m (All-right P ks (addresses m) h))
]

-- Every ring of the pool is part of `addresses`.
pub ring-All :
    (P : ℕ → Type 0) (p : Pool) (prov : Bytes) → All P (addresses p.keys) → All P (ring p prov)
unfolding ring
ring-All P p prov h = lookup-All P prov p.keys h

-- What every operation needs of the pool: rings that point into the heap, and cursors in range.
pub record IsSound (p : Pool) : Type 0 where
  pub valid : All (λ a. a < length p.cells) (addresses p.keys)
  pub cursor : (prov : Bytes) → p.rr prov < max 1 (length (ring p prov))

pub ring-roll : (now : ℕ) (p : Pool) (prov : Bytes) → ring (roll now p) prov ≡ ring p prov
unfolding ring
ring-roll now p prov = ap (λ m. or_empty (lookup prov m)) (keys-roll now p)

-- A pool with the rings and cursors of another and a heap of its size.
pub IsSound-same :
    (p q : Pool)
    → length q.cells ≡ length p.cells
    → q.keys ≡ p.keys
    → ((prov : Bytes) → q.rr prov < max 1 (length (ring p prov)))
    → IsSound p
    → IsSound q
unfolding ring
IsSound-same p q l k c s = record {
  valid =
      subst (λ n. All (λ a. a < n) (addresses q.keys)) (sym l)
        (subst (λ m. All (λ a. a < length p.cells) (addresses m)) (sym k) s.valid);
  cursor =
      λ prov. subst (λ m. q.rr prov < max 1 (length (or_empty (lookup prov m)))) (sym k) (c prov);
}

pub roll-IsSound : (now : ℕ) (p : Pool) → IsSound p → IsSound (roll now p)
roll-IsSound now p s =
    IsSound-same p (roll now p) (length-roll now p) (keys-roll now p)
      (λ prov.
        subst (λ rr. rr prov < max 1 (length (ring p prov))) (sym (rr-roll now p)) (s.cursor prov))
      s

-- In a pool with rings inside the heap and cursors in range, `pick` grants the first free key of the
-- ring from the cursor on, as the rolled pool has it, and leaves the cursor in range.
pub pick_lem :
    (now : ℕ) (p : Pool) (prov : Bytes)
    → IsSound p
    → let q = roll now p in
      let hit = find_free now q.cells (from_cursor (q.rr prov) (ring q prov)) in
      (c : ℕ) × (pick now p prov ≡ some (hit, grant (record q { rr = update q.rr prov c }) hit))
      × (c < max 1 (length (ring q prov)))
unfolding pick
pick_lem now p prov s =
    let t = roll-IsSound now p s in
    let q = roll now p in
    let (c, e, l) =
      spin_lem (ring q prov) q.cells now (ring-All _ q prov t.valid) (q.rr prov) (t.cursor prov) in
    (c, rw e, l)

cursor_update :
    (p : Pool) (prov : Bytes) (c : ℕ)
    → c < max 1 (length (ring p prov))
    → IsSound p
    → (j : Bytes) → update p.rr prov c j < max 1 (length (ring p j))
unfolding update
cursor_update p prov c l s j = elim (Bool-cases (bytes_eq prov j)) [
  | inl e ↦ rw e (subst (λ j. c < max 1 (length (ring p j))) ((bytes_eq_iff prov j).0 e) l)
  | inr e ↦ rw e (s.cursor j)
]

pub modify-IsSound :
    (p : Pool) (f : Key → Key) (a : ℕ)
    → IsSound p
    → IsSound (record p { cells = modify f p.cells a })
modify-IsSound p f a s =
    IsSound-same p (record p { cells = modify f p.cells a }) (length-modify f p.cells a) refl
      s.cursor s

-- The pool after `pick`, whatever it grants.
pub pick-IsSound :
    (p : Pool) (prov : Bytes) (c : ℕ) (hit : Option ℕ)
    → c < max 1 (length (ring p prov))
    → IsSound p
    → IsSound (grant (record p { rr = update p.rr prov c }) hit)
pick-IsSound p prov c hit l s = go hit
  where
    moved : IsSound (record p { rr = update p.rr prov c })
    moved =
        IsSound-same p (record p { rr = update p.rr prov c }) refl refl (cursor_update p prov c l s)
          s

    go : (hit : Option ℕ) → IsSound (grant (record p { rr = update p.rr prov c }) hit)
    go none = moved
    go (some a) = modify-IsSound (record p { rr = update p.rr prov c }) reserve a moved

module _ (now : ℕ) (p : Pool) (a : ℕ) (k : Key) (e : get_elem? (roll now p).cells a ≡ some k) where
  pub fail_lem :
      (code retry : ℕ)
      → OnLadder k
      → (r : Key × ℕ × Bool) × (bench now
            (record k { live = k.live - 1; errs = k.errs + 1 })
            code
            retry
          ≡ some r)
        × (fail now p a code retry ≡ some (write (roll now p) a r.0, r.1, r.2))
  unfolding fail
  fail_lem code retry h =
      let (r, b) =
        bench_total now (record k { live = k.live - 1; errs = k.errs + 1 }) code retry h in
      (r, b, rw e (rw b))

  pub sour_lem :
      OnLadder k
      → (r : Key × ℕ × Bool) × (bench now (record k { errs = k.errs + 1 }) 0 0 ≡ some r)
        × (sour now p a ≡ some (write (roll now p) a r.0, r.1))
  unfolding sour
  sour_lem h =
      let (r, b) = bench_total now (record k { errs = k.errs + 1 }) 0 0 h in (r, b, rw e (rw b))

  pub ok_lem :
      (ttft : ℕ)
      → ok now p a ttft ≡ some (write (roll now p) a (succeed now ttft k), not (k.until == 0))
  unfolding ok
  ok_lem ttft = rw e
