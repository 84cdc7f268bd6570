-- ===== src/Pool/Pick.antt =====
-- pool.go, `pick`: the loop over the ring of a provider's keys against a search of the ring from
-- its cursor.
use omny.Base.{
  ℕ, zero, suc, ◌+◌, ◌-◌, ◌%◌, ◌≤◌, ◌<◌, max, ◌≡◌, refl, ap, ◌∙◌, sym, ◌⊎◌, inl, inr, true, false,
  List, [], ◌∷◌, ◌++◌, Option, none, some, arith, length, get_elem?, get_elem?_of_lt, All,
  All-get_elem?, take, drop, drop_of_get_elem?, drop_of_length-le, take-append_of_le,
  take-append_of_ge, length-drop, Bool-cases, Option-cases, ◌==◌, ==_iff, subst, some_inj,
  if◌then◌else◌,
}
use omny.Key.{Key, free}
use native.Mathlib.Decide.{dec_lt}
use omny.Pool.{spin}
use omny.Pool.Visit.{elem}

-- The first address of a list whose key is free.
pub find_free : ℕ → List Key → List ℕ → Option ℕ
find_free now cells [] = none
find_free now cells (a ∷ more) = elim (get_elem? cells a) [
  | none ↦ find_free now cells more
  | some k ↦ if free now k then some a else find_free now cells more
]

-- A ring from a cursor on, once round.
abbrev pub from_cursor : ℕ → List ℕ → List ℕ
from_cursor c ks = drop c ks ++ take c ks

next_cursor :
    (c n : ℕ) → c < n → ((c + 1 < n) × ((c + 1) % n ≡ c + 1)) ⊎ ((c + 1 ≡ n) × ((c + 1) % n ≡ 0))
next_cursor c n h = grind arith

once_round :
    (c : ℕ) (ks : List ℕ) → c ≤ length ks → take (length ks) (drop c ks ++ ks) ≡ from_cursor c ks
once_round c ks h =
    let l = length-drop c ks in
    let e : length ks - length (drop c ks) ≡ c = omega (arith, l) in
    take-append_of_ge (length ks) (drop c ks) ks (omega (arith, l)) ∙ rw e

module _ (ks : List ℕ) (cells : List Key) (now : ℕ) (valid : All (λ a. a < length cells) ks) where
  -- The next round sees the same ring.
  round_on :
      (m c : ℕ)
      → c < length ks
      → m ≤ length ks
      → take m (drop ((c + 1) % length ks) ks ++ ks) ≡ take m (drop (suc c) ks ++ ks)
  round_on m c h k = elim (next_cursor c (length ks) h) [
    | inl (l, e) ↦
        rw e (ap (λ i. take m (drop i ks ++ ks)) (let f : c + 1 ≡ suc c = omega arith in f))
    | inr (l, e) ↦ rw (e, drop_of_length-le (suc c) ks (omega arith)) (take-append_of_le m ks ks k)
  ]

  spin-find_free :
      (n c : ℕ)
      → n ≤ length ks
      → c < length ks
      → (c' : ℕ) × (spin n ks cells now c
          ≡ some (find_free now cells (take n (drop c ks ++ ks)), c'))
        × (c' < length ks)
  unfolding spin find_free
  spin-find_free zero c h l = (c, refl, l)
  spin-find_free (suc n) c h l =
      let (a, e) = get_elem?_of_lt ks c l in
      let (k, f) = get_elem?_of_lt cells a (All-get_elem? (λ a. a < length cells) ks c a valid e) in
      let (c', g, l') = spin-find_free n ((c + 1) % length ks) (omega arith) (omega arith) in
      let same = round_on n c l (omega arith) in
      elim (Bool-cases (free now k)) [
        | inl t ↦ (
          (c + 1) % length ks,
          rw (e, drop_of_get_elem? ks c a e) (rw (f, find_free) (rw t)),
          omega arith,
        )
        | inr t ↦ (
          c',
          rw (e, drop_of_get_elem? ks c a e)
              (rw (f, find_free) (rw t (g ∙ ap (λ x. some (find_free now cells x, c')) same))),
          l',
        )
      ]

  -- Once round the ring: no panic, the first free key from the cursor on, and a cursor in range.
  pub spin_lem :
      (c : ℕ)
      → c < max 1 (length ks)
      → (c' : ℕ) × (spin (length ks) ks cells now c
          ≡ some (find_free now cells (from_cursor c ks), c'))
        × (c' < max 1 (length ks))
  unfolding spin find_free
  spin_lem c h = elim (dec_lt 0 (length ks)) [
    | yes m ↦
        let (c', e, l) = spin-find_free (length ks) c (omega arith) (omega arith) in
        (
          c',
          e ∙ ap (λ xs. some (find_free now cells xs, c')) (once_round c ks (omega arith)),
          omega arith,
        )
    | no z ↦ (c, empty ks (omega arith), h)
  ]
    where
      empty :
          (xs : List ℕ)
          → length xs ≤ 0
          → spin (length xs) xs cells now c ≡ some (find_free now cells (from_cursor c xs), c)
      empty [] l = rw (nothing c)
        where
          nothing : (i : ℕ) → find_free now cells (drop i [] ++ take i []) ≡ none
          nothing zero = refl
          nothing (suc i) = refl
      empty (x ∷ xs) l = absurd (omega arith)

find_free_cons :
    (now : ℕ) (cells : List Key) (b : ℕ) (ks : List ℕ)
    → ((k : Key) × (get_elem? cells b ≡ some k)
        × (free now k ≡ true)
        × (find_free now cells (b ∷ ks) ≡ some b))
      ⊎ (((k : Key) → get_elem? cells b ≡ some k → free now k ≡ false)
          × (find_free now cells (b ∷ ks) ≡ find_free now cells ks))
unfolding find_free
find_free_cons now cells b ks = elim (Option-cases (get_elem? cells b)) [
  | inl e ↦ inr (λ k f. absurd (ground arith), rw (e, find_free) refl)
  | inr (k, e) ↦ elim (Bool-cases (free now k)) [
    | inl t ↦ inl (k, e, t, rw (e, find_free) (rw t))
    | inr t ↦ inr (λ k' f. ground arith, rw (e, find_free) (rw t))
  ]
]

-- What `find_free` finds is in the list, in the heap and free.
pub find_free-some :
    (now : ℕ) (cells : List Key) (ks : List ℕ) (a : ℕ)
    → find_free now cells ks ≡ some a
    → (k : Key) × (get_elem? cells a ≡ some k) × (free now k ≡ true) × (elem a ks ≡ true)
find_free-some now cells [] a e = absurd (unfold find_free in ground arith)
find_free-some now cells (b ∷ ks) a e = elim (find_free_cons now cells b ks) [
  | inl (k, g, t, f) ↦
      let s : b ≡ a = some_inj (sym f ∙ e) in
      (k, subst (λ x. get_elem? cells x ≡ some k) s g, t, ground arith)
  | inr (_, f) ↦
      let (k, g, t, m) = find_free-some now cells ks a (sym f ∙ e) in (k, g, t, ground arith)
]

-- Where it finds none, no key of the list is free.
pub find_free-none :
    (now : ℕ) (cells : List Key) (ks : List ℕ)
    → find_free now cells ks ≡ none
    → (a : ℕ) (k : Key) → elem a ks ≡ true
    → get_elem? cells a ≡ some k
    → free now k ≡ false
find_free-none now cells [] e a k m g = absurd (cc)
find_free-none now cells (b ∷ ks) e a k m g = elim (find_free_cons now cells b ks) [
  | inl (k', _, t, f) ↦ absurd (ground arith)
  | inr (blocked, f) ↦ elim (Bool-cases (b == a)) [
    | inl s ↦ blocked k (rw ((==_iff b a).0 s) g)
    | inr s ↦ find_free-none now cells ks (sym f ∙ e) a k (ground arith) g
  ]
]
