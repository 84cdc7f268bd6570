-- ===== src/Pool/Every.antt =====
-- What holds of every key of the heap, whatever stands at its address, and how the writes of an
-- operation keep it.
use omny.Base.{
  ℕ, ◌<◌, ◌≡◌, ◌≢◌, sym, ◌∙◌, inl, inr, List, some, arith, length, get_elem?, modify, length-modify,
  get_elem?_of_lt, lt_of_get_elem?, get_elem?-modify_self, get_elem?-modify_ne, ◌==◌, ==_iff,
  Bool-cases, subst, some_inj,
}
use omny.Key.{Key}
use omny.Pool.{Pool, roll}
use omny.Pool.Visit.{Rolled, rolled, rolled-Rolled, get_elem?-roll, length-roll}

abbrev pub Every : (ℕ → Key → Type 0) → List Key → Type 0
Every P cells = (a : ℕ) (k : Key) → get_elem? cells a ≡ some k → P a k

-- One write: `f` takes what held of the written key to `Q`, and `Q` follows elsewhere.
pub Every-modify :
    (P Q : ℕ → Key → Type 0) (f : Key → Key) (cells : List Key) (a : ℕ)
    → Every P cells
    → ((k : Key) → get_elem? cells a ≡ some k → P a k → Q a (f k))
    → ((b : ℕ) (k : Key) → a ≢ b → P b k → Q b k)
    → Every Q (modify f cells a)
Every-modify P Q f cells a all here there b k' e = elim (Bool-cases (a == b)) [
  | inl same ↦
      let s : a ≡ b = (==_iff a b).0 same in
      let lt : a < length cells =
        rw s (omega (arith, lt_of_get_elem? (modify f cells a) b k' e, length-modify f cells a)) in
      let (k, g) = get_elem?_of_lt cells a lt in
      let hit : some (f k) ≡ some k' =
        sym (get_elem?-modify_self f cells a k g)
        ∙ subst (λ x. get_elem? (modify f cells a) x ≡ some k') (sym s) e in
      subst (λ x. Q x k') s (subst (Q a) (some_inj hit) (here k g (all a k g)))
  | inr other ↦
      let ne : a ≢ b = λ s. ground (arith, s) in
      there b k' ne (all b k' (sym (get_elem?-modify_ne f cells a b ne) ∙ e))
]

-- The rollover keeps what a `Rolled` key keeps.
pub Every-roll :
    (P : ℕ → Key → Type 0) (now : ℕ) (p : Pool)
    → ((a : ℕ) (k k' : Key) → Rolled k k' → P a k → P a k')
    → Every P p.cells
    → Every P (roll now p).cells
Every-roll P now p keep all a k' e =
    let lt : a < length p.cells =
      omega (arith, lt_of_get_elem? (roll now p).cells a k' e, length-roll now p) in
    let (k, g) = get_elem?_of_lt p.cells a lt in
    let hit : some (rolled now p a k) ≡ some k' = sym (get_elem?-roll now p a k g) ∙ e in
    subst (P a) (some_inj hit) (keep a k (rolled now p a k) (rolled-Rolled now p a k) (all a k g))
