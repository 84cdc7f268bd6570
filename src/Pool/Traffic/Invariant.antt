-- ===== src/Pool/Traffic/Invariant.antt =====
-- An invariant of the pool and of the requests that hold its keys.
use omny.Base.{
  ℕ, zero, suc, ◌+◌, ◌-◌, ◌<◌, ◌≤◌, ◌≡◌, ◌≢◌, sym, ◌∙◌, subst, Bool, true, List, [], ◌∷◌, Option,
  some, some_inj, arith, length, length-modify, get_elem?, modify, get_elem?_of_lt, All, count,
  remove_at, count-remove_at,
}
use omny.Key.{Key, Spend, free, bench}
use omny.Key.Bench.{OnLadder}
use omny.Pool.{Pool, roll, reserve, release, account, succeed}
use omny.Pool.Visit.{Rolled, length-roll}
use omny.Pool.Every.{Every, Every-modify, Every-roll}
use omny.Pool.Effects.{IsSound, roll-IsSound, modify-IsSound}
use omny.Pool.Traffic.{Traffic}

-- A property of a key and the number of its reservations that every operation keeps.
pub record Stable (P : ℕ → Key → Type 0) : Type 0 where
  pub on_ladder : (n : ℕ) (k : Key) → P n k → OnLadder k
  pub of_roll : (n : ℕ) (k k' : Key) → Rolled k k' → P n k → P n k'
  pub of_reserve : (n now : ℕ) (k : Key) → free now k ≡ true → P n k → P (suc n) (reserve k)
  pub of_fail :
      (n now code retry : ℕ) (k : Key) (r : Key × ℕ × Bool)
      → bench now (record k { live = k.live - 1; errs = k.errs + 1 }) code retry ≡ some r
      → P (suc n) k
      → P n r.0
  pub of_sour :
      (n now : ℕ) (k : Key) (r : Key × ℕ × Bool)
      → bench now (record k { errs = k.errs + 1 }) 0 0 ≡ some r
      → P n k
      → P n r.0
  pub of_done : (n : ℕ) (k : Key) → P (suc n) k → P n (release k)
  pub of_ok : (n now ttft : ℕ) (k : Key) → P (suc n) k → P n (succeed now ttft k)
  pub of_charge : (n : ℕ) (s : Option Spend) (k : Key) → P n k → P n (account s k)

-- The pool is sound, requests hold keys of the heap, and `P` holds of each key and its reservations.
pub record Inv (P : ℕ → Key → Type 0) (t : Traffic) : Type 0 where
  pub sound : IsSound t.pool
  pub every : Every (λ a k. P (count a t.held) k) t.pool.cells
  pub held_valid : All (λ a. a < length t.pool.cells) t.held
  pub served_valid : All (λ a. a < length t.pool.cells) t.served

pub All-remove_at : (P : ℕ → Type 0) (xs : List ℕ) (i : ℕ) → All P xs → All P (remove_at xs i)
All-remove_at P [] i h = h
All-remove_at P (x ∷ xs) zero h = h.1
All-remove_at P (x ∷ xs) (suc i) h = (h.0, All-remove_at P xs i h.1)

pub All-resize : (m n : ℕ) (xs : List ℕ) → m ≤ n → All (λ a. a < m) xs → All (λ a. a < n) xs
All-resize m n [] h l = tt
All-resize m n (x ∷ xs) h l = (omega (arith, l.0), All-resize m n xs h l.1)

-- Taking the reservation `i` away leaves the counts of the other keys alone.
count-release :
    (held : List ℕ) (i a : ℕ)
    → get_elem? held i ≡ some a
    → count a held ≡ suc (count a (remove_at held i))
count-release held i a e = ground (arith, count-remove_at a held i a e)

count-release_ne :
    (held : List ℕ) (i a b : ℕ)
    → get_elem? held i ≡ some a
    → a ≢ b
    → count b held ≡ count b (remove_at held i)
count-release_ne held i a b e ne = ground (arith, count-remove_at b held i a e)

module _ (P : ℕ → Key → Type 0) (S : Stable P) where
  pub roll-Every :
      (now : ℕ) (p : Pool) (held : List ℕ)
      → Every (λ a k. P (count a held) k) p.cells
      → Every (λ a k. P (count a held) k) (roll now p).cells
  roll-Every now p held =
      Every-roll (λ a k. P (count a held) k) now p (λ a k k' r. S.of_roll (count a held) k k' r)

  -- A write to the key of the reservation `i`, which it takes away.
  pub release-Every :
      (cells : List Key) (held : List ℕ) (i a : ℕ) (f : Key → Key)
      → get_elem? held i ≡ some a
      → ((k : Key)
          → get_elem? cells a ≡ some k
          → P (suc (count a (remove_at held i))) k
          → P (count a (remove_at held i)) (f k))
      → Every (λ a k. P (count a held) k) cells
      → Every (λ a k. P (count a (remove_at held i)) k) (modify f cells a)
  release-Every cells held i a f e here all =
      Every-modify (λ a k. P (count a held) k) (λ a k. P (count a (remove_at held i)) k) f cells a
        all (λ k g h. here k g (subst (λ n. P n k) (count-release held i a e) h))
        (λ b k ne h. subst (λ n. P n k) (count-release_ne held i a b e ne) h)

  -- A write to a key whose reservations stay.
  pub write-Every :
      (cells : List Key) (held : List ℕ) (a : ℕ) (f : Key → Key)
      → ((k : Key) → get_elem? cells a ≡ some k → P (count a held) k → P (count a held) (f k))
      → Every (λ a k. P (count a held) k) cells
      → Every (λ a k. P (count a held) k) (modify f cells a)
  write-Every cells held a f here all =
      Every-modify (λ a k. P (count a held) k) (λ a k. P (count a held) k) f cells a all here
        (λ b k ne h. h)

  -- A new reservation of the key at `a`.
  pub reserve-Every :
      (cells : List Key) (held : List ℕ) (a : ℕ) (k : Key)
      → get_elem? cells a ≡ some k
      → (P (count a held) k → P (suc (count a held)) (reserve k))
      → Every (λ a k. P (count a held) k) cells
      → Every (λ b k. P (count b (a ∷ held)) k) (modify reserve cells a)
  reserve-Every cells held a k g here all =
      Every-modify (λ a k. P (count a held) k) (λ b k. P (count b (a ∷ held)) k) reserve cells a all
        (λ k' g' h.
          let e : k ≡ k' = some_inj (sym g ∙ g') in
          let n : suc (count a held) ≡ count a (a ∷ held) = ground arith in
          subst (λ n. P n (reserve k')) n
            (subst (λ x. P (suc (count a held)) (reserve x)) e (here (subst (P _) (sym e) h))))
        (λ b k ne h. subst (λ n. P n k) (ground arith) h)

  module _ (now : ℕ) (t : Traffic) (v : Inv P t) where
    pub found :
        (a : ℕ)
        → a < length t.pool.cells
        → (k : Key) × (get_elem? (roll now t.pool).cells a ≡ some k) × P (count a t.held) k
    found a l =
        let (k, e) =
          get_elem?_of_lt (roll now t.pool).cells a (omega (arith, l, length-roll now t.pool)) in
        (k, e, roll-Every now t.pool t.held v.every a k e)

    -- The rolled pool with the key at `a` rewritten, and the reservations and replies that follow.
    pub after_write :
        (a : ℕ) (f : Key → Key) (held served : List ℕ)
        → Every (λ a k. P (count a held) k) (modify f (roll now t.pool).cells a)
        → All (λ a. a < length t.pool.cells) held
        → All (λ a. a < length t.pool.cells) served
        → Inv P (record {
          pool = record (roll now t.pool) { cells = modify f (roll now t.pool).cells a };
          held = held;
          served = served;
        })
    after_write a f held served all h s =
        let l : length t.pool.cells ≤ length (modify f (roll now t.pool).cells a) =
          omega (arith, length-modify f (roll now t.pool).cells a, length-roll now t.pool) in
        record {
          sound = modify-IsSound (roll now t.pool) f a (roll-IsSound now t.pool v.sound);
          every = all;
          held_valid = All-resize _ _ held l h;
          served_valid = All-resize _ _ served l s;
        }
