-- ===== src/Pool/Visit.antt =====
-- Loops over every key of the pool, and what the rollover of the counters keeps of a key.
use omny.Base.{
  ℕ, ◌/◌, ◌≤◌, ◌≡◌, refl, ap, ◌∙◌, inl, inr, Bool, true, false, ◌||◌, List, [], ◌∷◌, some, arith,
  length, get_elem?, modify, All, length-modify, get_elem?-modify_self, get_elem?-modify_ne,
  All-modify, ◌==◌, ==_iff, if◌then◌else◌, Bool-cases,
}
use omny.Clock.{unix, year_day}
use omny.Key.{Key}
use omny.Pool.{Pool, visit, addresses, reset_day, reset_minute, roll_day, roll_minute, roll}

-- Whether a number stands in a list.
abbrev pub elem : ℕ → List ℕ → Bool
elem a [] = false
elem a (x ∷ xs) = (x == a) || elem a xs

module _ (f : Key → Key) where
  pub length-visit : (ks : List ℕ) (cells : List Key) → length (visit f ks cells) ≡ length cells
  unfolding visit
  length-visit [] cells = refl
  length-visit (a ∷ ks) cells = length-visit ks (modify f cells a) ∙ length-modify f cells a

  pub All-visit :
      (P : Key → Type 0) (ks : List ℕ) (cells : List Key)
      → ((k : Key) → P k → P (f k))
      → All P cells
      → All P (visit f ks cells)
  unfolding visit
  All-visit P [] cells keep h = h
  All-visit P (a ∷ ks) cells keep h =
      All-visit P ks (modify f cells a) keep (All-modify P f cells a keep h)

  -- A loop that applies an idempotent step to each listed key applies it once.
  pub get_elem?-visit :
      ((k : Key) → f (f k) ≡ f k)
      → (ks : List ℕ) (cells : List Key) (a : ℕ) (k : Key) → get_elem? cells a ≡ some k
      → get_elem? (visit f ks cells) a ≡ some (if elem a ks then f k else k)
  unfolding visit
  get_elem?-visit idem [] cells a k h = h
  get_elem?-visit idem (b ∷ ks) cells a k h = elim (Bool-cases (b == a)) [
    | inl e ↦
        let here : get_elem? (modify f cells b) a ≡ some (f k) =
          rw ((==_iff b a).0 e) (get_elem?-modify_self f cells a k h) in
        rw e (get_elem?-visit idem ks (modify f cells b) a (f k) here ∙ once (elem a ks))
    | inr e ↦
        let there : get_elem? (modify f cells b) a ≡ some k =
          get_elem?-modify_ne f cells b a (λ s. ground (arith, s)) ∙ h in
        rw e (get_elem?-visit idem ks (modify f cells b) a k there)
  ]
    where
      once : (t : Bool) → some (if t then f (f k) else f k) ≡ some (f k)
      once true = ap some (idem k)
      once false = refl

-- What the rollover leaves alone, and that it never raises a counter.
pub record Rolled (k k' : Key) : Type 0 where
  pub same_prov : k'.prov ≡ k.prov
  pub same_id : k'.id ≡ k.id
  pub same_until : k'.until ≡ k.until
  pub same_step : k'.step ≡ k.step
  pub same_dead : k'.dead ≡ k.dead
  pub same_live : k'.live ≡ k.live
  pub same_ttft : k'.ttft ≡ k.ttft
  pub same_life : k'.life ≡ k.life
  pub fewer_reqs : k'.reqs ≤ k.reqs
  pub fewer_mins : k'.mins ≤ k.mins

-- The key that the rollover leaves at an address of the pool `p`.
abbrev day_rolled : ℕ → Pool → ℕ → Key → Key
day_rolled now p a k =
    if year_day now == p.day then k else if elem a (addresses p.keys) then reset_day k else k

abbrev minute_rolled : ℕ → Pool → ℕ → Key → Key
minute_rolled now p a k =
    if unix now / 60 == p.min then k else if elem a (addresses p.keys) then reset_minute k else k

abbrev pub rolled : ℕ → Pool → ℕ → Key → Key
rolled now p a k = minute_rolled now p a (day_rolled now p a k)

get_elem?-roll_day :
    (now : ℕ) (p : Pool) (a : ℕ) (k : Key)
    → get_elem? p.cells a ≡ some k
    → get_elem? (roll_day now p).cells a ≡ some (day_rolled now p a k)
unfolding roll_day
get_elem?-roll_day now p a k h = elim (Bool-cases (year_day now == p.day)) [
  | inl e ↦ rw e h
  | inr e ↦ rw e (get_elem?-visit reset_day (λ _. refl) (addresses p.keys) p.cells a k h)
]

get_elem?-roll_minute :
    (now : ℕ) (p : Pool) (a : ℕ) (k : Key)
    → get_elem? p.cells a ≡ some k
    → get_elem? (roll_minute now p).cells a ≡ some (minute_rolled now p a k)
unfolding roll_minute
get_elem?-roll_minute now p a k h = elim (Bool-cases (unix now / 60 == p.min)) [
  | inl e ↦ rw e h
  | inr e ↦ rw e (get_elem?-visit reset_minute (λ _. refl) (addresses p.keys) p.cells a k h)
]

same_roll_day :
    (now : ℕ) (p : Pool) → ((roll_day now p).min ≡ p.min) × ((roll_day now p).keys ≡ p.keys)
unfolding roll_day
same_roll_day now p = ground arith

pub get_elem?-roll :
    (now : ℕ) (p : Pool) (a : ℕ) (k : Key)
    → get_elem? p.cells a ≡ some k
    → get_elem? (roll now p).cells a ≡ some (rolled now p a k)
unfolding roll
get_elem?-roll now p a k h =
    get_elem?-roll_minute now (roll_day now p) a (day_rolled now p a k)
      (get_elem?-roll_day now p a k h)
    ∙ ap some agree
  where
    agree :
        minute_rolled now (roll_day now p) a (day_rolled now p a k)
        ≡ minute_rolled now p a (day_rolled now p a k)
    agree = let (m, e) = same_roll_day now p in rw (m, e)

pub rolled-Rolled : (now : ℕ) (p : Pool) (a : ℕ) (k : Key) → Rolled k (rolled now p a k)
rolled-Rolled now p a k = ground arith

pub keys-roll : (now : ℕ) (p : Pool) → (roll now p).keys ≡ p.keys
unfolding roll roll_day roll_minute
keys-roll now p = ground arith

pub rr-roll : (now : ℕ) (p : Pool) → (roll now p).rr ≡ p.rr
unfolding roll roll_day roll_minute
rr-roll now p = ground arith

pub length-roll : (now : ℕ) (p : Pool) → length (roll now p).cells ≡ length p.cells
unfolding roll roll_day roll_minute
length-roll now p = ground (
  arith,
  length-visit reset_day (addresses p.keys) p.cells,
  length-visit reset_minute (addresses p.keys) p.cells,
  length-visit reset_minute (addresses p.keys) (visit reset_day (addresses p.keys) p.cells),
)
