-- ===== src/State/Restart.antt =====
-- `save` and `restore`: a key before and after a restart.
use omny.Base.{
  ℕ, ◌≡◌, ◌≢◌, refl, ap, sym, ◌∙◌, ◌⊎◌, inl, inr, true, false, List, [], ◌∷◌, Option, none, some,
  arith, Bytes, bytes_eq, bytes_eq_iff, bytes_eq_refl, lookup, insert, lookup-insert, ◌==◌, ==_iff,
  get_elem?, Bool-cases, Option-cases, some_inj, none_ne_some, subst,
}
use omny.Key.{Key}
use omny.Pool.{Pool, addresses}
use omny.State.Atomic.{final, replace-IsAtomic}
use omny.Pool.Visit.{elem, get_elem?-visit}
use omny.State.{
  Saved, Tally, tally, tallies, snapshot, or_zero, revive, resume, Files, Calls, save, restore,
}

-- Two keys of the pool with one fingerprint are one key.
abbrev pub IsDistinct : Pool → Type 0
IsDistinct p =
    (a b : ℕ) (k l : Key)
    → get_elem? p.cells a ≡ some k
    → get_elem? p.cells b ≡ some l
    → k.id ≡ l.id
    → a ≡ b

-- The tally of a key is stored under its fingerprint once its address has been passed.
tallies_found :
    (cells : List Key) (a : ℕ) (k : Key) (ks : List ℕ) (m : List (Bytes × Tally))
    → ((b : ℕ) (l : Key) → get_elem? cells b ≡ some l → k.id ≡ l.id → a ≡ b)
    → get_elem? cells a ≡ some k
    → (elem a ks ≡ true) ⊎ (lookup k.id m ≡ some (tally k))
    → lookup k.id (tallies cells ks m) ≡ some (tally k)
unfolding tallies
tallies_found cells a k [] m one e (inl h) = absurd (ground arith)
tallies_found cells a k [] m one e (inr h) = h
tallies_found cells a k (b ∷ ks) m one e h = elim (Option-cases (get_elem? cells b)) [
  | inl f ↦
      rw (f, tallies)
        (tallies_found cells a k ks m one e (elim h [
          | inl g ↦ elim (Bool-cases (b == a)) [
            | inl s ↦ absurd (
                none_ne_some
                  (sym f ∙ subst (λ x. get_elem? cells x ≡ some k) (sym ((==_iff b a).0 s)) e))
            | inr s ↦ inl (rw s at g)
          ]
          | inr g ↦ inr g
        ]))
  | inr (l, f) ↦
      rw (f, tallies)
        (tallies_found cells a k ks (insert l.id (tally l) m) one e
          (elim (Bool-cases (bytes_eq l.id k.id)) [
            | inl s ↦
                let same : a ≡ b = one b l f (sym ((bytes_eq_iff l.id k.id).0 s)) in
                let kl : l ≡ k =
                  some_inj (sym f ∙ subst (λ x. get_elem? cells x ≡ some k) same e) in
                inr (lookup-insert l.id k.id (tally l) m ∙ rw s (ap (λ x. some (tally x)) kl))
            | inr s ↦ elim h [
              | inr g ↦ inr (lookup-insert l.id k.id (tally l) m ∙ rw s g)
              | inl g ↦ elim (Bool-cases (b == a)) [
                | inr t ↦ inl (rw t at g)
                | inl t ↦
                    let kl : l ≡ k = some_inj (
                      sym f ∙ subst (λ x. get_elem? cells x ≡ some k) (sym ((==_iff b a).0 t)) e) in
                    absurd (
                      ground (
                        arith,
                        (let u : bytes_eq l.id k.id ≡ true = rw kl (bytes_eq_refl k.id) in u),
                      ))
              ]
            ]
          ]))
]

revive_twice :
    (s : Saved) (day : ℕ) (k : Key)
    → let f : Key → Key = λ k. revive (s.day == day) (or_zero (lookup k.id s.keys)) k in
      f (f k) ≡ f k
unfolding revive
revive_twice s day k = elim (Bool-cases (s.day == day)) [ inl e ↦ rw e refl | inr e ↦ rw e refl ]

-- What `restore` makes of a key whose tally was saved on the day `day`.
resume_found :
    (p q : Pool) (a b : ℕ) (k l : Key)
    → IsDistinct p
    → get_elem? p.cells a ≡ some k
    → elem a (addresses p.keys) ≡ true
    → get_elem? q.cells b ≡ some l
    → elem b (addresses q.keys) ≡ true
    → l.id ≡ k.id
    → get_elem? (resume (snapshot p) q).cells b ≡ some (revive (p.day == q.day) (tally k) l)
unfolding resume snapshot or_zero
resume_found p q a b k l one e here f there same =
    let found =
      tallies_found p.cells a k (addresses p.keys) [] (λ c m. one a c k m e) e (inl here) in
    get_elem?-visit _ (revive_twice (snapshot p) q.day) (addresses q.keys) q.cells b l f
    ∙ rw (there, same, found) refl

module _ (encode : Saved → Bytes) (decode : Bytes → Option Saved) where
  restored :
      (fs : Files) (q : Pool) (b : Bytes) (s : Saved)
      → fs q.path ≡ some b
      → decode b ≡ some s
      → restore encode decode fs q ≡ some (resume s q)
  unfolding restore
  restored fs q b s e f = rw (e, f, restore) refl

  -- A pool of distinct fingerprints is saved without an error, its text can be decoded, and a pool
  -- restores from the same path. A key of its rings with the fingerprint of a saved one then has, on
  -- the same day of the year, the saved counters, measured time and lifetime usage, and on another
  -- day the saved measured time and lifetime usage alone; the rest of the key is kept.
  pub restore-save :
      (calls : Calls) (p q : Pool) (fs : Files) (a b : ℕ) (k l : Key)
      → decode (encode (snapshot p)) ≡ some (snapshot p)
      → IsDistinct p
      → (save encode decode calls p fs).1 ≡ true
      → q.path ≡ p.path
      → get_elem? p.cells a ≡ some k
      → elem a (addresses p.keys) ≡ true
      → get_elem? q.cells b ≡ some l
      → elem b (addresses q.keys) ≡ true
      → l.id ≡ k.id
      → (q' : Pool) × (restore encode decode (final fs (save encode decode calls p fs).0) q
          ≡ some q')
        × (p.day ≡ q.day
            → get_elem? q'.cells b
              ≡ some (record l {
                reqs = k.reqs;
                errs = k.errs;
                toks = k.toks;
                blind = k.blind;
                ttft = k.ttft;
                life = k.life;
              }))
        × (p.day ≢ q.day → get_elem? q'.cells b ≡ some (record l { ttft = k.ttft; life = k.life }))
  unfolding save restore revive tally
  restore-save calls p q fs a b k l text one ok path e here f there same =
      let (_, _, done, _) = replace-IsAtomic calls none p.path (encode (snapshot p)) fs in
      let after = final fs (save encode decode calls p fs).0 in
      let stored : after p.path ≡ some (encode (snapshot p)) = (done ok).0 in
      let found = resume_found p q a b k l one e here f there same in
      (
        resume (snapshot p) q,
        restored after q (encode (snapshot p)) (snapshot p)
            (subst (λ x. after x ≡ some (encode (snapshot p))) (sym path) stored) text,
        (λ d. found ∙ rw ((==_iff p.day q.day).1 d) refl),
        (λ d. let e : (p.day == q.day) ≡ false = ground (arith, d) in found ∙ rw e refl),
      )
