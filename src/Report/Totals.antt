-- ===== src/Report/Totals.antt =====
-- `bill`: the sums of its rows.
use omny.Base.{
  ℕ, ◌+◌, ◌≡◌, refl, sym, ap, ◌∙◌, true, Bool-cases, inl, inr, List, [], ◌∷◌, ◌++◌, Option, arith,
  Bytes,
}
use omny.Base.Int.{ℤ, pos, ◌+ℤ◌, +ℤ_assoc}
use omny.Key.{Key, Spend, no_spend, add}
use omny.Pool.{Pool, roll}
use omny.Order.{speed}
use omny.Report.{
  Row, new_row, add_key, Bill, add_last, ends_in, bill_key, bill_loop, no_bill, bill, entries,
}

-- What is added up: a monoid, its value of a row and of a key.
record Measure (A : Type 0) : Type 0 where
  plus : A → A → A
  none_of : A
  of_row : Row → A
  of_key : Key → A
  assoc : (a b c : A) → plus (plus a b) c ≡ plus a (plus b c)
  left_unit : (a : A) → plus none_of a ≡ a
  right_unit : (a : A) → plus a none_of ≡ a
  adds : (r : Row) (k : Key) → of_row (add_key r k) ≡ plus (of_row r) (of_key k)
  fresh : (key prov : Bytes) (ttft : Option ℕ) → of_row (new_row key prov ttft) ≡ none_of

module _ {A : Type 0} (plus : A → A → A) (e : A) where
  unfoldable pub over_rows : (Row → A) → List Row → A
  over_rows f [] = e
  over_rows f (r ∷ rs) = plus (f r) (over_rows f rs)

  unfoldable pub over_keys : (Key → A) → List (Bytes × Key) → A
  over_keys g [] = e
  over_keys g ((prov, k) ∷ es) = plus (g k) (over_keys g es)

  -- All three parts of a bill have the sum over the keys.
  abbrev pub Agree : (Row → A) → (Key → A) → List (Bytes × Key) → Bill → Type 0
  Agree f g es b =
      (over_rows f b.keys ≡ over_keys g es)
      × (over_rows f b.provs ≡ over_keys g es)
      × (f b.all ≡ over_keys g es)

module _ {A : Type 0} (m : Measure A) where
  abbrev rows : List Row → A
  rows rs = over_rows m.plus m.none_of m.of_row rs

  abbrev ks : List (Bytes × Key) → A
  ks es = over_keys m.plus m.none_of m.of_key es

  rows-snoc : (rs : List Row) (r : Row) → rows (rs ++ r ∷ []) ≡ m.plus (rows rs) (m.of_row r)
  unfolding over_rows
  rows-snoc [] r = m.right_unit _ ∙ sym (m.left_unit _)
  rows-snoc (s ∷ rs) r = ap (m.plus (m.of_row s)) (rows-snoc rs r) ∙ sym (m.assoc _ _ _)

  rows-add_last :
      (r : Row) (rs : List Row) (k : Key)
      → rows (add_last (r ∷ rs) k) ≡ m.plus (rows (r ∷ rs)) (m.of_key k)
  unfolding over_rows add_last
  rows-add_last r [] k =
      m.right_unit _ ∙ m.adds r k ∙ ap (λ a. m.plus a (m.of_key k)) (sym (m.right_unit _))
  rows-add_last r (s ∷ rs) k = ap (m.plus (m.of_row r)) (rows-add_last s rs k) ∙ sym (m.assoc _ _ _)

  rows-add_snoc :
      (rs : List Row) (r : Row) (k : Key)
      → rows (add_last (rs ++ r ∷ []) k) ≡ m.plus (rows (rs ++ r ∷ [])) (m.of_key k)
  rows-add_snoc [] r k = rows-add_last r [] k
  rows-add_snoc (s ∷ rs) r k = rows-add_last s (rs ++ r ∷ []) k

  rows-add_known :
      (rs : List Row) (prov : Bytes) (k : Key)
      → ends_in rs prov ≡ true
      → rows (add_last rs k) ≡ m.plus (rows rs) (m.of_key k)
  unfolding ends_in
  rows-add_known [] prov k h = absurd (cc)
  rows-add_known (r ∷ rs) prov k h = rows-add_last r rs k

  module _ (speeds : Bytes → ℕ) where
    keys_step :
        (b : Bill) (prov : Bytes) (k : Key)
        → rows (bill_key speeds b (prov, k)).keys ≡ m.plus (rows b.keys) (m.of_key k)
    unfolding bill_key
    keys_step b prov k =
        rows-snoc b.keys _
        ∙ ap (m.plus (rows b.keys))
            (m.adds _ k ∙ ap (λ a. m.plus a (m.of_key k)) (m.fresh _ _ _) ∙ m.left_unit _)

    provs_step :
        (b : Bill) (prov : Bytes) (k : Key)
        → rows (bill_key speeds b (prov, k)).provs ≡ m.plus (rows b.provs) (m.of_key k)
    unfolding bill_key
    provs_step b prov k = elim (Bool-cases (ends_in b.provs prov)) [
      | inl e ↦ rw e (rows-add_known b.provs prov k e)
      | inr e ↦ rw e (
          rows-add_snoc b.provs _ k
          ∙ ap (λ a. m.plus a (m.of_key k))
              (rows-snoc b.provs _ ∙ ap (m.plus (rows b.provs)) (m.fresh _ _ _) ∙ m.right_unit _))
    ]

    all_step :
        (b : Bill) (prov : Bytes) (k : Key)
        → m.of_row (bill_key speeds b (prov, k)).all ≡ m.plus (m.of_row b.all) (m.of_key k)
    unfolding bill_key
    all_step b prov k = m.adds b.all k

    -- A sum that grows by each key ends with the sum over all of them.
    grown :
        (of : Bill → A)
        → ((b : Bill) (prov : Bytes) (k : Key)
            → of (bill_key speeds b (prov, k)) ≡ m.plus (of b) (m.of_key k))
        → (es : List (Bytes × Key)) (b : Bill) → of (bill_loop speeds es b) ≡ m.plus (of b) (ks es)
    unfolding bill_loop over_keys
    grown of h [] b = sym (m.right_unit _)
    grown of h ((prov, k) ∷ es) b =
        grown of h es _ ∙ ap (λ a. m.plus a (ks es)) (h b prov k) ∙ m.assoc _ _ _

    loop-Agree :
        (es : List (Bytes × Key))
        → Agree m.plus m.none_of m.of_row m.of_key es (bill_loop speeds es no_bill)
    unfolding over_rows
    loop-Agree es = (
      grown (λ b. rows b.keys) keys_step es no_bill ∙ m.left_unit _,
      grown (λ b. rows b.provs) provs_step es no_bill ∙ m.left_unit _,
      grown (λ b. m.of_row b.all) all_step es no_bill
          ∙ ap (λ a. m.plus a (ks es)) (m.fresh _ _ _)
          ∙ m.left_unit _,
    )

abbrev count_of :
    (of_row : Row → ℕ) (of_key : Key → ℕ)
    → ((r : Row) (k : Key) → of_row (add_key r k) ≡ of_row r + of_key k)
    → ((key prov : Bytes) (ttft : Option ℕ) → of_row (new_row key prov ttft) ≡ 0)
    → Measure ℕ
count_of f g adds fresh = record {
  plus = λ a b. a + b;
  none_of = 0;
  of_row = f;
  of_key = g;
  assoc = λ a b c. omega arith;
  left_unit = λ a. omega arith;
  right_unit = λ a. omega arith;
  adds = adds;
  fresh = fresh;
}

zero_left : (a : ℤ) → pos 0 +ℤ a ≡ a
unfolding ◌+ℤ◌
zero_left a = ground arith

zero_right : (a : ℤ) → a +ℤ pos 0 ≡ a
unfolding ◌+ℤ◌
zero_right a = ground arith

add_assoc : (a b c : Spend) → add (add a b) c ≡ add a (add b c)
unfolding add
add_assoc a b c =
    rw
      (
        +ℤ_assoc a.in_toks b.in_toks c.in_toks,
        +ℤ_assoc a.out_toks b.out_toks c.out_toks,
        +ℤ_assoc a.total b.total c.total,
      )
      refl

add_left : (a : Spend) → add no_spend a ≡ a
unfolding add
add_left a = rw (zero_left a.in_toks, zero_left a.out_toks, zero_left a.total) refl

add_right : (a : Spend) → add a no_spend ≡ a
unfolding add
add_right a = rw (zero_right a.in_toks, zero_right a.out_toks, zero_right a.total) refl

abbrev spend_of :
    (of_row : Row → Spend) (of_key : Key → Spend)
    → ((r : Row) (k : Key) → of_row (add_key r k) ≡ add (of_row r) (of_key k))
    → ((key prov : Bytes) (ttft : Option ℕ) → of_row (new_row key prov ttft) ≡ no_spend)
    → Measure Spend
spend_of f g adds fresh = record {
  plus = add;
  none_of = no_spend;
  of_row = f;
  of_key = g;
  assoc = add_assoc;
  left_unit = add_left;
  right_unit = add_right;
  adds = adds;
  fresh = fresh;
}

-- On the usage page the rows of the keys, the rows of the providers and the row of all have the same
-- sums: those of the requests, errors, unaccounted answers and of today's and the lifetime tokens of
-- the keys that the providers list.
pub bill-Agree :
    (now : ℕ) (p : Pool)
    → let q = roll now p in
      let es = entries q.cells q.keys in
      let b = (bill now p).1 in
      Agree (λ a b. a + b) 0 (λ r. r.reqs) (λ k. k.reqs) es b
      × Agree (λ a b. a + b) 0 (λ r. r.errs) (λ k. k.errs) es b
      × Agree (λ a b. a + b) 0 (λ r. r.blind) (λ k. k.blind) es b
      × Agree add no_spend (λ r. r.today) (λ k. k.toks) es b
      × Agree add no_spend (λ r. r.total) (λ k. k.life) es b
unfolding bill add_key
bill-Agree now p =
    let q = roll now p in
    let es = entries q.cells q.keys in
    (
      loop-Agree (count_of (λ r. r.reqs) (λ k. k.reqs) (λ r k. refl) (λ _ _ _. refl)) (speed now q)
          es,
      loop-Agree (count_of (λ r. r.errs) (λ k. k.errs) (λ r k. refl) (λ _ _ _. refl)) (speed now q)
          es,
      loop-Agree (count_of (λ r. r.blind) (λ k. k.blind) (λ r k. refl) (λ _ _ _. refl))
          (speed now q) es,
      loop-Agree (spend_of (λ r. r.today) (λ k. k.toks) (λ r k. refl) (λ _ _ _. refl)) (speed now q)
          es,
      loop-Agree (spend_of (λ r. r.total) (λ k. k.life) (λ r k. refl) (λ _ _ _. refl)) (speed now q)
          es,
    )
