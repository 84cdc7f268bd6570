-- ===== src/Pool/Traffic/Owners.antt =====
-- Whose key a request bears, by the configuration that was last reloaded.
use mathlib.Core.List.{Memᴰ}
use omny.Base.{
  bytes_eq_iff, ℕ, zero, suc, ◌+◌, ◌%◌, ◌≡◌, refl, ap, ◌∙◌, inl, inr, false, List, [], ◌∷◌, none,
  some, some_inj, Bytes, All, get_elem?, length, lookup, Bool-cases, Option-cases, none_ne_some,
  >>=-some, bytes_eq, subst,
}
use omny.Config.{Provider, Config, Slot, slots}
use omny.Key.{Key, free}
use omny.Pool.{
  Pool, roll, ring, or_empty, spin, pick, release, account, hush, done, charge, fail, sour, ok,
}
use omny.Pool.Visit.{keys-roll}
use omny.Pool.Reload.{adopt}
use omny.Pool.Reload.Rings.{HasId, Keeps, Matches, Matches-Keeps, AreRings, adopt-AreRings}
use omny.Pool.Traffic.{
  Traffic, Event, picks, fails, succeeds, leaves, charges, sours, hushes, reloads, step, run,
}
use omny.Pool.Traffic.Safety.{is_reload}
use omny.Pool.Traffic.Stays.{
  Stays, Stays-trans, roll-Stays, modify-Stays, fail-Stays, sour-Stays, ok-Stays, pick-Stays,
}

same : (p : Pool) → Stays p p
same p = record { rings = refl; keeps = record { ids = λ a id h. h } }

account-id : (s : _) (k : Key) → (account s k).id ≡ k.id
account-id none k = refl
account-id (some s) k = refl

module _ (fp : Bytes → Bytes) where
  -- One event after another, without a reload.
  step-Stays :
      (now : ℕ) (t t' : Traffic) (e : Event)
      → is_reload e ≡ false
      → step fp now t e ≡ some t'
      → Stays t.pool t'.pool
  unfolding step done charge hush
  step-Stays now t t' (picks prov) h e =
      let (r, f, g) = >>=-some (pick now t.pool prov) _ e in
      subst (λ x. Stays t.pool x.pool) (some_inj g) (pick-Stays now t.pool prov r f)
  step-Stays now t t' (fails i code retry) h e = elim (Option-cases (get_elem? t.held i)) [
    | inl f ↦ subst (λ x. Stays t.pool x.pool) (some_inj (rw f at e)) (same t.pool)
    | inr (a, f) ↦
        let (r, g, k) = >>=-some (fail now t.pool a code retry) _ (rw f at e) in
        subst (λ x. Stays t.pool x.pool) (some_inj k) (fail-Stays now t.pool a code retry r g)
  ]
  step-Stays now t t' (succeeds i ttft) h e = elim (Option-cases (get_elem? t.held i)) [
    | inl f ↦ subst (λ x. Stays t.pool x.pool) (some_inj (rw f at e)) (same t.pool)
    | inr (a, f) ↦
        let (r, g, k) = >>=-some (ok now t.pool a ttft) _ (rw f at e) in
        subst (λ x. Stays t.pool x.pool) (some_inj k) (ok-Stays now t.pool a ttft r g)
  ]
  step-Stays now t t' (leaves i) h e = elim (Option-cases (get_elem? t.held i)) [
    | inl f ↦ subst (λ x. Stays t.pool x.pool) (some_inj (rw f at e)) (same t.pool)
    | inr (a, f) ↦
        subst (λ x. Stays t.pool x.pool) (some_inj (rw f at e))
          (modify-Stays t.pool release a (λ k g. refl))
  ]
  step-Stays now t t' (charges i s) h e = elim (Option-cases (get_elem? t.served i)) [
    | inl f ↦ subst (λ x. Stays t.pool x.pool) (some_inj (rw f at e)) (same t.pool)
    | inr (a, f) ↦
        let q = roll now t.pool in
        subst (λ x. Stays t.pool x.pool) (some_inj (rw f at e))
          (Stays-trans t.pool q _ (roll-Stays now t.pool)
            (modify-Stays q (account s) a (λ k g. account-id s k)))
  ]
  step-Stays now t t' (sours i) h e = elim (Option-cases (get_elem? t.served i)) [
    | inl f ↦ subst (λ x. Stays t.pool x.pool) (some_inj (rw f at e)) (same t.pool)
    | inr (a, f) ↦
        let (r, g, k) = >>=-some (sour now t.pool a) _ (rw f at e) in
        subst (λ x. Stays t.pool x.pool) (some_inj k) (sour-Stays now t.pool a r g)
  ]
  step-Stays now t t' (hushes prov) h e =
      subst (λ x. Stays t.pool x.pool) (some_inj e)
        (record { rings = refl; keeps = record { ids = λ a id h. h } })
  step-Stays now t t' (reloads c) h e = absurd (cc)

  run-Stays :
      (es : List (ℕ × Event)) (t t' : Traffic)
      → All (λ x. is_reload x.1 ≡ false) es
      → run fp es t ≡ some t'
      → Stays t.pool t'.pool
  unfolding run
  run-Stays [] t t' h e = subst (λ x. Stays t.pool x.pool) (some_inj e) (same t.pool)
  run-Stays ((now, x) ∷ es) t t' h e =
      let (u, f, g) = >>=-some (step fp now t x) _ e in
      Stays-trans t.pool u.pool t'.pool (step-Stays now t u x h.0 f) (run-Stays es u t' h.1 g)

-- What the loop of `pick` grants stands in the ring.
spin-ring :
    (n : ℕ) (ks : List ℕ) (cells : List Key) (now c a c' : ℕ)
    → spin n ks cells now c ≡ some (some a, c')
    → (i : ℕ) × (get_elem? ks i ≡ some a)
unfolding spin
spin-ring zero ks cells now c a c' e = absurd (cc)
spin-ring (suc n) ks cells now c a c' e =
    let (b, f, e1) = >>=-some (get_elem? ks c) _ e in
    let (k, g, e2) = >>=-some (get_elem? cells b) _ e1 in
    elim (Bool-cases (free now k)) [
      | inl h ↦ (c, f ∙ ap (λ x. x.0) (some_inj (rw h at e2)))
      | inr h ↦ spin-ring n ks cells now ((c + 1) % length ks) a c' (rw h at e2)
    ]

pick-ring :
    (now : ℕ) (p : Pool) (prov : Bytes) (a : ℕ) (p' : Pool)
    → pick now p prov ≡ some (some a, p')
    → (i : ℕ) × (get_elem? (or_empty (lookup prov p.keys)) i ≡ some a)
unfolding pick ring
pick-ring now p prov a p' e =
    let q = roll now p in
    let ks = or_empty (lookup prov q.keys) in
    let ((hit, c), f, g) = >>=-some (spin (length ks) ks q.cells now (q.rr prov)) _ e in
    let got : hit ≡ some a = ap (λ x. x.0) (some_inj g) in
    let (i, h) =
      spin-ring (length ks) ks q.cells now (q.rr prov) a c (f ∙ ap (λ x. some (x, c)) got) in
    (i, subst (λ m. get_elem? (or_empty (lookup prov m)) i ≡ some a) (keys-roll now p) h)

Matches-slot :
    (cells : List Key) (ks : List ℕ) (sls : List Slot) (i a : ℕ)
    → Matches cells ks sls
    → get_elem? ks i ≡ some a
    → (sl : Slot) × Memᴰ sl sls × HasId cells a sl.id
Matches-slot cells [] sls i a h e = absurd (none_ne_some e)
Matches-slot cells (b ∷ ks) [] i a h e = absurd h
Matches-slot cells (b ∷ ks) (sl ∷ sls) zero a h e =
    (sl, Memᴰ.head refl, subst (λ x. HasId cells x sl.id) (some_inj e) h.0)
Matches-slot cells (b ∷ ks) (sl ∷ sls) (suc i) a h e =
    let (x, m, g) = Matches-slot cells ks sls i a h.1 e in (x, Memᴰ.tail m, g)

-- A key of the ring of a name belongs to the provider of that name.
AreRings-slot :
    (fp : Bytes → Bytes) (cells : List Key) (provs : List (Bytes × Provider))
    (rings : List (Bytes × List ℕ)) (name : Bytes) (i a : ℕ)
    → AreRings fp cells provs rings
    → get_elem? (or_empty (lookup name rings)) i ≡ some a
    → (prov : Provider) × (sl : Slot) × (lookup name provs ≡ some prov)
      × Memᴰ sl (slots fp prov name)
      × HasId cells a sl.id
unfolding lookup or_empty
AreRings-slot fp cells [] [] name i a h e = absurd (none_ne_some e)
AreRings-slot fp cells [] (r ∷ rings) name i a h e = absurd h
AreRings-slot fp cells (p ∷ provs) [] name i a h e = absurd h
AreRings-slot fp cells ((n, p) ∷ provs) ((m, ks) ∷ rings) name i a (s, h, hs) e =
    let e' = subst (λ x. get_elem? (or_empty (lookup name ((x, ks) ∷ rings))) i ≡ some a) s e in
    elim (Bool-cases (bytes_eq n name)) [
      | inl f ↦
          let (sl, j, g) = Matches-slot cells ks (slots fp p n) i a h (rw f at e') in
          (p, sl, rw f refl, subst (λ x. Memᴰ sl (slots fp p x)) ((bytes_eq_iff n name).0 f) j, g)
      | inr f ↦
          let (q, sl, k, j, g) = AreRings-slot fp cells provs rings name i a hs (rw f at e') in
          (q, sl, rw f k, j, g)
    ]

AreRings-Keeps :
    (fp : Bytes → Bytes) (xs ys : List Key) (provs : List (Bytes × Provider))
    (rings : List (Bytes × List ℕ))
    → Keeps xs ys
    → AreRings fp xs provs rings
    → AreRings fp ys provs rings
AreRings-Keeps fp xs ys [] [] k h = tt
AreRings-Keeps fp xs ys [] (r ∷ rings) k h = absurd h
AreRings-Keeps fp xs ys (p ∷ provs) [] k h = absurd h
AreRings-Keeps fp xs ys ((n, p) ∷ provs) ((m, ks) ∷ rings) k (s, h, hs) =
    (s, Matches-Keeps xs ys ks (slots fp p n) k h, AreRings-Keeps fp xs ys provs rings k hs)

-- After a reload, and any picks, reports and charges of requests since then and until the next one, the
-- key that `pick` grants for a provider's name is of the configuration's provider of that name: it has the
-- fingerprint of one of its secrets, so none that the reload removed is granted.
pub pick-owner :
    (fp : Bytes → Bytes) (t t' : Traffic) (c : Config) (es : List (ℕ × Event)) (now : ℕ)
    (prov : Bytes) (a : ℕ) (p' : Pool)
    → All (λ x. is_reload x.1 ≡ false) es
    → run fp es (record t { pool = adopt fp t.pool c }) ≡ some t'
    → pick now t'.pool prov ≡ some (some a, p')
    → (q : Provider) × (sl : Slot) × (lookup prov c.providers ≡ some q)
      × Memᴰ sl (slots fp q prov)
      × HasId p'.cells a sl.id
pick-owner fp t t' c es now prov a p' quiet ran granted =
    let p = adopt fp t.pool c in
    let (_, rings) = adopt-AreRings fp t.pool c in
    let v =
      Stays-trans p t'.pool p' (run-Stays fp es (record t { pool = p }) t' quiet ran)
        (pick-Stays now t'.pool prov (some a, p') granted) in
    let w = run-Stays fp es (record t { pool = p }) t' quiet ran in
    let (i, e) = pick-ring now t'.pool prov a p' granted in
    AreRings-slot fp p'.cells c.providers p.keys prov i a
      (AreRings-Keeps fp p.cells p'.cells c.providers p.keys v.keeps rings)
      (subst (λ m. get_elem? (or_empty (lookup prov m)) i ≡ some a) w.rings e)
