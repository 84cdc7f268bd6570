-- ===== src/Pool/Traffic/Stays.antt =====
-- The operations of the pool other than a reload: the rings and the fingerprints.
use omny.Base.{
  ℕ, ◌≡◌, refl, sym, ap, ◌∙◌, inl, inr, Bool, List, Option, none, some, some_inj, arith, Bytes,
  get_elem?, modify, length, Bool-cases, >>=-some, get_elem?-modify_self, get_elem?-modify_ne, ◌==◌,
  ==_iff, subst,
}
use omny.Key.{Key, bench, measure}
use omny.Pool.{Pool, roll, ring, spin, pick, grant, reserve, fail, sour, ok, write, succeed}
use omny.Pool.Visit.{get_elem?-roll, rolled-Rolled, rolled, keys-roll}
use omny.Pool.Reload.Rings.{Keeps, Keeps-trans}

-- The rings of a pool, and the fingerprints of its keys, stay.
pub record Stays (p q : Pool) : Type 0 where
  pub rings : q.keys ≡ p.keys
  pub keeps : Keeps p.cells q.cells

pub Stays-trans : (p q r : Pool) → Stays p q → Stays q r → Stays p r
Stays-trans p q r v w = record {
  rings = w.rings ∙ v.rings;
  keeps = Keeps-trans p.cells q.cells r.cells v.keeps w.keeps;
}

modify-Keeps :
    (f : Key → Key) (xs : List Key) (b : ℕ)
    → ((k : Key) → get_elem? xs b ≡ some k → (f k).id ≡ k.id)
    → Keeps xs (modify f xs b)
modify-Keeps f xs b same = record {
  ids = λ a id (k, e, g). elim (Bool-cases (b == a)) [
    | inl s ↦
        let here : get_elem? xs b ≡ some k = rw ((==_iff b a).0 s) e in
        (f k, rw (sym ((==_iff b a).0 s)) (get_elem?-modify_self f xs b k here), same k here ∙ g)
    | inr s ↦ (k, get_elem?-modify_ne f xs b a (λ t. ground (arith, s, t)) ∙ e, g)
  ];
}

pub roll-Stays : (now : ℕ) (p : Pool) → Stays p (roll now p)
roll-Stays now p = record {
  rings = keys-roll now p;
  keeps = record {
    ids = λ a id (k, e, g).
        (rolled now p a k, get_elem?-roll now p a k e, (rolled-Rolled now p a k).same_id ∙ g);
  };
}

-- A write to one key that keeps its fingerprint.
pub modify-Stays :
    (p : Pool) (f : Key → Key) (a : ℕ)
    → ((k : Key) → get_elem? p.cells a ≡ some k → (f k).id ≡ k.id)
    → Stays p (record p { cells = modify f p.cells a })
modify-Stays p f a same = record { rings = refl; keeps = modify-Keeps f p.cells a same }

bench-id :
    (now : ℕ) (k : Key) (code retry : ℕ) (r : Key × ℕ × Bool)
    → bench now k code retry ≡ some r
    → r.0.id ≡ k.id
unfolding bench
bench-id now k code retry r e = ground arith

succeed-id : (now ttft : ℕ) (k : Key) → (succeed now ttft k).id ≡ k.id
unfolding measure
succeed-id now ttft k = ground arith

-- The key at `a` is written anew, with the fingerprint that it had.
write-Stays :
    (p : Pool) (a : ℕ) (k k' : Key)
    → get_elem? p.cells a ≡ some k
    → k'.id ≡ k.id
    → Stays p (write p a k')
write-Stays p a k k' e same =
    modify-Stays p (λ _. k') a (λ j g. same ∙ ap (λ x. x.id) (some_inj (sym e ∙ g)))

pub fail-Stays :
    (now : ℕ) (p : Pool) (a code retry : ℕ) (r : Pool × ℕ × Bool)
    → fail now p a code retry ≡ some r
    → Stays p r.0
unfolding fail
fail-Stays now p a code retry r e =
    let (k, f, e1) = >>=-some (get_elem? (roll now p).cells a) _ e in
    let (b, g, e2) = >>=-some (bench now _ code retry) _ e1 in
    subst (Stays p) (ap (λ x. x.0) (some_inj e2)) (
      Stays-trans p (roll now p) _ (roll-Stays now p)
        (write-Stays (roll now p) a k b.0 f (bench-id now _ code retry b g)))

pub sour-Stays : (now : ℕ) (p : Pool) (a : ℕ) (r : Pool × ℕ) → sour now p a ≡ some r → Stays p r.0
unfolding sour
sour-Stays now p a r e =
    let (k, f, e1) = >>=-some (get_elem? (roll now p).cells a) _ e in
    let (b, g, e2) = >>=-some (bench now _ 0 0) _ e1 in
    subst (Stays p) (ap (λ x. x.0) (some_inj e2)) (
      Stays-trans p (roll now p) _ (roll-Stays now p)
        (write-Stays (roll now p) a k b.0 f (bench-id now _ 0 0 b g)))

pub ok-Stays :
    (now : ℕ) (p : Pool) (a ttft : ℕ) (r : Pool × Bool) → ok now p a ttft ≡ some r → Stays p r.0
unfolding ok
ok-Stays now p a ttft r e =
    let (k, f, e1) = >>=-some (get_elem? (roll now p).cells a) _ e in
    subst (Stays p) (ap (λ x. x.0) (some_inj e1)) (
      Stays-trans p (roll now p) _ (roll-Stays now p)
        (write-Stays (roll now p) a k _ f (succeed-id now ttft k)))

grant-Stays : (p : Pool) (hit : Option ℕ) → Stays p (grant p hit)
grant-Stays p none = record { rings = refl; keeps = record { ids = λ a id h. h } }
grant-Stays p (some a) = modify-Stays p reserve a (λ k e. refl)

pub pick-Stays :
    (now : ℕ) (p : Pool) (prov : Bytes) (r : Option ℕ × Pool)
    → pick now p prov ≡ some r
    → Stays p r.1
unfolding pick
pick-Stays now p prov r e =
    let q = roll now p in
    let ks = ring q prov in
    let (s, f, e1) = >>=-some (spin (length ks) ks q.cells now (q.rr prov)) _ e in
    let v = roll-Stays now p in
    subst (Stays p) (ap (λ x. x.1) (some_inj e1))
      (Stays-trans p _ _ (record { rings = v.rings; keeps = v.keeps }) (grant-Stays _ s.0))
