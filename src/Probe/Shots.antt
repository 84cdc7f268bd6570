-- ===== src/Probe/Shots.antt =====
-- `probe`: what its map holds.
use mathlib.Core.List.{Memᴰ}
use omny.Base.{
  ℕ, ◌≡◌, sym, ap, ◌∙◌, ◌⊎◌, inl, inr, true, List, [], ◌∷◌, ◌++◌, some, Bytes, bytes_eq,
  bytes_eq_iff, arith, lookup, insert, lookup-insert, Bool-cases, subst,
}
use omny.Config.{Provider, Config, Slot, slots}
use omny.Probe.{Ping, Dialed, Depth, Shot, shoot, slot_jobs, jobs, collect, asked, model_of}
use omny.Probe.Asked.{first_model, targets, asked_lem}

Mem-left {ℓ} : {A : Type ℓ} {x : A} {xs : List A} (ys : List A) → Memᴰ x xs → Memᴰ x (xs ++ ys)
Mem-left ys (Memᴰ.head e) = Memᴰ.head e
Mem-left ys (Memᴰ.tail m) = Memᴰ.tail (Mem-left ys m)

Mem-right {ℓ} : {A : Type ℓ} {x : A} (xs : List A) {ys : List A} → Memᴰ x ys → Memᴰ x (xs ++ ys)
Mem-right [] m = m
Mem-right (x ∷ xs) m = Memᴰ.tail (Mem-right xs m)

-- No id stands twice.
abbrev pub AreDistinct : List (Bytes × Shot) → Type 0
AreDistinct [] = Unit {0}
AreDistinct ((id, shot) ∷ more) = ((t : Shot) → Memᴰ (id, t) more → ⊥) × AreDistinct more

one_shot :
    (js : List (Bytes × Shot)) (id : Bytes) (s t : Shot)
    → AreDistinct js
    → Memᴰ (id, s) js
    → Memᴰ (id, t) js
    → s ≡ t
one_shot [] id s t d m n = elim m [ ]
one_shot (j ∷ js) id s t d (Memᴰ.head e) (Memᴰ.head f) = ap (λ x. x.1) (e ∙ sym f)
one_shot ((k, u) ∷ js) id s t d (Memᴰ.head e) (Memᴰ.tail m) =
    absurd (d.0 t (subst (λ x. Memᴰ (x, t) js) (ap (λ x. x.0) e) m))
one_shot ((k, u) ∷ js) id s t d (Memᴰ.tail m) (Memᴰ.head f) =
    absurd (d.0 s (subst (λ x. Memᴰ (x, s) js) (ap (λ x. x.0) f) m))
one_shot (j ∷ js) id s t d (Memᴰ.tail m) (Memᴰ.tail n) = one_shot js id s t d.1 m n

-- A map into which an id is written with one shot only.
lookup-collect :
    (js out : List (Bytes × Shot)) (id : Bytes) (s : Shot)
    → ((t : Shot) → Memᴰ (id, t) js → t ≡ s)
    → Memᴰ (id, s) js ⊎ (lookup id out ≡ some s)
    → lookup id (collect js out) ≡ some s
unfolding collect
lookup-collect [] out id s u (inl m) = elim m [ ]
lookup-collect [] out id s u (inr e) = e
lookup-collect ((k, t) ∷ js) out id s u h = elim (Bool-cases (bytes_eq k id)) [
  | inl e ↦
      let same : k ≡ id = (bytes_eq_iff k id).0 e in
      let f : t ≡ s = u t (Memᴰ.head (ap (λ x. (x, t)) (sym same))) in
      lookup-collect js (insert k t out) id s (λ x m. u x (Memᴰ.tail m))
        (inr (rw (lookup-insert k id t out, e) (ap some f)))
  | inr e ↦
      lookup-collect js (insert k t out) id s (λ x m. u x (Memᴰ.tail m))
        (elim h [
          | inl (Memᴰ.head f) ↦
              (let g : bytes_eq k id ≡ true = (bytes_eq_iff k id).1 (ap (λ x. x.0) (sym f)) in
                absurd (ground arith))
          | inl (Memᴰ.tail m) ↦ inl m
          | inr f ↦ inr (rw (lookup-insert k id t out, e) f)
        ])
]

module _ (canonical quote : Bytes → Bytes) (dial : ℕ → Ping → Dialed) where
  slot_jobs-Mem :
      (patience : ℕ) (p : Provider) (model : Bytes) (depth : Depth) (sls : List Slot) (sl : Slot)
      → Memᴰ sl sls
      → Memᴰ
          (sl.id, shoot canonical quote dial patience p model depth sl.val)
          (slot_jobs canonical quote dial patience p model depth sls)
  unfolding slot_jobs
  slot_jobs-Mem patience p model depth [] sl m = elim m [ ]
  slot_jobs-Mem patience p model depth (x ∷ sls) sl (Memᴰ.head e) =
      Memᴰ.head (ap (λ y. (y.id, shoot canonical quote dial patience p model depth y.val)) e)
  slot_jobs-Mem patience p model depth (x ∷ sls) sl (Memᴰ.tail m) =
      Memᴰ.tail (slot_jobs-Mem patience p model depth sls sl m)

  module _ (fp : Bytes → Bytes) (patience : ℕ) (ask : List (Bytes × Bytes)) (depth : Depth) where
    jobs-Mem :
        (ps : List (Bytes × Provider)) (name : Bytes) (p : Provider) (sl : Slot)
        → Memᴰ (name, p) ps
        → Memᴰ sl (slots fp p name)
        → Memᴰ
            (sl.id, shoot canonical quote dial patience p (model_of name ask) depth sl.val)
            (jobs canonical quote dial fp patience ask depth ps)
    unfolding jobs
    jobs-Mem [] name p sl n m = elim n [ ]
    jobs-Mem ((k, q) ∷ ps) name p sl (Memᴰ.head e) m = Mem-left _ (
        subst
          (λ x.
            Memᴰ (sl.id, shoot canonical quote dial patience p (model_of name ask) depth sl.val)
              (slot_jobs canonical quote dial patience x.1 (model_of x.0 ask) depth
                (slots fp x.1 x.0)))
          e (slot_jobs-Mem patience p (model_of name ask) depth (slots fp p name) sl m))
    jobs-Mem ((k, q) ∷ ps) name p sl (Memᴰ.tail n) m = Mem-right _ (jobs-Mem ps name p sl n m)

  -- Where no two keys have the same fingerprint, and all goroutines of a probe have ended, in whatever
  -- order, the map has under each key's fingerprint what the probe of that key at its provider says,
  -- asked for the first model that the aliases name at the provider.
  pub probe_lem :
      (fp : Bytes → Bytes) (patience : ℕ) (c : Config) (depth : Depth) (ended : List (Bytes × Shot))
      (name : Bytes) (p : Provider) (sl : Slot)
      → AreDistinct (jobs canonical quote dial fp patience (asked c) depth c.providers)
      → ((j : Bytes × Shot)
          → Memᴰ j ended
          → Memᴰ j (jobs canonical quote dial fp patience (asked c) depth c.providers))
      → ((j : Bytes × Shot)
          → Memᴰ j (jobs canonical quote dial fp patience (asked c) depth c.providers)
          → Memᴰ j ended)
      → Memᴰ (name, p) c.providers
      → Memᴰ sl (slots fp p name)
      → lookup sl.id (collect ended [])
        ≡ some (
            shoot canonical quote dial patience p
              (first_model name (targets c c.aliases))
              depth
              sl.val)
  probe_lem fp patience c depth ended name p sl d only all n m =
      let js = jobs canonical quote dial fp patience (asked c) depth c.providers in
      let s = shoot canonical quote dial patience p (model_of name (asked c)) depth sl.val in
      let here : Memᴰ (sl.id, s) js =
        jobs-Mem fp patience (asked c) depth c.providers name p sl n m in
      lookup-collect ended [] sl.id s (λ t i. one_shot js sl.id t s d (only (sl.id, t) i) here)
        (inl (all (sl.id, s) here))
      ∙ ap (λ x. some (shoot canonical quote dial patience p x depth sl.val)) (asked_lem c name)
