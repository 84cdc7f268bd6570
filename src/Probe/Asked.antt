-- ===== src/Probe/Asked.antt =====
-- `asked`: the model of a provider that a deep probe asks for.
use omny.Base.{
  ◌≡◌, refl, sym, ap, ◌∙◌, Bool, true, false, List, [], ◌∷◌, ◌++◌, Option, some, Bytes, bytes_eq,
  lookup, insert, lookup-insert, bytes_eq_iff, if◌then◌else◌, Bool-cases, inl, inr, arith, ◌&&◌,
  not,
}
use omny.Config.{Config}
use omny.Loader.{is_empty}
use omny.Route.{Target, route}
use omny.Probe.{or_blank, model_of, ask_targets, ask_aliases, asked}

-- The first model of the provider that is not empty.
unfoldable pub first_model : Bytes → List Target → Bytes
first_model prov [] = []
first_model prov (t ∷ ts) =
    if bytes_eq t.prov prov && not (is_empty t.model) then t.model else first_model prov ts

-- The targets of all aliases, one after another.
unfoldable pub targets : Config → List (Bytes × List Bytes) → List Target
targets c [] = []
targets c ((a, es) ∷ more) = route c a ++ targets c more

abbrev pub or_else : Bytes → Bytes → Bytes
or_else [] d = d
or_else (x ∷ xs) d = x ∷ xs

blank_if :
    (b : Bool) (v : Bytes) (m : Option Bytes)
    → or_blank (if b then some v else m) ≡ (if b then v else or_blank m)
blank_if true v m = refl
blank_if false v m = refl

model_of-insert :
    (prov k v : Bytes) (m : List (Bytes × Bytes))
    → model_of prov (insert k v m) ≡ (if bytes_eq k prov then v else model_of prov m)
unfolding model_of
model_of-insert prov k v m =
    ap or_blank (lookup-insert k prov v m) ∙ blank_if (bytes_eq k prov) v (lookup prov m)

or_else_nil : (a : Bytes) → or_else a [] ≡ a
or_else_nil [] = refl
or_else_nil (x ∷ xs) = refl

model_of_if :
    (b : Bool) (t : Target) (m : List (Bytes × Bytes)) (prov : Bytes)
    → model_of prov (if b then insert t.prov t.model m else m)
      ≡ (if b then (if bytes_eq t.prov prov then t.model else model_of prov m) else model_of prov m)
model_of_if true t m prov = model_of-insert prov t.prov t.model m
model_of_if false t m prov = refl

kept_or_new :
    (x v : Bytes) → (if is_empty x then v else x) ≡ or_else x (if not (is_empty v) then v else [])
unfolding is_empty
kept_or_new [] [] = refl
kept_or_new [] (b ∷ bs) = refl
kept_or_new (b ∷ bs) v = refl

if_same : (b : Bool) (x : Bytes) → (if b then x else x) ≡ x
if_same true x = refl
if_same false x = refl

-- One target more.
ask_one :
    (t : Target) (m : List (Bytes × Bytes)) (prov : Bytes)
    → model_of prov (if is_empty (model_of t.prov m) then insert t.prov t.model m else m)
      ≡ or_else
          (model_of prov m)
          (if bytes_eq t.prov prov && not (is_empty t.model) then t.model else [])
ask_one t m prov =
    model_of_if (is_empty (model_of t.prov m)) t m prov
    ∙ (elim (Bool-cases (bytes_eq t.prov prov)) [
      | inl e ↦
          let same : t.prov ≡ prov = (bytes_eq_iff t.prov prov).0 e in
          let f : model_of t.prov m ≡ model_of prov m = ap (λ p. model_of p m) same in
          rw (e, f) (kept_or_new (model_of prov m) t.model)
      | inr e ↦
          rw e (if_same (is_empty (model_of t.prov m)) _ ∙ sym (or_else_nil (model_of prov m)))
    ])

or_else_assoc : (a b c : Bytes) → or_else (or_else a b) c ≡ or_else a (or_else b c)
or_else_assoc [] b c = refl
or_else_assoc (x ∷ xs) b c = refl

first_model_cons :
    (prov : Bytes) (t : Target) (ts : List Target)
    → first_model prov (t ∷ ts)
      ≡ or_else
          (if bytes_eq t.prov prov && not (is_empty t.model) then t.model else [])
          (first_model prov ts)
unfolding first_model is_empty
first_model_cons prov t ts = ground arith

first_model-append :
    (prov : Bytes) (ts us : List Target)
    → first_model prov (ts ++ us) ≡ or_else (first_model prov ts) (first_model prov us)
unfolding first_model
first_model-append prov [] us = refl
first_model-append prov (t ∷ ts) us =
    first_model_cons prov t (ts ++ us)
    ∙ ap (or_else _) (first_model-append prov ts us)
    ∙ sym (
        or_else_assoc (if bytes_eq t.prov prov && not (is_empty t.model) then t.model else [])
          (first_model prov ts) (first_model prov us))
    ∙ ap (λ a. or_else a (first_model prov us)) (sym (first_model_cons prov t ts))

ask_targets_lem :
    (ts : List Target) (m : List (Bytes × Bytes)) (prov : Bytes)
    → model_of prov (ask_targets ts m) ≡ or_else (model_of prov m) (first_model prov ts)
unfolding ask_targets first_model
ask_targets_lem [] m prov = sym (or_else_nil _)
ask_targets_lem (t ∷ ts) m prov =
    ask_targets_lem ts _ prov
    ∙ ap (λ a. or_else a (first_model prov ts)) (ask_one t m prov)
    ∙ or_else_assoc (model_of prov m) _ _
    ∙ ap (or_else (model_of prov m)) (sym (first_model_cons prov t ts))

ask_aliases_lem :
    (c : Config) (al : List (Bytes × List Bytes)) (m : List (Bytes × Bytes)) (prov : Bytes)
    → model_of prov (ask_aliases c al m)
      ≡ or_else (model_of prov m) (first_model prov (targets c al))
unfolding ask_aliases targets first_model
ask_aliases_lem c [] m prov = sym (or_else_nil _)
ask_aliases_lem c ((a, es) ∷ more) m prov =
    ask_aliases_lem c more _ prov
    ∙ ap (λ x. or_else x (first_model prov (targets c more))) (ask_targets_lem (route c a) m prov)
    ∙ or_else_assoc (model_of prov m) _ _
    ∙ ap (or_else (model_of prov m)) (sym (first_model-append prov (route c a) (targets c more)))

-- The model that a deep probe of a provider asks for is the first one that is not empty among the
-- provider's targets in the routes of the aliases, in their order, or empty where there is none.
pub asked_lem :
    (c : Config) (prov : Bytes) → model_of prov (asked c) ≡ first_model prov (targets c c.aliases)
unfolding asked model_of lookup
asked_lem c prov = ask_aliases_lem c c.aliases [] prov
