-- ===== src/Route/Laws.antt =====
-- Cutting at the first slash, and routes of a configuration.
use omny.Base.{
  ◌≡◌, ◌≢◌, refl, ap, ◌⊎◌, true, false, List, [], ◌∷◌, ◌++◌, some, map, arith, Bytes, All,
  All-lookup, lookup, ◌==◌, Bool-cases, Option-cases, inl, inr,
}
use omny.Config.{Provider, Config}
use omny.Route.{Target, slash, cut, entry_target, pinned, route}

-- A name built of a provider without a slash, a slash and any model cuts into exactly these two, so
-- a model may hold slashes.
pub cut-append :
    (prov model : Bytes)
    → All (λ b. b ≢ slash) prov
    → cut (prov ++ slash ∷ model) ≡ (prov, model, true)
unfolding cut
cut-append [] model h = refl
cut-append (b ∷ prov) model h = ground (arith, h.0, cut-append prov model h.1)

-- What `cut` takes apart at a slash is put together by it, and the part before has none; without a
-- slash the whole string is the part before.
pub cut_join :
    (s : Bytes)
    → (((cut s).2 ≡ true) × (s ≡ (cut s).0 ++ slash ∷ (cut s).1) × All (λ b. b ≢ slash) (cut s).0)
      ⊎ (((cut s).2 ≡ false) × ((cut s).0 ≡ s) × All (λ b. b ≢ slash) s)
unfolding cut
cut_join [] = inr (refl, refl, tt)
cut_join (b ∷ s) = elim (Bool-cases (b == slash)) [
  | inl e ↦ rw e (inl (refl, ground arith, tt))
  | inr e ↦ elim (cut_join s) [
    | inl (f, j, n) ↦ rw e (inl (f, ap (◌∷◌ b) j, (ground arith, n)))
    | inr (f, j, n) ↦ rw e (inr (f, ap (◌∷◌ b) j, (ground arith, n)))
  ]
]

-- What a route needs of a configuration: a provider for every alias entry and for the default.
pub record IsRoutable (c : Config) : Type 0 where
  pub default_known : (p : Provider) × (lookup c.default c.providers ≡ some p)
  pub aliases_known :
      All (λ a. All (λ e. (p : Provider) × (lookup (cut e).0 c.providers ≡ some p)) a.1) c.aliases

abbrev pub HasPlace : Target → Type 0
HasPlace t = (p : Provider) × (t.place ≡ some p)

entry_targets-HasPlace :
    (c : Config) (es : List Bytes)
    → All (λ e. (p : Provider) × (lookup (cut e).0 c.providers ≡ some p)) es
    → All HasPlace (map (entry_target c) es)
unfolding entry_target
entry_targets-HasPlace c [] h = tt
entry_targets-HasPlace c (e ∷ es) h = (h.0, entry_targets-HasPlace c es h.1)

pinned-HasPlace : (c : Config) (name : Bytes) → IsRoutable c → All HasPlace (pinned c name)
unfolding pinned
pinned-HasPlace c name r = elim (Option-cases (lookup (cut name).0 c.providers)) [
  | inl e ↦ rw (e, pinned) (r.default_known, tt)
  | inr (p, e) ↦
      rw (e, pinned)
        (elim (Bool-cases (cut name).2) [
          | inl f ↦ rw f ((p, refl), tt)
          | inr f ↦ rw f (r.default_known, tt)
        ])
]

-- Where a configuration has a provider for every alias entry and for the default, every target of
-- every route has its provider, so an attempt on it never follows a nil pointer.
pub route-HasPlace : (c : Config) (name : Bytes) → IsRoutable c → All HasPlace (route c name)
unfolding route
route-HasPlace c [] r = tt
route-HasPlace c (b ∷ bs) r = elim (Option-cases (lookup (b ∷ bs) c.aliases)) [
  | inl e ↦ rw (e, route) (pinned-HasPlace c (b ∷ bs) r)
  | inr (es, e) ↦
      rw (e, route)
        (entry_targets-HasPlace c es (All-lookup _ (b ∷ bs) c.aliases es r.aliases_known e))
]
