-- ===== src/Route.antt =====
-- internal/omny/route.go: where a model name leads.
pub mod Laws
use omny.Base.{
  ℕ, Bool, true, false, List, [], ◌∷◌, Option, none, some, Bytes, lookup, ◌==◌, if◌then◌else◌, map,
}
use omny.Config.{Provider, Config}

-- `target`; `place` is its field `at`, nil for a provider that is not there.
pub record Target : Type 0 where
  pub prov : Bytes
  pub model : Bytes
  pub place : Option Provider

-- `/`.
abbrev pub slash : ℕ
slash = 47

-- `strings.Cut(s, "/")`: what stands before and after the first slash, and whether there is one.
unfoldable pub cut : Bytes → Bytes × Bytes × Bool
cut [] = ([], [], false)
cut (b ∷ bs) =
    let (before, after, found) = cut bs in
    if b == slash then ([], bs, true) else (b ∷ before, after, found)

unfoldable pub entry_target : Config → Bytes → Target
entry_target c e =
    let (prov, model, _) = cut e in
    record { prov = prov; model = model; place = lookup prov c.providers }

default_target : Config → Bytes → Target
default_target c name = record {
  prov = c.default;
  model = name;
  place = lookup c.default c.providers;
}

-- A name that is no alias: `provider/model`, or a model of the default provider.
unfoldable pub pinned : Config → Bytes → List Target
unfolding default_target
pinned c name =
    let (prov, model, found) = cut name in
    elim (lookup prov c.providers) [
      | none ↦ default_target c name ∷ []
      | some p ↦
          if found
          then record { prov = prov; model = model; place = some p } ∷ []
          else default_target c name ∷ []
    ]

-- `Config.route`.
unfoldable pub route : Config → Bytes → List Target
route c [] = []
route c (b ∷ bs) =
    let name = b ∷ bs in
    elim (lookup name c.aliases) [
      | none ↦ pinned c name
      | some entries ↦ map (entry_target c) entries
    ]
