-- ===== src/Edit/Tweaks.antt =====
-- internal/edit/splice.go: `keys`, `birth`, `bare` and `pin`, each an edit of the file's lines by its
-- parsed tree. `strconv.Quote` and the test for a line of white space are arguments.
use omny.Base.{
  ℕ, ◌+◌, ◌-◌, Bool, false, ◌||◌, List, [], ◌∷◌, ◌++◌, none, some, Bytes, bytes, bytes_eq, ◌==◌,
  ltb, if◌then◌else◌, length, take, drop,
}
use omny.Edit.Node.{Node, value, line, column, edge, field, root, provider, values}
use omny.Edit.Result.{
  no_provider, cannot_locate, other_url, no_providers_section, Result, done, failed, ◌>>=◌,
}
use omny.Edit.Splice.{spaces, render, flow, splice}

abbrev pub Tweak : Type 0
Tweak = List Bytes → Node → Result (List Bytes)

-- `slices.Contains`.
unfoldable pub contains : List Bytes → Bytes → Bool
contains [] x = false
contains (y ∷ ys) x = bytes_eq y x || contains ys x

-- Where a new provider goes: below the last one, or below the section's key where it has none.
unfoldable pub place : Node → Node → ℕ × ℕ
place kn ps =
    let (last, col) = edge ps in if col == 0 then (line kn, column kn + 2) else (last, col)

-- A provider that is not there yet, as two lines.
unfoldable pub add_provider : List Bytes → Node → Node → Bytes → Bytes → Result (List Bytes)
add_provider lines kn ps prov url =
    let (last, col) = place kn ps in
    let pad = spaces (col - 1) in
    if ltb last 1 || ltb (length lines) last
    then failed (cannot_locate (bytes "the providers section"))
    else done (
        take last lines
        ++ (pad ++ (prov ++ bytes ":")) ∷ (pad ++ (bytes "  url: " ++ url)) ∷ drop last lines)

unfoldable pub birth : Bytes → Bytes → Tweak
birth prov url lines doc = elim (provider doc prov) [
  | some m ↦ elim (field (some m) (bytes "url")) [
    | some (_, u) ↦ if bytes_eq (value u) url then done lines else failed (other_url prov)
    | none ↦ done lines
  ]
  | none ↦ elim (field (root doc) (bytes "providers")) [
    | none ↦ failed no_providers_section
    | some (kn, ps) ↦ add_provider lines kn ps prov url
  ]
]

module _ (quote : Bytes → Bytes) (blank : Bytes → Bool) where
  unfoldable pub owner_of : Bytes → Bytes
  owner_of prov = bytes "provider " ++ quote prov

  unfoldable pub keys : Bytes → (List Bytes → Result (List Bytes)) → Tweak
  keys prov f lines doc = elim (provider doc prov) [
    | none ↦ failed (no_provider prov)
    | some m ↦ f (values (some m) (bytes "keys")) >>= λ next.
        splice lines m (owner_of prov) (bytes "keys") (flow quote next)
  ]

  unfoldable pub bare : Bytes → Tweak
  bare prov lines doc = elim (provider doc prov) [
    | none ↦ failed (no_provider prov)
    | some m ↦ splice lines m (owner_of prov) (bytes "keyless") (bytes "true")
  ]

  -- The lines without the blank ones at their end.
  unfoldable pub trimmed : List Bytes → List Bytes
  trimmed [] = []
  trimmed (l ∷ lines) = elim (trimmed lines) [
    | [] ↦ if blank l then [] else l ∷ []
    | r ∷ rest ↦ l ∷ r ∷ rest
  ]

  unfoldable pub pin : Bytes → Bytes → Tweak
  pin prov model lines doc =
      let entry = prov ++ (bytes "/" ++ model) in
      elim (field (root doc) (bytes "aliases")) [
        | none ↦ render 3 prov (flow quote (entry ∷ [])) >>= λ text.
            done (trimmed lines ++ bytes "aliases:" ∷ text ∷ [] ∷ [])
        | some (_, m) ↦
            let have = values (some m) prov in
            if contains have entry
            then done lines
            else splice lines m (bytes "the aliases section") prov (flow quote (have ++ entry ∷ []))
      ]
