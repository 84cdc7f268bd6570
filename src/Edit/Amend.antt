-- ===== src/Edit/Amend.antt =====
-- internal/edit/splice.go, `amend`: the tweaks one after another, each on a fresh parse, and the
-- replacement of the file by what the server's loader accepts. The YAML parser is an argument.
pub mod Lines
pub mod Safety
use omny.Base.{
  ℕ, Bool, true, false, not, List, [], ◌∷◌, ◌++◌, Option, none, some, Bytes, bytes, ◌==◌, lookup,
  if◌then◌else◌, length,
}
use omny.Config.{Provider, Config}
use omny.Loader.{is_none}
use omny.State.{Files, Calls, replace}
use omny.Edit.Node.{Node}
use omny.Edit.Result.{
  Failure, unreadable, unparsable, not_replaced, Result, done, failed, panics, ◌>>=◌,
}
use omny.Edit.Splice.{join}
use omny.Edit.Tweaks.{Tweak}

abbrev pub newline : ℕ
newline = 10

-- The rest of a line before the lines that follow.
unfoldable pub prefix_line : ℕ → List Bytes → List Bytes
prefix_line c [] = (c ∷ []) ∷ []
prefix_line c (l ∷ ls) = (c ∷ l) ∷ ls

-- `strings.Split(s, "\n")`.
unfoldable pub split : Bytes → List Bytes
split [] = [] ∷ []
split (c ∷ s) = if c == newline then [] ∷ split s else prefix_line c (split s)

-- `strings.Join(lines, "\n")`.
abbrev pub join_lines : List Bytes → Bytes
join_lines = join (newline ∷ [])

-- What is printed of a provider after an edit: that it is keyless, or how many keys it has.
pub data Armed : Type 0 where
  keyless : Armed
  with_keys : ℕ → Armed

unfoldable pub armed : Provider → Armed
armed p = if p.keyless then keyless else with_keys (length p.keys)

-- `fresh.Providers[prov]`, of a configuration that was loaded; a missing one is a nil pointer.
unfoldable pub report : Bytes → Option Config → Result (Armed × Config)
report prov none = panics
report prov (some c) = elim (lookup prov c.providers) [ none ↦ panics | some p ↦ done (armed p, c) ]

module _ (parse : Bytes → Option Node) (load : Bytes → Option Config) where
  -- The loop over the tweaks.
  unfoldable pub rewrite : List Tweak → Bytes → Result Bytes
  rewrite [] src = done src
  rewrite (t ∷ ts) src = elim (parse src) [
    | none ↦ failed unparsable
    | some doc ↦ t (split src) doc >>= λ lines. rewrite ts (join_lines lines)
  ]

  -- The vet that `amend` gives to `Replace`: the loader accepts the temporary file.
  unfoldable pub loads : Files → Bytes → Bool
  loads fs tmp = elim (fs tmp) [ none ↦ false | some b ↦ not (is_none (load b)) ]

  -- After the tweaks.
  unfoldable pub commit :
      Calls → Bytes → Bytes → Files → Result Bytes → List Files × Result (Armed × Config)
  commit calls path prov fs (failed e) = ([], failed e)
  commit calls path prov fs panics = ([], panics)
  commit calls path prov fs (done b) =
      let (states, ok) = replace calls (some loads) path b fs in
      (states, if ok then report prov (load b) else failed not_replaced)

  -- `amend`: the files after each call that writes, and the result.
  unfoldable pub amend :
      Calls → Bytes → Bytes → List Tweak → Files → List Files × Result (Armed × Config)
  amend calls path prov tweaks fs = elim (fs path) [
    | none ↦ ([], failed unreadable)
    | some src ↦ commit calls path prov fs (rewrite tweaks src)
  ]
