-- ===== src/Examples/Editing.antt =====
-- The theorems on edits of the configuration file, the server's life and its pages, at inputs that meet
-- their conditions.
use mathlib.Core.List.{Memᴰ}
use omny.Base.{
  lookup, ℕ, sym, subst, ap, All, ◌≡◌, ◌≢◌, refl, ◌+◌, true, false, [], ◌∷◌, some, none, arith,
  bytes, bytes_eq, Bytes, List, Option,
}
use omny.Config.{Config, slots}
use omny.Key.{no_spend, add}
use omny.Pool.{roll}
use omny.Edit.Node.{
  Node, node, cons, nil, document, mapping, scalar, IsPlaced, field, field_in, tail, tail_all,
  ArePlaced,
}
use omny.Edit.Result.{panics, done}
use omny.Edit.Splice
use omny.Edit.Splice.{splice, add_entry, render, spaces, insert_line}
use omny.Edit.Splice.Laws.{IsEntry, splice_lem}
use omny.Edit.Tweaks.{bare}
use omny.Edit.Amend.{amend, join_lines}
use omny.Edit.Amend.Safety.{IsSafe, amend-IsSafe}
use omny.Edit.Commands
use omny.Edit.Commands.{Flags, drop_key}
use omny.Edit.Commands.Dropping.{Dropped, drop_key-Dropped}
use omny.Edit.Commands.Positions.{LeavesEnd, IsParsed, parse-IsParsed}
use omny.State.{Files}
use omny.Loader
use omny.Loader.{load}
use omny.Report.{bill, entries}
use omny.Report.Totals.{Agree, bill-Agree}
use omny.Serve.Editing.{edit-reloads}
use omny.Serve.{reload, new_server, models}
use omny.Serve.Models.{IsAscending, listed, named, models_lem}
use omny.Probe
use omny.Probe.{asked, Ping, Dialed, responded, Shot, fine, shallow, collect}
use omny.Probe.Shots.{AreDistinct, probe_lem}
use omny.Probe.Asked.{first_model, targets}
use omny.Examples.Gateway.{groq, fp, config, noon}
use omny.Examples.Witnesses.{cooling}
use omny.Examples.Serving.{host_of, parts_of, is_blank, unproblematic, calls}

-- A file with one provider, and its tree.
abbrev lines : List Bytes
lines = bytes "providers:" ∷ bytes "  groq:" ∷ bytes "    url: u" ∷ []

abbrev groq_node : Node
groq_node = node mapping false [] [] 3 5 (
    cons (node scalar false (bytes "url") [] 3 5 nil)
      (cons (node scalar false (bytes "u") [] 3 10 nil) nil))

abbrev doc : Node
doc = node document false [] [] 1 1 (
    cons
      (node mapping false [] [] 1 1 (
        cons (node scalar false (bytes "providers") [] 1 1 nil) (
          cons
            (node mapping false [] [] 2 3
              (cons (node scalar false (bytes "groq") [] 2 3 nil) (cons groq_node nil)))
            nil)))
      nil)

placed : IsPlaced groq_node
unfolding IsPlaced ArePlaced
placed = (
  omega arith,
  omega arith,
  ((omega arith, omega arith, tt), ((omega arith, omega arith, tt), tt)),
)

splice_lem_example :
    (splice lines groq_node (bytes "groq") (bytes "url") (bytes "v") ≢ panics)
    × ((lines' : List Bytes)
        → splice lines groq_node (bytes "groq") (bytes "url") (bytes "v") ≡ done lines'
        → IsEntry lines groq_node (bytes "url") (bytes "v") lines')
splice_lem_example = splice_lem lines groq_node (bytes "groq") (bytes "url") (bytes "v") placed

-- The edit of the example succeeds.
url_moved :
    splice lines groq_node (bytes "groq") (bytes "url") (bytes "v")
    ≡ done (bytes "providers:" ∷ bytes "  groq:" ∷ bytes "    url: v" ∷ [])
unfolding splice field field_in bytes_eq Splice.set_entry Splice.replace_lines Splice.render
    Splice.spaces Splice.align Splice.note_of Splice.index tail tail_all
url_moved = refl

abbrev itself : Bytes → Bytes
itself b = b

abbrev on_disk : Files
on_disk path = some (join_lines lines)

amend-IsSafe_example :
    IsSafe
      (λ _. some doc)
      (λ _. some config)
      (bytes "omny.yaml")
      on_disk
      (amend
        (λ _. some doc)
        (λ _. some config)
        calls
        (bytes "omny.yaml")
        (bytes "groq")
        (bare itself is_blank (bytes "groq") ∷ [])
        on_disk)
amend-IsSafe_example =
    amend-IsSafe (λ _. some doc) (λ _. some config) calls (bytes "omny.yaml") (bytes "groq")
      (bare itself is_blank (bytes "groq") ∷ []) on_disk

drop_key-Dropped_example :
    Dropped fp
      (bytes "g1")
      (bytes "g1" ∷ bytes "g2" ∷ [])
      (drop_key fp (bytes "g1" ∷ bytes "g2" ∷ []) (bytes "g1"))
drop_key-Dropped_example = drop_key-Dropped fp (bytes "g1") (bytes "g1" ∷ bytes "g2" ∷ [])

-- A parse of flags that knows no flag.
-- A file that does not load is the empty one.
abbrev read_config : Bytes → Option Config
read_config [] = none
read_config (_ ∷ _) = some config

file_loads : load host_of parts_of is_blank read_config (bytes "f") ≡ some config
unfolding load Loader.is_empty
file_loads = rw unproblematic refl

file_kept : load host_of parts_of is_blank read_config (join_lines lines) ≡ some config
unfolding load Loader.is_empty Splice.join
file_kept = rw unproblematic refl

edit-reloads_example :
    All
      (λ f.
        (b : Bytes) × (f (bytes "omny.yaml") ≡ some b)
        × ((reload fp host_of parts_of is_blank read_config b (new_server fp noon config)).1
            ≡ true))
      (amend
        (λ _. some doc)
        (load host_of parts_of is_blank read_config)
        calls
        (bytes "omny.yaml")
        (bytes "groq")
        (bare itself is_blank (bytes "groq") ∷ [])
        on_disk).0
edit-reloads_example =
    edit-reloads fp host_of parts_of is_blank read_config (λ _. some doc) calls (bytes "omny.yaml")
      (bytes "groq") (bare itself is_blank (bytes "groq") ∷ []) on_disk (join_lines lines) config
      (new_server fp noon config) refl file_kept

abbrev no_flags : Flags → List Bytes → Option (Flags × List Bytes)
no_flags f args = some (f, args)

no_flags-LeavesEnd : LeavesEnd no_flags
no_flags-LeavesEnd f f' args rest e = let g : args ≡ rest = cc in ([], g)

parse-IsParsed_example :
    IsParsed no_flags
      (record { url = []; model = []; keyless = false })
      (bytes "groq" ∷ bytes "k" ∷ [])
      []
      (Commands.parse no_flags (bytes "groq" ∷ bytes "k" ∷ []))
parse-IsParsed_example = parse-IsParsed no_flags no_flags-LeavesEnd (bytes "groq" ∷ bytes "k" ∷ [])

bill-Agree_example :
    let q = roll noon cooling in
    let es = entries q.cells q.keys in
    let b = (bill noon cooling).1 in
    Agree (λ a b. a + b) 0 (λ r. r.reqs) (λ k. k.reqs) es b
    × Agree (λ a b. a + b) 0 (λ r. r.errs) (λ k. k.errs) es b
    × Agree (λ a b. a + b) 0 (λ r. r.blind) (λ k. k.blind) es b
    × Agree add no_spend (λ r. r.today) (λ k. k.toks) es b
    × Agree add no_spend (λ r. r.total) (λ k. k.life) es b
bill-Agree_example = bill-Agree noon cooling

models_lem_example :
    IsAscending (models config.aliases)
    × ((z : Bytes) → listed z (models config.aliases) ≡ named z config.aliases)
models_lem_example = models_lem config.aliases

-- A probe of two keys, whose second one ends first.
abbrev probed : Config
probed = record config { providers = (bytes "groq", groq) ∷ [] }

abbrev answers : ℕ → Ping → Dialed
answers wait req = responded 200

abbrev both : List (Bytes × Shot)
both = (bytes "g1", fine 200) ∷ (bytes "g2", fine 200) ∷ []

abbrev later_first : List (Bytes × Shot)
later_first = (bytes "g2", fine 200) ∷ (bytes "g1", fine 200) ∷ []

jobs-both : Probe.jobs itself itself answers fp 5 (asked probed) shallow probed.providers ≡ both
unfolding Probe.jobs Probe.slot_jobs slots Probe.shoot Probe.ping Probe.said
jobs-both = refl

turn : {a b : Bytes × Shot} (j : Bytes × Shot) → Memᴰ j (a ∷ b ∷ []) → Memᴰ j (b ∷ a ∷ [])
turn j (Memᴰ.head e) = Memᴰ.tail (Memᴰ.head e)
turn j (Memᴰ.tail (Memᴰ.head e)) = Memᴰ.head e
turn j (Memᴰ.tail (Memᴰ.tail m)) = elim m [ ]

other_key : (t : Shot) → Memᴰ {A = Bytes × Shot} (bytes "g1", t) ((bytes "g2", fine 200) ∷ []) → ⊥
other_key t (Memᴰ.head e) = let f : bytes "g1" ≡ bytes "g2" = ap (λ x. x.0) e in ground arith
other_key t (Memᴰ.tail m) = elim m [ ]

both-AreDistinct : AreDistinct both
both-AreDistinct = (other_key, ((λ t m. elim m [ ]), tt))

probe_lem_example :
    lookup (bytes "g1") (collect later_first [])
    ≡ some (
        Probe.shoot itself itself answers 5 groq
          (first_model (bytes "groq") (targets probed probed.aliases))
          shallow
          (bytes "g1"))
unfolding slots
probe_lem_example =
    probe_lem itself itself answers fp 5 probed shallow later_first (bytes "groq") groq
      (record { id = bytes "g1"; val = bytes "g1" })
      (subst AreDistinct (sym jobs-both) both-AreDistinct)
      (λ j m. subst (Memᴰ j) (sym jobs-both) (turn j m))
      (λ j m. turn j (subst (Memᴰ j) jobs-both m)) (Memᴰ.head refl) (Memᴰ.head refl)
