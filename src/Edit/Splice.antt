-- ===== src/Edit/Splice.antt =====
-- internal/edit/splice.go: `render`, `flow`, `align` and `splice`, on the lines of the file.
pub mod Placed
pub mod Laws
use omny.Base.{
  has_prefix, ℕ, zero, suc, ◌+◌, ◌-◌, max, Bool, true, false, ◌||◌, List, [], ◌∷◌, ◌++◌, Option,
  none, some, map, Bytes, bytes, ◌==◌, ltb, if◌then◌else◌, length, take, drop, get_elem?,
}
use omny.Edit.Node.{Node, is_flow, comment, line, column, tail, edge, field}
use omny.Edit.Result.{
  Failure, one_line, cannot_locate, outside_file, Result, done, failed, panics, ◌>>=◌,
}

-- `strings.Repeat(" ", n)`.
unfoldable pub spaces : ℕ → Bytes
spaces zero = []
spaces (suc n) = 32 ∷ spaces n

-- `strings.Repeat` panics at a negative count, so column 0 does.
unfoldable pub render : ℕ → Bytes → Bytes → Result Bytes
render zero name val = panics
render (suc n) name val = done (spaces n ++ (name ++ (bytes ": " ++ val)))

-- `strings.Join`.
unfoldable pub join : Bytes → List Bytes → Bytes
join sep [] = []
join sep (p ∷ []) = p
join sep (p ∷ q ∷ ps) = p ++ (sep ++ join sep (q ∷ ps))

-- `flow`, with `strconv.Quote` as an argument.
unfoldable pub flow : (Bytes → Bytes) → List Bytes → Bytes
flow quote vals = bytes "[" ++ (join (bytes ", ") (map quote vals) ++ bytes "]")

-- `strings.Index`: none for -1.
unfoldable pub index : Bytes → Bytes → Option ℕ
index [] p = if has_prefix p [] then some 0 else none
index (x ∷ s) p =
    if has_prefix p (x ∷ s)
    then some 0
    else elim (index s p) [ none ↦ none | some i ↦ some (suc i) ]

-- The text between the line and its comment.
unfoldable pub gap : Bytes → Option ℕ → Bytes
gap text none = bytes "  "
gap text (some col) = if ltb (length text) col then spaces (col - length text) else bytes "  "

unfoldable pub align : Bytes → Bytes → Option ℕ → Bytes
align text [] col = text
align text (x ∷ note) col = text ++ (gap text col ++ x ∷ note)

-- The comment of an entry: that of its key's line, or else that of its value's.
unfoldable pub note_of : Bytes → Bytes → Bytes
note_of [] other = other
note_of (x ∷ note) other = x ∷ note

-- `slices.Insert(lines, i, text)`, for an index in range.
unfoldable pub insert_line : List Bytes → ℕ → Bytes → List Bytes
insert_line lines i text = take i lines ++ text ∷ drop i lines

-- A new entry, below the last line of the mapping.
unfoldable pub add_entry : List Bytes → Node → Bytes → Bytes → Bytes → Result (List Bytes)
add_entry lines m owner name val =
    let (last, col) = edge m in
    if ltb last 1 || ltb (length lines) last
    then failed (cannot_locate owner)
    else (render col name val >>= λ text. done (insert_line lines last text))

-- `slices.Concat(lines[:lo-1], []string{…}, lines[hi:])`, after `lines[lo-1]` is searched for the
-- comment.
unfoldable pub replace_lines : List Bytes → ℕ → ℕ → Bytes → Bytes → Result (List Bytes)
replace_lines lines zero hi note text = panics
replace_lines lines (suc before) hi note text = elim (get_elem? lines before) [
  | none ↦ panics
  | some old ↦ done (take before lines ++ align text note (index old note) ∷ drop hi lines)
]

-- The lines of an entry that is there, replaced.
unfoldable pub set_entry : List Bytes → Node → Node → Bytes → Bytes → Result (List Bytes)
set_entry lines kn kv name val =
    let lo = line kn in
    let hi = max lo (tail kv) in
    if ltb (length lines) hi
    then failed (outside_file name lo)
    else (render (column kn) name val
        >>= replace_lines lines lo hi (note_of (comment kn) (comment kv)))

unfoldable pub splice : List Bytes → Node → Bytes → Bytes → Bytes → Result (List Bytes)
splice lines m owner name val =
    if is_flow m then failed (one_line owner) else elim (field (some m) name) [
      | none ↦ add_entry lines m owner name val
      | some (kn, kv) ↦ set_entry lines kn kv name val
    ]
