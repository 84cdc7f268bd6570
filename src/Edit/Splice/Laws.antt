-- ===== src/Edit/Splice/Laws.antt =====
-- `splice`: the lines that an edit of an entry changes.
use mathlib.Core.List.{append_assoc, append-nil}
use omny.Base.{
  take-between-drop, length-between, length-take_of_le, subst, ltb→ge, ℕ, zero, suc, ◌+◌, ◌-◌, ◌≤◌,
  max, ◌≡◌, ◌≢◌, refl, sym, ap, ◌∙◌, ◌⊎◌, inl, inr, false, ◌||◌, List, [], ◌∷◌, ◌++◌, Option, none,
  some, arith, All, Bytes, bytes, ltb, length, length-take, take, drop, take-append-drop, get_elem?,
  get_elem?_of_lt, Bool-cases, Option-cases,
}
use omny.Edit.Last.{IsLast, tail-IsLast}
use omny.Edit.Node.{
  Nodes, nil, cons, node, content, edge_of, Node, is_flow, comment, line, column, tail, edge, field,
  IsPlaced,
}
use omny.Edit.Result.{Result, done, failed, panics}
use omny.Edit.Splice.Placed.{field-IsPlaced, edge-IsPlaced, as_suc}
use omny.Edit.Splice.{
  spaces, render, gap, align, note_of, index, insert_line, add_entry, replace_lines, set_entry,
  splice,
}

-- A line that has an entry in a column and, after blanks, a comment.
abbrev pub Spells : Bytes → ℕ → Bytes → Bytes → Bytes → Type 0
Spells text col name val note =
    (blanks : Bytes) × All (λ b. b ≡ 32) blanks
    × (text ≡ spaces (col - 1) ++ (name ++ (bytes ": " ++ (val ++ (blanks ++ note)))))

spaces-All : (n : ℕ) → All (λ b. b ≡ 32) (spaces n)
unfolding spaces
spaces-All zero = tt
spaces-All (suc n) = (refl, spaces-All n)

gap-All : (text : Bytes) (col : Option ℕ) → All (λ b. b ≡ 32) (gap text col)
unfolding gap
gap-All text none = (refl, (refl, tt))
gap-All text (some col) = elim (Bool-cases (ltb (length text) col)) [
  | inl e ↦ rw e (spaces-All (col - length text))
  | inr e ↦ rw e (refl, (refl, tt))
]

-- An aligned line is the rendered one with the comment after it.
align-Spells :
    (n : ℕ) (name val note : Bytes) (i : Option ℕ)
    → Spells (align (spaces n ++ (name ++ (bytes ": " ++ val))) note i) (suc n) name val note
unfolding align
align-Spells n name val [] i =
    let e : suc n - 1 ≡ n = omega arith in
    ([], tt, rw e (ap (λ x. spaces n ++ (name ++ (bytes ": " ++ x))) (sym (append-nil val))))
align-Spells n name val (x ∷ note) i =
    let e : suc n - 1 ≡ n = omega arith in
    let g = gap (spaces n ++ (name ++ (bytes ": " ++ val))) i in
    (
      g,
      gap-All _ i,
      rw e (
          append_assoc (spaces n) (name ++ (bytes ": " ++ val)) (g ++ x ∷ note)
          ∙ ap (λ y. spaces n ++ y)
              (append_assoc name (bytes ": " ++ val) (g ++ x ∷ note)
                ∙ ap (λ y. name ++ y) (append_assoc (bytes ": ") val (g ++ x ∷ note)))),
    )

-- What an edit of an entry makes of the lines: those from the key's line to the last one on which a
-- node of its value begins become one line with the entry and its comment, or the entry comes below the
-- last line on which a node of the mapping begins, in the column of the first key.
abbrev pub IsEntry : List Bytes → Node → Bytes → Bytes → List Bytes → Type 0
IsEntry lines m name val lines' =
    (before : List Bytes) × (middle : List Bytes) × (after : List Bytes) × (text : Bytes) × (lines
      ≡ before ++ (middle ++ after))
    × (lines' ≡ before ++ text ∷ after)
    × (((field (some m) name ≡ none)
          × (middle ≡ [])
          × IsLast m (length before)
          × ((key : Node) × (more : Nodes) × (content m ≡ cons key more)
              × Spells text (column key) name val []))
        ⊎ ((kn : Node) × (kv : Node) × (last : ℕ) × (field (some m) name ≡ some (kn, kv))
            × IsLast kv last
            × (suc (length before) ≡ line kn)
            × (length before + length middle ≡ max (line kn) last)
            × Spells text (column kn) name val (note_of (comment kn) (comment kv))))

-- The same by what `edge` and `tail` compute.
abbrev Edits : List Bytes → Node → Bytes → Bytes → List Bytes → Type 0
Edits lines m name val lines' =
    (before : List Bytes) × (middle : List Bytes) × (after : List Bytes) × (text : Bytes) × (lines
      ≡ before ++ (middle ++ after))
    × (lines' ≡ before ++ text ∷ after)
    × (((field (some m) name ≡ none)
          × (middle ≡ [])
          × (1 ≤ length before)
          × (length before ≡ (edge m).0)
          × Spells text (edge m).1 name val [])
        ⊎ ((kn : Node) × (kv : Node) × (field (some m) name ≡ some (kn, kv))
            × (suc (length before) ≡ line kn)
            × (length before + length middle ≡ max (line kn) (tail kv))
            × Spells text (column kn) name val (note_of (comment kn) (comment kv))))

-- A result that is no panic, and satisfies a predicate where there is one.
abbrev Gives : Result (List Bytes) → (List Bytes → Type 0) → Type 0
Gives (done a) P = P a
Gives (failed e) P = Unit
Gives panics P = ⊥

Gives-done :
    (r : Result (List Bytes)) (P : List Bytes → Type 0) (a : List Bytes)
    → Gives r P
    → r ≡ done a
    → P a
Gives-done (done b) P a h e = let f : b ≡ a = cc in rw (← f) h
Gives-done (failed x) P a h e = absurd (ground arith)
Gives-done panics P a h e = elim h [ ]

Gives-ne-panics : (r : Result (List Bytes)) (P : List Bytes → Type 0) → Gives r P → r ≢ panics
Gives-ne-panics (done b) P h e = ground arith
Gives-ne-panics (failed x) P h e = ground arith
Gives-ne-panics panics P h e = h

add_entry-Gives :
    (lines : List Bytes) (m : Node) (owner name val : Bytes)
    → IsPlaced m
    → field (some m) name ≡ none
    → Gives (add_entry lines m owner name val) (Edits lines m name val)
unfolding add_entry render insert_line
add_entry-Gives lines m owner name val h e =
    elim (Bool-cases (ltb (edge m).0 1 || ltb (length lines) (edge m).0)) [
      | inl f ↦ rw f tt
      | inr f ↦
          let last = (edge m).0 in
          let l : 1 ≤ last = ground arith in
          let (n, g) = as_suc (edge m).1 (edge-IsPlaced m h l) in
          let z : suc n - 1 ≡ n = omega arith in
          let text = spaces n ++ (name ++ (bytes ": " ++ val)) in
          let s : Spells text (edge m).1 name val [] = (
            [],
            tt,
            rw (g, z) (ap (λ x. spaces n ++ (name ++ (bytes ": " ++ x))) (sym (append-nil val))),
          ) in
          let at : length (take last lines) ≡ last = ground (arith, length-take last lines) in
          let one : 1 ≤ length (take last lines) = omega (arith, l, at) in
          rw (f, g)
            (
              take last lines,
              [],
              drop last lines,
              text,
              sym (take-append-drop last lines),
              refl,
              inl (e, refl, one, at, s),
            )
    ]

replace_lines_runs :
    (lines : List Bytes) (lo hi a : ℕ) (note text old : Bytes)
    → lo ≡ suc a
    → get_elem? lines a ≡ some old
    → replace_lines lines lo hi note text
      ≡ done (take a lines ++ align text note (index old note) ∷ drop hi lines)
unfolding replace_lines
replace_lines_runs lines lo hi a note text old i j = rw (i, j, replace_lines)

set_entry_runs :
    (lines : List Bytes) (kn kv : Node) (name val : Bytes) (n : ℕ)
    → ltb (length lines) (max (line kn) (tail kv)) ≡ false
    → column kn ≡ suc n
    → set_entry lines kn kv name val
      ≡ replace_lines lines
          (line kn)
          (max (line kn) (tail kv))
          (note_of (comment kn) (comment kv))
          (spaces n ++ (name ++ (bytes ": " ++ val)))
unfolding set_entry render
set_entry_runs lines kn kv name val n f g = rw (f, g, render)

set_entry-Gives :
    (lines : List Bytes) (m kn kv : Node) (name val : Bytes)
    → IsPlaced m
    → field (some m) name ≡ some (kn, kv)
    → Gives (set_entry lines kn kv name val) (Edits lines m name val)
unfolding set_entry render
set_entry-Gives lines m kn kv name val h e =
    let lo = line kn in
    let hi = max lo (tail kv) in
    elim (Bool-cases (ltb (length lines) hi)) [
      | inl f ↦ rw f tt
      | inr f ↦
          let p = field-IsPlaced m name kn kv h e in
          let (a, i) = as_suc lo p.0 in
          let (n, g) = as_suc (column kn) p.1 in
          let inside : hi ≤ length lines = ltb→ge (length lines) hi f in
          let le : suc a ≤ hi = omega (arith, i) in
          let (old, j) = get_elem?_of_lt lines a (omega (arith, le, inside)) in
          let note = note_of (comment kn) (comment kv) in
          let text = align (spaces n ++ (name ++ (bytes ": " ++ val))) note (index old note) in
          let s : Spells text (column kn) name val note =
            rw g (align-Spells n name val note (index old note)) in
          let one : suc (length (take a lines)) ≡ lo =
            omega (arith, i, length-take_of_le a lines (omega (arith, le, inside))) in
          let two = length-between a hi lines (omega (arith, le)) inside in
          let result : Edits lines m name val (take a lines ++ text ∷ drop hi lines) = (
            take a lines,
            take (hi - a) (drop a lines),
            drop hi lines,
            text,
            take-between-drop a hi lines (omega (arith, le)),
            refl,
            inr (kn, kv, e, one, two, s),
          ) in
          subst (λ x. Gives x (Edits lines m name val))
            (sym (
              set_entry_runs lines kn kv name val n f g
              ∙ replace_lines_runs lines lo hi a note _ old i j))
            result
    ]

splice-Gives :
    (lines : List Bytes) (m : Node) (owner name val : Bytes)
    → IsPlaced m
    → Gives (splice lines m owner name val) (Edits lines m name val)
unfolding splice
splice-Gives lines m owner name val h = elim (Bool-cases (is_flow m)) [
  | inl f ↦ rw f tt
  | inr f ↦ elim (Option-cases (field (some m) name)) [
    | inl e ↦ rw (f, e, splice) (add_entry-Gives lines m owner name val h e)
    | inr ((kn, kv), e) ↦ rw (f, e, splice) (set_entry-Gives lines m kn kv name val h e)
  ]
]

-- The edge of a mapping that has one.
edge-first :
    (m : Node)
    → 1 ≤ (edge m).0
    → (key : Node) × (more : Nodes) × (content m ≡ cons key more)
      × ((edge m).1 ≡ column key)
      × ((edge m).0 ≡ tail m)
unfolding edge edge_of
edge-first (node k f v c l o nil) h = absurd (omega (arith, h))
edge-first (node k f v c l o (cons key more)) h = (key, more, refl, refl, refl)

Edits-IsEntry :
    (lines : List Bytes) (m : Node) (name val : Bytes) (lines' : List Bytes)
    → Edits lines m name val lines'
    → IsEntry lines m name val lines'
Edits-IsEntry lines m name val lines'
      (before, middle, after, text, e, f, inl (g, nothing, one, at, s)) =
    let (key, more, c, col, last) = edge-first m (omega (arith, one, at)) in
    (
      before,
      middle,
      after,
      text,
      e,
      f,
      inl (
        g,
        nothing,
        subst (IsLast m) (sym (at ∙ last)) (tail-IsLast m),
        (key, more, c, subst (λ n. Spells text n name val []) col s),
      ),
    )
Edits-IsEntry lines m name val lines'
      (before, middle, after, text, e, f, inr (kn, kv, g, one, two, s)) =
    (before, middle, after, text, e, f, inr (kn, kv, tail kv, g, tail-IsLast kv, one, two, s))

-- In a tree whose nodes have lines and columns, an edit of an entry indexes no line that is not there
-- and repeats no blank a negative number of times. Where it succeeds it keeps every line but some: a
-- new entry comes right below the last line on which a node of the mapping begins, in the column of the
-- first key, and of one that is there the lines from its key's to the last one on which a node of its
-- value begins become a single line, in the column of its key, with the comment of the key's line or of
-- the value's behind it.
pub splice_lem :
    (lines : List Bytes) (m : Node) (owner name val : Bytes)
    → IsPlaced m
    → (splice lines m owner name val ≢ panics)
      × ((lines' : List Bytes)
          → splice lines m owner name val ≡ done lines'
          → IsEntry lines m name val lines')
splice_lem lines m owner name val h =
    let g = splice-Gives lines m owner name val h in
    (
      Gives-ne-panics _ (Edits lines m name val) g,
      λ lines' e.
          Edits-IsEntry lines m name val lines' (Gives-done _ (Edits lines m name val) lines' g e),
    )
