-- ===== src/Edit/Splice/Placed.antt =====
-- Lines and columns in a tree whose nodes are placed: those of a field, and of a mapping's end.
use omny.Base.{
  ℕ, zero, suc, ◌≤◌, ◌≡◌, refl, ap, inl, inr, some, arith, Bytes, Bool-cases, some_inj,
  none_ne_some, bytes_eq,
}
use omny.Edit.Node.{
  Node, Nodes, node, nil, cons, document, sequence, mapping, scalar, alias, line, column, edge,
  edge_of, field, field_in, value, IsPlaced, ArePlaced,
}

field_in-IsPlaced :
    (kids : Nodes) (name : Bytes) (kn kv : Node)
    → ArePlaced kids
    → field_in kids name ≡ some (kn, kv)
    → IsPlaced kn
unfolding field_in ArePlaced
field_in-IsPlaced nil name kn kv h e = absurd (none_ne_some e)
field_in-IsPlaced (cons k nil) name kn kv h e = absurd (none_ne_some e)
field_in-IsPlaced (cons k (cons v more)) name kn kv h e =
    elim (Bool-cases (bytes_eq (value k) name)) [
      | inl f ↦ let g : k ≡ kn = ap (λ x. x.0) (some_inj (rw f at e)) in rw (← g) h.0
      | inr f ↦ field_in-IsPlaced more name kn kv h.1.1 (rw f at e)
    ]

edge_column :
    (kids : Nodes) (last : ℕ)
    → ArePlaced kids
    → 1 ≤ (edge_of kids last).0
    → 1 ≤ (edge_of kids last).1
unfolding edge_of IsPlaced ArePlaced
edge_column nil last h l = absurd (omega arith)
edge_column (cons (node k f v c i o kids) more) last h l = h.0.1

at_line : (n : Node) → IsPlaced n → (1 ≤ line n) × (1 ≤ column n)
unfolding IsPlaced
at_line (node k f v c l o kids) h = (h.0, h.1)

pub field-IsPlaced :
    (m : Node) (name : Bytes) (kn kv : Node)
    → IsPlaced m
    → field (some m) name ≡ some (kn, kv)
    → (1 ≤ line kn) × (1 ≤ column kn)
unfolding field IsPlaced
field-IsPlaced (node mapping f v c l o kids) name kn kv h e =
    at_line kn (field_in-IsPlaced kids name kn kv h.2 e)
field-IsPlaced (node document f v c l o kids) name kn kv h e = absurd (none_ne_some e)
field-IsPlaced (node sequence f v c l o kids) name kn kv h e = absurd (none_ne_some e)
field-IsPlaced (node scalar f v c l o kids) name kn kv h e = absurd (none_ne_some e)
field-IsPlaced (node alias f v c l o kids) name kn kv h e = absurd (none_ne_some e)

pub edge-IsPlaced : (m : Node) → IsPlaced m → 1 ≤ (edge m).0 → 1 ≤ (edge m).1
unfolding edge IsPlaced
edge-IsPlaced (node k f v c l o kids) h e = edge_column kids _ h.2 e

pub as_suc : (n : ℕ) → 1 ≤ n → (k : ℕ) × (n ≡ suc k)
as_suc zero h = absurd (omega arith)
as_suc (suc k) h = (k, refl)
