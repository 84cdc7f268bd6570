-- ===== src/Edit/Node.antt =====
-- internal/edit/splice.go: the reads of a parsed file, `field`, `values`, `tail`, `edge`, `root` and
-- `provider`. A node has what the source reads of a yaml.Node; lines and columns count from 1.
use omny.Base.{
  ℕ, ◌≤◌, max, Bool, List, [], ◌∷◌, Option, none, some, Bytes, bytes, bytes_eq, if◌then◌else◌,
  ◌>>=◌,
}

pub data Kind : Type 0 where
  document sequence mapping scalar alias : Kind

mutual
  -- kind, whether it is in flow style, value, comment on its line, line, column, content
  pub data Node : Type 0 where
    node : Kind → Bool → Bytes → Bytes → ℕ → ℕ → Nodes → Node

  pub data Nodes : Type 0 where
    nil : Nodes
    cons : Node → Nodes → Nodes

abbrev pub is_flow : Node → Bool
is_flow (node k f v c l o kids) = f

abbrev pub value : Node → Bytes
value (node k f v c l o kids) = v

abbrev pub comment : Node → Bytes
comment (node k f v c l o kids) = c

abbrev pub line : Node → ℕ
line (node k f v c l o kids) = l

abbrev pub column : Node → ℕ
column (node k f v c l o kids) = o

abbrev pub content : Node → Nodes
content (node k f v c l o kids) = kids

unfoldable mutual
  pub tail : Node → ℕ
  tail (node k f v c l o kids) = tail_all l kids

  -- The loop of `tail` over the content.
  pub tail_all : ℕ → Nodes → ℕ
  tail_all last nil = last
  tail_all last (cons n more) = tail_all (max last (tail n)) more

-- `edge`, of a node that is not nil.
unfoldable pub edge_of : Nodes → ℕ → ℕ × ℕ
edge_of nil last = (0, 0)
edge_of (cons first more) last = (last, column first)

unfoldable pub edge : Node → ℕ × ℕ
edge m = edge_of (content m) (tail m)

unfoldable pub root : Node → Option Node
root (node k f v c l o nil) = none
root (node k f v c l o (cons first more)) = some first

-- The loop of `field` over the pairs of a mapping: the key's node and the value's.
unfoldable pub field_in : Nodes → Bytes → Option (Node × Node)
field_in nil name = none
field_in (cons k nil) name = none
field_in (cons k (cons v more)) name =
    if bytes_eq (value k) name then some (k, v) else field_in more name

unfoldable pub field : Option Node → Bytes → Option (Node × Node)
field none name = none
field (some (node mapping f v c l o kids)) name = field_in kids name
field (some (node _ f v c l o kids)) name = none

-- The second result of `field`.
unfoldable pub under : Option Node → Bytes → Option Node
under m name = field m name >>= λ f. some f.1

unfoldable pub provider : Node → Bytes → Option Node
provider doc name = under (under (root doc) (bytes "providers")) name

unfoldable pub texts : Nodes → List Bytes
texts nil = []
texts (cons n more) = value n ∷ texts more

-- `values`: nil and the empty list are alike to the callers.
unfoldable pub values : Option Node → Bytes → List Bytes
values m name = elim (under m name) [ none ↦ [] | some v ↦ texts (content v) ]

-- Every node of the tree stands on a line and in a column.
unfoldable mutual
  pub IsPlaced : Node → Type 0
  IsPlaced (node k f v c l o kids) = (1 ≤ l) × (1 ≤ o) × ArePlaced kids

  pub ArePlaced : Nodes → Type 0
  ArePlaced nil = Unit
  ArePlaced (cons n more) = IsPlaced n × ArePlaced more
