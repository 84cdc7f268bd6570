-- ===== src/Edit/Last.antt =====
-- internal/edit/splice.go, `tail`: the last line on which a node of a tree begins.
use omny.Base.{ltb, Bytes, Bool, ℕ, ◌≤◌, max, ◌≡◌, refl, sym, ◌∙◌, ◌⊎◌, inl, inr, arith, Bool-cases}
use omny.Edit.Node.{Kind, Node, node, Nodes, nil, cons, line, tail, tail_all}

pub data IsChild (c : Node) : Nodes → Type 0 where
  first : {more : Nodes} → IsChild c (cons c more)
  next : {n : Node} {more : Nodes} → IsChild c more → IsChild c (cons n more)

-- A node of the tree under a node, which is one of them.
pub data IsWithin (x : Node) : Node → Type 0 where
  here : IsWithin x x
  below :
      {k : Kind} {f : Bool} {v c : Bytes} {l o : ℕ} {kids : Nodes} {n : Node}
      → IsChild n kids
      → IsWithin x n
      → IsWithin x (node k f v c l o kids)

-- No node of the tree begins on a later line, and one begins there.
pub record IsLast (n : Node) (last : ℕ) : Type 0 where
  pub none_later : (x : Node) → IsWithin x n → line x ≤ last
  pub begins : Node
  pub within : IsWithin begins n
  pub at : line begins ≡ last

tail_all-ge : (last : ℕ) (kids : Nodes) → last ≤ tail_all last kids
unfolding tail_all
tail_all-ge last nil = omega arith
tail_all-ge last (cons n more) = omega (arith, tail_all-ge (max last (tail n)) more)

line-tail : (n : Node) → line n ≤ tail n
unfolding tail
line-tail (node k f v c l o kids) = tail_all-ge l kids

tail_all-child :
    {c : Node} {kids : Nodes} → IsChild c kids → (last : ℕ) → tail c ≤ tail_all last kids
unfolding tail_all
tail_all-child {c = c} (first {more}) last = omega (arith, tail_all-ge (max last (tail c)) more)
tail_all-child (next {n} {more} h) last = tail_all-child h (max last (tail n))

tail-ge : {x n : Node} → IsWithin x n → line x ≤ tail n
unfolding tail
tail-ge {x = x} here = line-tail x
tail-ge (below {l = l} h w) = omega (arith, tail-ge w, tail_all-child h l)

max-cases : (m n : ℕ) → (max m n ≡ m) ⊎ (max m n ≡ n)
max-cases m n = elim (Bool-cases (ltb m n)) [
  | inl e ↦ inr (ground (arith, e))
  | inr e ↦ inl (ground (arith, e))
]

mutual
  unfolding tail tail_all

  tail-begins : (n : Node) → (x : Node) × IsWithin x n × (line x ≡ tail n)
  tail-begins (node k f v c l o kids) = elim (tail_all-begins l kids) [
    | inl e ↦ (node k f v c l o kids, here, sym e)
    | inr (x, n, h, w, e) ↦ (x, below h w, e)
  ]

  tail_all-begins :
      (last : ℕ) (kids : Nodes)
      → (tail_all last kids ≡ last)
        ⊎ ((x : Node) × (n : Node) × IsChild n kids × IsWithin x n × (line x ≡ tail_all last kids))
  tail_all-begins last nil = inl refl
  tail_all-begins last (cons n more) = elim (tail_all-begins (max last (tail n)) more) [
    | inr (x, m, h, w, e) ↦ inr (x, m, next h, w, e)
    | inl e ↦ elim (max-cases last (tail n)) [
      | inl f ↦ inl (e ∙ f)
      | inr f ↦ let (x, w, g) = tail-begins n in inr (x, n, first, w, g ∙ sym (e ∙ f))
    ]
  ]

pub tail-IsLast : (n : Node) → IsLast n (tail n)
tail-IsLast n =
    let (x, w, e) = tail-begins n in
    record { none_later = λ x w. tail-ge w; begins = x; within = w; at = e }
