-- ===== src/Relay/Headers.antt =====
-- internal/omny/relay.go, `head`: the headers of the upstream that the client gets.
use omny.Base.{
  subst, sym, ◌∙◌, ℕ, ◌+◌, ◌≡◌, ◌≢◌, refl, inl, inr, Bool, true, false, ◌&&◌, List, [], ◌∷◌, Option,
  none, some, arith, Bytes, bytes, bytes_eq, bytes_eq_iff, bytes_eq_refl, ap, has_prefix, lookup,
  insert, lookup-insert, leb, if◌then◌else◌, map, Bool-cases,
}

-- `http.Header`, with canonical names.
abbrev pub Headers : Type 0
Headers = List (Bytes × List Bytes)

-- `strings.ToLower` of a header's name, which is ASCII.
unfoldable pub lower : ℕ → ℕ
lower c = if leb 65 c && leb c 90 then c + 32 else c

unfoldable pub to_lower : Bytes → Bytes
to_lower = map lower

abbrev pub content_type : Bytes
content_type = bytes "Content-Type"

-- `src.Get("Content-Type")`.
unfoldable pub first_value : Option (List Bytes) → Bytes
first_value none = []
first_value (some []) = []
first_value (some (v ∷ vs)) = v

unfoldable pub is_limit : Bytes → Bool
is_limit h = has_prefix (bytes "x-ratelimit-") (to_lower h)

-- The loop over the headers of the upstream.
unfoldable pub copy_limits : Headers → Headers → Headers
copy_limits dst [] = dst
copy_limits dst ((h, v) ∷ src) = copy_limits (if is_limit h then insert h v dst else dst) src

unfoldable pub set_type : Bytes → Headers → Headers
set_type [] dst = dst
set_type (x ∷ ct) dst = insert content_type ((x ∷ ct) ∷ []) dst

unfoldable pub head : Headers → Headers → Headers
head dst src = copy_limits (set_type (first_value (lookup content_type src)) dst) src

-- A write under another name.
insert_other :
    (k h : Bytes) (v : List Bytes) (dst : Headers)
    → bytes_eq k h ≡ false
    → lookup h (insert k v dst) ≡ lookup h dst
insert_other k h v dst e = rw (lookup-insert k h v dst, e) refl

copied :
    (src dst : Headers) (h : Bytes)
    → is_limit h ≡ false
    → lookup h (copy_limits dst src) ≡ lookup h dst
unfolding copy_limits
copied [] dst h l = refl
copied ((k, v) ∷ src) dst h l = elim (Bool-cases (is_limit k)) [
  | inr e ↦ rw e (copied src dst h l)
  | inl e ↦ elim (Bool-cases (bytes_eq k h)) [
    | inr f ↦ rw e (copied src (insert k v dst) h l ∙ insert_other k h v dst f)
    | inl f ↦
        let g : is_limit h ≡ true = subst (λ x. is_limit x ≡ true) ((bytes_eq_iff k h).0 f) e in
        absurd (ground arith)
  ]
]

typed :
    (ct : Bytes) (dst : Headers) (h : Bytes)
    → h ≢ content_type
    → lookup h (set_type ct dst) ≡ lookup h dst
unfolding set_type
typed [] dst h n = refl
typed (x ∷ ct) dst h n = elim (Bool-cases (bytes_eq content_type h)) [
  | inr e ↦ insert_other content_type h _ dst e
  | inl e ↦ absurd (n (sym ((bytes_eq_iff content_type h).0 e)))
]

-- Each name stands once, as in a map.
abbrev pub IsHeader : Headers → Type 0
IsHeader [] = Unit {0}
IsHeader ((h, v) ∷ src) = (lookup h src ≡ none) × IsHeader src

-- The first of two values that is there.
abbrev pub either_of : Option (List Bytes) → Option (List Bytes) → Option (List Bytes)
either_of (some v) w = some v
either_of none w = w

-- A write under the name.
insert_same :
    (k h : Bytes) (v : List Bytes) (dst : Headers)
    → bytes_eq k h ≡ true
    → lookup h (insert k v dst) ≡ some v
insert_same k h v dst e = rw (lookup-insert k h v dst, e) refl

lookup_skip :
    (k h : Bytes) (v : List Bytes) (src : Headers)
    → bytes_eq k h ≡ false
    → lookup h ((k, v) ∷ src) ≡ lookup h src
unfolding lookup
lookup_skip k h v src e = rw e refl

unless_limit :
    (k h : Bytes) (v : List Bytes) (dst : Headers) (b : Bool)
    → bytes_eq k h ≡ false
    → lookup h (if b then insert k v dst else dst) ≡ lookup h dst
unless_limit k h v dst true e = insert_other k h v dst e
unless_limit k h v dst false e = refl

limits_copied :
    (src dst : Headers) (h : Bytes)
    → IsHeader src
    → is_limit h ≡ true
    → lookup h (copy_limits dst src) ≡ either_of (lookup h src) (lookup h dst)
unfolding copy_limits lookup
limits_copied [] dst h d l = refl
limits_copied ((k, v) ∷ src) dst h d l = elim (Bool-cases (bytes_eq k h)) [
  | inl e ↦
      let same : k ≡ h = (bytes_eq_iff k h).0 e in
      let f : is_limit k ≡ true = subst (λ x. is_limit x ≡ true) (sym same) l in
      let g : lookup h src ≡ none = subst (λ x. lookup x src ≡ none) same d.0 in
      rw (e, f)
        (limits_copied src (insert k v dst) h d.1 l
          ∙ ap (λ o. either_of o (lookup h (insert k v dst))) g
          ∙ insert_same k h v dst e)
  | inr e ↦ rw e (
      limits_copied src _ h d.1 l
      ∙ ap (either_of (lookup h src)) (unless_limit k h v dst (is_limit k) e))
]

-- The content type that is set.
abbrev pub typed_as : Bytes → Option (List Bytes) → Option (List Bytes)
typed_as [] o = o
typed_as (x ∷ ct) o = some ((x ∷ ct) ∷ [])

type_set :
    (ct : Bytes) (dst : Headers)
    → lookup content_type (set_type ct dst) ≡ typed_as ct (lookup content_type dst)
unfolding set_type
type_set [] dst = refl
type_set (x ∷ ct) dst = insert_same content_type content_type _ dst (bytes_eq_refl content_type)

limit_ne_type : (h : Bytes) → is_limit h ≡ true → h ≢ content_type
unfolding is_limit has_prefix to_lower lower
limit_ne_type h l e =
    let f : is_limit content_type ≡ true = subst (λ x. is_limit x ≡ true) e l in ground arith

-- The client gets the upstream's rate limits as they are, and its first content type where that is not
-- empty. Under every other name, and where the upstream has none of them, it has what it had before.
pub head_lem :
    (dst src : Headers)
    → IsHeader src
    → ((h : Bytes)
        → is_limit h ≡ true
        → lookup h (head dst src) ≡ either_of (lookup h src) (lookup h dst))
      × (lookup content_type (head dst src)
          ≡ typed_as (first_value (lookup content_type src)) (lookup content_type dst))
      × ((h : Bytes)
          → is_limit h ≡ false
          → h ≢ content_type
          → lookup h (head dst src) ≡ lookup h dst)
unfolding head is_limit has_prefix to_lower lower
head_lem dst src d = (
  λ h l.
      limits_copied src (set_type _ dst) h d l
      ∙ ap (either_of (lookup h src)) (typed _ dst h (limit_ne_type h l)),
  copied src (set_type _ dst) content_type refl ∙ type_set _ dst,
  λ h l n. copied src (set_type _ dst) h l ∙ typed _ dst h n,
)
