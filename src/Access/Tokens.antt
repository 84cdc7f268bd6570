-- ===== src/Access/Tokens.antt =====
-- The guard: which token it takes a request to bear.
use mathlib.Core.List.{Memᴰ}
use omny.Base.{
  ◌≡◌, ◌≢◌, refl, ap, ◌⊎◌, inl, inr, true, List, [], ◌∷◌, ◌++◌, some, arith, Bytes, bytes, bytes_eq,
  bytes_eq_iff, ◌==◌, Bool-cases, Option-cases, some_inj, none_ne_some, subst,
}
use omny.Config.{Config}
use omny.Loader.{is_empty}
use omny.Loader.Accepted.{is_empty-false}
use omny.Access.{matches, search_tokens, who, cut_prefix, bearer, guard}

cut_prefix-some : (p s r : Bytes) → cut_prefix p s ≡ some r → s ≡ p ++ r
unfolding cut_prefix
cut_prefix-some [] s r e = some_inj e
cut_prefix-some (x ∷ xs) [] r e = absurd (ground arith)
cut_prefix-some (x ∷ xs) (y ∷ ys) r e = elim (Bool-cases (x == y)) [
  | inl f ↦ let h : y ≡ x = ground arith in rw h (ap (◌∷◌ x) (cut_prefix-some xs ys r (rw f at e)))
  | inr f ↦ absurd (none_ne_some (rw f at e))
]

cut_prefix-append : (p r : Bytes) → cut_prefix p (p ++ r) ≡ some r
unfolding cut_prefix
cut_prefix-append [] r = refl
cut_prefix-append (x ∷ xs) r = ground (arith, cut_prefix-append xs r)

matches-true : (tok t : Bytes) → matches tok t ≡ true → (tok ≡ t) × (tok ≢ [])
unfolding matches is_empty
matches-true tok [] h = absurd (ground arith)
matches-true tok (x ∷ xs) h = elim (Bool-cases (bytes_eq tok (x ∷ xs))) [
  | inl f ↦ let e = (bytes_eq_iff tok (x ∷ xs)).0 f in (e, rw e (λ g. ground arith))
  | inr f ↦ absurd (ground arith)
]

-- The search returns the name that it started with, or one whose token is the given one.
search_tokens_found :
    (tok : Bytes) (ts : List (Bytes × Bytes)) (name : Bytes)
    → (search_tokens tok ts name ≡ name) ⊎ ((tok ≢ []) × Memᴰ (search_tokens tok ts name, tok) ts)
unfolding search_tokens
search_tokens_found tok [] name = inl refl
search_tokens_found tok ((n, t) ∷ ts) name = elim (Bool-cases (matches tok t)) [
  | inl f ↦
      let (e, full) = matches-true tok t f in
      rw f (elim (search_tokens_found tok ts n) [
        | inl g ↦ inr (full, Memᴰ.head (rw (g, e) refl))
        | inr (h, m) ↦ inr (h, Memᴰ.tail m)
      ])
  | inr f ↦
      rw f (elim (search_tokens_found tok ts name) [
        | inl g ↦ inl g
        | inr (h, m) ↦ inr (h, Memᴰ.tail m)
      ])
]

who_lem :
    (c : Config) (tok : Bytes)
    → who c tok ≢ []
    → (tok ≢ []) × (((tok ≡ c.token) × (who c tok ≡ bytes "-")) ⊎ Memᴰ (who c tok, tok) c.tokens)
unfolding who
who_lem c tok h = elim (Bool-cases (matches tok c.token)) [
  | inl f ↦
      let (e, full) = matches-true tok c.token f in
      rw f (elim (search_tokens_found tok c.tokens (bytes "-")) [
        | inl g ↦ (full, inl (e, g))
        | inr (_, m) ↦ (full, inr m)
      ])
  | inr f ↦ elim (search_tokens_found tok c.tokens []) [
    | inl g ↦ absurd (h (rw f g))
    | inr (full, m) ↦ rw f (full, inr m)
  ]
]

-- A request that the guard lets in bears `Bearer ` and a token that is not empty: the shared one, for
-- the name `-`, or the one of the name that the handler gets. An empty bearer value never
-- authenticates.
pub guard_lem :
    (c : Config) (header name : Bytes)
    → guard c header ≡ some name
    → (tok : Bytes) × (header ≡ bearer ++ tok)
      × (tok ≢ [])
      × (name ≢ [])
      × (((tok ≡ c.token) × (name ≡ bytes "-")) ⊎ Memᴰ (name, tok) c.tokens)
unfolding guard
guard_lem c header name h = elim (Option-cases (cut_prefix bearer header)) [
  | inl e ↦ absurd (none_ne_some (rw (e, guard) at h))
  | inr (tok, e) ↦ elim (Bool-cases (is_empty (who c tok))) [
    | inl f ↦ absurd (none_ne_some (rw (e, f, guard) at h))
    | inr f ↦
        let named : who c tok ≡ name = some_inj (rw (e, f, guard) at h) in
        let (full, found) = who_lem c tok (is_empty-false (who c tok) f) in
        (
          tok,
          cut_prefix-some bearer header tok e,
          full,
          subst (λ n. n ≢ []) named (is_empty-false (who c tok) f),
          subst (λ n. ((tok ≡ c.token) × (n ≡ bytes "-")) ⊎ Memᴰ (n, tok) c.tokens) named found,
        )
  ]
]
