-- ===== src/Loader/Accepted.antt =====
-- `check`: what an accepted configuration has.
use omny.Base.{
  subst, some_inj, none_ne_some, ℕ, suc, ◌≡◌, ◌≢◌, refl, ◌⊎◌, inl, inr, Bool, true, false, ◌&&◌,
  ◌||◌, not, List, [], ◌∷◌, ◌++◌, Option, none, some, arith, All, All-map, Bytes, lookup,
  Bool-cases, Option-cases,
}
use omny.Config.{Provider, Config}
use omny.Route.{cut, route}
use omny.Route.Laws.{IsRoutable, HasPlace, route-HasPlace}
use omny.Loader.{
  load, Problem, when, is_empty, is_none, negative, token_problems, is_http, number_problems,
  any_armed, entry_problems, entries_problems, alias_problems, default_problems, fallback_problems,
  key_problems, url_problems, provider_problems, check,
}

cons_not_nil : {x : Problem} {xs : List Problem} → x ∷ xs ≢ []
cons_not_nil e = ground arith

append-nil→ : (xs ys : List Problem) → xs ++ ys ≡ [] → (xs ≡ []) × (ys ≡ [])
append-nil→ [] ys e = (refl, e)
append-nil→ (x ∷ xs) ys e = absurd (ground arith)

when_silent : (b : Bool) (x : Problem) → when b x ≡ [] → b ≡ false
unfolding when
when_silent true x e = absurd (ground arith)
when_silent false x e = refl

is_empty-true {ℓ} : {A : Type ℓ} (xs : List A) → is_empty xs ≡ true → xs ≡ []
unfolding is_empty
is_empty-true [] e = refl
is_empty-true (x ∷ xs) e = absurd (ground arith)

pub is_empty-false {ℓ} : {A : Type ℓ} (xs : List A) → is_empty xs ≡ false → xs ≢ []
unfolding is_empty
is_empty-false [] e = absurd (ground arith)
is_empty-false (x ∷ xs) e = λ f. ground arith

is_none-false {ℓ} : {A : Type ℓ} (m : Option A) → is_none m ≡ false → (a : A) × (m ≡ some a)
unfolding is_none
is_none-false none e = absurd (ground arith)
is_none-false (some a) e = (a, refl)

tokens_named : (ts : List (Bytes × Bytes)) → token_problems ts ≡ [] → All (λ e. e.1 ≢ []) ts
unfolding token_problems
tokens_named [] e = tt
tokens_named ((n, t) ∷ ts) e =
    let (f, g) = append-nil→ (when (is_empty t) (Problem.token_empty n)) (token_problems ts) e in
    (is_empty-false t (when_silent _ _ f), tokens_named ts g)

entry_known :
    (ps : List (Bytes × Provider)) (a e : Bytes)
    → entry_problems ps a e ≡ []
    → ((cut e).2 ≡ true) × ((p : Provider) × (lookup (cut e).0 ps ≡ some p))
unfolding entry_problems
entry_known ps a e h =
    elim (Bool-cases (not (cut e).2 || is_empty (cut e).1 || is_empty (cut e).0)) [
      | inl f ↦ absurd (cons_not_nil (rw f at h))
      | inr f ↦ (ground arith, is_none-false _ (when_silent _ _ (rw f at h)))
    ]

entries_known :
    (ps : List (Bytes × Provider)) (a : Bytes) (es : List Bytes)
    → entries_problems ps a es ≡ []
    → All (λ e. (p : Provider) × (lookup (cut e).0 ps ≡ some p)) es
unfolding entries_problems
entries_known ps a [] h = tt
entries_known ps a (e ∷ es) h =
    let (f, g) = append-nil→ (entry_problems ps a e) (entries_problems ps a es) h in
    ((entry_known ps a e f).1, entries_known ps a es g)

aliases_known :
    (ps : List (Bytes × Provider)) (as' : List (Bytes × List Bytes))
    → alias_problems ps as' ≡ []
    → All (λ a. (a.1 ≢ []) × All (λ e. (p : Provider) × (lookup (cut e).0 ps ≡ some p)) a.1) as'
unfolding alias_problems
aliases_known ps [] h = tt
aliases_known ps ((a, es) ∷ more) h =
    let (g, j) =
      append-nil→ (when (is_empty es) (Problem.alias_empty a) ++ entries_problems ps a es) _ h in
    let (f, i) = append-nil→ (when (is_empty es) (Problem.alias_empty a)) _ g in
    ((is_empty-false es (when_silent _ _ f), entries_known ps a es i), aliases_known ps more j)

default_is_known :
    (c : Config)
    → default_problems c ≡ []
    → (p : Provider) × (lookup c.default c.providers ≡ some p)
unfolding default_problems
default_is_known c h = elim (Bool-cases (is_empty c.default)) [
  | inl f ↦ absurd (cons_not_nil (rw f at h))
  | inr f ↦ is_none-false _ (when_silent _ _ (rw f at h))
]

fallback_is_known :
    (aliases : List (Bytes × List Bytes)) (names : List Bytes)
    → fallback_problems aliases names ≡ []
    → All (λ a. (es : List Bytes) × (lookup a aliases ≡ some es)) names
unfolding fallback_problems
fallback_is_known aliases [] h = tt
fallback_is_known aliases (a ∷ more) h =
    let (f, g) = append-nil→ (when (is_none (lookup a aliases)) (Problem.fallback_unknown a)) _ h in
    (is_none-false _ (when_silent _ _ f), fallback_is_known aliases more g)

token_present :
    (c : Config)
    → (is_empty c.token && is_empty c.tokens) ≡ false
    → (c.token ≢ []) ⊎ (c.tokens ≢ [])
token_present c h = elim (Bool-cases (is_empty c.token)) [
  | inl f ↦ inr (is_empty-false c.tokens (ground arith))
  | inr f ↦ inl (is_empty-false c.token f)
]

module _ (split_host_port : Bytes → Option Bytes) (parse_url : Bytes → Option (Bytes × Bytes))
    (blank : Bytes → Bool) where
  -- A provider with a web address, keys that are not blank, or none where it is keyless, and caps
  -- that are not negative.
  abbrev pub IsUsable : Provider → Type 0
  IsUsable p =
      (p.url ≢ [])
      × (is_http (parse_url p.url) ≡ true)
      × All (λ k. blank k ≡ false) p.keys
      × ((p.keyless && not (is_empty p.keys)) ≡ false)
      × (negative p.rpd ≡ false)
      × (negative p.rpm ≡ false)
      × (negative p.ttft ≡ false)

  keys_present :
      (n : Bytes) (i : ℕ) (ks : List Bytes) (twice : List (Bytes × Bytes))
      → (key_problems split_host_port parse_url blank n i ks twice).0 ≡ []
      → All (λ k. blank k ≡ false) ks
  unfolding key_problems
  keys_present n i [] twice h = tt
  keys_present n i (k ∷ ks) twice h = elim (Bool-cases (blank k)) [
    | inl f ↦ absurd (cons_not_nil (rw (f, key_problems) at h))
    | inr f ↦ elim (Option-cases (lookup k twice)) [
      | inl e ↦ (f, keys_present n (suc i) ks ((k, n) ∷ twice) (rw (f, e, key_problems) at h))
      | inr (was, e) ↦ absurd (cons_not_nil (rw (f, e, key_problems) at h))
    ]
  ]

  url_is_http :
      (n : Bytes) (p : Provider)
      → url_problems split_host_port parse_url blank n p ≡ []
      → (p.url ≢ []) × (is_http (parse_url p.url) ≡ true)
  unfolding url_problems
  url_is_http n p h = elim (Bool-cases (is_empty p.url)) [
    | inl f ↦ absurd (cons_not_nil (rw f at h))
    | inr f ↦ (is_empty-false p.url f, let g = when_silent _ _ (rw f at h) in ground arith)
  ]

  providers-IsUsable :
      (ps : List (Bytes × Provider)) (twice : List (Bytes × Bytes))
      → provider_problems split_host_port parse_url blank ps twice ≡ []
      → All (λ e. IsUsable e.1) ps
  unfolding provider_problems number_problems
  providers-IsUsable [] twice h = tt
  providers-IsUsable ((n, p) ∷ ps) twice h =
      let keys = key_problems split_host_port parse_url blank n 0 p.keys twice in
      let (h1, rest) = append-nil→ _ _ h in
      let (h2, m) = append-nil→ _ _ h1 in
      let (h3, k) = append-nil→ _ _ h2 in
      let (a, b) = append-nil→ _ _ h3 in
      let (m1, t) = append-nil→ _ _ m in
      let (r, s) = append-nil→ _ _ m1 in
      let (u, v) = url_is_http n p a in
      (
        (
          u,
          v,
          keys_present n 0 p.keys twice k,
          when_silent _ _ b,
          when_silent _ _ r,
          when_silent _ _ s,
          when_silent _ _ t,
        ),
        providers-IsUsable ps keys.1 rest,
      )

  -- What a configuration without problems has: a token, and none that is empty; a place for its
  -- counters; usable providers, one of them with a key; and a provider for every place that a
  -- request can be routed to.
  pub record IsAccepted (c : Config) : Type 0 where
    pub has_token : (c.token ≢ []) ⊎ (c.tokens ≢ [])
    pub tokens_full : All (λ e. e.1 ≢ []) c.tokens
    pub has_state : c.state ≢ []
    pub usable : All (λ e. IsUsable e.1) c.providers
    pub armed : any_armed c.providers ≡ true
    pub routable : IsRoutable c
    pub aliases_full : All (λ a. a.1 ≢ []) c.aliases
    pub fallbacks : All (λ a. (es : List Bytes) × (lookup a c.aliases ≡ some es)) c.fallback

  -- A configuration in which `check` finds no problem has all that `IsAccepted` lists: credentials, a
  -- state path, usable providers with a key among them, and a provider for every alias entry, the
  -- default and every fallback.
  pub check-IsAccepted : (c : Config) → check split_host_port parse_url blank c ≡ [] → IsAccepted c
  unfolding check
  check-IsAccepted c h =
      let (h1, fallback) = append-nil→ _ _ h in
      let (h2, default) = append-nil→ _ _ h1 in
      let (h3, aliases) = append-nil→ _ _ h2 in
      let (h4, armed) = append-nil→ _ _ h3 in
      let (h5, providers) = append-nil→ _ _ h4 in
      let (h6, some_providers) = append-nil→ _ _ h5 in
      let (h7, state) = append-nil→ _ _ h6 in
      let (h8, listen) = append-nil→ _ _ h7 in
      let (token, tokens) = append-nil→ _ _ h8 in
      let named = aliases_known c.providers c.aliases aliases in
      record {
        has_token = token_present c (when_silent _ _ token);
        tokens_full = tokens_named c.tokens tokens;
        has_state = is_empty-false c.state (when_silent _ _ state);
        usable = providers-IsUsable c.providers [] providers;
        armed =
            let a = when_silent _ _ armed in let b = when_silent _ _ some_providers in ground arith;
        routable = record {
          default_known = default_is_known c default;
          aliases_known = All-map (λ e f. f.1) c.aliases named;
        };
        aliases_full = All-map (λ e f. f.0) c.aliases named;
        fallbacks = fallback_is_known c.aliases c.fallback fallback;
      }

  -- A request to a gateway whose configuration passed `check` never meets a target without its
  -- provider, whatever model it names.
  pub check-HasPlace :
      (c : Config) (name : Bytes)
      → check split_host_port parse_url blank c ≡ []
      → All HasPlace (route c name)
  check-HasPlace c name h = route-HasPlace c name (check-IsAccepted c h).routable

  -- What `Load` returns has passed `check`.
  pub load-IsAccepted :
      (parse : Bytes → Option Config) (b : Bytes) (c : Config)
      → load split_host_port parse_url blank parse b ≡ some c
      → IsAccepted c
  unfolding load is_empty
  load-IsAccepted parse b c h = elim (Option-cases (parse b)) [
    | inl e ↦ absurd (none_ne_some (rw (e, load) at h))
    | inr (c', e) ↦ elim (Bool-cases (is_empty (check split_host_port parse_url blank c'))) [
      | inr f ↦ absurd (none_ne_some (rw (e, load, f) at h))
      | inl f ↦
          let same : c' ≡ c = some_inj (rw (e, load, f) at h) in
          subst IsAccepted same (check-IsAccepted c' (is_empty-true _ f))
    ]
  ]
