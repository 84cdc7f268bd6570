-- ===== src/Body/Locating.antt =====
-- `locate`: its walk over the tokens, and the span that it finds.
use omny.Base.{
  ℕ, zero, suc, ◌+◌, ◌-◌, ◌≤◌, ◌<◌, ◌≡◌, refl, true, bytes, ap, ◌∙◌, ◌⊎◌, inl, inr, false, not,
  ◌||◌, [], ◌∷◌, Option, some, arith, Bytes, bytes_eq, bytes_eq_iff, ltb, ◌==◌, length, get_elem?,
  get_elem?_of_lt, Bool-cases, Option-cases, some_inj, none_ne_some,
}
use omny.Body.{
  Token, opens, closes, text, other, Decoder, is_space, last_solid, Span, slice, Walked, walked,
  broken, stuck, skip, step, at_value, is_model, on_walked, fields, from_brace, locate,
}

last_solid_bound : (b : Bytes) (i : ℕ) → last_solid b ≡ some i → i < length b
unfolding last_solid
last_solid_bound [] i h = absurd (none_ne_some h)
last_solid_bound (c ∷ s) i h = elim (Option-cases (last_solid s)) [
  | inr (j, e) ↦
      let l = last_solid_bound s j e in
      let f : suc j ≡ i = some_inj (rw (e, last_solid) at h) in omega (arith, l, f)
  | inl e ↦ elim (Bool-cases (is_space c)) [
    | inl f ↦ absurd (none_ne_some (rw (e, last_solid, f) at h))
    | inr f ↦ let g : 0 ≡ i = some_inj (rw (e, last_solid, f) at h) in omega (arith, g)
  ]
]

-- A decoder over `b`: its offset stays inside, and grows with each token and not less with a value.
pub record Reads {D : Type 0} (dec : Decoder D) (b : Bytes) : Type 0 where
  pub inside : (d : D) → dec.offset d ≤ length b
  pub grows : (d d' : D) (t : Token) → dec.token d ≡ some (t, d') → dec.offset d < dec.offset d'

module _ {D : Type 0} (dec : Decoder D) (b : Bytes) (r : Reads dec b) where
  -- With fuel for the bytes that are left, a walk is not stuck, and it does not go back.
  abbrev Moves : D → Walked D → Type 0
  Moves d (walked d') = dec.offset d ≤ dec.offset d'
  Moves d broken = Unit
  Moves d stuck = ⊥

  Moves-trans : (d d' : D) (w : Walked D) → dec.offset d ≤ dec.offset d' → Moves d' w → Moves d w
  Moves-trans d d' (walked d'') h m = omega (arith, m)
  Moves-trans d d' broken h m = tt
  Moves-trans d d' stuck h m = m

  grown : (d d' : D) (t : Token) → dec.token d ≡ some (t, d') → dec.offset d ≤ dec.offset d'
  grown d d' t e = omega (arith, r.grows d d' t e)

  -- A token leaves fewer bytes than there were.
  fewer :
      (d d' : D) (t : Token) (fuel : ℕ)
      → dec.token d ≡ some (t, d')
      → length b - dec.offset d < suc fuel
      → length b - dec.offset d' < fuel
  fewer d d' t fuel e h = omega (arith, r.grows d d' t e, r.inside d', r.inside d)

  skip-Moves :
      (fuel depth : ℕ) (d : D) → length b - dec.offset d < fuel → Moves d (skip dec fuel depth d)
  unfolding skip
  skip-Moves zero zero d h = omega arith
  skip-Moves (suc fuel) zero d h = omega arith
  skip-Moves zero (suc depth) d h = absurd (omega arith)
  skip-Moves (suc fuel) (suc depth) d h = elim (Option-cases (dec.token d)) [
    | inl e ↦ rw (e, skip) tt
    | inr ((opens, d'), e) ↦
        rw (e, skip)
          (Moves-trans d d' _ (grown d d' opens e)
            (skip-Moves fuel (suc (suc depth)) d' (fewer d d' opens fuel e h)))
    | inr ((closes, d'), e) ↦
        rw (e, skip)
          (Moves-trans d d' _ (grown d d' closes e)
            (skip-Moves fuel depth d' (fewer d d' closes fuel e h)))
    | inr ((text k, d'), e) ↦
        rw (e, skip)
          (Moves-trans d d' _ (grown d d' (text k) e)
            (skip-Moves fuel (suc depth) d' (fewer d d' (text k) fuel e h)))
    | inr ((other, d'), e) ↦
        rw (e, skip)
          (Moves-trans d d' _ (grown d d' other e)
            (skip-Moves fuel (suc depth) d' (fewer d d' other fuel e h)))
  ]

  step-Moves : (fuel : ℕ) (d : D) → length b - dec.offset d < fuel → Moves d (step dec fuel d)
  unfolding step
  step-Moves fuel d h = elim (Option-cases (dec.token d)) [
    | inl e ↦ rw (e, step) tt
    | inr ((opens, d'), e) ↦
        rw (e, step)
          (Moves-trans d d' _ (grown d d' opens e)
            (skip-Moves fuel 1 d' (omega (arith, fewer d d' opens fuel e (omega (arith, h))))))
    | inr ((closes, d'), e) ↦ rw (e, step) (grown d d' closes e)
    | inr ((text k, d'), e) ↦ rw (e, step) (grown d d' (text k) e)
    | inr ((other, d'), e) ↦ rw (e, step) (grown d d' other e)
  ]

  -- Nothing is found, or the bytes of the value that the decoder gave after the text `model`.
  abbrev pub IsFound : ℕ → Span → Type 0
  IsFound end (lo, hi, e) =
      ((lo ≡ 0) × (hi ≡ 0) × (e ≡ 0))
      ⊎ ((d₀ : D) × (d : D) × (d' : D) × (raw : Bytes) × (dec.more d₀ ≡ true)
          × (dec.token d₀ ≡ some (text (bytes "model"), d))
          × (dec.decode d ≡ some (raw, d'))
          × (hi ≡ dec.offset d')
          × (lo + length raw ≡ hi)
          × (hi ≤ length b)
          × (slice b lo hi ≡ raw)
          × (e ≡ end))

  is_model_lem : (k : Token) → is_model dec k ≡ true → k ≡ text (bytes "model")
  unfolding is_model
  is_model_lem (text k) h = ap text ((bytes_eq_iff k (bytes "model")).0 h)
  is_model_lem opens h = cc
  is_model_lem closes h = cc
  is_model_lem other h = cc

  at_value_lem :
      (end : ℕ) (d₀ d d' : D) (raw : Bytes)
      → dec.more d₀ ≡ true
      → dec.token d₀ ≡ some (text (bytes "model"), d)
      → dec.decode d ≡ some (raw, d')
      → (s : Span) × (at_value dec b end raw (dec.offset d') ≡ some s) × IsFound end s
  unfolding at_value
  at_value_lem end d₀ d d' raw m t h =
      let at = dec.offset d' in
      let l = r.inside d' in
      elim (Bool-cases (ltb at (length raw))) [
        | inl e ↦ ((0, 0, 0), rw e refl, inl (refl, refl, refl))
        | inr e ↦
            let f : ltb (length b) at ≡ false = ground (arith, l) in
            elim (Bool-cases (bytes_eq (slice b (at - length raw) at) raw)) [
              | inr g ↦ ((0, 0, 0), rw (e, f, g) refl, inl (refl, refl, refl))
              | inl g ↦ (
                (at - length raw, at, end),
                rw (e, f, g) refl,
                inr (
                  d₀,
                  d,
                  d',
                  raw,
                  m,
                  t,
                  h,
                  refl,
                  ground arith,
                  l,
                  (bytes_eq_iff _ raw).0 g,
                  refl,
                ),
              )
            ]
      ]

  abbrev Finds : ℕ → Option Span → Type 0
  Finds end r = (s : Span) × (r ≡ some s) × IsFound end s

  nothing : (end : ℕ) → Finds end (some (0, 0, 0))
  nothing end = ((0, 0, 0), refl, inl (refl, refl, refl))

  on_walked-Finds :
      (end : ℕ) (d : D) (rest : D → Option Span) (w : Walked D)
      → Moves d w
      → ((d' : D) → dec.offset d ≤ dec.offset d' → Finds end (rest d'))
      → Finds end (on_walked dec rest w)
  unfolding on_walked
  on_walked-Finds end d rest (walked d') m k = k d' m
  on_walked-Finds end d rest broken m k = nothing end
  on_walked-Finds end d rest stuck m k = absurd m

  fields-Finds :
      (fuel end : ℕ) (d : D) → length b - dec.offset d < fuel → Finds end (fields dec fuel b end d)
  unfolding fields
  fields-Finds zero end d h = absurd (omega arith)
  fields-Finds (suc fuel) end d h = elim (Bool-cases (dec.more d)) [
    | inr m ↦ rw (m, fields) (nothing end)
    | inl m ↦ elim (Option-cases (dec.token d)) [
      | inl e ↦ rw (m, e, fields) (nothing end)
      | inr ((k, d'), e) ↦
          let l = fewer d d' k fuel e h in
          elim (Bool-cases (is_model dec k)) [
            | inl i ↦ elim (Option-cases (dec.decode d')) [
              | inl f ↦ rw (m, e, i, f, fields) (nothing end)
              | inr ((raw, d''), f) ↦
                  rw (m, e, i, f, fields)
                    (at_value_lem end d d' d'' raw m (rw (is_model_lem k i) at e) f)
            ]
            | inr i ↦
                rw (m, e, i, fields)
                  (on_walked-Finds end d' (fields dec fuel b end) (step dec fuel d')
                    (step-Moves fuel d' l)
                    (λ d'' m. fields-Finds fuel end d'' (omega (arith, m, l))))
          ]
    ]
  ]

  from_brace-Finds : (end : ℕ) → Finds end (from_brace dec b end)
  unfolding from_brace
  from_brace-Finds end = elim (Option-cases (dec.token (dec.start b))) [
    | inl e ↦ rw (e, from_brace) (nothing end)
    | inr ((opens, d), e) ↦ rw (e, from_brace) (fields-Finds (suc (length b)) end d (omega arith))
    | inr ((closes, d), e) ↦ rw (e, from_brace) (nothing end)
    | inr ((text k, d), e) ↦ rw (e, from_brace) (nothing end)
    | inr ((other, d), e) ↦ rw (e, from_brace) (nothing end)
  ]

  -- With a decoder whose offset stays inside the body and grows with each token, `locate` ends and
  -- indexes nothing outside the body. It finds nothing, or the value that the decoder gave after it
  -- read the text `model` where more was to come, at the place where its bytes stand, which ends at the
  -- decoder's offset, and the index of the last byte that is no white space, a closing brace.
  pub locate_lem :
      (s : Span) × (locate dec b ≡ some s)
      × (((s.0 ≡ 0) × (s.1 ≡ 0) × (s.2 ≡ 0))
          ⊎ ((d₀ : D) × (d : D) × (d' : D) × (raw : Bytes) × (dec.more d₀ ≡ true)
              × (dec.token d₀ ≡ some (text (bytes "model"), d))
              × (dec.decode d ≡ some (raw, d'))
              × (s.1 ≡ dec.offset d')
              × (s.0 + length raw ≡ s.1)
              × (s.1 ≤ length b)
              × (slice b s.0 s.1 ≡ raw)
              × (last_solid b ≡ some s.2)
              × (get_elem? b s.2 ≡ some 125)))
  unfolding locate
  locate_lem = elim (Option-cases (last_solid b)) [
    | inl e ↦ ((0, 0, 0), rw (e, locate) refl, inl (refl, refl, refl))
    | inr (end, e) ↦
        let (c, g) = get_elem?_of_lt b end (last_solid_bound b end e) in
        elim (Bool-cases (end == 0 || not (c == 125))) [
          | inl f ↦ ((0, 0, 0), rw (e, locate, g, f) refl, inl (refl, refl, refl))
          | inr f ↦
              let (s, h, found) = from_brace-Finds end in
              let brace : c ≡ 125 = ground arith in
              (
                s,
                rw (e, locate, g, f) h,
                elim found [
                  | inl z ↦ inl z
                  | inr (d₀, d, d', raw, q, t, i, o, j, k, l, m) ↦
                      inr (d₀, d, d', raw, q, t, i, o, j, k, l, rw m e, rw m (g ∙ ap some brace))
                ],
              )
        ]
  ]
