-- ===== src/Edit/Commands/Positions.antt =====
-- `parse`: its end, and the places that it collects.
use mathlib.Core.List.{append_assoc, append-nil}
use omny.Base.{
  false, none, ℕ, zero, suc, ◌+◌, ◌<◌, ◌≡◌, refl, sym, ap, ◌∙◌, ◌⊎◌, inl, inr, List, [], ◌∷◌, ◌++◌,
  Option, some, arith, Bytes, length, length-append, Option-cases, subst,
}
use omny.Edit.Result.{Result, done, failed, bad_flags}
use omny.Edit.Commands.{Flags, parse_loop, parse}

-- The first list stands in the second one, in the same order.
pub data IsPart : List Bytes → List Bytes → Type 0 where
  leaves : {args : List Bytes} → IsPart [] args
  takes : {a : Bytes} {ps args : List Bytes} → IsPart ps args → IsPart (a ∷ ps) (a ∷ args)
  skips : {a : Bytes} {ps args : List Bytes} → IsPart ps args → IsPart ps (a ∷ args)

after_flags : (used : List Bytes) {ps args : List Bytes} → IsPart ps args → IsPart ps (used ++ args)
after_flags [] h = h
after_flags (u ∷ used) h = skips (after_flags used h)

module _ (flags : Flags → List Bytes → Option (Flags × List Bytes)) where
  -- A parse of flags leaves the end of the arguments that it got.
  abbrev pub LeavesEnd : Type 0
  LeavesEnd =
      (f f' : Flags) (args rest : List Bytes)
      → flags f args ≡ some (f', rest)
      → (used : List Bytes) × (args ≡ used ++ rest)

  -- From these flags on, the rounds of a parse over the arguments: each takes the first argument that
  -- is no flag, and the last one leaves nothing.
  pub data Takes : Flags → List Bytes → List Bytes → Flags → Type 0 where
    ends_with : {f g : Flags} {args : List Bytes} → flags f args ≡ some (g, []) → Takes f args [] g
    goes_on :
        {f h g : Flags} {a : Bytes} {args more ps : List Bytes}
        → flags f args ≡ some (h, a ∷ more)
        → Takes h more ps g
        → Takes f args (a ∷ ps) g

  -- One of the rounds meets a flag that is not known.
  pub data Fails : Flags → List Bytes → Type 0 where
    at_once : {f : Flags} {args : List Bytes} → flags f args ≡ none → Fails f args
    later :
        {f h : Flags} {a : Bytes} {args more : List Bytes}
        → flags f args ≡ some (h, a ∷ more)
        → Fails h more
        → Fails f args

  -- The arguments that the rounds take are added to the places, unless a round fails.
  abbrev pub IsParsed :
      Flags → List Bytes → List Bytes → Option (Result (Flags × List Bytes)) → Type 0
  IsParsed f args places r =
      ((r ≡ some (failed bad_flags)) × Fails f args)
      ⊎ ((g : Flags) × (more : List Bytes) × (r ≡ some (done (g, places ++ more)))
          × Takes f args more g
          × IsPart more args)

  parse_loop-IsParsed :
      LeavesEnd
      → (fuel : ℕ) (f : Flags) (args places : List Bytes) → length args < fuel
      → IsParsed f args places (parse_loop flags fuel f args places)
  unfolding parse_loop
  parse_loop-IsParsed ends zero f args places lt = absurd (omega arith)
  parse_loop-IsParsed ends (suc fuel) f args places lt = elim (Option-cases (flags f args)) [
    | inl e ↦ rw (e, parse_loop) (inl (refl, at_once e))
    | inr ((g, []), e) ↦
        rw (e, parse_loop)
          (inr (g, [], ap (λ x. some (done (g, x))) (sym (append-nil places)), ends_with e, leaves))
    | inr ((g, a ∷ more), e) ↦
        let (used, k) = ends f g args (a ∷ more) e in
        let l : length args ≡ length used + suc (length more) =
          ap length k ∙ length-append used (a ∷ more) in
        rw (e, parse_loop)
          (elim (parse_loop-IsParsed ends fuel g more (places ++ a ∷ []) (omega (arith, l, lt))) [
            | inl (h, met) ↦ inl (h, later e met)
            | inr (g', ps, h, took, part) ↦ inr (
              g',
              a ∷ ps,
              h ∙ ap (λ x. some (done (g', x))) (append_assoc places (a ∷ []) ps),
              goes_on e took,
              subst (IsPart (a ∷ ps)) (sym k) (after_flags used (takes part)),
            )
          ])
  ]

  -- Where a parse of flags leaves an end of the arguments that it got, the loop of `parse` ends: one
  -- round more than there are arguments is enough. It fails with a bad flag, and then a round met one;
  -- or its places are the arguments at which the rounds of parsing flags stopped, one of each round, in
  -- the order in which they stand, and its flags are those of the last round, which left nothing.
  pub parse-IsParsed :
      LeavesEnd
      → (args : List Bytes)
      → IsParsed (record { url = []; model = []; keyless = false }) args [] (parse flags args)
  unfolding parse
  parse-IsParsed ends args = parse_loop-IsParsed ends (suc (length args)) _ args [] (omega arith)
