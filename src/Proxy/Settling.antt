-- ===== src/Proxy/Settling.antt =====
-- A walk as traffic of the pool: its operations as a run of events.
use omny.Base.{
  ℕ, ◌≡◌, refl, sym, ◌∙◌, subst, Bool, List, [], ◌∷◌, ◌++◌, Option, some, some_inj, none_ne_some,
  Bytes, Option-cases, inl, inr,
}
use omny.Pool.{Pool, pick, fail, sour, ok}
use omny.Pool.Traffic.{Traffic, Event, picks, fails, succeeds, sours, hold, step, run}
use omny.Pool.Traffic.Invariant.{Inv}
use omny.Pool.Traffic.Ledger.{Ledger, step-Ledger}

abbrev pub idle : Pool → List ℕ → Traffic
idle p served = record { pool = p; held = []; served = served }

abbrev pub holding : Pool → ℕ → List ℕ → Traffic
holding p a served = record { pool = p; held = a ∷ []; served = served }

abbrev pub granted : Pool → Option ℕ → List ℕ → Traffic
granted p hit served = record { pool = p; held = hold hit []; served = served }

module _ (fp : Bytes → Bytes) where
  -- One traffic follows from another.
  abbrev pub Reaches : Traffic → Traffic → Type 0
  Reaches t u = (es : List (ℕ × Event)) × (run fp es t ≡ some u)

  run-append :
      (es fs : List (ℕ × Event)) (t u v : Traffic)
      → run fp es t ≡ some u
      → run fp fs u ≡ some v
      → run fp (es ++ fs) t ≡ some v
  unfolding run
  run-append [] fs t u v e f = subst (λ x. run fp fs x ≡ some v) (sym (some_inj e)) f
  run-append ((now, x) ∷ es) fs t u v e f = elim (Option-cases (step fp now t x)) [
    | inl g ↦ absurd (none_ne_some (rw g at e))
    | inr (t', g) ↦ rw g (run-append es fs t' u v (rw g at e) f)
  ]

  pub Reaches-trans : (t u v : Traffic) → Reaches t u → Reaches u v → Reaches t v
  Reaches-trans t u v (es, e) (fs, f) = (es ++ fs, run-append es fs t u v e f)

  -- One event of a settled ledger, once its result is known.
  pub one_event :
      (now : ℕ) (t u : Traffic) (x : Event)
      → Inv Ledger t
      → step fp now t x ≡ some u
      → Reaches t u × Inv Ledger u
  unfolding run
  one_event now t u x v e =
      let (u', f, w) = step-Ledger fp now t x v in
      let es : List (ℕ × Event) = (now, x) ∷ [] in
      ((es, rw e refl), subst (Inv Ledger) (some_inj (sym f ∙ e)) w)

  pub picks_settled :
      (now : ℕ) (p : Pool) (served : List ℕ) (prov : Bytes)
      → Inv Ledger (idle p served)
      → (hit : Option ℕ) × (p' : Pool) × (pick now p prov ≡ some (hit, p'))
        × Reaches (idle p served) (granted p' hit served)
        × Inv Ledger (granted p' hit served)
  unfolding step
  picks_settled now p served prov v = elim (Option-cases (pick now p prov)) [
    | inl e ↦
        let (u, f, w) = step-Ledger fp now (idle p served) (picks prov) v in
        absurd (none_ne_some (rw e at f))
    | inr ((hit, p'), e) ↦
        let (r, w) =
          one_event now (idle p served) (granted p' hit served) (picks prov) v (rw e refl) in
        (hit, p', e, r, w)
  ]

  pub fails_settled :
      (now : ℕ) (p : Pool) (served : List ℕ) (a code retry : ℕ)
      → Inv Ledger (holding p a served)
      → (r : Pool × ℕ × Bool) × (fail now p a code retry ≡ some r)
        × Reaches (holding p a served) (idle r.0 served)
        × Inv Ledger (idle r.0 served)
  unfolding step
  fails_settled now p served a code retry v = elim (Option-cases (fail now p a code retry)) [
    | inl e ↦
        let (u, f, w) = step-Ledger fp now (holding p a served) (fails 0 code retry) v in
        absurd (none_ne_some (rw e at f))
    | inr (r, e) ↦
        let (t, w) =
          one_event now (holding p a served) (idle r.0 served) (fails 0 code retry) v (rw e refl) in
        (r, e, t, w)
  ]

  pub succeeds_settled :
      (now : ℕ) (p : Pool) (served : List ℕ) (a ttft : ℕ)
      → Inv Ledger (holding p a served)
      → (r : Pool × Bool) × (ok now p a ttft ≡ some r)
        × Reaches (holding p a served) (idle r.0 (a ∷ served))
        × Inv Ledger (idle r.0 (a ∷ served))
  unfolding step
  succeeds_settled now p served a ttft v = elim (Option-cases (ok now p a ttft)) [
    | inl e ↦
        let (u, f, w) = step-Ledger fp now (holding p a served) (succeeds 0 ttft) v in
        absurd (none_ne_some (rw e at f))
    | inr (r, e) ↦
        let (t, w) =
          one_event now (holding p a served) (idle r.0 (a ∷ served)) (succeeds 0 ttft) v
            (rw e refl) in
        (r, e, t, w)
  ]

  pub sours_settled :
      (now : ℕ) (p : Pool) (served : List ℕ) (a : ℕ)
      → Inv Ledger (idle p (a ∷ served))
      → (r : Pool × ℕ) × (sour now p a ≡ some r)
        × Reaches (idle p (a ∷ served)) (idle r.0 (a ∷ served))
        × Inv Ledger (idle r.0 (a ∷ served))
  unfolding step
  sours_settled now p served a v = elim (Option-cases (sour now p a)) [
    | inl e ↦
        let (u, f, w) = step-Ledger fp now (idle p (a ∷ served)) (sours 0) v in
        absurd (none_ne_some (rw e at f))
    | inr (r, e) ↦
        let (t, w) =
          one_event now (idle p (a ∷ served)) (idle r.0 (a ∷ served)) (sours 0) v (rw e refl) in
        (r, e, t, w)
  ]
