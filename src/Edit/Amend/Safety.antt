-- ===== src/Edit/Amend/Safety.antt =====
-- `amend`: the content of the file at each point of an edit.
use omny.Base.{
  subst, lookup, ◌≡◌, ◌≢◌, sym, ◌⊎◌, inl, inr, true, false, List, Option, some, arith, All, Bytes,
  Bool-cases, Option-cases, bytes_eq_refl, update,
}
use omny.Config.{Config}
use omny.Loader.{is_none}
use omny.State.{Files, Calls, replace, temporary, approves}
use omny.State.Atomic.{replace-IsAtomic, final}
use omny.Edit.Node.{Node}
use omny.Edit.Result.{Failure, Result, done, failed, panics}
use omny.Edit.Tweaks.{Tweak}
use omny.Edit.Amend.{Armed, rewrite, loads, report, commit, amend}

module _ (parse : Bytes → Option Node) (load : Bytes → Option Config) where
  -- An edit leaves the file as it was, in every state that it passes through, or replaces it in one
  -- step by a text that the loader accepts.
  abbrev pub IsSafe : Bytes → Files → List Files × Result (Armed × Config) → Type 0
  IsSafe path fs o =
      (All (λ f. f path ≡ fs path) o.0 × ((a : Armed × Config) × (o.1 ≡ done a) → ⊥))
      ⊎ ((b : Bytes) × (c : Config) × (load b ≡ some c)
          × All (λ f. (f path ≡ fs path) ⊎ (f path ≡ some b)) o.0
          × (final fs o.0 path ≡ some b)
          × ((e : Failure) → o.1 ≢ failed e))

  vetted_lem :
      (fs : Files) (tmp b : Bytes)
      → fs tmp ≡ some b
      → loads parse load fs tmp ≡ true
      → (c : Config) × (load b ≡ some c)
  unfolding loads is_none
  vetted_lem fs tmp b e h = elim (Option-cases (load b)) [
    | inr (c, f) ↦ (c, f)
    | inl f ↦ absurd (let g : false ≡ true = (rw (e, loads, f) at h) in ground arith)
  ]

  written_lem : (fs : Files) (tmp b : Bytes) → update fs tmp (some b) tmp ≡ some b
  unfolding update
  written_lem fs tmp b = rw (bytes_eq_refl tmp)

  report-ne-failed :
      (prov b : Bytes) (c : Config) (e : Failure)
      → load b ≡ some c
      → report prov (load b) ≢ failed e
  unfolding report
  report-ne-failed prov b c e h =
      rw (h, report)
        (elim (Option-cases (lookup prov c.providers)) [
          | inl f ↦ rw f (λ g. ground arith)
          | inr (p, f) ↦ rw f (λ g. ground arith)
        ])

  commit-IsSafe :
      (calls : Calls) (path prov : Bytes) (fs : Files) (r : Result Bytes)
      → IsSafe path fs (commit parse load calls path prov fs r)
  unfolding commit approves
  commit-IsSafe calls path prov fs (failed e) = inl (tt, λ a. ground arith)
  commit-IsSafe calls path prov fs panics = inl (tt, λ a. ground arith)
  commit-IsSafe calls path prov fs (done b) =
      let (old_or_new, kept, new, _) = replace-IsAtomic calls (some (loads parse load)) path b fs in
      elim (Bool-cases (replace calls (some (loads parse load)) path b fs).1) [
        | inr e ↦ rw e (inl (kept e, λ a. ground arith))
        | inl e ↦
            let (now, passed) = new e in
            let (c, f) =
              vetted_lem (update fs (temporary path) (some b)) (temporary path) b
                (written_lem fs (temporary path) b) passed in
            rw e (inr (b, c, f, old_or_new, now, λ x. report-ne-failed prov b c x f))
      ]

  amend_runs :
      (calls : Calls) (path prov : Bytes) (tweaks : List Tweak) (fs : Files) (src : Bytes)
      → fs path ≡ some src
      → amend parse load calls path prov tweaks fs
        ≡ commit parse load calls path prov fs (rewrite parse load tweaks src)
  unfolding amend
  amend_runs calls path prov tweaks fs src e = rw (e, amend)

  -- Whatever the tweaks do and whichever of the calls fail, an edit leaves the file as it was in every
  -- state that it passes through and returns no result, or replaces it by one text that the loader
  -- accepts, so that a crash at any point leaves the old file or that text, and reports no error.
  pub amend-IsSafe :
      (calls : Calls) (path prov : Bytes) (tweaks : List Tweak) (fs : Files)
      → IsSafe path fs (amend parse load calls path prov tweaks fs)
  unfolding amend
  amend-IsSafe calls path prov tweaks fs = elim (Option-cases (fs path)) [
    | inl e ↦ rw (e, amend) (inl (tt, λ a. ground arith))
    | inr (src, e) ↦
        subst (IsSafe path fs) (sym (amend_runs calls path prov tweaks fs src e))
          (commit-IsSafe calls path prov fs (rewrite parse load tweaks src))
  ]
