-- ===== src/Edit/Commands/Dropping.antt =====
-- `drop`: the keys that it leaves.
use mathlib.Core.List.{append_assoc, append-nil}
use omny.Base.{
  ℕ, suc, ◌+◌, ◌≤◌, ◌≡◌, refl, ap, ◌∙◌, ◌⊎◌, inl, inr, true, false, List, [], ◌∷◌, ◌++◌, arith, All,
  Bytes, if◌then◌else◌, Bool-cases,
}
use omny.Edit.Result.{unmatched, ambiguous, Result, done, failed}
use omny.Edit.Commands.{names, drop_loop, dropped, drop_key}

module _ (fingerprint : Bytes → Bytes) (want : Bytes) where
  -- The keys that are not named, and the number of those that are.
  kept : List Bytes → List Bytes
  kept [] = []
  kept (v ∷ ks) = if names fingerprint want v then kept ks else v ∷ kept ks

  hits : List Bytes → ℕ
  hits [] = 0
  hits (v ∷ ks) = if names fingerprint want v then suc (hits ks) else hits ks

  drop_loop_lem :
      (ks out : List Bytes) (n : ℕ)
      → drop_loop fingerprint want ks out n ≡ (out ++ kept ks, n + hits ks)
  unfolding drop_loop kept hits
  drop_loop_lem [] out n = let e : n + 0 ≡ n = omega arith in rw (e, append-nil) refl
  drop_loop_lem (v ∷ ks) out n = elim (Bool-cases (names fingerprint want v)) [
    | inl e ↦
        let f : n + 1 + hits ks ≡ n + suc (hits ks) = omega arith in
        rw (e, drop_loop) (drop_loop_lem ks out (n + 1) ∙ ap (λ m. (out ++ kept ks, m)) f)
    | inr e ↦
        rw (e, drop_loop)
          (drop_loop_lem ks (out ++ v ∷ []) n
            ∙ ap (λ l. (l, n + hits ks)) (append_assoc out (v ∷ []) (kept ks)))
  ]

  -- No key is named; or one is, between others; or two are, and more perhaps.
  abbrev pub Unnamed : List Bytes → Type 0
  Unnamed = All (λ v. names fingerprint want v ≡ false)

  abbrev pub Dropped : List Bytes → Result (List Bytes) → Type 0
  Dropped ks r =
      (Unnamed ks × (r ≡ failed (unmatched want)))
      ⊎ ((before : List Bytes) × (k : Bytes) × (after : List Bytes) × (ks ≡ before ++ k ∷ after)
          × (names fingerprint want k ≡ true)
          × Unnamed before
          × Unnamed after
          × (r ≡ done (before ++ after)))
      ⊎ ((before : List Bytes) × (k : Bytes) × (middle : List Bytes) × (l : Bytes) × (after : List
            Bytes)
          × (ks ≡ before ++ k ∷ (middle ++ l ∷ after))
          × (names fingerprint want k ≡ true)
          × (names fingerprint want l ≡ true)
          × (n : ℕ) × (2 ≤ n)
          × (r ≡ failed (ambiguous want n)))

  kept_all_lem : (ks : List Bytes) → Unnamed ks → (kept ks ≡ ks) × (hits ks ≡ 0)
  unfolding kept hits
  kept_all_lem [] h = (refl, refl)
  kept_all_lem (v ∷ ks) h = ground (arith, h.0, kept_all_lem ks h.1)

  -- The first named key, if there is one.
  first_named :
      (ks : List Bytes)
      → Unnamed ks
        ⊎ ((before : List Bytes) × (k : Bytes) × (after : List Bytes) × (ks ≡ before ++ k ∷ after)
            × (names fingerprint want k ≡ true)
            × Unnamed before
            × (kept ks ≡ before ++ kept after)
            × (hits ks ≡ suc (hits after)))
  unfolding kept hits
  first_named [] = inl tt
  first_named (v ∷ ks) = elim (Bool-cases (names fingerprint want v)) [
    | inl e ↦ inr ([], v, ks, refl, e, tt, rw e refl, rw e refl)
    | inr e ↦ elim (first_named ks) [
      | inl u ↦ inl (e, u)
      | inr (before, k, after, s, n, u, f, g) ↦
          inr (v ∷ before, k, after, ap (◌∷◌ v) s, n, (e, u), rw e (ap (◌∷◌ v) f), rw e g)
    ]
  ]

  -- A key is named by its value or by a prefix of its fingerprint. Where no key is, and where two or
  -- more are, nothing is removed and the error says which; where one is, that one key is removed and
  -- the others keep their order.
  pub drop_key-Dropped : (ks : List Bytes) → Dropped ks (drop_key fingerprint ks want)
  unfolding drop_key dropped
  drop_key-Dropped ks = elim (first_named ks) [
    | inl u ↦ inl (u, rw (drop_loop_lem ks [] 0, dropped, (kept_all_lem ks u).1) refl)
    | inr (before, k, after, s, n, u, f, g) ↦ elim (first_named after) [
      | inl w ↦ inr (
          inl (
            before,
            k,
            after,
            s,
            n,
            u,
            w,
            rw
                (
                  drop_loop_lem ks [] 0,
                  dropped,
                  g,
                  (kept_all_lem after w).1,
                  f,
                  (kept_all_lem after w).0,
                )
                refl,
          ))
      | inr (middle, l, rest, t, m, _, _, j) ↦ inr (
          inr (
            before,
            k,
            middle,
            l,
            rest,
            s ∙ ap (λ x. before ++ k ∷ x) t,
            n,
            m,
            suc (suc (hits rest)),
            omega arith,
            rw (drop_loop_lem ks [] 0, dropped, g, j) (ground arith),
          ))
    ]
  ]
