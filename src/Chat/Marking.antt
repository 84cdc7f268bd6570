-- ===== src/Chat/Marking.antt =====
-- `mark`: the ids of requests.
use omny.Base.{
  ℕ, suc, ◌≤◌, ◌≡◌, ◌≢◌, refl, sym, ap, ◌∙◌, ◌⊎◌, inl, inr, true, not, ◌&&◌, [], ◌++◌, ◌∷◌, arith,
  Bytes, All, Bool-cases, bytes,
}
use omny.Loader.{is_empty}
use omny.Chat.Reading.{is_empty-ne}
use omny.Chat.{printable, clipped, made, mark}

printable-All : (b : Bytes) → printable b ≡ true → All (λ c. (32 ≤ c) × (c ≤ 126)) b
unfolding printable
printable-All [] h = tt
printable-All (c ∷ cs) h = (ground arith, printable-All cs (ground arith))

cons-inj : {x : ℕ} {xs ys : Bytes} → x ∷ xs ≡ x ∷ ys → xs ≡ ys
cons-inj e = cc

append_cancel : (xs a b : Bytes) → xs ++ a ≡ xs ++ b → a ≡ b
append_cancel [] a b e = e
append_cancel (x ∷ xs) a b e = append_cancel xs a b (cons-inj e)

module _ (run : Bytes) (base36 : ℕ → Bytes) where
  -- A request keeps the first 64 bytes of the id that it bears, where these are printable, and gets else
  -- one that is made of the next number.
  pub mark_lem :
      (got : Bytes) (seq : ℕ)
      → ((mark run base36 got seq ≡ (clipped got, seq))
          × (got ≢ [])
          × All (λ c. (32 ≤ c) × (c ≤ 126)) (clipped got))
        ⊎ (mark run base36 got seq ≡ made run base36 seq)
  unfolding mark
  mark_lem got seq = elim (Bool-cases (not (is_empty got) && printable (clipped got))) [
    | inl e ↦
        inl (rw e refl, is_empty-ne got (ground arith), printable-All (clipped got) (ground arith))
    | inr e ↦ inr (rw e refl)
  ]

  -- Two requests of one process whose ids are made of the counter have different ids, where numbers are
  -- written differently.
  pub mark-ne :
      (got got' : Bytes) (seq seq' : ℕ)
      → ((m n : ℕ) → base36 m ≡ base36 n → m ≡ n)
      → mark run base36 got seq ≡ made run base36 seq
      → mark run base36 got' seq' ≡ made run base36 seq'
      → (mark run base36 got seq).1 ≤ seq'
      → (mark run base36 got seq).0 ≢ (mark run base36 got' seq').0
  unfolding made
  mark-ne got got' seq seq' inj e f l same =
      let h : run ++ (bytes "-" ++ base36 (suc seq)) ≡ run ++ (bytes "-" ++ base36 (suc seq')) =
        sym (ap (λ x. x.0) e) ∙ same ∙ ap (λ x. x.0) f in
      let k = inj (suc seq) (suc seq') (append_cancel (bytes "-") _ _ (append_cancel run _ _ h)) in
      omega (arith, k, l, ap (λ x. x.1) e)
