-- ===== src/State/Atomic.antt =====
-- `Replace`: the content of the file after each of its calls.
use omny.Base.{
  ℕ, ◌≡◌, ◌≢◌, refl, sym, ◌∙◌, ◌⊎◌, inl, inr, Bool, true, false, List, [], ◌∷◌, ◌++◌, Option, none,
  some, arith, All, Bytes, bytes, bytes_eq, bytes_eq_iff, bytes_eq_refl, update, if◌then◌else◌,
  Bool-cases, subst,
}
use omny.State.{Files, Calls, temporary, clean, rename, approves, replace}

append_ne : (xs : Bytes) (y : ℕ) (ys : Bytes) → xs ++ y ∷ ys ≢ xs
append_ne [] y ys = λ e. ground arith
append_ne (x ∷ xs) y ys = λ e. append_ne xs y ys (ground arith)

temporary-bytes_eq : (path : Bytes) → bytes_eq (temporary path) path ≡ false
unfolding temporary
temporary-bytes_eq path = elim (Bool-cases (bytes_eq (path ++ bytes ".tmp") path)) [
  | inl f ↦ absurd (append_ne path _ _ ((bytes_eq_iff (path ++ bytes ".tmp") path).0 f))
  | inr f ↦ f
]

-- The files at the end of a list of states.
unfoldable pub final : Files → List Files → Files
final fs [] = fs
final fs (f ∷ more) = final f more

-- The states that a replacement passes through, and its result.
abbrev pub IsAtomic :
    Option (Files → Bytes → Bool) → Bytes → Bytes → Files → List Files × Bool → Type 0
IsAtomic vet path b fs (states, ok) =
    All (λ f. (f path ≡ fs path) ⊎ (f path ≡ some b)) states
    × (ok ≡ false → All (λ f. f path ≡ fs path) states)
    × (ok ≡ true
        → (final fs states path ≡ some b)
          × (approves vet (update fs (temporary path) (some b)) (temporary path) ≡ true))
    × All
        (λ f.
          (other : Bytes)
          → bytes_eq path other ≡ false
          → bytes_eq (temporary path) other ≡ false
          → f other ≡ fs other)
        states

update-temporary :
    (path : Bytes) (c : Option Bytes) (fs : Files) → update fs (temporary path) c path ≡ fs path
unfolding update
update-temporary path c fs = rw (temporary-bytes_eq path) refl

update_other :
    (fs : Files) (k : Bytes) (c : Option Bytes) (other : Bytes)
    → bytes_eq k other ≡ false
    → update fs k c other ≡ fs other
unfolding update
update_other fs k c other h = rw h refl

clean_path :
    (removes : Bool) (path : Bytes) (fs : Files) → clean removes (temporary path) fs path ≡ fs path
unfolding clean
clean_path removes path fs = elim (Bool-cases removes) [
  | inl e ↦ rw e (update-temporary path none fs)
  | inr e ↦ rw e refl
]

clean_other :
    (removes : Bool) (tmp : Bytes) (fs : Files) (other : Bytes)
    → bytes_eq tmp other ≡ false
    → clean removes tmp fs other ≡ fs other
unfolding clean
clean_other removes tmp fs other h = elim (Bool-cases removes) [
  | inl e ↦ rw e (update_other fs tmp none other h)
  | inr e ↦ rw e refl
]

-- A failure after the temporary file is written.
undone :
    (partial : Bytes) (removes : Bool) (vet : Option (Files → Bytes → Bool)) (path b : Bytes)
    (fs : Files)
    → let begun = update fs (temporary path) (some partial) in
      let written = update fs (temporary path) (some b) in
      IsAtomic vet path b fs (begun ∷ written ∷ clean removes (temporary path) written ∷ [], false)
undone partial removes vet path b fs =
    let written = update fs (temporary path) (some b) in
    let e = update-temporary path (some partial) fs in
    let f = update-temporary path (some b) fs in
    let g = clean_path removes path written ∙ f in
    (
      (inl e, (inl f, (inl g, tt))),
      (λ _. (e, (f, (g, tt)))),
      (λ h. absurd (ground (arith, h))),
      (
        λ o p t. update_other fs _ _ o t,
        (
          λ o p t. update_other fs _ _ o t,
          (λ o p t. clean_other removes _ written o t ∙ update_other fs _ _ o t, tt),
        ),
      ),
    )

renamed :
    (partial : Bytes) (renames removes : Bool) (vet : Option (Files → Bytes → Bool))
    (path b : Bytes) (fs : Files)
    → let begun = update fs (temporary path) (some partial) in
      let written = update fs (temporary path) (some b) in
      approves vet written (temporary path) ≡ true
      → IsAtomic vet path b fs (
        begun ∷ written ∷ (rename renames removes path b written).0,
        (rename renames removes path b written).1,
      )
unfolding rename final update
renamed partial renames removes vet path b fs ok = elim (Bool-cases renames) [
  | inr r ↦ rw r (undone partial removes vet path b fs)
  | inl r ↦
      let e = update-temporary path (some partial) fs in
      let f = update-temporary path (some b) fs in
      rw r (
        (inl e, (inl f, (inr (rw (bytes_eq_refl path) refl), tt))),
        (λ h. absurd (ground (arith, h))),
        (λ _. (rw (bytes_eq_refl path) refl, ok)),
        (λ o p t. rw t refl, (λ o p t. rw t refl, (λ o p t. rw (p, t) refl, tt))),
      )
]

replaced :
    (partial : Bytes) (writes renames removes : Bool) (vet : Option (Files → Bytes → Bool))
    (path b : Bytes) (fs : Files)
    → let calls : Calls = record {
      partial = partial;
      writes = writes;
      renames = renames;
      removes = removes;
    } in
      IsAtomic vet path b fs (replace calls vet path b fs)
unfolding replace final
replaced partial false renames removes vet path b fs =
    let e = update-temporary path (some partial) fs in
    (
      (inl e, tt),
      (λ _. (e, tt)),
      (λ h. absurd (ground (arith, h))),
      (λ o p t. update_other fs _ _ o t, tt),
    )
replaced partial true renames removes vet path b fs =
    let begun = update fs (temporary path) (some partial) in
    let written = update fs (temporary path) (some b) in
    let rest : Bool → List Files × Bool = λ x.
      if x
      then rename renames removes path b written
      else (clean removes (temporary path) written ∷ [], false) in
    let P : Bool → Type 0 =
      λ x. IsAtomic vet path b fs (begun ∷ written ∷ (rest x).0, (rest x).1) in
    elim (Bool-cases (approves vet written (temporary path))) [
      | inl a ↦ subst P (sym a) (renamed partial renames removes vet path b fs a)
      | inr a ↦ subst P (sym a) (undone partial removes vet path b fs)
    ]

-- In every state that `Replace` passes through, and so after a crash at any point of it, the file
-- holds its old content or all of the new one. Where it returns an error the file has its old content
-- throughout; where it returns nil the file has the new content and the vet, where there is one,
-- approved it. No other file but the temporary one changes.
pub replace-IsAtomic :
    (calls : Calls) (vet : Option (Files → Bytes → Bool)) (path b : Bytes) (fs : Files)
    → IsAtomic vet path b fs (replace calls vet path b fs)
replace-IsAtomic calls = replaced calls.partial calls.writes calls.renames calls.removes
