-- ===== src/Edit/Result.antt =====
-- internal/edit: what an edit returns, a value or one of its errors, and the panics of indexing.
use omny.Base.{ℕ, ◌≡◌, refl, ◌⊎◌, inl, inr, Bytes}

-- One constructor for each error of the package.
pub data Failure : Type 0 where
  unreadable unparsable : Failure
  no_provider one_line cannot_locate : Bytes → Failure
  outside_file : Bytes → ℕ → Failure
  other_url : Bytes → Failure
  no_providers_section : Failure
  not_replaced : Failure
  unmatched : Bytes → Failure
  ambiguous : Bytes → ℕ → Failure
  too_many : ℕ → Failure
  no_input empty_input : Failure
  bad_flags no_name endpoint_url : Failure
  keyless_key : Bytes → Failure
  want_two : Failure
  unknown_command : Bytes → Failure

pub data Result {ℓ} (A : Type ℓ) : Type ℓ where
  done : A → Result A
  failed : Failure → Result A
  panics : Result A

infixl 5 ◌>>=◌
abbrev pub ◌>>=◌ {ℓ κ} : {A : Type ℓ} {B : Type κ} → Result A → (A → Result B) → Result B
done a >>= f = f a
failed e >>= f = failed e
panics >>= f = panics

pub Result-cases {ℓ} :
    {A : Type ℓ} (r : Result A)
    → ((a : A) × (r ≡ done a)) ⊎ ((e : Failure) × (r ≡ failed e)) ⊎ (r ≡ panics)
Result-cases (done a) = inl (a, refl)
Result-cases (failed e) = inr (inl (e, refl))
Result-cases panics = inr (inr refl)

-- A successful chain, taken apart.
pub >>=-done {ℓ κ} :
    {A : Type ℓ} {B : Type κ} (m : Result A) (f : A → Result B) {b : B}
    → (m >>= f) ≡ done b
    → (a : A) × (m ≡ done a) × (f a ≡ done b)
>>=-done (done a) f h = (a, refl, h)
>>=-done (failed e) f h = cc
>>=-done panics f h = cc
