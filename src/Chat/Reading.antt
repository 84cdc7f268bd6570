-- ===== src/Chat/Reading.antt =====
-- `slurp` and the test of an empty name.
use omny.Loader.{is_empty}
use omny.Base.{
  [], ◌∷◌, ◌≢◌, ℕ, ◌≤◌, ◌≡◌, refl, true, false, ◌||◌, some, arith, Bytes, ltb, ◌==◌, length,
  Bool-cases, inl, inr,
}
use omny.Base.Int.{ℤ, pos, negsuc}
use omny.Admission.{max_body, room}
use omny.Chat.{Reader, slurp}

pub is_empty-nil : (b : Bytes) → is_empty b ≡ true → b ≡ []
unfolding is_empty
is_empty-nil [] h = refl
is_empty-nil (x ∷ xs) h = absurd (cc)

pub is_empty-ne : (b : Bytes) → is_empty b ≡ false → b ≢ []
unfolding is_empty
is_empty-ne [] h = absurd (cc)
is_empty-ne (x ∷ xs) h = λ e. cc

-- What net/http documents: a limited reader gives at most the limit, and a body ends where its
-- announced length does.
pub record IsBounded {U : Type 0} (reader : Reader U) : Type 0 where
  pub all_limited :
      (n : ℕ) (u : U) (b : Bytes) → reader.read_all (reader.limit n u) ≡ some b → length b ≤ n
  pub from_limited :
      (n : ℕ) (u : U) (b : Bytes) → reader.read_from (reader.limit n u) ≡ some b → length b ≤ n
  pub all_announced :
      (n len : ℕ) (u : U) (b : Bytes)
      → reader.content_length u ≡ pos len
      → reader.read_all (reader.limit n u) ≡ some b
      → length b ≤ len
  pub from_announced :
      (n len : ℕ) (u : U) (b : Bytes)
      → reader.content_length u ≡ pos len
      → reader.read_from (reader.limit n u) ≡ some b
      → length b ≤ len

module _ {U : Type 0} (reader : Reader U) where
  slurp_of :
      (len : ℤ) (u : U) (b : Bytes)
      → IsBounded reader
      → reader.content_length u ≡ len
      → slurp reader u ≡ some b
      → length b ≤ room len
  unfolding slurp room
  slurp_of (negsuc n) u b v e h = v.all_limited max_body u b (rw (e, slurp) at h)
  slurp_of (pos n) u b v e h = elim (Bool-cases (n == 0 || ltb max_body n)) [
    | inl f ↦
        let g = rw (e, slurp, f) at h in
        ground (arith, v.all_limited max_body u b g, v.all_announced max_body n u b e g)
    | inr f ↦
        let g = rw (e, slurp, f) at h in
        ground (arith, v.from_limited max_body u b g, v.from_announced max_body n u b e g)
  ]

  -- A body that is read is no longer than the memory that was reserved for it, so at most 32 MB.
  pub slurp-room :
      (u : U) (b : Bytes)
      → IsBounded reader
      → slurp reader u ≡ some b
      → length b ≤ room (reader.content_length u)
  slurp-room u b v h = slurp_of (reader.content_length u) u b v refl h
