-- ===== src/Serve/Models.antt =====
-- `models`: the ids of the page.
use omny.Base.{
  ◌≡◌, refl, Bool, true, false, ◌||◌, List, [], ◌∷◌, Bytes, bytes_eq, bytes_eq_iff, Bool-cases, inl,
  inr, arith,
}
use omny.Serve.{before, place_id, place_ids, models}

-- Whether the id is in the list.
unfoldable pub listed : Bytes → List Bytes → Bool
listed z [] = false
listed z (x ∷ xs) = bytes_eq z x || listed z xs

-- Whether the id is an alias or stands in an alias's entries.
unfoldable pub named : Bytes → List (Bytes × List Bytes) → Bool
named z [] = false
named z ((a, es) ∷ more) = (bytes_eq z a || listed z es) || named z more

-- Each id before the next one, so no id stands twice.
abbrev pub Below : Bytes → List Bytes → Type 0
Below x [] = Unit {0}
Below x (y ∷ ys) = before x y ≡ true

abbrev pub IsAscending : List Bytes → Type 0
IsAscending [] = Unit {0}
IsAscending (x ∷ xs) = Below x xs × IsAscending xs

before_total : (x y : Bytes) → bytes_eq x y ≡ false → before x y ≡ false → before y x ≡ true
unfolding before bytes_eq
before_total [] [] e h = absurd (cc)
before_total [] (y ∷ ys) e h = absurd (cc)
before_total (x ∷ xs) [] e h = refl
before_total (x ∷ xs) (y ∷ ys) e h = let k = before_total xs ys in ground arith

place_id-Below :
    (y x : Bytes) (ids : List Bytes) → before y x ≡ true → Below y ids → Below y (place_id x ids)
unfolding place_id
place_id-Below y x [] h b = h
place_id-Below y x (z ∷ zs) h b = elim (Bool-cases (bytes_eq x z)) [
  | inl e ↦ rw e b
  | inr e ↦ rw e (elim (Bool-cases (before x z)) [ inl f ↦ rw f h | inr f ↦ rw f b ])
]

place_id-IsAscending :
    (x : Bytes) (ids : List Bytes) → IsAscending ids → IsAscending (place_id x ids)
unfolding place_id
place_id-IsAscending x [] h = (tt, tt)
place_id-IsAscending x (y ∷ ys) h = elim (Bool-cases (bytes_eq x y)) [
  | inl e ↦ rw e h
  | inr e ↦ rw e (elim (Bool-cases (before x y)) [
    | inl f ↦ rw f (f, h)
    | inr f ↦ rw f (place_id-Below y x ys (before_total x y e f) h.0, place_id-IsAscending x ys h.1)
  ])
]

listed-place_id :
    (z x : Bytes) (ids : List Bytes) → listed z (place_id x ids) ≡ (bytes_eq z x || listed z ids)
unfolding place_id listed
listed-place_id z x [] = refl
listed-place_id z x (y ∷ ys) = elim (Bool-cases (bytes_eq x y)) [
  | inl e ↦
      let same : x ≡ y = (bytes_eq_iff x y).0 e in
      rw e (let b = bytes_eq z y in rw same (ground arith))
  | inr e ↦ rw e (elim (Bool-cases (before x y)) [
    | inl f ↦ rw f refl
    | inr f ↦ rw f (rw (listed-place_id z x ys) (ground arith))
  ])
]

place_ids-IsAscending : (xs ids : List Bytes) → IsAscending ids → IsAscending (place_ids xs ids)
unfolding place_ids
place_ids-IsAscending [] ids h = h
place_ids-IsAscending (x ∷ xs) ids h =
    place_ids-IsAscending xs (place_id x ids) (place_id-IsAscending x ids h)

listed-place_ids :
    (z : Bytes) (xs ids : List Bytes) → listed z (place_ids xs ids) ≡ (listed z xs || listed z ids)
unfolding place_ids listed
listed-place_ids z [] ids = refl
listed-place_ids z (x ∷ xs) ids =
    rw (listed-place_ids z xs (place_id x ids), listed-place_id z x ids) (ground arith)

-- The ids of the models page are in strictly ascending order, and an id is among them just when it is
-- the name of an alias or one of an alias's entries.
pub models_lem :
    (aliases : List (Bytes × List Bytes))
    → IsAscending (models aliases) × ((z : Bytes) → listed z (models aliases) ≡ named z aliases)
unfolding models named listed
models_lem [] = (tt, λ z. refl)
models_lem ((a, es) ∷ more) =
    let (h, k) = models_lem more in
    (
      place_ids-IsAscending (a ∷ es) (models more) h,
      λ z. rw (listed-place_ids z (a ∷ es) (models more), k z) refl,
    )
