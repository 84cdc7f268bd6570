-- ===== src/Body/Sending.antt =====
-- `send`: the announced length, and what of the client's body is sent.
use omny.Base.{
  subst, lookup, insert, bytes, ◌||◌, lookup-insert, some_inj, none_ne_some, drop-drop,
  take-between-drop, length-between, length-take_of_le, ◌+◌, ◌-◌, ◌≤◌, ◌<◌, ◌≡◌, refl, sym, ap, ◌∙◌,
  ◌⊎◌, inl, inr, Bool, false, not, ◌&&◌, List, [], ◌++◌, Option, none, some, arith, Bytes, bytes_eq,
  bytes_eq_iff, ◌==◌, if◌then◌else◌, length, length-append, take, drop, take-append-drop,
  Bool-cases, Option-cases,
}
use omny.Loader.{is_none}
use omny.Body.{Plan, Want, counted, inject, slice, swap, send}

length_three : (a b c : Bytes) → length a + length b + length c ≡ length (a ++ (b ++ c))
length_three a b c = omega (arith, length-append a (b ++ c), length-append b c)

length_five :
    (a b c d e : Bytes)
    → length a + length b + length c + length d + length e ≡ length (a ++ (b ++ (c ++ (d ++ e))))
length_five a b c d e = omega (arith, length_three c d e, length_three a b (c ++ (d ++ e)))

module _ (marshal : Bytes → Bytes) (members : Bytes → Option (List (Bytes × Bytes)))
    (encode : List (Bytes × Bytes) → Bytes) where
  -- A plan whose offsets lie in its body: the value before the last brace.
  pub record IsPlan (p : Plan) : Type 0 where
    pub ordered : p.lo ≤ p.hi
    pub before_brace : p.hi ≤ p.end
    pub inside : p.end < length p.body

  -- The body written again from its fields: the model's name is the given one, the usage option is
  -- added where it is asked for and not there, and every other field is as in the body.
  pub record IsRewritten (body model : Bytes) (meter : Bool) (sent : Bytes) : Type 0 where
    pub before : List (Bytes × Bytes)
    pub after : List (Bytes × Bytes)
    pub read : members body ≡ some before
    pub written : sent ≡ encode after
    pub model_named : lookup (bytes "model") after ≡ some (marshal model)
    pub options_lem : lookup (bytes "stream_options") after ≡ (
        if meter && is_none (lookup (bytes "stream_options") before)
        then some counted
        else lookup (bytes "stream_options") before)
    pub others :
        (k : Bytes)
        → bytes_eq k (bytes "model") ≡ false
        → bytes_eq k (bytes "stream_options") ≡ false
        → lookup k after ≡ lookup k before

  -- What is sent of the body in place of the received one.
  abbrev pub IsSent : Plan → Bytes → Bool → Bytes → Type 0
  IsSent p model meter sent =
      ((sent ≡ p.body) × (model ≡ p.want.model) × ((meter && is_none p.want.options) ≡ false))
      ⊎ ((p.hi ≡ 0) × IsRewritten p.body model meter sent)
      ⊎ ((0 < p.hi)
          × (head : Bytes) × (old : Bytes) × (mid : Bytes) × (last : Bytes) × (p.body
              ≡ head ++ (old ++ (mid ++ last)))
          × (length head ≡ p.lo)
          × (length head + length old ≡ p.hi)
          × (length head + length old + length mid ≡ p.end)
          × (sent
              ≡ head
                ++ (marshal model
                    ++ (mid
                        ++ ((if meter && is_none p.want.options then inject else []) ++ last)))))

  -- The fields that `swap` writes.
  abbrev named : Bytes → List (Bytes × Bytes) → List (Bytes × Bytes)
  named model m = insert (bytes "model") (marshal model) m

  abbrev fields_of : Bytes → Bool → List (Bytes × Bytes) → List (Bytes × Bytes)
  fields_of model meter m =
      if meter && is_none (lookup (bytes "stream_options") (named model m))
      then insert (bytes "stream_options") counted (named model m)
      else named model m

  lookup-other :
      (j k v : Bytes) (m : List (Bytes × Bytes))
      → bytes_eq k j ≡ false
      → lookup k (insert j v m) ≡ lookup k m
  lookup-other j k v m f = ground (arith, lookup-insert j k v m, bytes_eq_iff j k, bytes_eq_iff k j)

  rewritten :
      (body model : Bytes) (meter : Bool) (m : List (Bytes × Bytes))
      → members body ≡ some m
      → IsRewritten body model meter (encode (fields_of model meter m))
  unfolding bytes_eq
  rewritten body model meter m e =
      let x = named model m in
      let o : lookup (bytes "stream_options") x ≡ lookup (bytes "stream_options") m =
        lookup-insert (bytes "model") (bytes "stream_options") (marshal model) m in
      let n : lookup (bytes "model") x ≡ some (marshal model) =
        lookup-insert (bytes "model") (bytes "model") (marshal model) m in
      let kept : (k : Bytes) → bytes_eq k (bytes "model") ≡ false → lookup k x ≡ lookup k m =
        λ k f. lookup-other (bytes "model") k (marshal model) m f in
      elim (Bool-cases (meter && is_none (lookup (bytes "stream_options") m))) [
        | inl a ↦ record {
          before = m;
          after = insert (bytes "stream_options") counted x;
          read = e;
          written = rw (o, a) refl;
          model_named = lookup-insert (bytes "stream_options") (bytes "model") counted x ∙ n;
          options_lem =
              rw a (lookup-insert (bytes "stream_options") (bytes "stream_options") counted x);
          others = λ k f g. lookup-other (bytes "stream_options") k counted x g ∙ kept k f;
        }
        | inr a ↦ record {
          before = m;
          after = x;
          read = e;
          written = rw (o, a) refl;
          model_named = n;
          options_lem = rw a o;
          others = λ k f g. kept k f;
        }
      ]

  swap_lem :
      (body model sent : Bytes) (want : Want) (meter : Bool)
      → (bytes_eq model want.model && (not meter || not (is_none want.options))) ≡ false
      → swap marshal members encode body model want meter ≡ some sent
      → IsRewritten body model meter sent
  unfolding swap
  swap_lem body model sent want meter f h = elim (Option-cases (members body)) [
    | inl e ↦ absurd (none_ne_some (rw (swap, f, e) at h))
    | inr (m, e) ↦
        let s : encode (fields_of model meter m) ≡ sent = some_inj (rw (swap, f, e) at h) in
        subst (IsRewritten body model meter) s (rewritten body model meter m e)
  ]

  swap-none :
      (body model : Bytes) (want : Want) (meter : Bool)
      → (bytes_eq model want.model && (not meter || not (is_none want.options))) ≡ false
      → swap marshal members encode body model want meter ≡ none
      → members body ≡ none
  unfolding swap
  swap-none body model want meter f h = elim (Option-cases (members body)) [
    | inl e ↦ e
    | inr (m, e) ↦ absurd (none_ne_some (sym (rw (swap, f, e) at h)))
  ]

  rest_lem : (p : Plan) → IsPlan p → drop p.hi p.body ≡ slice p.body p.hi p.end ++ drop p.end p.body
  unfolding slice
  rest_lem p v =
      let e : p.hi + (p.end - p.hi) ≡ p.end = omega (arith, v.before_brace) in
      sym (take-append-drop (p.end - p.hi) (drop p.hi p.body))
      ∙ ap (λ x. take (p.end - p.hi) (drop p.hi p.body) ++ x)
          (drop-drop (p.end - p.hi) p.hi p.body ∙ ap (λ n. drop n p.body) e)

  kept_slices :
      (p : Plan)
      → IsPlan p
      → (p.body
          ≡ take p.lo p.body
            ++ (slice p.body p.lo p.hi ++ (slice p.body p.hi p.end ++ drop p.end p.body)))
        × (length (take p.lo p.body) ≡ p.lo)
        × (length (take p.lo p.body) + length (slice p.body p.lo p.hi) ≡ p.hi)
        × (length (take p.lo p.body)
              + length (slice p.body p.lo p.hi)
              + length (slice p.body p.hi p.end)
            ≡ p.end)
  unfolding slice
  kept_slices p v =
      let a = v.ordered in
      let b = v.before_brace in
      let c = v.inside in
      let first = length-take_of_le p.lo p.body (omega (arith, a, b, c)) in
      let second = length-between p.lo p.hi p.body a (omega (arith, b, c)) in
      let third = length-between p.hi p.end p.body b (omega (arith, c)) in
      let rest = length-take_of_le p.hi p.body (omega (arith, b, c)) in
      (
        take-between-drop p.lo p.hi p.body a
            ∙ ap (λ x. take p.lo p.body ++ (slice p.body p.lo p.hi ++ x)) (rest_lem p v),
        first,
        second,
        omega (arith, second, third, rest),
      )

  -- What `send` gives of a plan with its offsets in order is as long as announced. It is the client's
  -- body where neither the model nor the options change. Where the value of the model was not found,
  -- it is the body's object with the model's name, with the option for a metered request that has
  -- none, and with every other field as it was. Else it is the client's body with that value replaced by the name and, for
  -- a metered request without options, the option inserted before the last brace, every other byte
  -- kept. It gives nothing only where that value was not
  -- found and the body is not read as an object.
  pub send_lem :
      (p : Plan) (model : Bytes) (meter : Bool)
      → IsPlan p
      → ((send marshal members encode p model meter ≡ none) × (p.hi ≡ 0) × (members p.body ≡ none))
        ⊎ ((sent : Bytes) × (send marshal members encode p model meter ≡ some (sent, length sent))
            × IsSent p model meter sent)
  unfolding send
  send_lem p model meter v =
      let add = meter && is_none p.want.options in
      let (whole, first, second, third) = kept_slices p v in
      elim (Bool-cases (bytes_eq model p.want.model && not add)) [
        | inl e ↦ inr (
          p.body,
          rw e refl,
          inl (refl, (bytes_eq_iff model p.want.model).0 (ground arith), ground arith),
        )
        | inr e ↦ elim (Bool-cases (p.hi == 0)) [
          | inl f ↦ elim (Option-cases (swap marshal members encode p.body model p.want meter)) [
            | inl g ↦ inl (
              rw (e, f, send, g) refl,
              ground arith,
              swap-none p.body model p.want meter (ground arith) g,
            )
            | inr (b, g) ↦ inr (
              b,
              rw (e, f, send, g) refl,
              inr (inl (ground arith, swap_lem p.body model b p.want meter (ground arith) g)),
            )
          ]
          | inr f ↦
              let head = take p.lo p.body in
              let old = slice p.body p.lo p.hi in
              let mid = slice p.body p.hi p.end in
              let last = drop p.end p.body in
              elim (Bool-cases (meter && is_none p.want.options)) [
                | inl a ↦ inr (
                  head ++ (marshal model ++ (mid ++ (inject ++ last))),
                  rw (e, f, a)
                      (ap (λ n. some (head ++ (marshal model ++ (mid ++ (inject ++ last))), n))
                        (length_five head (marshal model) mid inject last)),
                  rw a (
                      inr (
                        inr
                          (ground arith, head, old, mid, last, whole, first, second, third, refl))),
                )
                | inr a ↦ inr (
                  head ++ (marshal model ++ drop p.hi p.body),
                  rw (e, f, a)
                      (ap (λ n. some (head ++ (marshal model ++ drop p.hi p.body), n))
                        (length_three head (marshal model) (drop p.hi p.body))),
                  rw a (
                      inr (
                        inr (
                          ground arith,
                          head,
                          old,
                          mid,
                          last,
                          whole,
                          first,
                          second,
                          third,
                          ap (λ x. head ++ (marshal model ++ x)) (rest_lem p v),
                        ))),
                )
              ]
        ]
      ]
