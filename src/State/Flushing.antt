-- ===== src/State/Flushing.antt =====
-- internal/omny/state.go, `flush`: the saves of a running gateway and the last one, after its stop.
use omny.Base.{
  ◌≡◌, refl, ap, ◌∙◌, ◌⊎◌, inl, inr, Bool, true, List, [], ◌∷◌, ◌++◌, Option, none, some, All,
  All-map, All-append, Bytes, subst,
}
use omny.Pool.{Pool}
use omny.State.{Saved, Files, Calls, snapshot, save, restore, resume}
use omny.State.Atomic.{final, replace-IsAtomic}

module _ (encode : Saved → Bytes) (decode : Bytes → Option Saved) where
  -- `flush`: one save for each tick, with the pool as it is then, and one for the stop. The result of
  -- the saves before the last one only goes to the log.
  unfoldable pub flush : List (Calls × Pool) → Calls × Pool → Files → List Files × Bool
  flush [] (calls, p) fs = save encode decode calls p fs
  flush ((calls, p) ∷ ticks) stop fs =
      let states = (save encode decode calls p fs).0 in
      let (rest, ok) = flush ticks stop (final fs states) in (states ++ rest, ok)

  abbrev pub text_of : Pool → Bytes
  text_of p = encode (snapshot p)

  -- The old content, or the text of one of the pools.
  abbrev pub Among : List Pool → Option Bytes → Option Bytes → Type 0
  Among [] old o = o ≡ old
  Among (p ∷ ps) old o = (o ≡ some (text_of p)) ⊎ Among ps old o

  abbrev pub pools : List (Calls × Pool) → Calls × Pool → List Pool
  pools [] (calls, p) = p ∷ []
  pools ((calls, p) ∷ ticks) stop = p ∷ pools ticks stop

  Among-old : (ps : List Pool) (old o : Option Bytes) → o ≡ old → Among ps old o
  Among-old [] old o e = e
  Among-old (p ∷ ps) old o e = inr (Among-old ps old o e)

  -- A file that was written between is one of the contents.
  Among-later :
      (p : Pool) (ps : List Pool) (old mid o : Option Bytes)
      → Among (p ∷ []) old mid
      → Among ps mid o
      → Among (p ∷ ps) old o
  Among-later p [] old mid o (inl e) h = inl (h ∙ e)
  Among-later p [] old mid o (inr e) h = inr (h ∙ e)
  Among-later p (q ∷ ps) old mid o e (inl h) = inr (inl h)
  Among-later p (q ∷ ps) old mid o e (inr h) = elim (Among-later p ps old mid o e h) [
    | inl i ↦ inl i
    | inr i ↦ inr (inr i)
  ]

  final-All :
      (P : Files → Type 0) (fs : Files) (states : List Files)
      → P fs
      → All P states
      → P (final fs states)
  unfolding final
  final-All P fs [] h a = h
  final-All P fs (f ∷ states) h a = final-All P f states a.0 a.1

  pub final-append :
      (fs : Files) (xs ys : List Files) → final fs (xs ++ ys) ≡ final (final fs xs) ys
  unfolding final
  final-append fs [] ys = refl
  final-append fs (x ∷ xs) ys = final-append x xs ys

  save_lem :
      (calls : Calls) (p : Pool) (fs : Files) (path : Bytes)
      → p.path ≡ path
      → All (λ f. Among (p ∷ []) (fs path) (f path)) (save encode decode calls p fs).0
        × ((save encode decode calls p fs).1 ≡ true
            → final fs (save encode decode calls p fs).0 path ≡ some (text_of p))
  unfolding save
  save_lem calls p fs path same =
      let (either, _, now, _) = replace-IsAtomic calls none p.path (text_of p) fs in
      subst
        (λ x.
          All (λ f. Among (p ∷ []) (fs x) (f x)) (save encode decode calls p fs).0
          × ((save encode decode calls p fs).1 ≡ true
              → final fs (save encode decode calls p fs).0 x ≡ some (text_of p)))
        same (All-map (λ f h. elim h [ inl e ↦ inr e | inr e ↦ inl e ]) _ either, λ ok. (now ok).0)

  pub restore_of_file :
      (fs : Files) (q : Pool) (path b : Bytes) (s : Saved)
      → q.path ≡ path
      → fs path ≡ some b
      → decode b ≡ some s
      → restore encode decode fs q ≡ some (resume s q)
  unfolding restore
  restore_of_file fs q path b s g e d =
      let k : fs q.path ≡ some b = ap fs g ∙ e in rw (k, restore, d) refl

  -- In every state that the saves of a gateway pass through, and so after a crash at any point, the file
  -- has its old content or that of the pool at one of the saves. Where the last save succeeds, it has
  -- that of the pool at the stop, and where that text reads as what was written, the next process
  -- takes it over.
  pub flush_lem :
      (ticks : List (Calls × Pool)) (stop : Calls × Pool) (fs : Files) (path : Bytes) (q : Pool)
      → All (λ p. p.path ≡ path) (pools ticks stop)
      → q.path ≡ path
      → decode (text_of stop.1) ≡ some (snapshot stop.1)
      → All (λ f. Among (pools ticks stop) (fs path) (f path)) (flush ticks stop fs).0
        × ((flush ticks stop fs).1 ≡ true
            → (final fs (flush ticks stop fs).0 path ≡ some (text_of stop.1))
              × (restore encode decode (final fs (flush ticks stop fs).0) q
                  ≡ some (resume (snapshot stop.1) q)))
  unfolding flush
  flush_lem [] (calls, p) fs path q h g round =
      let (either, now) = save_lem calls p fs path h.0 in
      (
        either,
        λ ok. (
          now ok,
          restore_of_file (final fs (save encode decode calls p fs).0) q path (text_of p)
              (snapshot p) g (now ok) round,
        ),
      )
  flush_lem ((calls, p) ∷ ticks) stop fs path q h g round =
      let states = (save encode decode calls p fs).0 in
      let (either, _) = save_lem calls p fs path h.0 in
      let (later, now) = flush_lem ticks stop (final fs states) path q h.1 g round in
      let mid : Among (p ∷ []) (fs path) (final fs states path) =
        final-All (λ f. Among (p ∷ []) (fs path) (f path)) fs states (inr refl) either in
      let ps = pools ticks stop in
      let first : (f : Files)
          → Among (p ∷ []) (fs path) (f path)
          → Among (p ∷ ps) (fs path) (f path) =
        λ f e. elim e [ inl i ↦ inl i | inr i ↦ inr (Among-old ps (fs path) (f path) i) ] in
      (
        All-append _ states _ (All-map first _ either) (
            All-map (λ f e. Among-later p ps (fs path) (final fs states path) (f path) mid e) _
              later),
        λ ok. rw (final-append fs states (flush ticks stop (final fs states)).0) (now ok),
      )
