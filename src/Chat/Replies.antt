-- ===== src/Chat/Replies.antt =====
-- What the client is told: the codes and headers of refusals.
use omny.Base.{
  ◌/◌, ltb→lt, none_ne_some, some_inj, ℕ, ◌+◌, ◌<◌, ◌≡◌, refl, sym, subst, ◌⊎◌, inl, inr, none,
  some, arith, bytes, ltb, Bool-cases, if◌then◌else◌,
}
use omny.Proxy.{ended_ok, ended_gone, ended_truncated, unserved, rejected}
use omny.Dispatch.{Answer, walked, gone_napping, exhausted}
use omny.Dispatch.Refusing.{FairAnswer}
use omny.Chat.{Reply, refused, forwarded, silence, refuse, kind_of, seconds_up, on_answer}

-- A refusal has one of the codes of a request's own fault or of a gateway that cannot serve it now, the
-- type of its error by that code, and a positive Retry-After only with 503.
abbrev pub IsProper : Reply → Type 0
IsProper (refused code kind retry) =
    ((code ≡ 503) × (kind ≡ bytes "omny_exhausted") × ((n : ℕ) → retry ≡ some n → 0 < n))
    ⊎ (((code ≡ 400) ⊎ (code ≡ 413) ⊎ (code ≡ 422)) × (kind ≡ bytes "omny_error") × (retry ≡ none))
IsProper (forwarded e) = (e ≡ ended_ok) ⊎ (e ≡ ended_truncated)
IsProper silence = Unit {0}

-- A wait is rounded up to whole seconds, so it is never rounded to 0.
waited : (d n : ℕ) → (if ltb 0 d then some (seconds_up d) else none) ≡ some n → 0 < n
unfolding seconds_up
waited d n h = elim (Bool-cases (ltb 0 d)) [
  | inl e ↦
      let f : (d + 999999999) / 1000000000 ≡ n = some_inj (rw e at h) in
      let g = ltb→lt 0 d e in omega arith
  | inr e ↦ absurd (none_ne_some (rw e at h))
]

pub on_answer-IsProper : (a : Answer) → FairAnswer a → IsProper (on_answer a).1
unfolding on_answer refuse kind_of seconds_up
on_answer-IsProper (walked ended_ok) f = inl refl
on_answer-IsProper (walked ended_gone) f = tt
on_answer-IsProper (walked ended_truncated) f = inr refl
on_answer-IsProper (walked unserved) f = absurd f
on_answer-IsProper (walked (rejected code)) f = elim f [
  | inl e ↦ inr (inl e, subst (λ c. kind_of c ≡ bytes "omny_error") (sym e) refl, refl)
  | inr e ↦ inr (inr (inr e), subst (λ c. kind_of c ≡ bytes "omny_error") (sym e) refl, refl)
]
on_answer-IsProper gone_napping f = tt
on_answer-IsProper (exhausted d) f = inl (refl, refl, λ n h. waited d n h)
