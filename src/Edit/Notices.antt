-- ===== src/Edit/Notices.antt =====
-- internal/edit/cli.go: `list`, and `nudge`, which signals the running gateway. The process table and
-- the reading of a number are arguments.
use omny.Base.{
  ◌≡◌, refl, Bool, true, false, not, ◌||◌, List, [], ◌∷◌, Option, none, some, Bytes, if◌then◌else◌,
  map, Bool-cases, inl, inr,
}
use omny.Base.Int.{ℤ}
use omny.Config.{Provider, Config}
use omny.Loader.{is_empty, any_armed}
use omny.State.{Files}

-- What `list` prints of a provider.
pub data Listed : Type 0 where
  keyless off : Listed
  armed : List Bytes → Listed

unfoldable pub shown : (Bytes → Bytes) → Provider → Listed
shown fingerprint p =
    if p.keyless then keyless else if is_empty p.keys then off else armed (map fingerprint p.keys)

unfoldable pub list : (Bytes → Bytes) → List (Bytes × Provider) → List (Bytes × Listed)
list fingerprint [] = []
list fingerprint ((n, p) ∷ ps) = (n, shown fingerprint p) ∷ list fingerprint ps

pub data Nudge : Type 0 where
  no_pidfile not_running no_pid : Nudge
  stale unsignalled reloaded : ℤ → Nudge

-- `nudge`, where `alive` and `hup` say whether a signal 0 and a SIGHUP to a process succeed.
unfoldable pub nudge :
    (Bytes → Option ℤ) → (Bytes → Bytes) → (ℤ → Bool) → (ℤ → Bool) → Files → Config → Nudge
nudge atoi trim alive hup fs c = if is_empty c.pid then no_pidfile else elim (fs c.pid) [
  | none ↦ not_running
  | some b ↦ elim (atoi (trim b)) [
    | none ↦ no_pid
    | some pid ↦
        if not (alive pid) then stale pid else if hup pid then reloaded pid else unsignalled pid
  ]
]

is_on : Listed → Bool
is_on off = false
is_on keyless = true
is_on (armed ids) = true

any_on : List (Bytes × Listed) → Bool
any_on [] = false
any_on ((n, l) ∷ ls) = is_on l || any_on ls

-- The list shows a provider that is not off just when the loader's check finds an armed one.
list-any_armed :
    (fingerprint : Bytes → Bytes) (ps : List (Bytes × Provider))
    → any_on (list fingerprint ps) ≡ any_armed ps
unfolding list shown any_armed is_on any_on is_empty
list-any_armed fingerprint [] = refl
list-any_armed fingerprint ((n, p) ∷ ps) = elim (Bool-cases (is_empty p.keys)) [
  | inr f ↦ elim (Bool-cases p.keyless) [ inl e ↦ rw (e, f) refl | inr e ↦ rw (e, f) refl ]
  | inl f ↦ elim (Bool-cases p.keyless) [
    | inl e ↦ rw (e, f) refl
    | inr e ↦ rw (e, f) (list-any_armed fingerprint ps)
  ]
]
