-- ===== src/Examples/Serving.antt =====
-- The theorems on configurations, callers, the state file and whole requests, at inputs that meet their
-- conditions.
use mathlib.Core.List.{Memᴰ}
use omny.Base.{
  ℕ, ◌+◌, ◌*◌, ◌≤◌, ◌<◌, ◌≡◌, ◌≢◌, refl, ◌⊎◌, inl, inr, true, false, [], ◌∷◌, ◌++◌, lookup,
  bytes_eq, some, arith, bytes, All, length, get_elem?, min, max, update, Bytes, none, Option,
  none_ne_some, zero, suc, Bool, List,
}
use omny.Clock.{second, minute}
use omny.Pool.{Pool, addresses}
use omny.Route.{cut}
use omny.Base
use omny.Loader
use omny.Access
use omny.State as Saving
use omny.Loader.{check}
use omny.Loader.Accepted.{IsAccepted, check-IsAccepted}
use omny.Access.{bearer, guard}
use omny.Access.Tokens.{guard_lem}
use omny.State.{Saved, Files, Calls, replace, snapshot, save, restore, tally}
use omny.State.Atomic.{IsAtomic, replace-IsAtomic, final}
use omny.State.Flushing.{Among, flush, flush_lem}
use omny.State.Restart.{IsDistinct, restore-save}
use omny.Examples.Gateway.{config, noon, key}
use omny.Examples.Witnesses.{cooling}

-- Readings of addresses and blanks that know the ones of the example.
abbrev pub host_of : Bytes → Option Bytes
host_of _ = some (bytes "127.0.0.1")

abbrev pub parts_of : Bytes → Option (Bytes × Bytes)
parts_of _ = some (bytes "https", bytes "g")

abbrev pub is_blank : Bytes → Bool
is_blank [] = true
is_blank (_ ∷ _) = false

pub unproblematic : check host_of parts_of is_blank config ≡ []
unfolding check Loader.when Loader.is_empty Loader.token_problems Loader.listen_problems bytes_eq
    Loader.provider_problems Loader.url_problems Loader.is_http Loader.key_problems lookup
    Loader.number_problems Loader.negative Loader.any_armed Loader.alias_problems
    Loader.entries_problems Loader.entry_problems cut Loader.default_problems
    Loader.fallback_problems Loader.is_none
unproblematic = refl

check-IsAccepted_example : IsAccepted host_of parts_of is_blank config
check-IsAccepted_example = check-IsAccepted host_of parts_of is_blank config unproblematic

guard_lem_example :
    (tok : Bytes) × (bytes "Bearer t" ≡ bearer ++ tok)
    × (tok ≢ [])
    × (bytes "-" ≢ [])
    × (((tok ≡ config.token) × (bytes "-" ≡ bytes "-")) ⊎ Memᴰ (bytes "-", tok) config.tokens)
unfolding guard Access.cut_prefix Loader.is_empty Access.who Access.search_tokens Access.matches
    bytes_eq
guard_lem_example = guard_lem config (bytes "Bearer t") (bytes "-") refl

abbrev pub calls : Calls
calls = record { partial = []; writes = true; renames = true; removes = true }

abbrev pub no_files : Files
no_files _ = none

replace-IsAtomic_example :
    IsAtomic
      (some (λ fs tmp. true))
      (bytes "s")
      (bytes "new")
      no_files
      (replace calls (some (λ fs tmp. true)) (bytes "s") (bytes "new") no_files)
replace-IsAtomic_example =
    replace-IsAtomic calls (some (λ fs tmp. true)) (bytes "s") (bytes "new") no_files

-- A pool of one key that has served, its text, and the pool of the next process.
abbrev served : Pool
served = record cooling { cells = record key { reqs = 7; ttft = second } ∷ [] }

abbrev pub to_text : Saved → Bytes
to_text s = s.day ∷ []

abbrev pub of_text : Bytes → Option Saved
of_text [] = none
of_text (day ∷ _) =
    some (record {
      day = day;
      keys = (bytes "g1", tally (record key { reqs = 7; ttft = second })) ∷ [];
    })

served-IsDistinct : IsDistinct served
served-IsDistinct zero zero k l e f s = refl
served-IsDistinct zero (suc b) k l e f s = absurd (none_ne_some f)
served-IsDistinct (suc a) b k l e f s = absurd (none_ne_some e)

restore-save_example :
    (q' : Pool) × (restore to_text of_text
        (final no_files (save to_text of_text calls served no_files).0)
        cooling
      ≡ some q')
    × (noon ≡ noon
        → get_elem? q'.cells 0
          ≡ some (record key { until = noon + minute; step = 1; reqs = 7; ttft = second }))
    × (noon ≢ noon
        → get_elem? q'.cells 0
          ≡ some (record key { until = noon + minute; step = 1; ttft = second }))
unfolding save addresses snapshot Saving.tallies Base.insert replace Saving.approves Saving.rename
restore-save_example =
    restore-save to_text of_text calls served cooling no_files 0 0
      (record key { reqs = 7; ttft = second }) (record key { until = noon + minute; step = 1 }) refl
      served-IsDistinct refl refl refl refl refl refl refl

flush_lem_example :
    All
      (λ f. Among to_text of_text (cooling ∷ served ∷ []) none (f []))
      (flush to_text of_text ((calls, cooling) ∷ []) (calls, served) no_files).0
    × ((flush to_text of_text ((calls, cooling) ∷ []) (calls, served) no_files).1 ≡ true
        → (final no_files
              (flush to_text of_text ((calls, cooling) ∷ []) (calls, served) no_files).0
              []
            ≡ some (to_text (snapshot served)))
          × (restore to_text of_text
                (final no_files
                  (flush to_text of_text ((calls, cooling) ∷ []) (calls, served) no_files).0)
                cooling
              ≡ some (Saving.resume (snapshot served) cooling)))
unfolding snapshot Saving.tallies addresses Base.insert
flush_lem_example =
    flush_lem to_text of_text ((calls, cooling) ∷ []) (calls, served) no_files [] cooling
      (refl, (refl, tt)) refl refl
