-- ===== src/Main/Panicking.antt =====
-- `main`: how it reads the arguments of a command, before the command opens any file.
use omny.Base.{
  ◌≡◌, ◌≢◌, refl, inl, inr, Bool, true, false, List, [], ◌∷◌, Option, none, some, Bytes, bytes,
  bytes_eq, Bool-cases, Option-cases, if◌then◌else◌,
}
use omny.Loader.{is_empty}
use omny.Edit.Result.{Failure, Result, done, failed, panics, ◌>>=◌}
use omny.Edit.Splice.{index}
use omny.Edit.Commands.{
  Flags, Action, validates, lists, cli, parse, add_args, plus, remove, birth_work, arm_work, secret,
  from_input,
}
use omny.Edit.Commands.Positions.{LeavesEnd, parse-IsParsed}
use omny.Main.{commands, serves, main}

done-ne-panics : {A : Type 0} {a : A} → done a ≢ panics
done-ne-panics e = cc

failed-ne-panics : {A : Type 0} {e : Failure} → ◌≢◌ {A = Result A} (failed e) panics
failed-ne-panics e = cc

if-fine :
    {A : Type 0} (b : Bool) (x y : Result A)
    → x ≢ panics
    → y ≢ panics
    → (if b then x else y) ≢ panics
if-fine true x y h k = h
if-fine false x y h k = k

>>=-fine :
    {A B : Type 0} (m : Result A) (f : A → Result B)
    → m ≢ panics
    → ((a : A) → f a ≢ panics)
    → (m >>= f) ≢ panics
>>=-fine (done a) f h k = k a
>>=-fine (failed e) f h k = failed-ne-panics
>>=-fine panics f h k = absurd (h refl)

serves-ne-commands : {r : Result Action} → serves ≢ commands r
serves-ne-commands e = cc

commands_inj : {r r' : Result Action} → commands r ≡ commands r' → r ≡ r'
commands_inj e = cc

module _ (quote : Bytes → Bytes) (blank : Bytes → Bool) (trim : Bytes → Bytes)
    (input : Option Bytes) (fp : Bytes → Bytes)
    (flags : Flags → List Bytes → Option (Flags × List Bytes)) where
  from_input_fine : (o : Option Bytes) → from_input trim o ≢ panics
  unfolding from_input
  from_input_fine none = failed-ne-panics
  from_input_fine (some text) = elim (Bool-cases (is_empty (trim text))) [
    | inl e ↦ rw e failed-ne-panics
    | inr e ↦ rw e done-ne-panics
  ]

  secret_fine : (args : List Bytes) → secret trim input args ≢ panics
  unfolding secret
  secret_fine [] = from_input_fine input
  secret_fine (k ∷ []) = elim (Bool-cases (bytes_eq k (bytes "-"))) [
    | inl e ↦ rw e (from_input_fine input)
    | inr e ↦ rw e done-ne-panics
  ]
  secret_fine (k ∷ l ∷ rest) = failed-ne-panics

  birth_fine : (prov url : Bytes) → birth_work quote blank trim input prov url ≢ panics
  unfolding birth_work
  birth_fine prov [] = done-ne-panics
  birth_fine prov (x ∷ url) = elim (Option-cases (index (x ∷ url) (bytes "/chat/completions"))) [
    | inl e ↦ rw (e, birth_work) done-ne-panics
    | inr (n, e) ↦ rw (e, birth_work) failed-ne-panics
  ]

  arm_fine :
      (prov : Bytes) (keyless : Bool) (rest : List Bytes)
      → arm_work quote blank trim input prov keyless rest ≢ panics
  unfolding arm_work
  arm_fine prov true [] = done-ne-panics
  arm_fine prov true (k ∷ rest) = failed-ne-panics
  arm_fine prov false rest =
      >>=-fine (secret trim input rest) _ (secret_fine rest) (λ k. done-ne-panics)

  plus_fine : (work : Flags × List Bytes) → plus quote blank trim input work ≢ panics
  unfolding plus
  plus_fine (f, []) = failed-ne-panics
  plus_fine (f, prov ∷ rest) =
      >>=-fine (birth_work quote blank trim input prov f.url) _ (birth_fine prov f.url) (λ born.
        >>=-fine (arm_work quote blank trim input prov f.keyless rest) _
          (arm_fine prov f.keyless rest) (λ arms. done-ne-panics))

  remove_fine : (args : List Bytes) → remove quote blank trim input fp args ≢ panics
  unfolding remove
  remove_fine [] = failed-ne-panics
  remove_fine (prov ∷ []) = failed-ne-panics
  remove_fine (prov ∷ key ∷ []) = done-ne-panics
  remove_fine (prov ∷ key ∷ l ∷ rest) = failed-ne-panics

  add_fine :
      (args : List Bytes)
      → LeavesEnd flags
      → add_args quote blank trim input (parse flags args) ≢ panics
  unfolding add_args
  add_fine args ends = elim (parse-IsParsed flags ends args) [
    | inl (e, _) ↦ rw (e, add_args) failed-ne-panics
    | inr (g, more, e, _, _) ↦ rw (e, add_args) done-ne-panics
  ]

  cli_fine :
      (name : Bytes) (args : List Bytes)
      → LeavesEnd flags
      → cli quote blank trim input fp flags (name ∷ args) ≢ panics
  unfolding cli
  cli_fine name args ends =
      if-fine (bytes_eq name (bytes "check")) (done validates) _ done-ne-panics (
        if-fine (bytes_eq name (bytes "ls")) (done lists) _ done-ne-panics (
          if-fine (bytes_eq name (bytes "add")) _ _
            (>>=-fine
              (add_args quote blank trim input (parse flags args) >>= plus quote blank trim input) _
              (>>=-fine (add_args quote blank trim input (parse flags args)) _ (add_fine args ends)
                plus_fine)
              (λ work. done-ne-panics))
            (if-fine (bytes_eq name (bytes "rm")) (remove quote blank trim input fp args) _
              (remove_fine args) failed-ne-panics)))

  -- Where a parse of flags leaves an end of the arguments that it got, `main` reads the arguments and
  -- the input into a command or a failure and does not panic there. Of what a command then does with
  -- the file nothing is stated.
  pub main_fine :
      (version : Bytes) (info : Option (List (Bytes × Bytes))) (show : Bool) (args : List Bytes)
      → LeavesEnd flags
      → main quote blank trim input fp flags version info show args ≢ commands panics
  unfolding main is_empty
  main_fine version info true args ends e = cc
  main_fine version info false [] ends e = absurd (serves-ne-commands e)
  main_fine version info false (name ∷ args) ends e = cli_fine name args ends (commands_inj e)
