-- ===== src/State.antt =====
-- internal/omny/state.go: what of the pool survives a restart, and the replacement of its file. The
-- JSON text of a state is that of an encoder and a decoder, which are arguments. Counters are natural
-- numbers, as `save` writes them; a file edited by hand to hold a negative one is not modelled.
pub mod Atomic
pub mod Restart
pub mod Flushing
use omny.Base.{
  ℕ, Bool, true, false, List, [], ◌∷◌, ◌++◌, Option, none, some, Bytes, bytes, lookup, insert,
  update, ◌==◌, if◌then◌else◌, get_elem?,
}
use omny.Key.{Key, Spend, no_spend}
use omny.Pool.{Pool, addresses, visit}

-- `tally`.
pub record Tally : Type 0 where
  pub reqs : ℕ
  pub errs : ℕ
  pub toks : Spend
  pub blind : ℕ
  pub ttft : ℕ
  pub life : Spend

-- `state`.
pub record Saved : Type 0 where
  pub day : ℕ
  pub keys : List (Bytes × Tally)

abbrev pub no_tally : Tally
no_tally = record { reqs = 0; errs = 0; toks = no_spend; blind = 0; ttft = 0; life = no_spend }

unfoldable pub tally : Key → Tally
tally k = record {
  reqs = k.reqs;
  errs = k.errs;
  toks = k.toks;
  blind = k.blind;
  ttft = k.ttft;
  life = k.life;
}

-- The loop of `save` over the keys of the pool.
unfoldable pub tallies : List Key → List ℕ → List (Bytes × Tally) → List (Bytes × Tally)
tallies cells [] m = m
tallies cells (a ∷ ks) m =
    tallies cells ks (elim (get_elem? cells a) [ none ↦ m | some k ↦ insert k.id (tally k) m ])

-- `save`, up to the encoding.
unfoldable pub snapshot : Pool → Saved
snapshot p = record { day = p.day; keys = tallies p.cells (addresses p.keys) [] }

-- `s.Keys[k.id]`, the zero tally for a key that is not there.
unfoldable pub or_zero : Option Tally → Tally
or_zero none = no_tally
or_zero (some t) = t

-- The body of the loop of `restore`.
unfoldable pub revive : Bool → Tally → Key → Key
revive today t k =
    if today
    then record k {
      ttft = t.ttft;
      life = t.life;
      reqs = t.reqs;
      errs = t.errs;
      toks = t.toks;
      blind = t.blind;
    }
    else record k { ttft = t.ttft; life = t.life }

-- `restore`, from the decoding on.
unfoldable pub resume : Saved → Pool → Pool
resume s p = record p {
  cells =
      visit (λ k. revive (s.day == p.day) (or_zero (lookup k.id s.keys)) k) (addresses p.keys)
        p.cells;
}

-- The files by their paths.
abbrev pub Files : Type 0
Files = Bytes → Option Bytes

-- How the calls of `Replace` fare: what a write that fails, or a crash amid it, has left of the
-- content, and which calls succeed.
pub record Calls : Type 0 where
  pub partial : Bytes
  pub writes : Bool
  pub renames : Bool
  pub removes : Bool

unfoldable pub temporary : Bytes → Bytes
temporary path = path ++ bytes ".tmp"

-- `os.Remove(tmp)`, whose error is ignored.
unfoldable pub clean : Bool → Bytes → Files → Files
clean removes tmp fs = if removes then update fs tmp none else fs

-- `os.Rename(tmp, path)`: the files after it, or after the clean-up where it fails.
unfoldable pub rename : Bool → Bool → Bytes → Bytes → Files → List Files × Bool
rename renames removes path b fs =
    if renames
    then (update (update fs (temporary path) none) path (some b) ∷ [], true)
    else (clean removes (temporary path) fs ∷ [], false)

-- `vet(tmp)`.
unfoldable pub approves : Option (Files → Bytes → Bool) → Files → Bytes → Bool
approves none fs tmp = true
approves (some vet) fs tmp = vet fs tmp

-- `Replace`: the files after each of its calls, a crash amid the write included, and whether it
-- returned nil.
unfoldable pub replace :
    Calls → Option (Files → Bytes → Bool) → Bytes → Bytes → Files → List Files × Bool
replace calls vet path b fs =
    let begun = update fs (temporary path) (some calls.partial) in
    let written = update fs (temporary path) (some b) in
    let (rest, ok) =
      if approves vet written (temporary path)
      then rename calls.renames calls.removes path b written
      else (clean calls.removes (temporary path) written ∷ [], false) in
    if calls.writes then (begun ∷ written ∷ rest, ok) else (begun ∷ [], false)

module _ (encode : Saved → Bytes) (decode : Bytes → Option Saved) where
  -- `save`: it reads the path of the pool and its keys, and replaces the file without a vet.
  unfoldable pub save : Calls → Pool → Files → List Files × Bool
  save calls p fs = replace calls none p.path (encode (snapshot p)) fs

  -- `restore`: a file that is not there is no error, and one that cannot be parsed is.
  unfoldable pub restore : Files → Pool → Option Pool
  restore fs p = elim (fs p.path) [
    | none ↦ some p
    | some b ↦ elim (decode b) [ none ↦ none | some s ↦ some (resume s p) ]
  ]
