-- ===== src/Pool.antt =====
-- internal/omny/pool.go, `Pool`: the keys behind the mutex. A `*Key` is an index into `cells`, so
-- that a request keeps its key across a reload that drops it. Each operation is one critical section
-- and reads the clock once, as `now`; `none` is a panic.
pub mod Visit
pub mod Every
pub mod Effects
pub mod Traffic
pub mod Pick
pub mod Reload
pub mod Recovery
use omny.Base.{
  ℕ, zero, suc, ◌+◌, ◌-◌, ◌*◌, ◌/◌, ◌%◌, max, Bool, true, false, not, ◌&&◌, ◌||◌, List, [], ◌∷◌,
  ◌++◌, Option, none, some, Bytes, bytes_eq, lookup, update, ltb, ◌==◌, if◌then◌else◌, ◌>>=◌,
  get_elem?, modify, length,
}
use omny.Clock.{second, unix, year_day}
use omny.Config.{Provider, Config, Slot, slots}
use omny.Key.{Key, Spend, no_spend, add, spent, capped, free, bench, measure}

pub record Pool : Type 0 where
  pub cells : List Key
  pub keys : List (Bytes × List ℕ)
  pub rr : Bytes → ℕ
  pub day : ℕ
  pub min : ℕ
  pub path : Bytes
  pub seen : List (Bytes × Bytes)
  pub mute : Bytes → Bool

-- `p.keys[prov]`: nil for a provider that is not there.
unfoldable pub or_empty : Option (List ℕ) → List ℕ
or_empty none = []
or_empty (some ks) = ks

unfoldable pub ring : Pool → Bytes → List ℕ
unfolding or_empty
ring p prov = or_empty (lookup prov p.keys)

-- `for _, ks := range p.keys { for _, k := range ks { … } }`
unfoldable pub addresses : List (Bytes × List ℕ) → List ℕ
addresses [] = []
addresses ((_, ks) ∷ more) = ks ++ addresses more

unfoldable pub visit : (Key → Key) → List ℕ → List Key → List Key
visit f [] cells = cells
visit f (a ∷ ks) cells = visit f ks (modify f cells a)

abbrev pub reset_day : Key → Key
reset_day k = record k { reqs = 0; errs = 0; toks = no_spend; blind = 0 }

abbrev pub reset_minute : Key → Key
reset_minute k = record k { mins = 0 }

unfoldable pub roll_day : ℕ → Pool → Pool
roll_day now p =
    if year_day now == p.day
    then p
    else record p { day = year_day now; cells = visit reset_day (addresses p.keys) p.cells }

unfoldable pub roll_minute : ℕ → Pool → Pool
roll_minute now p =
    if unix now / 60 == p.min
    then p
    else record p { min = unix now / 60; cells = visit reset_minute (addresses p.keys) p.cells }

unfoldable pub roll : ℕ → Pool → Pool
roll now p = roll_minute now (roll_day now p)

-- The loop of `pick`, with `n` rounds left: the key that it found, and the cursor after it.
unfoldable pub spin : ℕ → List ℕ → List Key → ℕ → ℕ → Option (Option ℕ × ℕ)
spin zero ks cells now c = some (none, c)
spin (suc n) ks cells now c =
    let again = spin n ks cells now ((c + 1) % length ks) in
    get_elem? ks c >>= λ a.
    get_elem? cells a >>= λ k. if free now k then some (some a, (c + 1) % length ks) else again

abbrev pub reserve : Key → Key
reserve k = record k { live = k.live + 1 }

abbrev pub release : Key → Key
release k = record k { live = k.live - 1 }

abbrev pub grant : Pool → Option ℕ → Pool
grant p none = p
grant p (some a) = record p { cells = modify reserve p.cells a }

-- `Pool.pick`.
unfoldable pub pick : ℕ → Pool → Bytes → Option (Option ℕ × Pool)
pick now p prov =
    let q = roll now p in
    let ks = ring q prov in
    spin (length ks) ks q.cells now (q.rr prov) >>= λ r.
    some (r.0, grant (record q { rr = update q.rr prov r.1 }) r.0)

abbrev pub write : Pool → ℕ → Key → Pool
write p a k = record p { cells = modify (λ _. k) p.cells a }

-- `Pool.fail`, `Pool.sour` and `Pool.done`.
unfoldable pub fail : ℕ → Pool → ℕ → ℕ → ℕ → Option (Pool × ℕ × Bool)
fail now p a code retry =
    let q = roll now p in
    get_elem? q.cells a >>= λ k.
    bench now (record k { live = k.live - 1; errs = k.errs + 1 }) code retry >>= λ r.
    some (write q a r.0, r.1, r.2)

unfoldable pub sour : ℕ → Pool → ℕ → Option (Pool × ℕ)
sour now p a =
    let q = roll now p in
    get_elem? q.cells a >>= λ k.
    bench now (record k { errs = k.errs + 1 }) 0 0 >>= λ r. some (write q a r.0, r.1)

unfoldable pub done : Pool → ℕ → Pool
done p a = record p { cells = modify release p.cells a }

-- `Pool.charge`: the usage that a reply reported, if it did.
abbrev pub account : Option Spend → Key → Key
account none k = record k { blind = k.blind + 1 }
account (some s) k = record k { toks = add k.toks s; life = add k.life s }

unfoldable pub charge : ℕ → Pool → ℕ → Option Spend → Pool
charge now p a s = let q = roll now p in record q { cells = modify (account s) q.cells a }

-- `Pool.talks` and `Pool.hush`.
unfoldable pub talks : Pool → Bytes → Bool
talks p prov = not (p.mute prov)

unfoldable pub hush : Pool → Bytes → Pool
hush p prov = record p { mute = update p.mute prov true }

-- `Pool.ok`: the key after a first token, and whether it was benched before.
abbrev pub succeed : ℕ → ℕ → Key → Key
succeed now ttft k =
    measure
      (record k {
        until = 0;
        step = 0;
        live = k.live - 1;
        reqs = k.reqs + 1;
        mins = k.mins + 1;
        last = now;
      })
      ttft

unfoldable pub ok : ℕ → Pool → ℕ → ℕ → Option (Pool × Bool)
ok now p a ttft =
    let q = roll now p in
    get_elem? q.cells a >>= λ k. some (write q a (succeed now ttft k), not (k.until == 0))

-- `Pool.scrub`: the replacer of the secrets seen so far, each by its fingerprint, on a text.
unfoldable pub scrub : (List (Bytes × Bytes) → Bytes → Bytes) → Pool → Bytes → Bytes
scrub replacer p s = replacer p.seen s

-- `Pool.ready`.
any_free : ℕ → List Key → List ℕ → Bool
any_free now cells [] = false
any_free now cells (a ∷ ks) = elim (get_elem? cells a) [
  | none ↦ any_free now cells ks
  | some k ↦ free now k || any_free now cells ks
]

unfoldable pub ready : ℕ → Pool → Bool
unfolding any_free
ready now p = let q = roll now p in any_free now q.cells (addresses q.keys)
