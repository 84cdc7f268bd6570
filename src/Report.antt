-- ===== src/Report.antt =====
-- internal/omny/report.go, and pool.go `each`: the bill of the usage page and the cards of the status
-- page. `each` walks the providers in the order of their sorted names, the order of `keys` here.
pub mod Totals
use omny.Base.{
  ℕ, zero, suc, ◌+◌, ◌-◌, ◌/◌, Bool, true, false, ◌&&◌, not, List, [], ◌∷◌, ◌++◌, Option, none,
  some, Bytes, bytes_eq, ltb, ◌==◌, if◌then◌else◌, get_elem?,
}
use omny.Base.Int.{ℤ, pos, negsuc}
use omny.Key.{Key, Spend, no_spend, add}
use omny.Pool.{Pool, roll}
use omny.Order.{speed}

-- The calls that `each` makes for the keys of one provider.
unfoldable pub ring_entries : List Key → Bytes → List ℕ → List (Bytes × Key)
ring_entries cells prov [] = []
ring_entries cells prov (a ∷ ks) = elim (get_elem? cells a) [
  | none ↦ ring_entries cells prov ks
  | some k ↦ (prov, k) ∷ ring_entries cells prov ks
]

unfoldable pub entries : List Key → List (Bytes × List ℕ) → List (Bytes × Key)
entries cells [] = []
entries cells ((prov, ks) ∷ more) = ring_entries cells prov ks ++ entries cells more

-- `millis`.
unfoldable pub millis : ℕ → Option ℕ
millis d = if d == 0 then none else some (d / 1000000)

pub record Row : Type 0 where
  pub key : Bytes
  pub prov : Bytes
  pub reqs : ℕ
  pub errs : ℕ
  pub today : Spend
  pub total : Spend
  pub blind : ℕ
  pub ttft : Option ℕ

abbrev pub new_row : Bytes → Bytes → Option ℕ → Row
new_row key prov ttft = record {
  key = key;
  prov = prov;
  reqs = 0;
  errs = 0;
  today = no_spend;
  total = no_spend;
  blind = 0;
  ttft = ttft;
}

-- `row.add`.
unfoldable pub add_key : Row → Key → Row
add_key r k = record r {
  reqs = r.reqs + k.reqs;
  errs = r.errs + k.errs;
  blind = r.blind + k.blind;
  today = add r.today k.toks;
  total = add r.total k.life;
}

pub record Bill : Type 0 where
  pub keys : List Row
  pub provs : List Row
  pub all : Row

-- `b.Provs[len(b.Provs)-1].add(k)`, of a list with a last row.
unfoldable pub add_last : List Row → Key → List Row
add_last [] k = []
add_last (r ∷ []) k = add_key r k ∷ []
add_last (r ∷ s ∷ rs) k = r ∷ add_last (s ∷ rs) k

-- Whether there is a last row, and it is the provider's.
unfoldable pub ends_in : List Row → Bytes → Bool
ends_in [] prov = false
ends_in (r ∷ []) prov = bytes_eq r.prov prov
ends_in (r ∷ s ∷ rs) prov = ends_in (s ∷ rs) prov

module _ (speeds : Bytes → ℕ) where
  -- The function that `bill` gives to `each`.
  unfoldable pub bill_key : Bill → Bytes × Key → Bill
  bill_key b (prov, k) =
      let provs =
        if ends_in b.provs prov
        then b.provs
        else b.provs ++ new_row [] prov (millis (speeds prov)) ∷ [] in
      record {
        keys = b.keys ++ add_key (new_row k.id prov (millis k.ttft)) k ∷ [];
        provs = add_last provs k;
        all = add_key b.all k;
      }

  unfoldable pub bill_loop : List (Bytes × Key) → Bill → Bill
  bill_loop [] b = b
  bill_loop (e ∷ es) b = bill_loop es (bill_key b e)

abbrev pub no_bill : Bill
no_bill = record { keys = []; provs = []; all = new_row [] [] none }

-- `bill`, and the pool after its `roll`.
unfoldable pub bill : ℕ → Pool → Pool × Bill
bill now p = let q = roll now p in (q, bill_loop (speed now q) (entries q.cells q.keys) no_bill)

-- `card`, without what a probe adds: the instants are none where the page leaves them out.
pub record Card : Type 0 where
  pub key : Bytes
  pub prov : Bytes
  pub dead : Bool
  pub till : Option ℕ
  pub reqs : ℕ
  pub left : Option ℕ
  pub spare : Option ℕ
  pub errs : ℕ
  pub last : Option ℕ

-- `max(limit - used, 0)` of a limit that is set.
unfoldable pub remaining : ℤ → ℕ → Option ℕ
remaining (pos zero) used = none
remaining (pos (suc n)) used = some (suc n - used)
remaining (negsuc n) used = none

unfoldable pub card_of : ℕ → Bytes × Key → Card
card_of now (prov, k) = record {
  key = k.id;
  prov = prov;
  dead = k.dead;
  till = if ltb now k.until then some k.until else none;
  reqs = k.reqs;
  left = remaining k.prov.rpd k.reqs;
  spare = remaining k.prov.rpm k.mins;
  errs = k.errs;
  last = if k.last == 0 then none else some k.last;
}

unfoldable pub cards : ℕ → List (Bytes × Key) → List Card
cards now [] = []
cards now (e ∷ es) = card_of now e ∷ cards now es

-- `report`, and the pool after its `roll`.
unfoldable pub report : ℕ → Pool → Pool × List Card
report now p = let q = roll now p in (q, cards now (entries q.cells q.keys))
