-- ===== src/Key.antt =====
-- internal/omny/pool.go, speed.go and gate.go: one key's quota, cooldown and measurements.
pub mod Bench
pub mod Speed
use omny.Base.{
  ℕ, zero, suc, ◌+◌, ◌-◌, ◌*◌, ◌/◌, ◌<◌, ◌≤◌, min, ◌≡◌, Bool, true, false, not, ◌&&◌, ◌||◌, List,
  [], ◌∷◌, Option, none, some, Bytes, ltb, leb, ◌==◌, if◌then◌else◌, ◌>>=◌, get_elem?,
}
use omny.Base.Int.{ℤ, pos, negsuc, ◌+ℤ◌, eq_ℤ}
use omny.Clock.{second, minute}
use omny.Config.{Provider}

-- `spend`: token counts.
pub record Spend : Type 0 where
  pub in_toks : ℤ
  pub out_toks : ℤ
  pub total : ℤ

abbrev pub no_spend : Spend
no_spend = record { in_toks = pos 0; out_toks = pos 0; total = pos 0 }

-- `spend.add` and `spend.fill`.
unfoldable pub add : Spend → Spend → Spend
add s o = record {
  in_toks = s.in_toks +ℤ o.in_toks;
  out_toks = s.out_toks +ℤ o.out_toks;
  total = s.total +ℤ o.total;
}

unfoldable pub fill : Spend → Spend
fill s = if eq_ℤ s.total (pos 0) then record s { total = s.in_toks +ℤ s.out_toks } else s

-- `Key`. The instants `until` and `last` are 0 for the zero time.
pub record Key : Type 0 where
  pub val : Bytes
  pub prov : Provider
  pub id : Bytes
  pub until : ℕ
  pub step : ℕ
  pub dead : Bool
  pub reqs : ℕ
  pub errs : ℕ
  pub mins : ℕ
  pub live : ℕ
  pub last : ℕ
  pub ttft : ℕ
  pub toks : Spend
  pub life : Spend
  pub blind : ℕ

-- `limit > 0 && used >= limit`.
unfoldable pub reached : ℤ → ℕ → Bool
reached (pos n) used = ltb 0 n && leb n used
reached (negsuc _) used = false

-- `Key.spent` and `Key.capped`.
unfoldable pub spent : Key → Bool
spent k = reached k.prov.rpd (k.reqs + k.live)

unfoldable pub capped : Key → Bool
capped k = reached k.prov.rpm (k.mins + k.live)

-- `Pool.free`, at the instant `now`.
unfoldable pub free : ℕ → Key → Bool
free now k = not k.dead && not (spent k) && not (capped k) && not (ltb now k.until)

-- `blameless`: the client's own error.
unfoldable pub blameless : ℕ → Bool
blameless code = leb 400 code && ltb code 500 && not (code == 429) && not (code == 402)

abbrev pub ladder : List ℕ
ladder = minute ∷ (5 * minute) ∷ (30 * minute) ∷ (1440 * minute) ∷ []

-- `Pool.bench`: the key after a failure, its cooldown, and whether it died. `none` is the panic of
-- an index outside the ladder.
unfoldable pub bench : ℕ → Key → ℕ → ℕ → Option (Key × ℕ × Bool)
unfolding blameless
bench now k code retry =
    if code == 401 || code == 403
    then some (record k { dead = true }, 0, true)
    else if blameless code
    then some (k, 0, false)
    else if ltb 0 retry
    then some (record k { until = now + retry }, retry, false)
    else get_elem? ladder k.step >>= λ d.
        some (record k { until = now + d; step = min (k.step + 1) 3 }, d, false)

-- `Key.measure`: the moving average of the time to a first token.
unfoldable pub measure : Key → ℕ → Key
measure k d =
    if d == 0
    then k
    else if k.ttft == 0
    then record k { ttft = d }
    else record k { ttft = (3 * d + 7 * k.ttft) / 10 }
