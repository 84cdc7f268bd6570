-- ===== src/Key/Bench.antt =====
-- pool.go, `bench`: what a failure does to a key, and how the cooldown ladder climbs.
use omny.Base.{
  ℕ, zero, suc, List, [], ◌∷◌, All, length, ◌+◌, ◌*◌, ◌<◌, ◌≤◌, min, ◌≡◌, refl, ◌⊎◌, ◌≢◌, inl, inr,
  Bool, true, false, Option, none, some, arith, get_elem?, ◌>>=◌, Option-cases,
}
use omny.Clock.{minute}
use omny.Key.{Key, free, blameless, ladder, bench}

-- A key's place on the ladder is one of its four rungs.
abbrev pub OnLadder : Key → Type 0
OnLadder k = k.step < 4

rung : (n : ℕ) → n < 4 → (d : ℕ) × (get_elem? ladder n ≡ some d) × (minute ≤ d)
rung zero h = (minute, refl, omega arith)
rung (suc zero) h = (5 * minute, refl, omega arith)
rung (suc (suc zero)) h = (30 * minute, refl, omega arith)
rung (suc (suc (suc zero))) h = (1440 * minute, refl, omega arith)
rung (suc (suc (suc (suc n)))) h = absurd (omega arith)

-- What a failure may do to a key.
pub record Benched (now : ℕ) (k : Key) (code : ℕ) (k' : Key) (d : ℕ) (died : Bool) : Type 0 where
  pub on_ladder : OnLadder k'
  pub same_prov : k'.prov ≡ k.prov
  pub same_id : k'.id ≡ k.id
  pub same_live : k'.live ≡ k.live
  pub same_reqs : k'.reqs ≡ k.reqs
  pub same_mins : k'.mins ≡ k.mins
  pub same_ttft : k'.ttft ≡ k.ttft
  pub spared : died ≡ false → blameless code ≡ true → k' ≡ k
  pub rests : died ≡ false → blameless code ≡ false → (0 < d) × (k'.until ≡ now + d)
  pub stays_dead : died ≡ true → k'.dead ≡ true

bench-ne-none : (now : ℕ) (k : Key) (code retry : ℕ) → OnLadder k → bench now k code retry ≢ none
unfolding bench
bench-ne-none now k code retry h = let (d, e, _) = rung k.step h in ground (arith, e)

pub bench_total :
    (now : ℕ) (k : Key) (code retry : ℕ)
    → OnLadder k
    → (r : Key × ℕ × Bool) × (bench now k code retry ≡ some r)
bench_total now k code retry h = elim (Option-cases (bench now k code retry)) [
  | inl e ↦ absurd (bench-ne-none now k code retry h e)
  | inr p ↦ p
]

pub bench-Benched :
    (now : ℕ) (k : Key) (code retry : ℕ) {r : Key × ℕ × Bool}
    → OnLadder k
    → bench now k code retry ≡ some r
    → Benched now k code r.0 r.1 r.2
unfolding bench
bench-Benched now k code retry h e = let (d, f, _) = rung k.step h in ground (arith, f)

-- After a failure that benches or kills a key on the ladder, the key is not free: before its cooldown
-- ends where it is benched, and at any time where it is dead.
pub bench-free :
    (now : ℕ) (k : Key) (code retry : ℕ) {r : Key × ℕ × Bool} (t : ℕ)
    → OnLadder k
    → bench now k code retry ≡ some r
    → (t < now + r.1) ⊎ (r.2 ≡ true)
    → (r.2 ≡ true) ⊎ (blameless code ≡ false)
    → free t r.0 ≡ false
unfolding free
bench-free now k code retry {r} t h e late blamed =
    let b = bench-Benched now k code retry h e in ground (arith, b)

-- One failure after another, each an instant and a status code, with no reset hint.
pub failures : List (ℕ × ℕ) → Key → Option Key
failures [] k = some k
failures ((now, code) ∷ more) k = bench now k code 0 >>= λ r. failures more r.0

-- No error of the client's, so the ladder decides.
abbrev pub Blamed : ℕ × ℕ → Type 0
Blamed f = blameless f.1 ≡ false

bench_climbs :
    (now : ℕ) (k : Key) (code d : ℕ)
    → get_elem? ladder k.step ≡ some d
    → blameless code ≡ false
    → bench now k code 0 ≡ some (record k { until = now + d; step = min (k.step + 1) 3 }, d, false)
unfolding bench
bench_climbs now k code d e b = ground (arith, e)

failures_step :
    (past : List (ℕ × ℕ)) (k : Key)
    → OnLadder k
    → All Blamed past
    → (k' : Key) × (failures past k ≡ some k') × (k'.step ≡ min 3 (k.step + length past))
unfolding failures
failures_step [] k h b = (k, refl, omega arith)
failures_step ((now, code) ∷ more) k h b =
    let (d, e, _) = rung k.step h in
    let (k', f, g) =
      failures_step more (record k { until = now + d; step = min (k.step + 1) 3 }) (omega arith)
        b.1 in
    (k', rw (bench_climbs now k code d e b.0) f, omega (arith, g))

-- After any number of blamed failures in a row without a reset hint, the next one benches a fresh
-- key for the rung of that number, and for the last rung once the ladder is climbed.
pub failures_cooldown :
    (past : List (ℕ × ℕ)) (k : Key) (now code : ℕ)
    → k.step ≡ 0
    → All Blamed past
    → blameless code ≡ false
    → (k' : Key) × (d : ℕ) × (failures past k ≡ some k')
      × (get_elem? ladder (min 3 (length past)) ≡ some d)
      × (bench now k' code 0
          ≡ some (record k' { until = now + d; step = min 3 (suc (length past)) }, d, false))
failures_cooldown past k now code z b c =
    let (k', f, g) = failures_step past k (omega arith) b in
    let (d, e, _) = rung k'.step (omega (arith, g)) in
    let s : k'.step ≡ min 3 (length past) = omega (arith, g, z) in
    let s' : min (k'.step + 1) 3 ≡ min 3 (suc (length past)) = omega (arith, s) in
    (k', d, f, rw (← s) e, rw (← s') (bench_climbs now k' code d e c))
