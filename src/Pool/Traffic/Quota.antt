-- ===== src/Pool/Traffic/Quota.antt =====
-- The quotas of a key, and what the operations of a request make of its load.
use omny.Base.{
  ℕ, suc, ◌+◌, ◌-◌, ◌<◌, ◌≤◌, ◌≡◌, refl, sym, subst, true, false, List, [], ◌∷◌, Option, none, some,
  arith, Bytes, All,
}
use omny.Base.Int.{ℤ, pos, negsuc}
use omny.Config.{Provider, Config}
use omny.Key.{Key, Spend, measure, reached, spent, capped, free}
use omny.Key.Bench.{OnLadder, bench-Benched}
use omny.Pool.{reserve, release, account, succeed}
use omny.Pool.Traffic.{Traffic, Event, run}
use omny.Pool.Traffic.Invariant.{Stable, Inv}
use omny.Pool.Traffic.Safety.{Reloadable, is_reload, request-Inv}
use omny.Pool.Traffic.Ledger.{Ledger, Ledger-Stable, start, start-Inv}

-- A cap that is 0 or negative is no cap.
abbrev pub Within : ℤ → ℕ → Type 0
Within (pos n) used = 0 < n → used ≤ n
Within (negsuc _) used = Unit

-- The daily and the minute's load of a key fit its provider's caps.
abbrev pub Fits : Provider → ℕ → ℕ → Type 0
Fits prov daily recent = Within prov.rpd daily × Within prov.rpm recent

abbrev pub InCaps : Key → Type 0
InCaps k = Fits k.prov (k.reqs + k.live) (k.mins + k.live)

abbrev pub Budget : ℕ → Key → Type 0
Budget n k = Ledger n k × InCaps k

-- A limit that is not reached has room for one more.
reached_room : (l : ℤ) (used : ℕ) → reached l used ≡ false → Within l (suc used)
unfolding reached
reached_room (pos n) used h = λ p. ground arith
reached_room (negsuc n) used h = tt

pub Within-le : (l : ℤ) (m n : ℕ) → m ≤ n → Within l n → Within l m
Within-le (pos l) m n h w = λ p. omega (arith, w p)
Within-le (negsuc l) m n h w = tt

free_room : (now : ℕ) (k : Key) → free now k ≡ true → (spent k ≡ false) × (capped k ≡ false)
unfolding free
free_room now k h = ground arith

reserve-InCaps : (now : ℕ) (k : Key) → free now k ≡ true → InCaps (reserve k)
unfolding spent capped
reserve-InCaps now k h =
    let (s, c) = free_room now k h in
    (
      Within-le _ _ (suc (k.reqs + k.live)) (omega arith) (reached_room k.prov.rpd _ s),
      Within-le _ _ (suc (k.mins + k.live)) (omega arith) (reached_room k.prov.rpm _ c),
    )

-- Lower counters under the same provider fit where the higher did.
shrink :
    (k k' : Key)
    → k'.prov ≡ k.prov
    → k'.reqs + k'.live ≤ k.reqs + k.live
    → k'.mins + k'.live ≤ k.mins + k.live
    → InCaps k
    → InCaps k'
shrink k k' p d m w =
    subst (λ prov. Fits prov (k'.reqs + k'.live) (k'.mins + k'.live)) (sym p)
      (Within-le _ _ _ d w.0, Within-le _ _ _ m w.1)

succeed_counts :
    (now ttft : ℕ) (k : Key)
    → let k' = succeed now ttft k in
      (k'.prov ≡ k.prov) × (k'.reqs ≡ k.reqs + 1) × (k'.mins ≡ k.mins + 1) × (k'.live ≡ k.live - 1)
unfolding measure
succeed_counts now ttft k = ground arith

charge-InCaps : (s : Option Spend) (k : Key) → InCaps k → InCaps (account s k)
charge-InCaps none k h = h
charge-InCaps (some s) k h = h

pub Budget-Stable : Stable Budget
Budget-Stable = record {
  on_ladder = λ n k h. h.0.0;
  of_roll = λ n k k' r h.
      (Ledger-Stable.of_roll n k k' r h.0, shrink k k' r.same_prov (omega arith) (omega arith) h.1);
  of_reserve = λ n now k f h. (Ledger-Stable.of_reserve n now k f h.0, reserve-InCaps now k f);
  of_fail = λ n now code retry k r e h.
      let b =
        bench-Benched now (record k { live = k.live - 1; errs = k.errs + 1 }) code retry h.0.0 e in
      (
        Ledger-Stable.of_fail n now code retry k r e h.0,
        shrink k r.0 b.same_prov (omega (arith, b.same_live, b.same_reqs))
            (omega (arith, b.same_live, b.same_mins)) h.1,
      );
  of_sour = λ n now k r e h.
      let b = bench-Benched now (record k { errs = k.errs + 1 }) 0 0 h.0.0 e in
      (
        Ledger-Stable.of_sour n now k r e h.0,
        shrink k r.0 b.same_prov (omega (arith, b.same_live, b.same_reqs))
            (omega (arith, b.same_live, b.same_mins)) h.1,
      );
  of_done = λ n k h.
      (Ledger-Stable.of_done n k h.0, shrink k (release k) refl (omega arith) (omega arith) h.1);
  of_ok = λ n now ttft k h. (
    Ledger-Stable.of_ok n now ttft k h.0,
    let (p, d, m, l) = succeed_counts now ttft k in
        shrink k (succeed now ttft k) p (omega (arith, d, l, h.0.1)) (omega (arith, m, l, h.0.1))
          h.1,
  );
  of_charge = λ n s k h. (Ledger-Stable.of_charge n s k h.0, charge-InCaps s k h.1);
}

pub zero-Within : (l : ℤ) → Within l 0
zero-Within (pos n) = λ p. omega arith
zero-Within (negsuc n) = tt

-- A new process has used nothing.
abbrev pub Unused : ℕ → Key → Type 0
Unused n k = OnLadder k × (k.live ≡ n) × (n ≡ 0) × (k.reqs ≡ 0) × (k.mins ≡ 0)

pub Unused-Reloadable : Reloadable Unused
Unused-Reloadable = record {
  of_new = λ prov sl. (omega arith, refl, refl, refl, refl);
  of_assign = λ n prov k h. h;
}

Unused-InCaps : (n : ℕ) (k : Key) → Unused n k → Budget n k
Unused-InCaps n k h = (
  (h.0, h.1),
  (
    Within-le _ _ 0 (omega (arith, h)) (zero-Within k.prov.rpd),
    Within-le _ _ 0 (omega (arith, h)) (zero-Within k.prov.rpm),
  ),
)

pub start-Budget : (fp : Bytes → Bytes) (now : ℕ) (c : Config) → Inv Budget (start fp now c)
start-Budget fp now c =
    let v = start-Inv Unused Unused-Reloadable fp now c in
    record {
      sound = v.sound;
      every = λ a k e. Unused-InCaps _ k (v.every a k e);
      held_valid = v.held_valid;
      served_valid = v.served_valid;
    }

pub run-Budget :
    (fp : Bytes → Bytes) (es : List (ℕ × Event)) (t : Traffic)
    → All (λ e. is_reload e.1 ≡ false) es
    → Inv Budget t
    → (t' : Traffic) × (run fp es t ≡ some t') × Inv Budget t'
unfolding run
run-Budget fp [] t h v = (t, refl, v)
run-Budget fp ((now, e) ∷ more) t h v =
    let (t', f, v') = request-Inv Budget Budget-Stable fp now t e h.0 v in
    let (t'', g, v'') = run-Budget fp more t' h.1 v' in (t'', rw f g, v'')
