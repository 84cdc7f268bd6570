-- ===== src/Run/Resuming.antt =====
-- `restore` at the start of a process: the counters that it sets.
use omny.Base.{
  Option-cases, ℕ, refl, Bool, true, false, List, [], ◌∷◌, Option, Bytes, lookup, ◌==◌, inl, inr,
  arith,
}
use omny.Key.{Key}
use omny.Pool.{Pool, addresses, visit}
use omny.Pool.Visit.{length-visit}
use omny.Pool.Every.{Every, Every-modify}
use omny.Pool.Effects.{IsSound-same}
use omny.Pool.Traffic.Invariant.{Inv, All-resize}
use omny.Pool.Traffic.Ledger.{Ledger}
use omny.Proxy.Settling.{idle}
use omny.State.{Saved, Tally, or_zero, revive, resume, Files, restore}
use omny.Run.{or_kept}

-- A loop over keys keeps what each of its steps keeps.
pub Every-visit :
    (P : ℕ → Key → Type 0) (f : Key → Key) (ks : List ℕ) (cells : List Key)
    → ((a : ℕ) (k : Key) → P a k → P a (f k))
    → Every P cells
    → Every P (visit f ks cells)
unfolding visit
Every-visit P f [] cells keep all = all
Every-visit P f (a ∷ ks) cells keep all =
    Every-visit P f ks _ keep (Every-modify P P f cells a all (λ k g h. keep a k h) (λ b k ne h. h))

revive-Ledger :
    (n : ℕ) (today : Bool) (t : Tally) (k : Key) → Ledger n k → Ledger n (revive today t k)
unfolding revive
revive-Ledger n true t k h = h
revive-Ledger n false t k h = h

resume-Inv :
    (s : Saved) (p : Pool) (served : List ℕ)
    → Inv Ledger (idle p served)
    → Inv Ledger (idle (resume s p) served)
unfolding resume
resume-Inv s p served v =
    let f : Key → Key = λ k. revive (s.day == p.day) (or_zero (lookup k.id s.keys)) k in
    let same = length-visit f (addresses p.keys) p.cells in
    record {
      sound = IsSound-same p (resume s p) same refl v.sound.cursor v.sound;
      every =
          Every-visit (λ a k. Ledger 0 k) f (addresses p.keys) p.cells
            (λ a k h. revive-Ledger 0 (s.day == p.day) (or_zero (lookup k.id s.keys)) k h) v.every;
      held_valid = tt;
      served_valid = All-resize _ _ served (omega (arith, same)) v.served_valid;
    }

-- A process that starts is settled, whatever its state file has.
pub or_kept-Inv :
    (encode : Saved → Bytes) (decode : Bytes → Option Saved) (fs : Files) (p : Pool)
    (served : List ℕ)
    → Inv Ledger (idle p served)
    → Inv Ledger (idle (or_kept p (restore encode decode fs p)) served)
unfolding or_kept restore
or_kept-Inv encode decode fs p served v = elim (Option-cases (fs p.path)) [
  | inl e ↦ rw (restore, e) v
  | inr (b, e) ↦ elim (Option-cases (decode b)) [
    | inl f ↦ rw (restore, e, f) v
    | inr (s, f) ↦ rw (restore, e, f) (resume-Inv s p served v)
  ]
]
