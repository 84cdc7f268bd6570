-- ===== src/Pool/Traffic/Safety.antt =====
-- Events and runs of the traffic, and the invariant of a stable property.
use omny.Base.{
  ℕ, ◌<◌, ◌≤◌, max, ◌≡◌, refl, sym, subst, inl, inr, Bool, true, false, List, [], ◌∷◌, some, arith,
  Bytes, length, get_elem?, All, Option-cases, count,
}
use omny.Config.{Provider, Config, Slot}
use omny.Key.{Key}
use omny.Pool.{Pool, ring, hush}
use omny.Pool.Reload.{new_key, assign, adopt}
use omny.Pool.Reload.Survival.{Steady, adopt-Every}
use omny.Pool.Traffic.{
  Traffic, Event, picks, fails, succeeds, leaves, charges, sours, hushes, reloads, step,
}
use omny.Pool.Traffic.Invariant.{Stable, Inv, All-resize}
use omny.Pool.Traffic.Events.{
  picks-Inv, fails-Inv, succeeds-Inv, leaves-Inv, charges-Inv, sours-Inv,
}

abbrev pub is_reload : Event → Bool
is_reload (reloads _) = true
is_reload _ = false

-- Every event but a reload keeps the invariant of a stable property, without a panic.
pub request-Inv :
    (P : ℕ → Key → Type 0) (S : Stable P) (fingerprint : Bytes → Bytes) (now : ℕ) (t : Traffic)
    (e : Event)
    → is_reload e ≡ false
    → Inv P t
    → (t' : Traffic) × (step fingerprint now t e ≡ some t') × Inv P t'
unfolding step hush ring
request-Inv P S fp now t (picks prov) h v = picks-Inv P S now t v fp prov
request-Inv P S fp now t (fails i code retry) h v = elim (Option-cases (get_elem? t.held i)) [
  | inl e ↦ (t, rw e, v)
  | inr (a, e) ↦ fails-Inv P S now t v fp i code retry a e
]
request-Inv P S fp now t (succeeds i ttft) h v = elim (Option-cases (get_elem? t.held i)) [
  | inl e ↦ (t, rw e, v)
  | inr (a, e) ↦ succeeds-Inv P S now t v fp i ttft a e
]
request-Inv P S fp now t (leaves i) h v = elim (Option-cases (get_elem? t.held i)) [
  | inl e ↦ (t, rw e, v)
  | inr (a, e) ↦ leaves-Inv P S now t v fp i a e
]
request-Inv P S fp now t (charges i s) h v = elim (Option-cases (get_elem? t.served i)) [
  | inl e ↦ (t, rw e, v)
  | inr (a, e) ↦ charges-Inv P S now t v fp i a s e
]
request-Inv P S fp now t (sours i) h v = elim (Option-cases (get_elem? t.served i)) [
  | inl e ↦ (t, rw e, v)
  | inr (a, e) ↦ sours-Inv P S now t v fp i a e
]
request-Inv P S fp now t (hushes prov) h v = (
  _,
  refl,
  record {
    sound = record { valid = v.sound.valid; cursor = v.sound.cursor };
    every = v.every;
    held_valid = v.held_valid;
    served_valid = v.served_valid;
  },
)
request-Inv P S fp now t (reloads c) h v = absurd (cc)

-- A reload keeps a property that holds of a new key with no reservation and does not read a key's
-- provider.
pub record Reloadable (P : ℕ → Key → Type 0) : Type 0 where
  pub of_new : (prov : Provider) (sl : Slot) → P 0 (new_key prov sl)
  pub of_assign : (n : ℕ) (prov : Provider) (k : Key) → P n k → P n (assign prov k)

count_unheld : (n : ℕ) (held : List ℕ) (a : ℕ) → All (λ b. b < n) held → n ≤ a → count a held ≡ 0
count_unheld n [] a h l = refl
count_unheld n (b ∷ held) a h l = ground (arith, h.0, count_unheld n held a h.1 l)

cursor-adopt :
    (fingerprint : Bytes → Bytes) (p : Pool) (c : Config) (prov : Bytes)
    → (adopt fingerprint p c).rr prov < max 1 (length (ring (adopt fingerprint p c) prov))
unfolding adopt
cursor-adopt fp p c prov = omega arith

pub reload-Inv :
    (P : ℕ → Key → Type 0)
    → Reloadable P
    → (fingerprint : Bytes → Bytes) (t : Traffic) (c : Config) → Inv P t
    → Inv P (record t { pool = adopt fingerprint t.pool c })
reload-Inv P R fp t c v =
    let steady : Steady (λ a k. P (count a t.held) k) (length t.pool.cells) = record {
      of_new = λ a prov sl l.
          subst (λ n. P n (new_key prov sl)) (sym (count_unheld _ t.held a v.held_valid l))
            (R.of_new prov sl);
      of_assign = λ a prov k h. R.of_assign _ prov k h;
    } in
    let (all, lt, grows) =
      adopt-Every (λ a k. P (count a t.held) k) fp t.pool c steady v.sound.valid v.every in
    record {
      sound = record { valid = lt; cursor = λ prov. cursor-adopt fp t.pool c prov };
      every = all;
      held_valid = All-resize _ _ t.held grows v.held_valid;
      served_valid = All-resize _ _ t.served grows v.served_valid;
    }
