-- ===== src/Key/Speed.antt =====
-- speed.go: the moving average of the time to a first token.
use omny.Base.{ℕ, ◌<◌, ◌≤◌, min, max, arith}
use omny.Key.{Key, measure}

-- A sample of a positive time moves a measured key's average to a value between the old average and
-- the sample, so the key stays measured.
pub measure_between :
    (k : Key) (d : ℕ)
    → 0 < k.ttft
    → 0 < d
    → (min d k.ttft ≤ (measure k d).ttft)
      × ((measure k d).ttft ≤ max d k.ttft)
      × (0 < (measure k d).ttft)
unfolding measure
measure_between k d h p = ground arith
