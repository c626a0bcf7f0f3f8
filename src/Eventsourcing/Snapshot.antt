-- ===== src/Eventsourcing/Snapshot.antt =====
-- The snapshot policy (eventsourcing/snapshot.go).
use go_ddd_core.Prelude.{ℕ, ◌+◌, ◌-◌, ◌*◌, ◌/◌, ◌%◌, ◌≤◌, ◌<◌, ◌≡◌, true, arith}
use native.Mathlib.Nat.{mul-le-mul_left, lt_of_mul-lt-mul_left}
use go_ddd_core.Prelude.Int.{pos}
use go_ddd_core.Eventsourcing.{should_snapshot}

mul_gap : (n q r : ℕ) → n * q < n * r → n * q + n ≤ n * r
mul_gap n q r h = omega (arith, mul-le-mul_left n (lt_of_mul-lt-mul_left n h))

mul-mod_self : (n q : ℕ) → 0 < n → (n * q) % n ≡ 0
mul-mod_self n q h = grind arith

should_snapshot_mod : (n v : ℕ) → 0 < n → should_snapshot (pos n) (pos v) ≡ true → n * (v / n) ≡ v
unfolding should_snapshot
should_snapshot_mod n v hn h = ground arith

should_snapshot_multiple : (n q : ℕ) → 0 < n → should_snapshot (pos n) (pos (n * q)) ≡ true
unfolding should_snapshot
should_snapshot_multiple n q hn = ground (arith, mul-mod_self n q)

-- For a positive n, every window of n consecutive versions holds one at which a snapshot is taken.
pub should_snapshot_window :
    (n v : ℕ) → 0 < n → (u : ℕ) × (v ≤ u) × (u < v + n) × (should_snapshot (pos n) (pos u) ≡ true)
should_snapshot_window n v hn = (
  n * ((v + n - 1) / n),
  grind arith,
  grind arith,
  should_snapshot_multiple n ((v + n - 1) / n) hn,
)

-- For a positive n, two different versions at which a snapshot is taken are at least n apart.
should_snapshot_gap :
    (n v w : ℕ)
    → 0 < n
    → v < w
    → should_snapshot (pos n) (pos v) ≡ true
    → should_snapshot (pos n) (pos w) ≡ true
    → v + n ≤ w
should_snapshot_gap n v w hn lt hv hw =
    let p = should_snapshot_mod n v hn hv in
    let q = should_snapshot_mod n w hn hw in omega (arith, mul_gap n (v / n) (w / n) (omega arith))
