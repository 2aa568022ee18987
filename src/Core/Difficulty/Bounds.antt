-- ===== src/Core/Difficulty/Bounds.antt =====
-- The bounds on targets in `NextTarget` of pkg/core/difficulty.go.
use Prim.Native.Nat.{min}
use basiccoin.Base.{ℕ, ◌*◌, ◌/◌, ◌^◌, ◌<◌, ◌≤◌, ◌≡◌, arith, inl, inr, Bool-cases, if◌then◌else◌}
use basiccoin.Base.Result.{ok}
use basiccoin.Core.Params.{Params}
use basiccoin.Core.Difficulty.{clamp_target}
use basiccoin.Hash.{HashT, IsHash, lt, big_int}
use basiccoin.Hash.Value.{lt-false→big_int-le}
use basiccoin.Hash.Target.{max_next_target_lem, min_next_target_lem}

-- The larger of the target and a lower bound.
raise_lem :
    (target lo : HashT)
    → IsHash target
    → IsHash lo
    → (raised : HashT) × (raised ≡ (if lt target lo then lo else target))
      × IsHash raised
      × (big_int lo ≤ big_int raised)
raise_lem target lo vt vlo = elim (Bool-cases (lt target lo)) [
  | inl below ↦ (lo, rw below, vlo, omega arith)
  | inr above ↦ (target, rw above, vt, lt-false→big_int-le target lo vt vlo above)
]

-- The smaller of a value and an upper bound that is not below `lo`.
lower_lem :
    (lo : ℕ) (hi raised : HashT)
    → IsHash hi
    → IsHash raised
    → lo ≤ big_int hi
    → lo ≤ big_int raised
    → (t : HashT) × (t ≡ (if lt hi raised then hi else raised))
      × IsHash t
      × (lo ≤ big_int t)
      × (big_int t ≤ big_int hi)
lower_lem lo hi raised vhi vr h k = elim (Bool-cases (lt hi raised)) [
  | inl over ↦ (hi, rw over, vhi, omega arith, omega arith)
  | inr under ↦ (raised, rw under, vr, k, lt-false→big_int-le hi raised vhi vr under)
]

-- The last part of `NextTarget` returns a hash of 32 bytes that is at least a quarter of the last
-- target, and at most four times it and at most the easiest target, when the hashes have 32
-- bytes, the easiest target is below 2^254 and the last target is not easier than that.
pub clamp_target_lem :
    (params : Params) (prev target : HashT)
    → IsHash params.max_target
    → IsHash prev
    → IsHash target
    → big_int params.max_target < 2 ^ 254
    → big_int prev ≤ big_int params.max_target
    → (t : HashT) × (clamp_target params prev target ≡ ok t)
      × IsHash t
      × (big_int prev / 4 ≤ big_int t)
      × (big_int t ≤ min (big_int params.max_target) (4 * big_int prev))
unfolding clamp_target
clamp_target_lem params prev target vm vp vt small within =
    let (lo, lo_ok, vlo, lo_value) = min_next_target_lem prev vp in
    let (hi, hi_ok, vhi, hi_value) = max_next_target_lem params.max_target prev vm vp small in
    let (raised, raised_eq, vr, above) = raise_lem target lo vt vlo in
    let (t, t_eq, v, low, high) =
      lower_lem (big_int prev / 4) hi raised vhi vr (omega arith) (omega arith) in
    (t, rw (lo_ok, hi_ok, ← raised_eq, ← t_eq), v, low, omega arith)
