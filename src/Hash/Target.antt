-- ===== src/Hash/Target.antt =====
-- The bounds of the next target, and the work of a target.
use Prim.Native.Nat.{min}
use native.Mathlib.Nat.{le-div_iff_mul-le}
use basiccoin.Base.{◌+◌, ◌*◌, ◌/◌, ◌^◌, ◌<◌, ◌≡◌, ◌≢◌, false, arith, inl, inr, Bool-cases}
use basiccoin.Base.Eq.{beq_ne}
use basiccoin.Base.Result.{ok, ◌>>=◌}
use basiccoin.Hash.{
  HashT, IsHash, lt, big_int, new_hash_from_big_int, max_next_target, min_next_target,
  target_to_work, work_append_target, zero_hash, hash_eq, big_int2_256,
}
use basiccoin.Hash.Value.{
  big_int-new_hash_from_big_int, big_int-lt, new_hash_from_big_int-IsHash, lt→big_int-lt,
  lt-false→big_int-le, big_int-pos,
}

quadruple :
    (m h t : HashT)
    → lt m h ≡ false
    → new_hash_from_big_int (big_int h * 4) ≡ ok t
    → IsHash t
    → IsHash m
    → big_int t ≡ big_int h * 4
    → (u : HashT) × (max_next_target m h ≡ ok u)
      × IsHash u
      × (big_int u ≡ min (big_int m) (4 * big_int h))
unfolding max_next_target
quadruple m h t fits made vt vm value = elim (Bool-cases (lt m t)) [
  | inl above ↦ (m, rw (fits, made, above), vm, omega (arith, lt→big_int-lt m t vm vt above))
  | inr under ↦ (t, rw (fits, made, under), vt, omega (arith, lt-false→big_int-le m t vm vt under))
]

-- The easiest next target is four times the last one, cut off at the easiest target of all; it
-- exists whenever that limit is below 2^254.
pub max_next_target_lem :
    (m h : HashT)
    → IsHash m
    → IsHash h
    → big_int m < 2 ^ 254
    → (u : HashT) × (max_next_target m h ≡ ok u)
      × IsHash u
      × (big_int u ≡ min (big_int m) (4 * big_int h))
unfolding max_next_target
max_next_target_lem m h vm vh small = elim (Bool-cases (lt m h)) [
  | inl above ↦ (m, rw above, vm, omega (arith, lt→big_int-lt m h vm vh above))
  | inr fits ↦
      let (t, made, vt, value) =
        big_int-new_hash_from_big_int (big_int h * 4)
          (omega (arith, lt-false→big_int-le m h vm vh fits)) in
      quadruple m h t fits made vt vm value
]

-- The hardest next target is a quarter of the last one.
pub min_next_target_lem :
    (h : HashT)
    → IsHash h
    → (u : HashT) × (min_next_target h ≡ ok u) × IsHash u × (big_int u ≡ big_int h / 4)
unfolding min_next_target
min_next_target_lem h v =
    big_int-new_hash_from_big_int (big_int h / 4) (omega (arith, big_int-lt h v))

-- Every target but zero stands for at least one unit of work.
pub target_to_work_lem :
    (h : HashT)
    → IsHash h
    → h ≢ zero_hash
    → (target_to_work h ≡ ok (big_int2_256 / big_int h)) × (0 < big_int2_256 / big_int h)
unfolding target_to_work
target_to_work_lem h v ne = (
  rw (beq_ne h zero_hash ne),
  (le-div_iff_mul-le (big_int-pos h v ne)).1 (omega (arith, big_int-lt h v)),
)

-- `WorkAppendTarget` of a total and a target of 32 bytes, the target not zero, returns the total
-- plus (2^256 - 1) / target, when the sum is below 2^256.
pub work_append_target_lem :
    (h t : HashT)
    → IsHash h
    → IsHash t
    → t ≢ zero_hash
    → big_int h + big_int2_256 / big_int t < 2 ^ 256
    → (u : HashT) × (work_append_target h t ≡ ok u)
      × IsHash u
      × (big_int u ≡ big_int h + big_int2_256 / big_int t)
unfolding work_append_target
work_append_target_lem h t vh vt ne fits =
    rw ((target_to_work_lem t vt ne).0, ◌>>=◌)
      (big_int-new_hash_from_big_int (big_int h + big_int2_256 / big_int t) fits)

-- The total of a target's work that is added.
pub work_append_target-eq-ok :
    (h t u : HashT)
    → IsHash t
    → t ≢ zero_hash
    → work_append_target h t ≡ ok u
    → IsHash u × (big_int u ≡ big_int h + big_int2_256 / big_int t)
unfolding work_append_target
work_append_target-eq-ok h t u vt ne e =
    let e₁ = rw ((target_to_work_lem t vt ne).0, ◌>>=◌) at e in
    new_hash_from_big_int-IsHash (big_int h + big_int2_256 / big_int t) u e₁

-- A total that grew by a target's work is larger.
pub work_append_target-lt :
    (h t u : HashT)
    → IsHash t
    → t ≢ zero_hash
    → work_append_target h t ≡ ok u
    → IsHash u × (big_int h < big_int u)
work_append_target-lt h t u vt ne e =
    let (v, value) = work_append_target-eq-ok h t u vt ne e in
    (v, omega (arith, value, (target_to_work_lem t vt ne).1))
