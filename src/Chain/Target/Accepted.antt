-- ===== src/Chain/Target/Accepted.antt =====
-- `NextTarget` of pkg/core/difficulty.go against the rules of `VerifyBlock` on targets.
use mathlib.Core.Path.{subst}
use basiccoin.Base.{ℕ, ◌^◌, ◌<◌, ◌≤◌, ◌≡◌, false, arith, inl, inr, Bool-cases, nat_beq_iff}
use basiccoin.Base.Eq.{◌==◌, nat_eq, beq_refl}
use basiccoin.Base.Result.{ok, ◌>>=◌, >>=-eq-ok}
use basiccoin.Base.Word.{add64, mod64}
use basiccoin.Chain.Target.{targeter_view}
use basiccoin.Core.Block.{Block}
use basiccoin.Core.Params.{Params}
use basiccoin.Core.Difficulty.{
  clamp_target, next_target, expected_target_adjustment, or_panic, adjusted,
}
use basiccoin.Core.Difficulty.Bounds.{clamp_target_lem}
use basiccoin.Core.Verify.{verify_target}
use basiccoin.Hash.{
  HashT, IsHash, hash_eq, lt, eq_zero, big_int, new_hash_from_big_int, max_next_target,
  min_next_target,
}
use basiccoin.Hash.Value.{big_int-le→lt-false, new_hash_from_big_int-IsHash}
use basiccoin.Hash.Target.{max_next_target_lem, min_next_target_lem}
use basiccoin.Inv.{Inv, verifier_view, get_block, get_block_height}

-- A clamped target passes both tests of the verifier at the end of a period.
clamp_target-accepted :
    (params : Params) (prev target t : HashT)
    → IsHash params.max_target
    → IsHash prev
    → IsHash target
    → big_int params.max_target < 2 ^ 254
    → big_int prev ≤ big_int params.max_target
    → clamp_target params prev target ≡ ok t
    → (lo hi : HashT) × (min_next_target prev ≡ ok lo)
      × (max_next_target params.max_target prev ≡ ok hi)
      × (lt t lo ≡ false)
      × (lt hi t ≡ false)
clamp_target-accepted params prev target t vm vp vt small within e =
    let (lo, lo_ok, vlo, lo_value) = min_next_target_lem prev vp in
    let (hi, hi_ok, vhi, hi_value) = max_next_target_lem params.max_target prev vm vp small in
    let (u, u_ok, vu, low, high) = clamp_target_lem params prev target vm vp vt small within in
    let same : u ≡ t = cc in
    (
      lo,
      hi,
      lo_ok,
      hi_ok,
      subst (λ x. lt x lo ≡ false) same (big_int-le→lt-false u lo vu vlo (omega arith)),
      subst (λ x. lt hi x ≡ false) same (big_int-le→lt-false hi u vhi vu (omega arith)),
    )

module _ (inv : Inv) (parent : Block) (b : Block) (h : ℕ)
    (not_root : eq_zero b.prev_block_id ≡ false) (found : get_block inv b.prev_block_id ≡ ok parent)
    (height : get_block_height inv b.prev_block_id ≡ ok h) where
  -- The end of a period.
  adjust_accepted :
      IsHash inv.core_params.max_target
      → IsHash parent.target
      → big_int inv.core_params.max_target < 2 ^ 254
      → big_int parent.target ≤ big_int inv.core_params.max_target
      → mod64 (add64 h 1) inv.core_params.difficulty_period ≡ ok 0
      → next_target inv.core_params (targeter_view inv) b.prev_block_id ≡ ok b.target
      → verify_target inv.core_params (verifier_view inv) b (add64 h 1) ≡ ok tt
  unfolding next_target verify_target
  adjust_accepted vm vp small within last e =
      let e₁ = rw (not_root, height, last, ◌>>=◌) at e in
      let (times, _, e₂) =
        >>=-eq-ok
          (or_panic
            (expected_target_adjustment inv.core_params (targeter_view inv) b.prev_block_id))
          _ e₁ in
      let e₃ = rw (found, ◌>>=◌) at e₂ in
      let (n, _, e₄) = >>=-eq-ok (adjusted parent.target times.0 times.1) _ e₃ in
      let (target, made, e₅) = >>=-eq-ok (new_hash_from_big_int n) _ e₄ in
      let (lo, hi, lo_ok, hi_ok, above, below) =
        clamp_target-accepted inv.core_params parent.target target b.target vm vp
          (new_hash_from_big_int-IsHash n target made).0 small within e₅ in
      rw (not_root, found, last, lo_ok, above, hi_ok, below)

  -- Within a period.
  keep_accepted :
      (r : ℕ)
      → mod64 (add64 h 1) inv.core_params.difficulty_period ≡ ok r
      → (r == 0) ≡ false
      → next_target inv.core_params (targeter_view inv) b.prev_block_id ≡ ok b.target
      → verify_target inv.core_params (verifier_view inv) b (add64 h 1) ≡ ok tt
  unfolding next_target verify_target
  keep_accepted r rest more e =
      let e₁ = rw (not_root, height, rest, more, found, ◌>>=◌) at e in
      let same : b.target ≡ parent.target = cc in
      rw (not_root, found, rest, more, same, beq_refl parent.target)

-- If `NextTarget` gives the target of a block whose parent is stored, the block passes the rules
-- of `VerifyBlock` on targets at its height, when the parent's target and the easiest target have
-- 32 bytes, the easiest is below 2^254 and the parent's is not easier than that.
pub next_target-accepted :
    (inv : Inv) (parent b : Block) (h : ℕ)
    → get_block inv b.prev_block_id ≡ ok parent
    → get_block_height inv b.prev_block_id ≡ ok h
    → IsHash inv.core_params.max_target
    → IsHash parent.target
    → big_int inv.core_params.max_target < 2 ^ 254
    → big_int parent.target ≤ big_int inv.core_params.max_target
    → next_target inv.core_params (targeter_view inv) b.prev_block_id ≡ ok b.target
    → verify_target inv.core_params (verifier_view inv) b (add64 h 1) ≡ ok tt
unfolding next_target verify_target
next_target-accepted inv parent b h found height vm vp small within e =
    elim (Bool-cases (eq_zero b.prev_block_id)) [
      | inl root ↦
          let e₁ = rw root at e in
          let same : inv.core_params.original_target ≡ b.target = cc in
          rw (root, ← same, beq_refl inv.core_params.original_target)
      | inr not_root ↦
          let e₁ = rw (not_root, height, ◌>>=◌) at e in
          let (r, rest, _) = >>=-eq-ok (mod64 (add64 h 1) inv.core_params.difficulty_period) _ e₁ in
          elim (Bool-cases (r == 0)) [
            | inl last ↦
                adjust_accepted inv parent b h not_root found height vm vp small within
                  (rw (rest, (nat_beq_iff r 0).0 last)) e
            | inr more ↦ keep_accepted inv parent b h not_root found height r rest more e
          ]
    ]
