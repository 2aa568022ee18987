-- ===== src/Core/Verify/BlockRules.antt =====
-- `VerifyBlock` of pkg/core/verify.go: its rules on transactions, its period test, and all of it.
use native.Mathlib.Nat.{mod-eq_of_lt}
use basiccoin.Base.{
  ℕ, ◌+◌, ◌%◌, ◌^◌, ◌<◌, ◌≤◌, ◌≡◌, ◌↔◌, true, false, not, List, [], ◌∷◌, arith, ltb, length, All,
  nat_beq_iff, not_ltb→le,
}
use basiccoin.Base.Eq.{◌==◌, nat_eq}
use basiccoin.Base.Result.{ok, >>=-eq-ok, guard-eq-ok, guard-ok}
use basiccoin.Base.Word.{add64}
use basiccoin.Core.Block.{Block, block_hash, block_max_txs}
use basiccoin.Core.Params.{Params}
use basiccoin.Core.Tx.{Tx, inputs_value, outputs_value}
use basiccoin.Core.Tx.Values.{exact_inputs, exact_outputs, inputs_value-mod, outputs_value-mod}
use basiccoin.Core.Verify.{
  InvVerifier, sum_rest, verify_block_txs, verify_period, last_in_period_test, verify_block,
  verify_block_isolated, verify_median, verify_target,
}
use basiccoin.Hash.{lt}
use basiccoin.Hash.Digest.{Sha256}

-- The worth of the inputs and of the outputs of a list of transactions, in unbounded arithmetic.
abbrev pub all_inputs : List Tx → ℕ
all_inputs [] = 0
all_inputs (tx ∷ txs) = exact_inputs tx.inputs + all_inputs txs

abbrev pub all_outputs : List Tx → ℕ
all_outputs [] = 0
all_outputs (tx ∷ txs) = exact_outputs tx.outputs + all_outputs txs

abbrev pub IsNormal : Tx → Type 0
IsNormal tx = tx.is_coinbase ≡ false

-- A coinbase made for this height, then other transactions; together with the reward the inputs
-- are worth the outputs, up to a multiple of 2^64.
abbrev pub IsBalanced : Params → ℕ → List Tx → Type 0
IsBalanced params height [] = ⊥
IsBalanced params height (first ∷ rest) =
    (first.min_block ≡ height)
    × (first.is_coinbase ≡ true)
    × All IsNormal rest
    × ((params.block_reward + all_inputs (first ∷ rest)) % 2 ^ 64
        ≡ all_outputs (first ∷ rest) % 2 ^ 64)

sum_rest_sound :
    (txs : List Tx) (i o i' o' : ℕ)
    → i < 2 ^ 64
    → o < 2 ^ 64
    → sum_rest txs i o ≡ ok (i', o')
    → All IsNormal txs
      × (i' ≡ (i + all_inputs txs) % 2 ^ 64)
      × (o' ≡ (o + all_outputs txs) % 2 ^ 64)
unfolding sum_rest
sum_rest_sound [] i o i' o' hi ho e = (tt, ground arith, ground arith)
sum_rest_sound (tx ∷ txs) i o i' o' hi ho e =
    let (normal, e₁) = guard-eq-ok (not tx.is_coinbase) _ _ e in
    let (all, si, so) =
      sum_rest_sound txs (add64 i (inputs_value tx)) (add64 o (outputs_value tx)) i' o'
        (omega arith) (omega arith) e₁ in
    (
      (ground arith, all),
      omega (arith, si, inputs_value-mod tx),
      omega (arith, so, outputs_value-mod tx),
    )

sum_rest_complete :
    (txs : List Tx) (i o : ℕ)
    → i < 2 ^ 64
    → o < 2 ^ 64
    → All IsNormal txs
    → sum_rest txs i o ≡ ok ((i + all_inputs txs) % 2 ^ 64, (o + all_outputs txs) % 2 ^ 64)
unfolding sum_rest
sum_rest_complete [] i o hi ho h = ground arith
sum_rest_complete (tx ∷ txs) i o hi ho h =
    let same_i : (add64 i (inputs_value tx) + all_inputs txs) % 2 ^ 64
        ≡ (i + all_inputs (tx ∷ txs)) % 2 ^ 64 =
      omega (arith, inputs_value-mod tx) in
    let same_o : (add64 o (outputs_value tx) + all_outputs txs) % 2 ^ 64
        ≡ (o + all_outputs (tx ∷ txs)) % 2 ^ 64 =
      omega (arith, outputs_value-mod tx) in
    simp (h.0, ← same_i, ← same_o)
      (sum_rest_complete txs (add64 i (inputs_value tx)) (add64 o (outputs_value tx)) (omega arith)
        (omega arith) h.1)

-- The checks of `VerifyBlock` on the transactions of a block pass exactly when the first is a
-- coinbase whose minimum block is the height, no other is a coinbase, and the block reward with
-- all inputs is worth the same as all outputs modulo 2^64.
pub verify_block_txs_iff :
    (params : Params) (height : ℕ) (txs : List Tx)
    → (verify_block_txs params height txs ≡ ok tt) ↔ IsBalanced params height txs
unfolding verify_block_txs
verify_block_txs_iff params height [] = ((λ e. ground arith), (λ h. absurd h))
verify_block_txs_iff params height (first ∷ rest) = (sound, complete)
  where
    ins : ℕ
    ins = add64 params.block_reward (inputs_value first)

    outs : ℕ
    outs = add64 0 (outputs_value first)

    sound :
        verify_block_txs params height (first ∷ rest) ≡ ok tt
        → IsBalanced params height (first ∷ rest)
    sound e =
        let (low, e₁) = guard-eq-ok (first.min_block == height) _ _ e in
        let (coinbase, e₂) = guard-eq-ok first.is_coinbase _ _ e₁ in
        let ((i, o), summed, e₃) = >>=-eq-ok (sum_rest rest ins outs) _ e₂ in
        let (normal, si, so) =
          sum_rest_sound rest ins outs i o (omega arith) (omega arith) summed in
        (
          (nat_beq_iff _ _).0 low,
          coinbase,
          normal,
          omega (
            arith,
            (nat_beq_iff i o).0 (guard-ok _ _ e₃),
            si,
            so,
            inputs_value-mod first,
            outputs_value-mod first,
          ),
        )

    complete :
        IsBalanced params height (first ∷ rest)
        → verify_block_txs params height (first ∷ rest) ≡ ok tt
    complete (low, coinbase, normal, even) =
        let even' : (ins + all_inputs rest) % 2 ^ 64 ≡ (outs + all_outputs rest) % 2 ^ 64 =
          omega (arith, inputs_value-mod first, outputs_value-mod first) in
        simp (
          (nat_beq_iff _ _).1 low,
          coinbase,
          sum_rest_complete rest ins outs (omega arith) (omega arith) normal,
          (nat_beq_iff _ _).1 even',
        )

-- The test whether a block is the last of its period is never passed, in periods of 2 or more.
last_in_period_test-false :
    (height period : ℕ)
    → 2 ≤ period
    → height + 1 < 2 ^ 64
    → last_in_period_test height period ≡ ok false
unfolding last_in_period_test
last_in_period_test-false height period h k = ground (arith, mod-eq_of_lt h)

-- The rule of `VerifyBlock` that the last block of a period is mined after its first one refuses
-- no block, when the period has 2 blocks or more and the height is below 2^64 - 1.
pub verify_period_idle :
    (params : Params) (inv : InvVerifier) (b : Block) (height : ℕ)
    → 2 ≤ params.difficulty_period
    → height + 1 < 2 ^ 64
    → verify_period params inv b height ≡ ok tt
unfolding verify_period
verify_period_idle params inv b height h k =
    rw (last_in_period_test-false height params.difficulty_period h k)

-- What a block that `VerifyBlock` accepts at the time `now` is known to satisfy.
pub record IsVerified ⦃sha : Sha256⦄ (params : Params) (inv : InvVerifier) (now : ℕ) (b : Block)
    : Type 0 where
  pub beats_target : lt (block_hash b) b.target ≡ true
  pub has_root : inv.has_merkle b.merkle_root ≡ true
  pub has_parent : inv.has_block b.prev_block_id ≡ true
  pub parent_height : ℕ
  pub height_known : inv.get_block_height b.prev_block_id ≡ ok parent_height
  pub txs : List Tx
  pub txs_known : inv.get_merkle_txs b.merkle_root ≡ ok txs
  pub balanced : IsBalanced params (add64 parent_height 1) txs
  pub size : ℕ
  pub size_known : inv.get_merkle_vsize b.merkle_root ≡ ok size
  pub size_fits : size ≤ params.max_block_vsize
  pub timely : b.mined_time ≤ add64 now 3600
  pub right_target : verify_target params inv b (add64 parent_height 1) ≡ ok tt

-- A block that `VerifyBlock` accepts beats its target, has a known parent and a known tree whose
-- transactions are balanced for its height and within the size limit, is not mined more than an
-- hour ahead of `now` (in uint64 arithmetic), and keeps the rules on targets.
pub verify_block_sound :
    ⦃sha : Sha256⦄ (params : Params) (inv : InvVerifier) (now : ℕ) (b : Block)
    → verify_block params inv now b ≡ ok tt
    → IsVerified params inv now b
unfolding verify_block verify_block_isolated
verify_block_sound params inv now b e =
    let (beats, e₁) = guard-eq-ok (lt (block_hash b) b.target) _ _ e in
    let (root, e₂) = guard-eq-ok (inv.has_merkle b.merkle_root) _ _ e₁ in
    let (parent, e₃) = guard-eq-ok (inv.has_block b.prev_block_id) _ _ e₂ in
    let (txs, txs_known, e₄) = >>=-eq-ok (inv.get_merkle_txs b.merkle_root) _ e₃ in
    let (some_txs, e₅) = guard-eq-ok (not (length txs == 0)) _ _ e₄ in
    let (most, _, e₆) = >>=-eq-ok (block_max_txs params) _ e₅ in
    let (few, e₇) = guard-eq-ok (not (ltb most (length txs))) _ _ e₆ in
    let (h, h_known, e₈) = >>=-eq-ok (inv.get_block_height b.prev_block_id) _ e₇ in
    let (_, even, e₉) = >>=-eq-ok (verify_block_txs params (add64 h 1) txs) _ e₈ in
    let (size, size_known, e₁₀) = >>=-eq-ok (inv.get_merkle_vsize b.merkle_root) _ e₉ in
    let (fits, e₁₁) = guard-eq-ok (not (ltb params.max_block_vsize size)) _ _ e₁₀ in
    let (_, _, e₁₂) = >>=-eq-ok (verify_median inv b) _ e₁₁ in
    let (_, _, e₁₃) = >>=-eq-ok (verify_period params inv b (add64 h 1)) _ e₁₂ in
    let (timely, e₁₄) = guard-eq-ok (not (ltb (add64 now 3600) b.mined_time)) _ _ e₁₃ in
    record {
      beats_target = beats;
      has_root = root;
      has_parent = parent;
      parent_height = h;
      height_known = h_known;
      txs = txs;
      txs_known = txs_known;
      balanced = (verify_block_txs_iff params (add64 h 1) txs).0 even;
      size = size;
      size_known = size_known;
      size_fits = not_ltb→le _ _ fits;
      timely = not_ltb→le _ _ timely;
      right_target = e₁₄;
    }
