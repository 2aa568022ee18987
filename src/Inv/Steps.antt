-- ===== src/Inv/Steps.antt =====
-- The two loops of `GetBlockLCA` in internal/inv/inv.go.
use mathlib.Core.Path.{subst}
use Prim.Native.Nat.{min}
use basiccoin.Base.{
  ℕ, zero, suc, ◌+◌, ◌<◌, ◌≤◌, ◌≡◌, ◌≢◌, sym, ◌∙◌, ap, some, arith, inl, inr, Bool-cases, ltb,
  ltb→lt, ltb-false→le,
}
use basiccoin.Base.Eq.{◌==◌}
use basiccoin.Base.Result.{ok, ◌>>=◌}
use basiccoin.Collections.Map as Map
use basiccoin.Collections.Map.{Map}
use basiccoin.Hash.{HashT, hash_eq, eq_iff, eq_zero, zero_hash}
use basiccoin.Inv.{Inv, BlockRecord, lower_to, step_both}
use basiccoin.Inv.Reads.{get_block_parent_id_lem, get_block_height_lem}
use basiccoin.Inv.Invariant.{IsBlockTree}
use basiccoin.Inv.Walks.{Above, here, up, Above-cases, eq_zero→eq, ne_zero}

module _ (inv : Inv) (t : IsBlockTree inv.blocks) where
  zero_height :
      (id : HashT) (r : BlockRecord)
      → id ≡ zero_hash
      → Map.lookup id inv.blocks ≡ some r
      → r.height ≡ 0
  zero_height id r e found =
      let root : Map.lookup zero_hash inv.blocks ≡ some r =
        subst (λ x. Map.lookup x inv.blocks ≡ some r) e found in
      let same : t.root ≡ r = cc (root, t.root_known) in
      omega (arith, ap (λ (x : BlockRecord). x.height) same, t.root_height)

  pub Above-height :
      {n : ℕ} {a id : HashT} (r : BlockRecord)
      → Map.lookup id inv.blocks ≡ some r
      → Above inv.blocks n a id
      → (w : BlockRecord) × (Map.lookup a inv.blocks ≡ some w) × (r.height ≡ w.height + n)
  Above-height r found here = (r, found, omega arith)
  Above-height {a = a} r found (up {n = m} w ne found' above) =
      let same : w ≡ r = cc in
      let (p, known, higher, _) = t.parent _ w ne found' in
      let (q, a_known, count) = Above-height p known above in
      (q, a_known, omega (arith, ap (λ (x : BlockRecord). x.height) same))

  -- A block moved down to the height of another, if it is the higher one.
  pub lower_to_lem :
      (fuel : ℕ) (id other : HashT) (r w : BlockRecord)
      → Map.lookup id inv.blocks ≡ some r
      → Map.lookup other inv.blocks ≡ some w
      → r.height < fuel
      → (n : ℕ) × (low : HashT) × (q : BlockRecord) × (lower_to inv fuel id other ≡ ok low)
        × Above inv.blocks n low id
        × (Map.lookup low inv.blocks ≡ some q)
        × (q.height ≡ min r.height w.height)
  unfolding lower_to
  lower_to_lem zero id other r w found found' enough = absurd (omega arith)
  lower_to_lem (suc fuel) id other r w found found' enough =
      elim (Bool-cases (ltb w.height r.height)) [
        | inl above ↦
            let ne : id ≢ zero_hash =
              λ e. absurd (omega (arith, zero_height id r e found, ltb→lt _ _ above)) in
            let (p, known, higher, _) = t.parent id r ne found in
            let (n, low, q, e, path, q_known, level) =
              lower_to_lem fuel r.block.prev_block_id other p w known found' (omega arith) in
            (
              suc n,
              low,
              q,
              rw
                  (
                    get_block_height_lem inv id found,
                    get_block_height_lem inv other found',
                    ◌>>=◌,
                    above,
                    get_block_parent_id_lem inv id ne found,
                    lower_to,
                  )
                  e,
              up r ne found path,
              q_known,
              omega (arith, ltb→lt _ _ above),
            )
        | inr level ↦ (
          0,
          id,
          r,
          rw (
            get_block_height_lem inv id found,
            get_block_height_lem inv other found',
            ◌>>=◌,
            level,
            lower_to,
          ),
          here,
          found,
          omega (arith, ltb-false→le _ _ level),
        )
      ]

  -- Different blocks at one height are both above the root.
  apart_nonzero :
      (id other : HashT) (r w : BlockRecord)
      → Map.lookup id inv.blocks ≡ some r
      → Map.lookup other inv.blocks ≡ some w
      → r.height ≡ w.height
      → id ≢ other
      → id ≢ zero_hash
  apart_nonzero id other r w found found' level apart root = elim (Bool-cases (eq_zero other)) [
    | inl both ↦ apart (root ∙ sym (eq_zero→eq other both))
    | inr deep ↦
        let (p, _, higher, _) = t.parent other w (ne_zero other deep) found' in
        absurd (omega (arith, zero_height id r root found))
  ]

  -- A path of one step or more goes through the parent.
  pub Above-down :
      (m : ℕ) (c id : HashT) (r : BlockRecord)
      → Map.lookup id inv.blocks ≡ some r
      → Above inv.blocks (suc m) c id
      → Above inv.blocks m c r.block.prev_block_id
  Above-down m c id r found h = elim (Above-cases h) [
    | inl (none_left, _) ↦ absurd (omega arith)
    | inr (k, w, count, _, found', above) ↦
        let same : w ≡ r = cc in
        let steps : k ≡ m = omega arith in
        subst (λ j. Above inv.blocks j c r.block.prev_block_id) steps
          (subst (λ (x : BlockRecord). Above inv.blocks k c x.block.prev_block_id) same above)
  ]

  -- No block is above two different blocks by no steps.
  Above-least :
      (n : ℕ) (id other : HashT) (r w : BlockRecord)
      → Map.lookup id inv.blocks ≡ some r
      → Map.lookup other inv.blocks ≡ some w
      → id ≢ other
      → ((m : ℕ) (c : HashT)
          → Above inv.blocks m c r.block.prev_block_id
          → Above inv.blocks m c w.block.prev_block_id
          → n ≤ m)
      → (m : ℕ) (c : HashT) → Above inv.blocks m c id
      → Above inv.blocks m c other
      → suc n ≤ m
  Above-least n id other r w found found' apart least zero c h k = elim (Above-cases h) [
    | inl (_, same) ↦ elim (Above-cases k) [
      | inl (_, same') ↦ absurd (apart (sym same ∙ same'))
      | inr (j, _, count, _, _, _) ↦ absurd (omega arith)
    ]
    | inr (j, _, count, _, _, _) ↦ absurd (omega arith)
  ]
  Above-least n id other r w found found' apart least (suc m) c h k =
      omega (arith, least m c (Above-down m c id r found h) (Above-down m c other w found' k))

  -- Two blocks at one height step down together to a block below both.
  pub step_both_lem :
      (fuel : ℕ) (id other : HashT) (r w : BlockRecord)
      → Map.lookup id inv.blocks ≡ some r
      → Map.lookup other inv.blocks ≡ some w
      → r.height ≡ w.height
      → r.height < fuel
      → (n : ℕ) × (a : HashT) × (step_both inv fuel id other ≡ ok a)
        × Above inv.blocks n a id
        × Above inv.blocks n a other
        × ((m : ℕ) (c : HashT) → Above inv.blocks m c id → Above inv.blocks m c other → n ≤ m)
  unfolding step_both
  step_both_lem zero id other r w found found' level enough = absurd (omega arith)
  step_both_lem (suc fuel) id other r w found found' level enough =
      elim (Bool-cases (id == other)) [
        | inl same ↦ (
          0,
          id,
          rw (same, step_both),
          here,
          subst (λ x. Above inv.blocks 0 id x) ((eq_iff id other).0 same) here,
          λ m c h k. omega arith,
        )
        | inr apart ↦
            let split : id ≢ other = λ e. absurd (ground (arith, eq_iff id other)) in
            let ne : id ≢ zero_hash = apart_nonzero id other r w found found' level split in
            let ne' : other ≢ zero_hash =
              apart_nonzero other id w r found' found (sym level) (λ e. split (sym e)) in
            let (p, known, higher, _) = t.parent id r ne found in
            let (q, known', higher', _) = t.parent other w ne' found' in
            let (n, a, e, path, path', least) =
              step_both_lem fuel r.block.prev_block_id w.block.prev_block_id p q known known'
                (omega arith) (omega arith) in
            (
              suc n,
              a,
              rw
                  (
                    apart,
                    get_block_parent_id_lem inv id ne found,
                    get_block_parent_id_lem inv other ne' found',
                    ◌>>=◌,
                    step_both,
                  )
                  e,
              up r ne found path,
              up w ne' found' path',
              Above-least n id other r w found found' split least,
            )
      ]
