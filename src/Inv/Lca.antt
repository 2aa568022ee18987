-- ===== src/Inv/Lca.antt =====
-- `GetBlockLCA` of internal/inv/inv.go.
use mathlib.Core.Path.{subst}
use Prim.Native.Nat.{min}
use basiccoin.Base.{ℕ, zero, suc, ◌+◌, ◌-◌, ◌≤◌, ◌≡◌, ap, some, arith, length}
use basiccoin.Base.Result.{ok, ◌>>=◌}
use basiccoin.Collections.Map as Map
use basiccoin.Collections.Map.{Map}
use basiccoin.Hash.{HashT, hash_eq}
use basiccoin.Inv.{Inv, BlockRecord, get_block_lca}
use basiccoin.Inv.Invariant.{IsBlockTree}
use basiccoin.Inv.Walks.{Above, here, up}
use basiccoin.Inv.Steps.{Above-height, Above-down, lower_to_lem, step_both_lem}

module _ (inv : Inv) (t : IsBlockTree inv.blocks) where
  -- Of two paths up from a block the longer one goes on from the end of the shorter.
  Above-split :
      {n : ℕ} {low id : HashT} (m : ℕ) (c : HashT)
      → Above inv.blocks m c id
      → Above inv.blocks n low id
      → n ≤ m
      → Above inv.blocks (m - n) c low
  Above-split {low = low} m c h here le = subst (λ k. Above inv.blocks k c low) (omega arith) h
  Above-split zero c h (up r ne found path) le = absurd (omega arith)
  Above-split {n = n} {low = low} {id = id} (suc m) c h (up {n = k} r ne found path) le =
      subst (λ j. Above inv.blocks j c low) (omega arith)
        (Above-split m c (Above-down inv t m c id r found h) path (omega arith))

  Above-append :
      {n m : ℕ} {a low id : HashT}
      → Above inv.blocks n low id
      → Above inv.blocks m a low
      → Above inv.blocks (n + m) a id
  Above-append {m = m} {a = a} {id = id} here h =
      subst (λ k. Above inv.blocks k a id) (omega arith) h
  Above-append {a = a} {id = id} (up {n = k} r ne found path) h =
      subst (λ j. Above inv.blocks j a id) (omega arith) (up r ne found (Above-append path h))

  -- The number of steps is the difference of the heights.
  Above-steps :
      {n : ℕ} {a id : HashT} (r q : BlockRecord)
      → Map.lookup id inv.blocks ≡ some r
      → Map.lookup a inv.blocks ≡ some q
      → Above inv.blocks n a id
      → r.height ≡ q.height + n
  Above-steps r q found a_known path =
      let (w, known, count) = Above-height inv t r found path in
      let same : w ≡ q = cc in omega (arith, ap (λ (x : BlockRecord). x.height) same)

  -- A common ancestor of two blocks is one of the lowered blocks.
  lca_least :
      (n m s : ℕ) (id other low low' : HashT) (r w q q' : BlockRecord)
      → Map.lookup id inv.blocks ≡ some r
      → Map.lookup other inv.blocks ≡ some w
      → Map.lookup low inv.blocks ≡ some q
      → Map.lookup low' inv.blocks ≡ some q'
      → Above inv.blocks n low id
      → Above inv.blocks m low' other
      → q.height ≡ min r.height w.height
      → q'.height ≡ q.height
      → ((k : ℕ) (c : HashT) → Above inv.blocks k c low → Above inv.blocks k c low' → s ≤ k)
      → (k j : ℕ) (c : HashT) → Above inv.blocks k c id
      → Above inv.blocks j c other
      → n + s ≤ k
  lca_least n m s id other low low' r w q q' found found' known known' path path' level level' least
        k j c h h' =
      let (x, c_known, k_count) = Above-height inv t r found h in
      let j_count = Above-steps w x found' c_known h' in
      let n_count = Above-steps r q found known path in
      let m_count = Above-steps w q' found' known' path' in
      let same : j - m ≡ k - n = omega arith in
      let through = Above-split k c h path (omega arith) in
      let through' =
        subst (λ i. Above inv.blocks i c low') same (Above-split j c h' path' (omega arith)) in
      omega (arith, least (k - n) c through through')

  -- For two stored blocks of a block tree, `GetBlockLCA` returns a block that is above both,
  -- within the fuel, and no block that is above both is nearer to the first.
  pub get_block_lca_lem :
      (id other : HashT) (r w : BlockRecord)
      → Map.lookup id inv.blocks ≡ some r
      → Map.lookup other inv.blocks ≡ some w
      → (n m : ℕ) × (a : HashT) × (get_block_lca inv id other ≡ ok a)
        × Above inv.blocks n a id
        × Above inv.blocks m a other
        × ((k j : ℕ) (c : HashT) → Above inv.blocks k c id → Above inv.blocks j c other → n ≤ k)
  unfolding get_block_lca
  get_block_lca_lem id other r w found found' =
      let (n, low, q, e, path, q_known, level) =
        lower_to_lem inv t (suc (length inv.blocks)) id other r w found found'
          (omega (arith, t.below id r found)) in
      let (m, low', q', e', path', q_known', level') =
        lower_to_lem inv t (suc (length inv.blocks)) other low w q found' q_known
          (omega (arith, t.below other w found')) in
      let (s, a, e'', up_low, up_low', least) =
        step_both_lem inv t (suc (length inv.blocks)) low low' q q' q_known q_known' (omega arith)
          (omega (arith, t.below low q q_known)) in
      (
        n + s,
        m + s,
        a,
        rw (e, e', e'', ◌>>=◌),
        Above-append path up_low,
        Above-append path' up_low',
        lca_least n m s id other low low' r w q q' found found' q_known q_known' path path' level
            (omega arith) least,
      )
