-- ===== src/Chain/Loop/Balances.antt =====
-- What the queries of internal/chain/chain.go say of the unspent outputs.
use basiccoin.Base.{
  ℕ, arith, [], ◌∷◌, ◌%◌, ◌+◌, ◌^◌, ◌<◌, ◌≡◌, refl, ◌∙◌, Bool, false, ◌&&◌, Option, List, All,
  length, Option-cases, inl, inr,
}
use basiccoin.Base.Eq.{◌==◌}
use basiccoin.Base.Word.{add64}
use basiccoin.Chain.Handlers.{Chain}
use basiccoin.Chain.Loop.{Turn, loop, new_chain}
use basiccoin.Chain.Loop.Sound.{IsSound}
use basiccoin.Chain.Loop.Invariant.{blocks_in, HasTargets, loop-IsSound}
use basiccoin.Chain.Queries.{get_pkh_utxos, get_pkh_balance, add_values}
use basiccoin.Chain.SavedHead.{HeadFile}
use basiccoin.Chain.State.{State}
use basiccoin.Chain.State.Index.{owner, under}
use basiccoin.Chain.State.Index.Moves.{IsKeyed}
use basiccoin.Collections.Map as Map
use basiccoin.Collections.Set as Set
use basiccoin.Collections.Set.Distinct.{IsDistinct, to_list-IsDistinct}
use basiccoin.Collections.Set.{contains, includes-to_list}
use basiccoin.Core.Crypto.{Ecdsa}
use basiccoin.Core.Tx.{Utxo, FloatOps, utxo_eq}
use basiccoin.Hash.{HashT, hash_eq}
use basiccoin.Hash.Digest.{Sha256}
use basiccoin.Inv.{Inv}
use basiccoin.Inv.Invariant.{IsValid}

-- The worth of outputs in unbounded arithmetic.
abbrev pub exact_values : List Utxo → ℕ
exact_values [] = 0
exact_values (u ∷ us) = u.value + exact_values us

add_values-mod :
    (us : List Utxo) (total : ℕ)
    → total < 2 ^ 64
    → add_values total us ≡ (total + exact_values us) % 2 ^ 64
unfolding add_values
add_values-mod [] total h = omega arith
add_values-mod (u ∷ us) total h =
    add_values-mod us (add64 total u.value) (omega arith) ∙ omega arith

module _ {F : Type 0} (s : State F) (pkh : HashT) where
  get_pkh_utxos-under : get_pkh_utxos s pkh false ≡ Set.to_list (under pkh s.pkh_utxos)
  unfolding get_pkh_utxos under
  get_pkh_utxos-under = elim (Option-cases (Map.lookup pkh s.pkh_utxos)) [
    | inl out ↦ rw (out, get_pkh_utxos) refl
    | inr (utxos, found) ↦ rw (found, get_pkh_utxos) refl
  ]

  get_pkh_balance-under : get_pkh_balance s pkh ≡ add_values 0 (Set.to_list (under pkh s.pkh_utxos))
  unfolding get_pkh_balance under add_values
  get_pkh_balance-under = elim (Option-cases (Map.lookup pkh s.pkh_utxos)) [
    | inl out ↦ rw (out, get_pkh_balance) refl
    | inr (utxos, found) ↦ rw (found, get_pkh_balance) refl
  ]

-- The queries of the unspent outputs and of the balance of a key hash go over one list: each
-- unspent output that is for the key hash, once; the balance is their worth modulo 2^64.
pub record IsAccount {F : Type 0} (inv : Inv) (s : State F) (pkh : HashT) : Type 0 where
  pub outputs : List Utxo
  pub once : IsDistinct outputs
  pub lists : (u : Utxo) → contains u outputs ≡ (Set.includes u s.utxos && (owner inv u == pkh))
  pub listed : get_pkh_utxos s pkh false ≡ outputs
  pub added : get_pkh_balance s pkh ≡ exact_values outputs % 2 ^ 64

module _ (F : Type 0) ⦃float : FloatOps F⦄ ⦃sha : Sha256⦄ ⦃ecdsa : Ecdsa⦄ where
  -- After any turns of the chain's loop, from `NewChain` on a valid inventory in which every
  -- transaction is stored under its hash, the queries of the unspent outputs (the mempool not
  -- left out) and of the balance of a key hash go over one list, in which each unspent output
  -- that the inventory gives to the key hash stands once and nothing else, and the balance is the
  -- exact sum of its values modulo 2^64, when the targets of the blocks that come in have 32
  -- bytes and there are fewer than 2^64 blocks with those stored before.
  pub loop-IsAccount :
      (inv : Inv) (support_miners : Bool) (save_dir : Option HeadFile) (ts : List Turn)
      (pkh : HashT)
      → IsValid inv
      → IsKeyed inv
      → All HasTargets ts
      → length inv.blocks + blocks_in ts < 2 ^ 64
      → IsAccount
          (loop ts (new_chain {F = F} inv support_miners save_dir).0).0.inv
          (loop ts (new_chain {F = F} inv support_miners save_dir).0).0.state
          pkh
  loop-IsAccount inv support_miners save_dir ts pkh v keyed h few =
      let c : Chain F = (loop ts (new_chain {F = F} inv support_miners save_dir).0).0 in
      let s : IsSound 0 c = loop-IsSound F inv support_miners save_dir ts v keyed h few in
      record {
        outputs = Set.to_list (under pkh c.state.pkh_utxos);
        once = to_list-IsDistinct (under pkh c.state.pkh_utxos) (s.indexed.once pkh);
        lists = λ u. includes-to_list u (under pkh c.state.pkh_utxos) ∙ s.indexed.index pkh u;
        listed = get_pkh_utxos-under c.state pkh;
        added =
            get_pkh_balance-under c.state pkh
            ∙ add_values-mod (Set.to_list (under pkh c.state.pkh_utxos)) 0 (omega arith)
            ∙ omega arith;
      }
