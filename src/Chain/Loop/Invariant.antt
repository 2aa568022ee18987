-- ===== src/Chain/Loop/Invariant.antt =====
-- The turns of internal/chain/chain.go, on what holds of the chain between them.
use basiccoin.Base.{
  ℕ, ◌+◌, ◌^◌, ◌<◌, ◌≡◌, refl, ◌∙◌, ap, Bool, true, false, Option, List, [], ◌∷◌, ◌++◌, All, length,
  arith, if◌then◌else◌,
}
use basiccoin.Base.Result.{ok, guard, guard-ok, head_unknown, less_work}
use basiccoin.Chain.Atomic.{reorganise-head, retarget_lem}
use basiccoin.Chain.Keeps.{and_then-holds}
use basiccoin.Chain.Handlers.{
  Chain, CandidateHead, Handler, and_then, has_more_work, retarget, accept_tx, insert_all,
  switch_head, reorganise, validated_head, validated_tx, handle_candidate_head, handle_candidate_tx,
}
use basiccoin.Chain.Loop.{
  Turn, candidate_head, candidate_tx, print_update, head_height, pkh_balance, pkh_utxos, rich_list,
  tx_confirms, tx_included_block, take_turn, turns, loop, new_chain, Reply,
}
use basiccoin.Chain.Loop.Sound.{IsSound, less_room, set_state-IsSound, same_parts-IsSound}
use basiccoin.Chain.Loop.Stores.{HasTarget, accept_tx-IsSound, insert_all-IsSound}
use basiccoin.Chain.Loop.Reorganise.{reorganise-OnlyStored, reorganise-IsIndexed}
use basiccoin.Chain.SavedHead.{HeadFile, save_head}
use basiccoin.Chain.State.{State, new_state}
use basiccoin.Chain.State.Index.{IsIndexed, under}
use basiccoin.Chain.State.Index.Moves.{IsKeyed}
use basiccoin.Collections.Map as Map
use basiccoin.Collections.Map.{has_of_lookup}
use basiccoin.Collections.Set as Set
use basiccoin.Core.Crypto.{Ecdsa}
use basiccoin.Core.Tx.{Tx, FloatOps, tx_hash}
use basiccoin.Hash.{HashT, hash_eq}
use basiccoin.Hash.Digest.{Sha256}
use basiccoin.Inv.{Inv, has_block, has_tx}
use basiccoin.Inv.Invariant.{IsValid}

-- The blocks that a turn brings.
abbrev pub blocks_of : Turn → ℕ
blocks_of (candidate_head now event) = length event.blocks
blocks_of _ = 0

unfoldable pub blocks_in : List Turn → ℕ
blocks_in [] = 0
blocks_in (t ∷ ts) = blocks_of t + blocks_in ts

-- The targets of the blocks that a turn brings have 32 bytes, as Go's type says.
abbrev pub HasTargets : Turn → Type 0
HasTargets (candidate_head now event) = All HasTarget event.blocks
HasTargets _ = Unit

module _ (F : Type 0) ⦃float : FloatOps F⦄ ⦃sha : Sha256⦄ where
  retarget-IsSound : (room : ℕ) (c : Chain F) → IsSound room c → IsSound room (retarget c).0
  retarget-IsSound room c s =
      same_parts-IsSound room c (retarget c).0 (retarget_lem F c).1 (retarget_lem F c).0 s

  switch_head-IsSound :
      (room : ℕ) (head : HashT) (auto : Bool) (cur_head : HashT) (c : Chain F)
      → IsSound room c
      → IsSound room (switch_head head auto cur_head c).0
  unfolding switch_head
  switch_head-IsSound room head auto cur_head c sound =
      let finish : State F → Handler F (Unit {0}) = λ s d. retarget (record d {
        state = s;
        save_dir = save_head s.head d.save_dir;
        published = d.published ++ validated_head head ∷ [];
      }) in
      let reorg : Unit {0} → Handler F (Unit {0}) =
        λ _ d. and_then finish d (reorganise d.inv d.state head auto) in
      let compare : Bool → Handler F (Unit {0}) =
        λ better d. and_then reorg d (guard better less_work) in
      let start : Unit {0} → Handler F (Unit {0}) =
        λ _ d. and_then compare d (has_more_work d.inv head cur_head) in
      and_then-holds (IsSound room) start c (guard (has_block c.inv head) head_unknown) sound
        (λ _ known.
          and_then-holds (IsSound room) compare c (has_more_work c.inv head cur_head) sound
            (λ better _.
              and_then-holds (IsSound room) reorg c (guard better less_work) sound (λ _ _.
                and_then-holds (IsSound room) finish c (reorganise c.inv c.state head auto) sound
                  (λ s done.
                    let d : Chain F = record c {
                      state = s;
                      save_dir = save_head s.head c.save_dir;
                      published = c.published ++ validated_head head ∷ [];
                    } in
                    let stored : has_block c.inv s.head ≡ true =
                      ap (has_block c.inv) (reorganise-head F c.inv c.state head auto s done)
                      ∙ guard-ok (has_block c.inv head) head_unknown known in
                    let moved : IsSound room (record c { state = s }) =
                      set_state-IsSound room c s sound stored
                        (reorganise-OnlyStored c.inv c.state s head auto sound.included done)
                        (reorganise-IsIndexed c.inv sound.keyed c.state s head auto sound.indexed
                          done) in
                    retarget-IsSound room d
                      (same_parts-IsSound room (record c { state = s }) d refl refl moved)))))

  module _ ⦃ecdsa : Ecdsa⦄ where
    handle_candidate_head-IsSound :
        (now : ℕ) (event : CandidateHead) (room : ℕ) (c : Chain F)
        → All HasTarget event.blocks
        → IsSound (length event.blocks + room) c
        → IsSound room (handle_candidate_head now event c).0
    unfolding handle_candidate_head
    handle_candidate_head-IsSound now event room c targets s =
        let c₁ : Chain F = (insert_all now event c).0 in
        let s₁ : IsSound room c₁ = insert_all-IsSound F now event room c targets s in
        and_then-holds (IsSound room)
          (λ _. switch_head event.head event.auto_add_mempool_insecure c.state.head) c₁
          (insert_all now event c).1 s₁
          (λ _ _.
            switch_head-IsSound room event.head event.auto_add_mempool_insecure c.state.head c₁ s₁)

    handle_candidate_tx-IsSound :
        (tx : Tx) (room : ℕ) (c : Chain F)
        → IsSound room c
        → IsSound room (handle_candidate_tx tx c).0
    unfolding handle_candidate_tx
    handle_candidate_tx-IsSound tx room c s = split (has_tx c.inv (tx_hash tx))
      where
        tell : Unit {0} → Handler F (Unit {0})
        tell _ d = retarget (record d { published = d.published ++ validated_tx (tx_hash tx) ∷ [] })

        split :
            (b : Bool)
            → IsSound room
                (if b then (c, ok tt) else and_then tell (accept_tx tx c).0 (accept_tx tx c).1).0
        split true = s
        split false =
            let d : Chain F = (accept_tx tx c).0 in
            let s' : IsSound room d = accept_tx-IsSound F room tx c s in
            and_then-holds (IsSound room) tell d (accept_tx tx c).1 s' (λ _ _.
              let told : Chain F = record d {
                published = d.published ++ validated_tx (tx_hash tx) ∷ [];
              } in
              retarget-IsSound room told (same_parts-IsSound room d told refl refl s'))

    take_turn-IsSound :
        (t : Turn) (room : ℕ) (c : Chain F)
        → HasTargets t
        → IsSound (blocks_of t + room) c
        → IsSound room (take_turn t c).0
    unfolding take_turn
    take_turn-IsSound (candidate_head now event) room c h s =
        handle_candidate_head-IsSound now event room c h s
    take_turn-IsSound (candidate_tx tx) room c h s =
        handle_candidate_tx-IsSound tx room c (less_room (0 + room) room c (omega arith) s)
    take_turn-IsSound print_update room c h s = less_room (0 + room) room c (omega arith) s
    take_turn-IsSound head_height room c h s = less_room (0 + room) room c (omega arith) s
    take_turn-IsSound (pkh_balance pkhs) room c h s = less_room (0 + room) room c (omega arith) s
    take_turn-IsSound (pkh_utxos pkhs exclude) room c h s =
        less_room (0 + room) room c (omega arith) s
    take_turn-IsSound (rich_list max_len) room c h s = less_room (0 + room) room c (omega arith) s
    take_turn-IsSound (tx_confirms tx_ids) room c h s = less_room (0 + room) room c (omega arith) s
    take_turn-IsSound (tx_included_block tx_ids) room c h s =
        less_room (0 + room) room c (omega arith) s

    turns-IsSound :
        (ts : List Turn) (room : ℕ) (c : Chain F)
        → All HasTargets ts
        → IsSound (blocks_in ts + room) c
        → IsSound room (turns ts c).0
    unfolding turns blocks_in
    turns-IsSound [] room c h s = less_room (0 + room) room c (omega arith) s
    turns-IsSound (t ∷ ts) room c h s =
        let d : Chain F = (take_turn t c).0 in
        let s' : IsSound (blocks_in ts + room) d = take_turn-IsSound t (blocks_in ts + room) c h.0 (
          less_room (blocks_in (t ∷ ts) + room) (blocks_of t + (blocks_in ts + room)) c
            (omega arith) s) in
        let rest : Reply → Handler F (List Reply) =
          λ r e. and_then (λ rs k. (k, ok (r ∷ rs))) (turns ts e).0 (turns ts e).1 in
        and_then-holds (IsSound room) rest d (take_turn t c).1
          (less_room (blocks_in ts + room) room d (omega arith) s')
          (λ r _.
            let done : IsSound room (turns ts d).0 = turns-IsSound ts room d h.1 s' in
            and_then-holds (IsSound room) (λ rs k. (k, ok (r ∷ rs))) (turns ts d).0 (turns ts d).1
              done (λ _ _. done))

    new_state-IsIndexed : (inv : Inv) → IsIndexed {F = F} inv new_state
    unfolding new_state under Set.includes Map.has Map.lookup
    new_state-IsIndexed inv = record {
      known = λ u there. absurd cc;
      index = λ pkh u. refl;
      once = λ pkh. tt;
    }

    -- Whatever turns the chain's loop takes after `NewChain` on a valid inventory in which every
    -- transaction is stored under its hash, errors and panics included, the inventory stays so,
    -- the head of the state is stored, and so is every block in which a transaction is recorded,
    -- and the index of unspent outputs by key hash is right, when the targets of the blocks that
    -- come in have 32 bytes and there are fewer than 2^64 blocks with those stored before.
    pub loop-IsSound :
        (inv : Inv) (support_miners : Bool) (save_dir : Option HeadFile) (ts : List Turn)
        → IsValid inv
        → IsKeyed inv
        → All HasTargets ts
        → length inv.blocks + blocks_in ts < 2 ^ 64
        → IsSound {F = F} 0 (loop ts (new_chain inv support_miners save_dir).0).0
    unfolding loop new_chain new_state Map.lookup has_block
    loop-IsSound inv support_miners save_dir ts v keyed h few =
        let c : Chain F = (new_chain inv support_miners save_dir).0 in
        let s : IsSound (blocks_in ts + 0) c = record {
          valid = v;
          fits = omega (arith, few);
          head_stored = has_of_lookup _ v.tree.root inv.blocks v.tree.root_known;
          included = λ tx_id block_id found. absurd cc;
          keyed = keyed;
          indexed = new_state-IsIndexed inv;
        } in
        let d : Chain F = (retarget c).0 in
        let s' : IsSound (blocks_in ts + 0) d = retarget-IsSound (blocks_in ts + 0) c s in
        and_then-holds (IsSound 0) (λ _. turns ts) d (retarget c).1
          (less_room (blocks_in ts + 0) 0 d (omega arith) s') (λ _ _. turns-IsSound ts 0 d h s')
