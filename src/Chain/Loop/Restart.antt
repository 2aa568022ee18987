-- ===== src/Chain/Loop/Restart.antt =====
-- The file of the head in internal/chain/chain.go, and the start of a chain on it.
use mathlib.Core.Path.{subst}
use basiccoin.Base.{
  ℕ, ◌≡◌, ◌≢◌, refl, sym, ◌∙◌, ap, Bool, true, false, some, List, [], ◌∷◌, ◌++◌, All, if◌then◌else◌,
}
use basiccoin.Base.Result.{ok, guard, head_unknown, less_work}
use basiccoin.Base.Text.Lines.{trim-row}
use basiccoin.Chain.Atomic.{reorganise-head, retarget_lem}
use basiccoin.Chain.Keeps.{and_then-holds, Undisturbed, accept_tx-Keeps, insert_all-Keeps, Keeps}
use basiccoin.Chain.Handlers.{
  Chain, CandidateHead, Handler, and_then, has_more_work, retarget, accept_tx, insert_all,
  switch_head, reorganise, validated_head, validated_tx, handle_candidate_head, handle_candidate_tx,
}
use basiccoin.Chain.Loop.{
  Turn, candidate_head, candidate_tx, print_update, head_height, pkh_balance, pkh_utxos, rich_list,
  tx_confirms, tx_included_block, take_turn, turns, loop, new_chain, saved_candidate, Reply,
}
use basiccoin.Chain.SavedHead.{
  HeadFile, save_head, save_head_to_file, load_head_from_file, text_after,
}
use basiccoin.Chain.State.{State, new_state}
use basiccoin.Collections.DiskSyncMap.{saved}
use basiccoin.Core.Crypto.{Ecdsa}
use basiccoin.Core.Tx.{Tx, FloatOps, tx_hash}
use basiccoin.Hash.{HashT, IsHash, string, zero_hash}
use basiccoin.Hash.Digest.{Sha256}
use basiccoin.Hash.Hex.{new_hash-string}
use basiccoin.Hash.Value.{zero_hash-IsHash}
use basiccoin.Inv.{Inv, has_block, has_tx}
use basiccoin.Inv.Serialize.RoundTrip.{string-IsRow}

-- The file can be written, and holds the head unless that is the zero block.
pub record IsSaved {F : Type 0} (c : Chain F) : Type 0 where
  pub file : HeadFile
  pub dir : c.save_dir ≡ some file
  pub works : file.next_write ≡ saved
  pub wide : IsHash c.state.head
  pub kept : c.state.head ≢ zero_hash → file.text ≡ some (string c.state.head)

-- The head of a candidate has 32 bytes, as Go's type says.
abbrev pub HasHead : Turn → Type 0
HasHead (candidate_head now event) = IsHash event.head
HasHead _ = Unit

module _ {F : Type 0} where
  Undisturbed-IsSaved : (c d : Chain F) → Undisturbed c d → IsSaved c → IsSaved d
  Undisturbed-IsSaved c d u s = record {
    file = s.file;
    dir = u.dir ∙ s.dir;
    works = s.works;
    wide = subst IsHash (sym u.ledger.head) s.wide;
    kept = λ other.
        s.kept (λ zero. other (u.ledger.head ∙ zero))
        ∙ ap (λ h. some (string h)) (sym u.ledger.head);
  }

  same_parts-IsSaved :
      (c d : Chain F) → d.state ≡ c.state → d.save_dir ≡ c.save_dir → IsSaved c → IsSaved d
  same_parts-IsSaved c d state dir s = record {
    file = s.file;
    dir = dir ∙ s.dir;
    works = s.works;
    wide = subst (λ (t : State F). IsHash t.head) (sym state) s.wide;
    kept =
        subst (λ (t : State F). t.head ≢ zero_hash → s.file.text ≡ some (string t.head)) (sym state)
          s.kept;
  }

  save_head-IsSaved :
      (c : Chain F) (state : State F)
      → IsHash state.head
      → IsSaved c
      → IsSaved (record c { state = state; save_dir = save_head state.head c.save_dir })
  unfolding save_head_to_file
  save_head-IsSaved c state wide s = record {
    file = save_head_to_file state.head s.file;
    dir = ap (save_head state.head) s.dir;
    works = s.works;
    wide = wide;
    kept = λ _. ap (text_after (string state.head)) s.works;
  }

module _ (F : Type 0) ⦃float : FloatOps F⦄ ⦃sha : Sha256⦄ where
  retarget-IsSaved : (c : Chain F) → IsSaved c → IsSaved (retarget c).0
  retarget-IsSaved c s =
      same_parts-IsSaved c (retarget c).0 (retarget_lem F c).0 (retarget_lem F c).2 s

  switch_head-IsSaved :
      (head : HashT) (auto : Bool) (cur_head : HashT) (c : Chain F)
      → IsHash head
      → IsSaved c
      → IsSaved (switch_head head auto cur_head c).0
  unfolding switch_head
  switch_head-IsSaved head auto cur_head c wide s =
      let finish : State F → Handler F (Unit {0}) = λ t d. retarget (record d {
        state = t;
        save_dir = save_head t.head d.save_dir;
        published = d.published ++ validated_head head ∷ [];
      }) in
      let reorg : Unit {0} → Handler F (Unit {0}) =
        λ _ d. and_then finish d (reorganise d.inv d.state head auto) in
      let compare : Bool → Handler F (Unit {0}) =
        λ better d. and_then reorg d (guard better less_work) in
      let start : Unit {0} → Handler F (Unit {0}) =
        λ _ d. and_then compare d (has_more_work d.inv head cur_head) in
      and_then-holds IsSaved start c (guard (has_block c.inv head) head_unknown) s (λ _ _.
        and_then-holds IsSaved compare c (has_more_work c.inv head cur_head) s (λ better _.
          and_then-holds IsSaved reorg c (guard better less_work) s (λ _ _.
            and_then-holds IsSaved finish c (reorganise c.inv c.state head auto) s (λ t done.
              let moved : Chain F = record c {
                state = t;
                save_dir = save_head t.head c.save_dir;
              } in
              let d : Chain F = record moved {
                published = c.published ++ validated_head head ∷ [];
              } in
              let at : t.head ≡ head = reorganise-head F c.inv c.state head auto t done in
              retarget-IsSaved d (
                same_parts-IsSaved moved d refl refl
                  (save_head-IsSaved c t (subst IsHash (sym at) wide) s))))))

  module _ ⦃ecdsa : Ecdsa⦄ where
    handle_candidate_head-IsSaved :
        (now : ℕ) (event : CandidateHead) (c : Chain F)
        → IsHash event.head
        → IsSaved c
        → IsSaved (handle_candidate_head now event c).0
    unfolding handle_candidate_head Keeps
    handle_candidate_head-IsSaved now event c wide s =
        let c₁ : Chain F = (insert_all now event c).0 in
        let s₁ : IsSaved c₁ = Undisturbed-IsSaved c c₁ (insert_all-Keeps F now event c) s in
        and_then-holds IsSaved
          (λ _. switch_head event.head event.auto_add_mempool_insecure c.state.head) c₁
          (insert_all now event c).1 s₁
          (λ _ _.
            switch_head-IsSaved event.head event.auto_add_mempool_insecure c.state.head c₁ wide s₁)

    handle_candidate_tx-IsSaved :
        (tx : Tx) (c : Chain F) → IsSaved c → IsSaved (handle_candidate_tx tx c).0
    unfolding handle_candidate_tx Keeps
    handle_candidate_tx-IsSaved tx c s = split (has_tx c.inv (tx_hash tx))
      where
        tell : Unit {0} → Handler F (Unit {0})
        tell _ d = retarget (record d { published = d.published ++ validated_tx (tx_hash tx) ∷ [] })

        split :
            (b : Bool)
            → IsSaved
                (if b then (c, ok tt) else and_then tell (accept_tx tx c).0 (accept_tx tx c).1).0
        split true = s
        split false =
            let d : Chain F = (accept_tx tx c).0 in
            let s' : IsSaved d = Undisturbed-IsSaved c d (accept_tx-Keeps F tx c) s in
            and_then-holds IsSaved tell d (accept_tx tx c).1 s' (λ _ _.
              let told : Chain F = record d {
                published = d.published ++ validated_tx (tx_hash tx) ∷ [];
              } in
              retarget-IsSaved told (same_parts-IsSaved d told refl refl s'))

    take_turn-IsSaved : (t : Turn) (c : Chain F) → HasHead t → IsSaved c → IsSaved (take_turn t c).0
    unfolding take_turn
    take_turn-IsSaved (candidate_head now event) c h s =
        handle_candidate_head-IsSaved now event c h s
    take_turn-IsSaved (candidate_tx tx) c h s = handle_candidate_tx-IsSaved tx c s
    take_turn-IsSaved print_update c h s = s
    take_turn-IsSaved head_height c h s = s
    take_turn-IsSaved (pkh_balance pkhs) c h s = s
    take_turn-IsSaved (pkh_utxos pkhs exclude) c h s = s
    take_turn-IsSaved (rich_list max_len) c h s = s
    take_turn-IsSaved (tx_confirms tx_ids) c h s = s
    take_turn-IsSaved (tx_included_block tx_ids) c h s = s

    turns-IsSaved :
        (ts : List Turn) (c : Chain F) → All HasHead ts → IsSaved c → IsSaved (turns ts c).0
    unfolding turns
    turns-IsSaved [] c h s = s
    turns-IsSaved (t ∷ ts) c h s =
        let d : Chain F = (take_turn t c).0 in
        let s' : IsSaved d = take_turn-IsSaved t c h.0 s in
        let rest : Reply → Handler F (List Reply) =
          λ r e. and_then (λ rs k. (k, ok (r ∷ rs))) (turns ts e).0 (turns ts e).1 in
        let done : IsSaved (turns ts d).0 = turns-IsSaved ts d h.1 s' in
        and_then-holds IsSaved rest d (take_turn t c).1 s' (λ r _.
          and_then-holds IsSaved (λ rs k. (k, ok (r ∷ rs))) (turns ts d).0 (turns ts d).1 done
            (λ _ _. done))

    loop-IsSaved :
        (inv : Inv) (support_miners : Bool) (file : HeadFile) (ts : List Turn)
        → file.next_write ≡ saved
        → All HasHead ts
        → IsSaved {F = F} (loop ts (new_chain inv support_miners (some file)).0).0
    unfolding loop new_chain new_state
    loop-IsSaved inv support_miners file ts works h =
        let c : Chain F = (new_chain inv support_miners (some file)).0 in
        let s : IsSaved c = record {
          file = file;
          dir = refl;
          works = works;
          wide = zero_hash-IsHash;
          kept = λ other. absurd (other refl);
        } in
        let d : Chain F = (retarget c).0 in
        let s' : IsSaved d = retarget-IsSaved c s in
        and_then-holds IsSaved (λ _. turns ts) d (retarget c).1 s' (λ _ _. turns-IsSaved ts d h s')

    load-IsSaved :
        (c : Chain F)
        → IsSaved c
        → c.state.head ≢ zero_hash
        → load_head_from_file c.save_dir ≡ ok c.state.head
    unfolding load_head_from_file
    load-IsSaved c s other =
        rw (s.dir, s.kept other, trim-row (string c.state.head) (string-IsRow c.state.head s.wide))
          (new_hash-string c.state.head s.wide)

    new_chain-saved :
        (inv : Inv) (support_miners : Bool) (c : Chain F)
        → load_head_from_file c.save_dir ≡ ok c.state.head
        → (new_chain {F = F} inv support_miners c.save_dir).1 ≡ saved_candidate (ok c.state.head)
    unfolding new_chain
    new_chain-saved inv support_miners c e = ap saved_candidate e

    -- When the writes of the file with the head succeed, the heads of the candidates have 32
    -- bytes, and the chain has come to a head other than the zero block after any turns of its
    -- loop from `NewChain`, then `NewChain` on what is in the file publishes a candidate for
    -- exactly that head, with no blocks, nodes or transactions and with the transactions allowed
    -- into the mempool.
    pub loop-restarts :
        (inv : Inv) (support_miners : Bool) (file : HeadFile) (ts : List Turn) (inv' : Inv)
        (support_miners' : Bool)
        → file.next_write ≡ saved
        → All HasHead ts
        → (loop ts (new_chain {F = F} inv support_miners (some file)).0).0.state.head ≢ zero_hash
        → (new_chain {F = F} inv' support_miners'
            (loop ts (new_chain {F = F} inv support_miners (some file)).0).0.save_dir).1
          ≡ some (record {
            head = (loop ts (new_chain {F = F} inv support_miners (some file)).0).0.state.head;
            blocks = [];
            merkles = [];
            txs = [];
            auto_add_mempool_insecure = true;
          })
    loop-restarts inv support_miners file ts inv' support_miners' works h other =
        new_chain-saved inv' support_miners'
          (loop ts (new_chain {F = F} inv support_miners (some file)).0).0
          (load-IsSaved (loop ts (new_chain {F = F} inv support_miners (some file)).0).0
            (loop-IsSaved inv support_miners file ts works h) other)
