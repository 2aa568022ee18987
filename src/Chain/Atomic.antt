-- ===== src/Chain/Atomic.antt =====
-- What `handleCandidateHead` of internal/chain/chain.go leaves of the state, whatever its outcome.
use basiccoin.Base.{
  ℕ, ◌≡◌, refl, sym, ◌∙◌, ap, Bool, true, false, [], ◌∷◌, ◌++◌, ◌⊎◌, inl, inr, if◌then◌else◌,
}
use basiccoin.Base.Eq.{◌==◌}
use basiccoin.Base.Result.{
  Result, ok, err, panic, out_of_fuel, guard, guard-ok, >>=-eq-ok, guard-eq-ok, ok-injective,
  head_unknown, less_work,
}
use basiccoin.Chain.SavedHead.{save_head}
use basiccoin.Chain.State.{State, advance, advance_txs, rewind_until}
use basiccoin.Chain.State.Ledger.{SameLedger}
use basiccoin.Chain.Target.{MinerTarget, create_mining_target}
use basiccoin.Chain.Handlers.{
  Chain, CandidateHead, Handler, and_then, has_more_work, advance_all, retarget, insert_all,
  switch_head, validated_head, miner_target, reorganise, handle_candidate_head,
}
use basiccoin.Core.Crypto.{Ecdsa}
use basiccoin.Core.Tx.{FloatOps}
use basiccoin.Hash.{HashT, hash_eq, lt}
use basiccoin.Hash.Digest.{Sha256}
use basiccoin.Inv.{
  Inv, get_block, get_merkle_txs, get_block_lca, get_block_ancestors_until, has_block,
  get_block_total_work,
}
use basiccoin.Chain.Keeps.{
  and_then-holds, SameLedger-refl, SameLedger-trans, Keeps, insert_all-Keeps,
}

-- The inventory knows both works, and that of the first block is the larger.
pub record HasMoreWork (inv : Inv) (head cur_head : HashT) : Type 0 where
  pub new_work : HashT
  pub cur_work : HashT
  pub new_known : get_block_total_work inv head ≡ ok new_work
  pub cur_known : get_block_total_work inv cur_head ≡ ok cur_work
  pub more : lt cur_work new_work ≡ true

has_more_work-eq-ok :
    (inv : Inv) (head cur_head : HashT)
    → has_more_work inv head cur_head ≡ ok true
    → HasMoreWork inv head cur_head
unfolding has_more_work
has_more_work-eq-ok inv head cur_head e =
    let (new_work, new_known, e₁) = >>=-eq-ok (get_block_total_work inv head) _ e in
    let (cur_work, cur_known, e₂) = >>=-eq-ok (get_block_total_work inv cur_head) _ e₁ in
    record {
      new_work = new_work;
      cur_work = cur_work;
      new_known = new_known;
      cur_known = cur_known;
      more = ok-injective _ true e₂;
    }

-- The type of fee rates is explicit here, since a handler's type is all that mentions it.
module _ (F : Type 0) ⦃float : FloatOps F⦄ ⦃sha : Sha256⦄ where
  -- What a change of head may leave: the ledger as it was, or one whose head is the candidate, when
  -- the candidate has more work than the head before.
  unfoldable pub Settled : HashT → HashT → Chain F → Chain F → Type 0
  Settled head cur_head c c' =
      SameLedger c.state c'.state ⊎ ((c'.state.head ≡ head) × HasMoreWork c'.inv head cur_head)

  advance-head :
      (inv : Inv) (id : HashT) (auto : Bool) (s s' : State F)
      → advance inv id auto s ≡ ok s'
      → s'.head ≡ id
  unfolding advance
  advance-head inv id auto s s' e =
      let (_, e₁) = guard-eq-ok (has_block inv id) _ _ e in
      let (b, _, e₂) = >>=-eq-ok (get_block inv id) _ e₁ in
      let (txs, _, e₃) = >>=-eq-ok (get_merkle_txs inv b.merkle_root) _ e₂ in
      let (_, e₄) = guard-eq-ok (b.prev_block_id == s.head) _ _ e₃ in
      let (t, _, e₅) = >>=-eq-ok (advance_txs inv id auto txs s) _ e₄ in
      ap (λ (t : State F). t.head) (sym (ok-injective _ _ e₅))

  pub reorganise-head :
      (inv : Inv) (s : State F) (head : HashT) (auto : Bool) (s' : State F)
      → reorganise inv s head auto ≡ ok s'
      → s'.head ≡ head
  unfolding reorganise advance_all
  reorganise-head inv s head auto s' e =
      let (lca, _, e₁) = >>=-eq-ok (get_block_lca inv s.head head) _ e in
      let (rewound, _, e₂) = >>=-eq-ok (rewind_until inv lca s) _ e₁ in
      let (ids, _, e₃) = >>=-eq-ok (get_block_ancestors_until inv head lca) _ e₂ in
      let (t, _, e₄) = >>=-eq-ok (advance_all inv auto ids rewound) _ e₃ in
      advance-head inv head auto t s' e₄

  pub retarget_lem :
      (c : Chain F)
      → ((retarget c).0.state ≡ c.state)
        × ((retarget c).0.inv ≡ c.inv)
        × ((retarget c).0.save_dir ≡ c.save_dir)
  unfolding retarget
  retarget_lem c = split c.support_miners (create_mining_target c.inv c.state)
    where
      tell : MinerTarget → Handler F (Unit {0})
      tell t d = (record d { published = d.published ++ miner_target t ∷ [] }, ok tt)

      split :
          (b : Bool) (r : Result MinerTarget)
          → ((if b then and_then tell c r else (c, ok tt)).0.state ≡ c.state)
            × ((if b then and_then tell c r else (c, ok tt)).0.inv ≡ c.inv)
            × ((if b then and_then tell c r else (c, ok tt)).0.save_dir ≡ c.save_dir)
      split true (ok t) = (refl, refl, refl)
      split true (err e) = (refl, refl, refl)
      split true panic = (refl, refl, refl)
      split true out_of_fuel = (refl, refl, refl)
      split false r = (refl, refl, refl)

  switch_head-Settled :
      (head : HashT) (auto : Bool) (cur_head : HashT) (c : Chain F)
      → Settled head cur_head c (switch_head head auto cur_head c).0
  unfolding switch_head Settled
  switch_head-Settled head auto cur_head c =
      let finish : State F → Handler F (Unit {0}) = λ s d. retarget (record d {
        state = s;
        save_dir = save_head s.head d.save_dir;
        published = d.published ++ validated_head head ∷ [];
      }) in
      let reorg : Unit {0} → Handler F (Unit {0}) =
        λ _ d. and_then finish d (reorganise d.inv d.state head auto) in
      let compare : Bool → Handler F (Unit {0}) =
        λ better d. and_then reorg d (guard better less_work) in
      let start : Unit {0} → Handler F (Unit {0}) =
        λ _ d. and_then compare d (has_more_work d.inv head cur_head) in
      let P : Chain F → Type 0 = Settled head cur_head c in
      let same : P c = inl (SameLedger-refl c.state) in
      and_then-holds P start c (guard (has_block c.inv head) head_unknown) same (λ _ _.
        and_then-holds P compare c (has_more_work c.inv head cur_head) same (λ better works.
          and_then-holds P reorg c (guard better less_work) same (λ _ more.
            and_then-holds P finish c (reorganise c.inv c.state head auto) same (λ s done.
              let d : Chain F = record c {
                state = s;
                save_dir = save_head s.head c.save_dir;
                published = c.published ++ validated_head head ∷ [];
              } in
              let (state, inv, _) = retarget_lem d in
              inr (
                ap (λ (t : State F). t.head) state ∙ reorganise-head c.inv c.state head auto s done,
                has_more_work-eq-ok (retarget d).0.inv head cur_head (
                    ap (λ i. has_more_work i head cur_head) inv
                    ∙ works
                    ∙ ap ok (guard-ok better less_work more)),
              )))))

  Settled-after :
      (head cur_head : HashT) (c d e : Chain F)
      → SameLedger c.state d.state
      → Settled head cur_head d e
      → Settled head cur_head c e
  unfolding Settled
  Settled-after head cur_head c d e same (inl h) =
      inl (SameLedger-trans c.state d.state e.state same h)
  Settled-after head cur_head c d e same (inr h) = inr h

  -- Whatever the outcome of `handleCandidateHead` (an error or a panic included), either the
  -- unspent outputs with their index by key hash, the head and the included transactions of our
  -- state are as they were, or the head is the candidate and the inventory knows the total works
  -- of both, that of the candidate the larger.
  pub handle_candidate_head-Settled :
      ⦃ecdsa : Ecdsa⦄ (now : ℕ) (event : CandidateHead) (c : Chain F)
      → Settled event.head c.state.head c (handle_candidate_head now event c).0
  unfolding handle_candidate_head Settled Keeps
  handle_candidate_head-Settled now event c =
      let c₁ : Chain F = (insert_all now event c).0 in
      let switch : Unit {0} → Handler F (Unit {0}) =
        λ _. switch_head event.head event.auto_add_mempool_insecure c.state.head in
      and_then-holds (Settled event.head c.state.head c) switch c₁ (insert_all now event c).1
        (inl (insert_all-Keeps F now event c).ledger)
        (λ _ _.
          Settled-after event.head c.state.head c c₁ (switch tt c₁).0
            (insert_all-Keeps F now event c).ledger
            (switch_head-Settled event.head event.auto_add_mempool_insecure c.state.head c₁))
