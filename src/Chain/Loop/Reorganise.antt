-- ===== src/Chain/Loop/Reorganise.antt =====
-- The change of the head in internal/chain/chain.go, on the recorded blocks and the index.
use mathlib.Core.Path.{subst}
use basiccoin.Base.{◌≡◌, Bool, List, [], ◌∷◌}
use basiccoin.Base.Result.{ok, >>=-eq-ok, ok-injective}
use basiccoin.Chain.Handlers.{advance_all, reorganise}
use basiccoin.Chain.State.{State, rewind_until}
use basiccoin.Chain.State.Index.{IsIndexed}
use basiccoin.Chain.State.Index.Moves.{IsKeyed}
use basiccoin.Chain.State.Index.Blocks.{advance-IsIndexed, rewind_until-IsIndexed}
use basiccoin.Chain.State.Included.{OnlyStored, advance-OnlyStored, rewind_until-OnlyStored}
use basiccoin.Core.Tx.{FloatOps}
use basiccoin.Hash.{HashT, hash_eq}
use basiccoin.Hash.Digest.{Sha256}
use basiccoin.Inv.{Inv, get_block_lca, get_block_ancestors_until}

module _ {F : Type 0} ⦃float : FloatOps F⦄ ⦃sha : Sha256⦄ (inv : Inv) where
  advance_all-OnlyStored :
      (auto : Bool) (ids : List HashT) (s s' : State F)
      → OnlyStored inv s
      → advance_all inv auto ids s ≡ ok s'
      → OnlyStored inv s'
  unfolding advance_all
  advance_all-OnlyStored auto [] s s' h e = subst (OnlyStored inv) (ok-injective s s' e) h
  advance_all-OnlyStored auto (id ∷ ids) s s' h e =
      let (t, done, e₁) = >>=-eq-ok (advance_all inv auto ids s) _ e in
      advance-OnlyStored inv id auto t s' (advance_all-OnlyStored auto ids s t h done) e₁

  pub reorganise-OnlyStored :
      (s s' : State F) (head : HashT) (auto : Bool)
      → OnlyStored inv s
      → reorganise inv s head auto ≡ ok s'
      → OnlyStored inv s'
  unfolding reorganise
  reorganise-OnlyStored s s' head auto h e =
      let (lca, _, e₁) = >>=-eq-ok (get_block_lca inv s.head head) _ e in
      let (t, rewound, e₂) = >>=-eq-ok (rewind_until inv lca s) _ e₁ in
      let (ids, _, e₃) = >>=-eq-ok (get_block_ancestors_until inv head lca) _ e₂ in
      advance_all-OnlyStored auto (head ∷ ids) t s' (rewind_until-OnlyStored inv lca s t h rewound)
        e₃

module _ {F : Type 0} ⦃float : FloatOps F⦄ ⦃sha : Sha256⦄ (inv : Inv) (keyed : IsKeyed inv) where
  advance_all-IsIndexed :
      (auto : Bool) (ids : List HashT) (s s' : State F)
      → IsIndexed inv s
      → advance_all inv auto ids s ≡ ok s'
      → IsIndexed inv s'
  unfolding advance_all
  advance_all-IsIndexed auto [] s s' h e = subst (IsIndexed inv) (ok-injective s s' e) h
  advance_all-IsIndexed auto (id ∷ ids) s s' h e =
      let (t, done, e₁) = >>=-eq-ok (advance_all inv auto ids s) _ e in
      advance-IsIndexed inv keyed id auto t s' (advance_all-IsIndexed auto ids s t h done) e₁

  pub reorganise-IsIndexed :
      (s s' : State F) (head : HashT) (auto : Bool)
      → IsIndexed inv s
      → reorganise inv s head auto ≡ ok s'
      → IsIndexed inv s'
  unfolding reorganise
  reorganise-IsIndexed s s' head auto h e =
      let (lca, _, e₁) = >>=-eq-ok (get_block_lca inv s.head head) _ e in
      let (t, rewound, e₂) = >>=-eq-ok (rewind_until inv lca s) _ e₁ in
      let (ids, _, e₃) = >>=-eq-ok (get_block_ancestors_until inv head lca) _ e₂ in
      advance_all-IsIndexed auto (head ∷ ids) t s'
        (rewind_until-IsIndexed inv keyed lca s t h rewound) e₃
