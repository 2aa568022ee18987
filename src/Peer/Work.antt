-- ===== src/Peer/Work.antt =====
-- The work of a chain in internal/peer/sync.go, as a number.
use basiccoin.Base.{ℕ, ◌+◌, ◌/◌, ◌^◌, ◌<◌, ◌≡◌, ◌≢◌, refl, List, [], ◌∷◌, All, arith}
use mathlib.Core.Path.{subst}
use basiccoin.Base.Result.{ok, >>=-eq-ok, ok-injective}
use basiccoin.Core.Block.{Block}
use basiccoin.Hash.{HashT, IsHash, zero_hash, big_int, big_int2_256, work_append_target}
use basiccoin.Hash.Target.{work_append_target_lem, work_append_target-eq-ok}
use basiccoin.Peer.Quick.{append_targets}

-- The work that the targets of the blocks stand for, one after the other.
abbrev pub claimed_work : List Block → ℕ
claimed_work [] = 0
claimed_work (b ∷ bs) = big_int2_256 / big_int b.target + claimed_work bs

abbrev pub HasWideTarget : Block → Type 0
HasWideTarget b = IsHash b.target

abbrev pub HasSomeTarget : Block → Type 0
HasSomeTarget b = b.target ≢ zero_hash

pub append_targets-eq-ok :
    (w : HashT) (bs : List Block) (u : HashT)
    → IsHash w
    → All HasWideTarget bs
    → All HasSomeTarget bs
    → append_targets w bs ≡ ok u
    → IsHash u × (big_int u ≡ big_int w + claimed_work bs)
unfolding append_targets
append_targets-eq-ok w [] u vw wide some e =
    subst (λ (x : HashT). IsHash x × (big_int x ≡ big_int w + 0)) (ok-injective w u e)
      (vw, omega arith)
append_targets-eq-ok w (b ∷ bs) u vw wide some e =
    let (more, added, e₁) = >>=-eq-ok (work_append_target w b.target) _ e in
    let (vm, value) = work_append_target-eq-ok w b.target more wide.0 some.0 added in
    let (vu, total) = append_targets-eq-ok more bs u vm wide.1 some.1 e₁ in
    (vu, omega (arith, value, total))

pub append_targets_lem :
    (w : HashT) (bs : List Block)
    → IsHash w
    → All HasWideTarget bs
    → All HasSomeTarget bs
    → big_int w + claimed_work bs < 2 ^ 256
    → (u : HashT) × (append_targets w bs ≡ ok u)
      × IsHash u
      × (big_int u ≡ big_int w + claimed_work bs)
unfolding append_targets
append_targets_lem w [] vw wide some fits = (w, refl, vw, omega arith)
append_targets_lem w (b ∷ bs) vw wide some fits =
    let (more, added, vm, value) =
      work_append_target_lem w b.target vw wide.0 some.0 (omega arith) in
    let (u, done, vu, total) = append_targets_lem more bs vm wide.1 some.1 (omega (arith, value)) in
    (u, rw added done, vu, omega (arith, value, total))
