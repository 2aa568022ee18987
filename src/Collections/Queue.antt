-- ===== src/Collections/Queue.antt =====
-- pkg/queue/queue.go: a slice, pushed at its end and popped at its front.
use basiccoin.Base.{ℕ, Option, none, some, List, [], ◌∷◌, ◌++◌, length}

abbrev pub Queue {ℓ} : Type ℓ → Type ℓ
Queue K = List K

module _ {ℓ} {K : Type ℓ} where
  abbrev pub new_queue : List K → Queue K
  new_queue keys = keys

  abbrev pub push : List K → Queue K → Queue K
  push keys q = q ++ keys

  -- The rest of the queue with the item, if there was one.
  abbrev pub pop : Queue K → Option (K × Queue K)
  pop [] = none
  pop (key ∷ q) = some (key, q)

  abbrev pub peek : Queue K → Option K
  peek [] = none
  peek (key ∷ q) = some key

  abbrev pub size : Queue K → ℕ
  size q = length q
