-- ===== src/Collections/SyncQueue.antt =====
-- pkg/syncqueue/syncqueue.go: each method holds the mutex from its first line to its return, so
-- a method is one step on the state.
use basiccoin.Base.{ℕ, Bool, true, false, Option, none, some, List, [], if◌then◌else◌}
use basiccoin.Collections.Queue as Queue
use basiccoin.Collections.Queue.{Queue}

pub record SyncQueue {ℓ} (K : Type ℓ) : Type ℓ where
  pub q : Queue K
  pub closed : Bool

module _ {ℓ} {K : Type ℓ} where
  abbrev pub new_sync_queue : List K → SyncQueue K
  new_sync_queue keys = record { q = Queue.new_queue keys; closed = false }

  unfoldable pub push : List K → SyncQueue K → SyncQueue K
  push keys s = if s.closed then s else record s { q = Queue.push keys s.q }

  unfoldable pub peek : SyncQueue K → Option K
  peek s = if s.closed then none else Queue.peek s.q

  -- The state after the pop, and the item if there was one.
  unfoldable pub pop : SyncQueue K → SyncQueue K × Option K
  pop s = if s.closed then (s, none) else elim (Queue.pop s.q) [
    | none ↦ (s, none)
    | some (key, q) ↦ (record s { q = q }, some key)
  ]

  unfoldable pub size : SyncQueue K → ℕ
  size s = if s.closed then 0 else Queue.size s.q

  -- The queue is set to nil.
  unfoldable pub close : SyncQueue K → SyncQueue K
  close s = record s { closed = true; q = [] }

  -- `Closed`
  abbrev pub is_closed : SyncQueue K → Bool
  is_closed s = s.closed
