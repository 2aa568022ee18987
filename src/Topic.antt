-- ===== src/Topic.antt =====
-- pkg/topic/topic.go: publishers and subscribers. Each method of a topic and of a queue holds a
-- lock from its first line to its return, so a run of the program is a sequence of their steps. A
-- queue that the topic has collected is closed, and reading it gives nothing.
pub mod Queues
pub mod Delivery
use basiccoin.Base.{
  ℕ, ◌+◌, Bool, true, false, Option, none, some, List, [], ◌∷◌, ◌++◌, if◌then◌else◌,
}
use basiccoin.Base.Eq.{nat_eq}
use basiccoin.Base.Word.{add64}
use basiccoin.Collections.Map as Map
use basiccoin.Collections.SyncQueue as SyncQueue
use basiccoin.Collections.SyncQueue.{SyncQueue}

pub record Topic (T : Type 0) : Type 0 where
  pub subs : Map.Map ℕ (SyncQueue T)
  pub next_id : ℕ

module _ {T : Type 0} where
  unfoldable pub new_topic : Topic T
  new_topic = record { subs = []; next_id = 0 }

  -- The topic, and the id under which it keeps the new queue.
  unfoldable pub sub : Topic T → Topic T × ℕ
  sub t = (
    record {
      subs = Map.insert t.next_id (SyncQueue.new_sync_queue []) t.subs;
      next_id = add64 t.next_id 1;
    },
    t.next_id,
  )

  unfoldable pub push_all : List T → Map.Map ℕ (SyncQueue T) → Map.Map ℕ (SyncQueue T)
  push_all msgs [] = []
  push_all msgs ((id, q) ∷ subs) = (id, SyncQueue.push msgs q) ∷ push_all msgs subs

  -- `Pub`
  unfoldable pub publish : List T → Topic T → Topic T
  publish msgs t = record t { subs = push_all msgs t.subs }

  unfoldable pub drop_closed : Map.Map ℕ (SyncQueue T) → Map.Map ℕ (SyncQueue T)
  drop_closed [] = []
  drop_closed ((id, q) ∷ subs) =
      let rest = drop_closed subs in if SyncQueue.is_closed q then rest else (id, q) ∷ rest

  unfoldable pub gc : Topic T → Topic T
  gc t = record t { subs = drop_closed t.subs }

  -- What the holder of a queue does with it.
  unfoldable pub pop : ℕ → Topic T → Topic T × Option T
  pop id t = elim (Map.lookup id t.subs) [
    | none ↦ (t, none)
    | some q ↦ (record t { subs = Map.insert id (SyncQueue.pop q).0 t.subs }, (SyncQueue.pop q).1)
  ]

  unfoldable pub close : ℕ → Topic T → Topic T
  close id t = elim (Map.lookup id t.subs) [
    | none ↦ t
    | some q ↦ record t { subs = Map.insert id (SyncQueue.close q) t.subs }
  ]

-- A step of a publisher, of the collector, of a new subscriber, or of the holder of a queue.
pub data Action (T : Type 0) : Type 0 where
  subscribe collect : Action T
  publish_all : List T → Action T
  pop_of close_of : ℕ → Action T

abbrev pub logged : {T : Type 0} → ℕ → Option T → List (ℕ × T)
logged id none = []
logged id (some msg) = (id, msg) ∷ []

module _ {T : Type 0} where
  -- The topic after a step, and what was read in it, from which queue.
  unfoldable pub step : Action T → Topic T → Topic T × List (ℕ × T)
  step subscribe t = ((sub t).0, [])
  step collect t = (gc t, [])
  step (publish_all msgs) t = (publish msgs t, [])
  step (pop_of id) t = ((pop id t).0, logged id (pop id t).1)
  step (close_of id) t = (close id t, [])

  unfoldable pub run : List (Action T) → Topic T → Topic T × List (ℕ × T)
  run [] t = (t, [])
  run (a ∷ actions) t = ((run actions (step a t).0).0, (step a t).1 ++ (run actions (step a t).0).1)
