-- ===== src/Topic/Delivery.antt =====
-- What a subscriber of pkg/topic/topic.go reads, whatever the others do in between.
use mathlib.Core.List.{append_assoc, append-nil}
use basiccoin.Base.{
  ℕ, suc, ◌+◌, ◌<◌, ◌^◌, ◌≡◌, ◌≢◌, refl, ap, sym, ◌∙◌, false, Option, none, some, List, [], ◌∷◌,
  ◌++◌, arith, inl, inr, Bool-cases, if◌then◌else◌,
}
use native.Mathlib.Decide.{ℕ_discrete}
use basiccoin.Base.Eq.{nat_eq, ◌==◌}
use basiccoin.Collections.Map as Map
use basiccoin.Collections.SyncQueue as SyncQueue
use basiccoin.Collections.SyncQueue.{SyncQueue}
use basiccoin.Topic.{
  Topic, sub, publish, gc, pop, Action, subscribe, collect, publish_all, pop_of, close_of, logged,
  step, run,
}
use basiccoin.Topic.Queues.{
  Holds, lookup-push_all, lookup-drop_closed, pop_other, close_other, next_id-pop, next_id-close,
}

module _ {T : Type 0} where
  -- The messages that the actions publish, in order.
  abbrev pub published : List (Action T) → List T
  published [] = []
  published (publish_all msgs ∷ actions) = msgs ++ published actions
  published (subscribe ∷ actions) = published actions
  published (collect ∷ actions) = published actions
  published (pop_of id ∷ actions) = published actions
  published (close_of id ∷ actions) = published actions

  abbrev pub subscriptions : List (Action T) → ℕ
  subscriptions [] = 0
  subscriptions (subscribe ∷ actions) = suc (subscriptions actions)
  subscriptions (collect ∷ actions) = subscriptions actions
  subscriptions (publish_all msgs ∷ actions) = subscriptions actions
  subscriptions (pop_of id ∷ actions) = subscriptions actions
  subscriptions (close_of id ∷ actions) = subscriptions actions

  -- No action closes the queue.
  abbrev pub StaysOpen : ℕ → List (Action T) → Type 0
  StaysOpen id [] = Unit {0}
  StaysOpen id (close_of other ∷ actions) = (other ≢ id) × StaysOpen id actions
  StaysOpen id (subscribe ∷ actions) = StaysOpen id actions
  StaysOpen id (collect ∷ actions) = StaysOpen id actions
  StaysOpen id (publish_all msgs ∷ actions) = StaysOpen id actions
  StaysOpen id (pop_of other ∷ actions) = StaysOpen id actions

  -- What was read from one queue.
  abbrev pub read_from : ℕ → List (ℕ × T) → List T
  read_from id [] = []
  read_from id ((other, msg) ∷ log) =
      if other == id then msg ∷ read_from id log else read_from id log

  read_from-logged_other :
      (other id : ℕ) (o : Option T) → other ≢ id → read_from id (logged other o) ≡ []
  read_from-logged_other other id none ne = refl
  read_from-logged_other other id (some msg) ne = ground (arith, ne)

  -- The first message goes, if there is one.
  pop_same :
      (id : ℕ) (msgs : List T) (t : Topic T)
      → Holds id msgs t
      → (rest : List T) × Holds id rest (pop id t).0
        × (read_from id (logged id (pop id t).1) ++ rest ≡ msgs)
  unfolding pop SyncQueue.pop
  pop_same id [] t h =
      rw (h, pop)
        (
          [],
          ground (arith, Map.lookup-insert id id (record { q = []; closed = false }) t.subs),
          refl,
        )
  pop_same id (msg ∷ msgs) t h =
      rw (h, pop)
        (
          msgs,
          ground (arith, Map.lookup-insert id id (record { q = msgs; closed = false }) t.subs),
          ground arith,
        )

  -- What a step does to a queue that it does not close: it stays open, and what is read from it
  -- and what waits in it are what waited before and what is published.
  step_lem :
      (a : Action T) (id : ℕ) (msgs : List T) (t : Topic T)
      → Holds id msgs t
      → StaysOpen id (a ∷ [])
      → id < t.next_id
      → t.next_id + subscriptions (a ∷ []) < 2 ^ 64
      → (msgs' : List T) × Holds id msgs' (step a t).0
        × (read_from id (step a t).1 ++ msgs' ≡ msgs ++ published (a ∷ []))
        × ((step a t).0.next_id ≡ t.next_id + subscriptions (a ∷ []))
  unfolding step sub publish gc SyncQueue.push
  step_lem subscribe id msgs t h o old fits = (
    msgs,
    ground (arith, h, Map.lookup-insert t.next_id id (SyncQueue.new_sync_queue []) t.subs),
    sym (append-nil msgs),
    omega arith,
  )
  step_lem collect id msgs t h o old fits =
      (msgs, lookup-drop_closed id msgs t.subs h, sym (append-nil msgs), omega arith)
  step_lem (publish_all new) id msgs t h o old fits = (
    msgs ++ new,
    lookup-push_all new id _ t.subs h,
    ap (λ (l : List T). msgs ++ l) (sym (append-nil new)),
    omega arith,
  )
  step_lem (pop_of other) id msgs t h o old fits = elim (ℕ_discrete other id) [
    | no ne ↦ (
      msgs,
      pop_other other id msgs t ne h,
      ap (λ (l : List T). l ++ msgs) (read_from-logged_other other id (pop other t).1 ne)
          ∙ sym (append-nil msgs),
      omega (arith, next_id-pop other t),
    )
    | yes same ↦
        let (rest, holds, read) = pop_same id msgs t h in
        rw same (rest, holds, read ∙ sym (append-nil msgs), omega (arith, next_id-pop id t))
  ]
  step_lem (close_of other) id msgs t h o old fits = (
    msgs,
    close_other other id msgs t o.0 h,
    sym (append-nil msgs),
    omega (arith, next_id-close other t),
  )

  -- The first action, and the others.
  published_first :
      (a : Action T) (actions : List (Action T))
      → published (a ∷ actions) ≡ published (a ∷ []) ++ published actions
  published_first subscribe actions = refl
  published_first collect actions = refl
  published_first (publish_all msgs) actions =
      ap (λ (l : List T). l ++ published actions) (sym (append-nil msgs))
  published_first (pop_of id) actions = refl
  published_first (close_of id) actions = refl

  subscriptions_first :
      (a : Action T) (actions : List (Action T))
      → subscriptions (a ∷ actions) ≡ subscriptions (a ∷ []) + subscriptions actions
  subscriptions_first subscribe actions = omega arith
  subscriptions_first collect actions = omega arith
  subscriptions_first (publish_all msgs) actions = omega arith
  subscriptions_first (pop_of id) actions = omega arith
  subscriptions_first (close_of id) actions = omega arith

  StaysOpen-first :
      (id : ℕ) (a : Action T) (actions : List (Action T))
      → StaysOpen id (a ∷ actions)
      → StaysOpen id (a ∷ []) × StaysOpen id actions
  StaysOpen-first id subscribe actions o = (tt, o)
  StaysOpen-first id collect actions o = (tt, o)
  StaysOpen-first id (publish_all msgs) actions o = (tt, o)
  StaysOpen-first id (pop_of other) actions o = (tt, o)
  StaysOpen-first id (close_of other) actions (ne, o) = ((ne, tt), o)

  read_from-append :
      (id : ℕ) (log more : List (ℕ × T))
      → read_from id (log ++ more) ≡ read_from id log ++ read_from id more
  read_from-append id [] more = refl
  read_from-append id ((other, msg) ∷ log) more = elim (Bool-cases (other == id)) [
    | inl here ↦ rw here (ap (λ (l : List T). msg ∷ l) (read_from-append id log more))
    | inr there ↦ rw there (read_from-append id log more)
  ]

  -- Whatever publishers, collections, subscribers and readers do in between, what is read from a
  -- subscription's queue, followed by what still waits in it, is what waited at first followed by
  -- everything that was published since, in order, when nothing closes the queue, the topic holds
  -- it open under an id below its next one, and it has fewer than 2^64 ids to the end.
  pub run-read_from :
      (actions : List (Action T)) (id : ℕ) (msgs : List T) (t : Topic T)
      → Holds id msgs t
      → StaysOpen id actions
      → id < t.next_id
      → t.next_id + subscriptions actions < 2 ^ 64
      → (waiting : List T) × Holds id waiting (run actions t).0
        × (read_from id (run actions t).1 ++ waiting ≡ msgs ++ published actions)
  unfolding run
  run-read_from [] id msgs t h o old fits = (msgs, h, sym (append-nil msgs))
  run-read_from (a ∷ actions) id msgs t h o old fits =
      let (stays, rest_stays) = StaysOpen-first id a actions o in
      let (mid, holds, read, next) =
        step_lem a id msgs t h stays old (omega (arith, subscriptions_first a actions)) in
      let (waiting, held, all_read) =
        run-read_from actions id mid (step a t).0 holds rest_stays (omega (arith, next))
          (omega (arith, next, subscriptions_first a actions)) in
      let first : List T = read_from id (step a t).1 in
      (
        waiting,
        held,
        ap (λ (l : List T). l ++ waiting)
              (read_from-append id (step a t).1 (run actions (step a t).0).1)
            ∙ append_assoc first (read_from id (run actions (step a t).0).1) waiting
            ∙ ap (λ (l : List T). first ++ l) all_read
            ∙ sym (append_assoc first mid (published actions))
            ∙ ap (λ (l : List T). l ++ published actions) read
            ∙ append_assoc msgs (published (a ∷ [])) (published actions)
            ∙ ap (λ (l : List T). msgs ++ l) (sym (published_first a actions)),
      )
