-- ===== src/Topic/Queues.antt =====
-- The queues that pkg/topic/topic.go keeps, after each method.
use basiccoin.Base.{
  ℕ, ◌≡◌, ◌≢◌, refl, ap, Bool, false, Option, none, some, List, [], ◌∷◌, arith, inl, inr,
  Bool-cases, Option-cases,
}
use basiccoin.Base.Eq.{nat_eq, ◌==◌}
use basiccoin.Collections.Map as Map
use basiccoin.Collections.SyncQueue as SyncQueue
use basiccoin.Collections.SyncQueue.{SyncQueue}
use basiccoin.Topic.{Topic, push_all, drop_closed, pop, close}

module _ {T : Type 0} where
  -- The queue that the topic keeps under an id, open, with these messages in it.
  abbrev pub Holds : ℕ → List T → Topic T → Type 0
  Holds id msgs t = Map.lookup id t.subs ≡ some (record { q = msgs; closed = false })

  abbrev pub closed_of : Option (SyncQueue T) → Bool
  closed_of none = false
  closed_of (some q) = q.closed

  abbrev pub push_found : List T → Option (SyncQueue T) → Option (SyncQueue T)
  push_found msgs none = none
  push_found msgs (some q) = some (SyncQueue.push msgs q)

  pub lookup-push_all :
      (msgs : List T) (id : ℕ) (q : SyncQueue T) (subs : Map.Map ℕ (SyncQueue T))
      → Map.lookup id subs ≡ some q
      → Map.lookup id (push_all msgs subs) ≡ some (SyncQueue.push msgs q)
  unfolding push_all Map.lookup
  lookup-push_all msgs id q [] h = absurd cc
  lookup-push_all msgs id q ((j, r) ∷ subs) h = elim (Bool-cases (j == id)) [
    | inl here ↦
        let h' = rw here at h in rw here (ap (λ (x : Option (SyncQueue T)). push_found msgs x) h')
    | inr other ↦ let h' = rw other at h in rw other (lookup-push_all msgs id q subs h')
  ]

  pub lookup-drop_closed :
      (id : ℕ) (msgs : List T) (subs : Map.Map ℕ (SyncQueue T))
      → Map.lookup id subs ≡ some (record { q = msgs; closed = false })
      → Map.lookup id (drop_closed subs) ≡ some (record { q = msgs; closed = false })
  unfolding drop_closed Map.lookup
  lookup-drop_closed id msgs [] h = absurd cc
  lookup-drop_closed id msgs ((j, r) ∷ subs) h = elim (Bool-cases (j == id)) [
    | inl here ↦
        let h' = rw here at h in
        let open_ : r.closed ≡ false = ap (λ (x : Option (SyncQueue T)). closed_of x) h' in
        simp (open_, here) h'
    | inr other ↦
        let h' = rw other at h in
        elim (Bool-cases r.closed) [
          | inl shut ↦ rw shut (lookup-drop_closed id msgs subs h')
          | inr open_ ↦ rw (open_, other) (lookup-drop_closed id msgs subs h')
        ]
  ]

  -- Another queue leaves this one alone.
  pub insert_other :
      (other id : ℕ) (q : SyncQueue T) (msgs : List T) (t : Topic T)
      → other ≢ id
      → Holds id msgs t
      → Holds id msgs (record t { subs = Map.insert other q t.subs })
  insert_other other id q msgs t ne h = ground (arith, h, Map.lookup-insert other id q t.subs)

  pub pop_other :
      (other id : ℕ) (msgs : List T) (t : Topic T)
      → other ≢ id
      → Holds id msgs t
      → Holds id msgs (pop other t).0
  unfolding pop
  pop_other other id msgs t ne h = elim (Option-cases (Map.lookup other t.subs)) [
    | inl gone ↦ rw (gone, pop) h
    | inr (q, found) ↦ rw (found, pop) (insert_other other id (SyncQueue.pop q).0 msgs t ne h)
  ]

  pub close_other :
      (other id : ℕ) (msgs : List T) (t : Topic T)
      → other ≢ id
      → Holds id msgs t
      → Holds id msgs (close other t)
  unfolding close
  close_other other id msgs t ne h = elim (Option-cases (Map.lookup other t.subs)) [
    | inl gone ↦ rw (gone, close) h
    | inr (q, found) ↦ rw (found, close) (insert_other other id (SyncQueue.close q) msgs t ne h)
  ]

  pub next_id-pop : (id : ℕ) (t : Topic T) → (pop id t).0.next_id ≡ t.next_id
  unfolding pop
  next_id-pop id t = elim (Option-cases (Map.lookup id t.subs)) [
    | inl gone ↦ rw (gone, pop) refl
    | inr (q, found) ↦ rw (found, pop) refl
  ]

  pub next_id-close : (id : ℕ) (t : Topic T) → (close id t).next_id ≡ t.next_id
  unfolding close
  next_id-close id t = elim (Option-cases (Map.lookup id t.subs)) [
    | inl gone ↦ rw (gone, close) refl
    | inr (q, found) ↦ rw (found, close) refl
  ]
