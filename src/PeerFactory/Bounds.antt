-- ===== src/PeerFactory/Bounds.antt =====
-- The number of peers in internal/peerfactory/peerfactory.go.
use basiccoin.Base.{
  ℕ, zero, suc, ◌+◌, ◌<◌, ◌≤◌, ◌≡◌, refl, ap, ◌∙◌, false, not, ◌&&◌, Option, none, some, List, [],
  ◌∷◌, ◌++◌, arith, length, ltb, inl, inr, Bool-cases, get_elem?,
}
use basiccoin.Base.Eq.{Eq, list_beq, text_eq, nat_eq}
use basiccoin.Base.Result.{Result, ok}
use basiccoin.Collections.Map as Map
use basiccoin.Collections.Set as Set
use basiccoin.Collections.SyncQueue as SyncQueue
use basiccoin.PeerFactory.{
  start_peer, PeerFactory, NewConn, Event, new_conn, peer_announced_addr, peer_closing,
  peers_received, peers_requested, validated_head, print_update, seek_peers, learn_addr,
  announce_addr, start, add_conn, seek_new_peers, receive_peers, handle, run,
}

length-delete {ℓ κ} :
    {K : Type ℓ} {V : Type κ} ⦃e : Eq K⦄ (k : K) (m : Map.Map K V)
    → length (Map.delete k m) ≤ length m
unfolding Map.delete
length-delete k [] = omega arith
length-delete ⦃e⦄ k ((j, v) ∷ m) = elim (Bool-cases (e.beq j k)) [
  | inl same ↦ rw same (omega (arith, length-delete k m))
  | inr other ↦ rw other (omega (arith, length-delete k m))
]

-- The same peers and the same limit.
record SamePeers (pf pf' : PeerFactory) : Type 0 where
  peers : pf'.known_peers ≡ pf.known_peers
  limit : pf'.params.max_peers ≡ pf.params.max_peers

abbrev pub IsBounded : PeerFactory → Type 0
IsBounded pf = Set.size pf.known_peers ≤ pf.params.max_peers

unchanged : (pf : PeerFactory) → SamePeers pf pf
unchanged pf = record { peers = refl; limit = refl }

then_same : (pf x y : PeerFactory) → SamePeers pf x → SamePeers x y → SamePeers pf y
then_same pf x y h k = record { peers = k.peers ∙ h.peers; limit = k.limit ∙ h.limit }

learn_addr_lem : (conn : NewConn) (pf : PeerFactory) → SamePeers pf (learn_addr conn pf)
unfolding learn_addr
learn_addr_lem conn pf = elim (Bool-cases (pf.params.listen && list_beq pf.params.local_addr [])) [
  | inl learns ↦ rw learns (record { peers = refl; limit = refl })
  | inr knows ↦ rw knows (unchanged pf)
]

announce_addr_lem : (conn : NewConn) (pf : PeerFactory) → SamePeers pf (announce_addr conn pf)
unfolding announce_addr
announce_addr_lem conn pf = elim (Bool-cases pf.params.listen) [
  | inl listens ↦ rw listens (record { peers = refl; limit = refl })
  | inr silent ↦ rw silent (unchanged _)
]

receive_peers_lem :
    (addrs : Map.Map (List ℕ) (List ℕ)) (pf : PeerFactory) → SamePeers pf (receive_peers addrs pf)
unfolding receive_peers
receive_peers_lem [] pf = unchanged pf
receive_peers_lem ((id, addr) ∷ rest) pf =
    let queued : PeerFactory = record pf { new_addrs = SyncQueue.push (addr ∷ []) pf.new_addrs } in
    elim (Bool-cases
      (not (list_beq id pf.params.runtime_id) && not (Set.includes id pf.known_peers))) [
        | inl other ↦
            let same : SamePeers queued (receive_peers rest queued) =
              receive_peers_lem rest queued in
            rw other (record { peers = same.peers; limit = same.limit })
        | inr known ↦ rw known (receive_peers_lem rest pf)
      ]

same-IsBounded : (pf x : PeerFactory) → SamePeers pf x → IsBounded pf → IsBounded x
same-IsBounded pf x same h = omega (arith, h, ap length same.peers, same.limit)

none_of : (o : Option (Unit {0})) → Map.is_some o ≡ false → o ≡ none
none_of none h = refl
none_of (some u) h = absurd cc

start-IsBounded :
    (conn : NewConn) (pf : PeerFactory)
    → length pf.known_peers < pf.params.max_peers
    → Set.includes conn.peer_runtime_id pf.known_peers ≡ false
    → IsBounded (start conn pf) × ((start conn pf).params.max_peers ≡ pf.params.max_peers)
unfolding start Set.add Set.includes Map.has
start-IsBounded conn pf room fresh =
    let more : PeerFactory = record pf {
      known_peers = Set.add conn.peer_runtime_id pf.known_peers;
      actions = pf.actions ++ start_peer conn.peer_runtime_id pf.cur_head ∷ [];
    } in
    let learnt : SamePeers more (learn_addr conn more) = learn_addr_lem conn more in
    let told : SamePeers (learn_addr conn more) (start conn pf) =
      announce_addr_lem conn (learn_addr conn more) in
    (
      omega (arith, room, ap length (told.peers ∙ learnt.peers), told.limit, learnt.limit, grown),
      told.limit ∙ learnt.limit,
    )
  where
    grown : length (Set.add conn.peer_runtime_id pf.known_peers) ≡ length pf.known_peers + 1
    grown =
        Map.length-insert_new conn.peer_runtime_id tt pf.known_peers
          (none_of (Map.lookup conn.peer_runtime_id pf.known_peers) fresh)

add_conn-IsBounded :
    (conn : NewConn) (pf : PeerFactory)
    → IsBounded pf
    → IsBounded (add_conn conn pf) × ((add_conn conn pf).params.max_peers ≡ pf.params.max_peers)
unfolding add_conn start learn_addr announce_addr
add_conn-IsBounded conn pf h = elim (Bool-cases conn.has_err) [
  | inl bad ↦ rw bad (h, refl)
  | inr good ↦
      elim (Bool-cases (
        ltb (Set.size pf.known_peers) pf.params.max_peers
        && not (Set.includes conn.peer_runtime_id pf.known_peers))) [
          | inl wanted ↦
              rw (good, wanted)
                (start-IsBounded conn pf (ground (arith, wanted)) (ground (arith, wanted)))
          | inr refused ↦ rw (good, refused) (h, refl)
        ]
]

-- The item at an index within the list.
get_elem?-ok {ℓ} :
    {A : Type ℓ} (l : List A) (i : ℕ) → i < length l → (a : A) × (get_elem? l i ≡ some a)
get_elem?-ok [] i h = absurd (omega arith)
get_elem?-ok (a ∷ l) zero h = (a, refl)
get_elem?-ok (a ∷ l) (suc i) h = get_elem?-ok l i (omega arith)

length-to_list : {K : Type 0} (s : Set.Set K) → length (Set.to_list s) ≡ Set.size s
length-to_list [] = refl
length-to_list (x ∷ s) = omega (arith, length-to_list s)

-- What an event leaves: no panic, and the bound.
Settles : PeerFactory → Result PeerFactory → Type 0
Settles pf r =
    (pf' : PeerFactory) × (r ≡ ok pf')
    × IsBounded pf'
    × (pf'.params.max_peers ≡ pf.params.max_peers)

seek_new_peers-Settles :
    (random : ℕ → ℕ → ℕ)
    → ((draw n : ℕ) → 0 < n → random draw n < n)
    → (pf : PeerFactory) → IsBounded pf
    → Settles pf (seek_new_peers random pf)
unfolding seek_new_peers Settles
seek_new_peers-Settles random within pf h =
    elim (Bool-cases (ltb (Set.size pf.known_peers) pf.params.max_peers)) [
      | inr full ↦ rw full (pf, refl, h, refl)
      | inl room ↦ elim (Bool-cases (nat_eq.beq (Set.size pf.known_peers) 0)) [
        | inl alone ↦
            rw (room, alone)
              (record pf { new_addrs = SyncQueue.push pf.seed_addrs pf.new_addrs }, refl, h, refl)
        | inr some_peers ↦
            let n : ℕ = Set.size pf.known_peers in
            let (target, found) = get_elem?-ok (Set.to_list pf.known_peers) (random pf.draws n) (
              omega (
                arith,
                within pf.draws n (ground (arith, some_peers)),
                length-to_list pf.known_peers,
              )) in
            rw (room, some_peers, found) (_, refl, h, refl)
      ]
    ]

handle-Settles :
    (random : ℕ → ℕ → ℕ)
    → ((draw n : ℕ) → 0 < n → random draw n < n)
    → (event : Event) (pf : PeerFactory) → IsBounded pf
    → Settles pf (handle random event pf)
unfolding handle Settles Set.remove
handle-Settles random within (new_conn conn) pf h =
    let (bounded, limit) = add_conn-IsBounded conn pf h in (add_conn conn pf, refl, bounded, limit)
handle-Settles random within (peer_announced_addr id addr) pf h = (_, refl, h, refl)
handle-Settles random within (peer_closing id) pf h =
    (_, refl, omega (arith, h, removed id pf.known_peers), refl)
  where
    removed : (k : List ℕ) (s : Set.Set (List ℕ)) → length (Set.remove k s).0 ≤ length s
    removed k s = elim (Bool-cases (Set.includes k s)) [
      | inl there ↦ rw there (length-delete k s)
      | inr missing ↦ rw missing (omega arith)
    ]
handle-Settles random within (peers_received addrs) pf h =
    let same : SamePeers pf (receive_peers addrs pf) = receive_peers_lem addrs pf in
    (receive_peers addrs pf, refl, same-IsBounded pf (receive_peers addrs pf) same h, same.limit)
handle-Settles random within (peers_requested id) pf h = (_, refl, h, refl)
handle-Settles random within (validated_head head) pf h = (_, refl, h, refl)
handle-Settles random within print_update pf h = (pf, refl, h, refl)
handle-Settles random within seek_peers pf h = seek_new_peers-Settles random within pf h

-- Whatever events the loop of the peer factory handles, it does not panic, and the known peers
-- stay at most as many as `MaxPeers`, when they are so at first and the draws of `rand.Intn` are
-- below their bound.
pub run-IsBounded :
    (random : ℕ → ℕ → ℕ) (events : List Event) (pf : PeerFactory)
    → ((draw n : ℕ) → 0 < n → random draw n < n)
    → IsBounded pf
    → (pf' : PeerFactory) × (run random events pf ≡ ok pf')
      × IsBounded pf'
      × (pf'.params.max_peers ≡ pf.params.max_peers)
unfolding run Settles
run-IsBounded random [] pf within h = (pf, refl, h, refl)
run-IsBounded random (event ∷ events) pf within h =
    let (pf', handled, bounded, limit) = handle-Settles random within event pf h in
    let (end, ran, kept, limit') = run-IsBounded random events pf' within bounded in
    (end, rw handled ran, kept, limit' ∙ limit)
