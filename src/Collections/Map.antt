-- ===== src/Collections/Map.antt =====
-- A Go map as an association list. A key is written in place or at the end, and deleted wherever
-- it stands; the order in which `range` visits a map is the order of the list, which Go leaves
-- open. pkg/syncmap is the same map without a delete.
use basiccoin.Base.{
  ◌+◌, ◌≡◌, refl, Bool, true, false, Option, none, some, List, [], ◌∷◌, arith, length,
  if◌then◌else◌, inl, inr, ◌⊎◌, Option-cases,
}
use basiccoin.Base.Eq.{Eq, ◌==◌, beq_refl}
use basiccoin.Base.Result.{Result, expect}

abbrev pub Map {ℓ κ} : Type ℓ → Type κ → Type (ℓ ⊔ κ)
Map K V = List (K × V)

abbrev pub is_some {κ} : {V : Type κ} → Option V → Bool
is_some none = false
is_some (some v) = true

module _ {ℓ κ} {K : Type ℓ} {V : Type κ} ⦃e : Eq K⦄ where
  unfoldable pub lookup : K → Map K V → Option V
  lookup k [] = none
  lookup k ((j, v) ∷ m) = if j == k then some v else lookup k m

  unfoldable pub insert : K → V → Map K V → Map K V
  insert key value [] = (key, value) ∷ []
  insert key value (entry ∷ rest) =
      if entry.0 == key then (key, value) ∷ rest else entry ∷ insert key value rest

  unfoldable pub delete : K → Map K V → Map K V
  delete k [] = []
  delete k ((j, w) ∷ m) = if j == k then delete k m else (j, w) ∷ delete k m

  -- `SyncMap.Has`, and `_, ok := m[key]`.
  unfoldable pub has : K → Map K V → Bool
  has k m = is_some (lookup k m)

  -- `SyncMap.Get`, which panics on a missing key.
  abbrev pub get : K → Map K V → Result V
  get k m = expect (lookup k m)

  pub lookup-insert :
      (key other : K) (value : V) (m : Map K V)
      → lookup other (insert key value m) ≡ (if key == other then some value else lookup other m)
  unfolding insert lookup
  lookup-insert key other value [] = refl
  lookup-insert key other value ((i, w) ∷ rest) = ground (
    arith,
    e.beq_iff key other,
    e.beq_iff i key,
    e.beq_iff i other,
    lookup-insert key other value rest,
  )

  pub lookup-delete :
      (k j : K) (m : Map K V) → lookup j (delete k m) ≡ (if k == j then none else lookup j m)
  unfolding lookup delete
  lookup-delete k j [] = ground arith
  lookup-delete k j ((i, w) ∷ m) =
      ground (arith, e.beq_iff k j, e.beq_iff i k, e.beq_iff i j, lookup-delete k j m)

  pub has-insert :
      (k j : K) (v : V) (m : Map K V) → has j (insert k v m) ≡ (if k == j then true else has j m)
  unfolding has
  has-insert k j v m = ground (arith, lookup-insert k j v m)

  pub has-delete :
      (k j : K) (m : Map K V) → has j (delete k m) ≡ (if k == j then false else has j m)
  unfolding has
  has-delete k j m = ground (arith, lookup-delete k j m)

  pub has_of_lookup : (k : K) (v : V) (m : Map K V) → lookup k m ≡ some v → has k m ≡ true
  unfolding has
  has_of_lookup k v m h = rw h

  pub lookup_of_has : (k : K) (m : Map K V) → has k m ≡ true → (v : V) × (lookup k m ≡ some v)
  unfolding has
  lookup_of_has k m h = elim (Option-cases (lookup k m)) [
    | inl absent ↦ absurd (ground arith)
    | inr (v, found) ↦ (v, found)
  ]

  pub lookup_of_not_has : (k : K) (m : Map K V) → has k m ≡ false → lookup k m ≡ none
  unfolding has
  lookup_of_not_has k m h = ground arith

  pub length-insert_new :
      (k : K) (v : V) (m : Map K V) → lookup k m ≡ none → length (insert k v m) ≡ length m + 1
  unfolding lookup insert
  length-insert_new k v [] h = refl
  length-insert_new k v ((i, w) ∷ m) h = ground (arith, length-insert_new k v m)

  -- A map is empty exactly when it has no key.
  pub eq-nil_of_no_keys : (m : Map K V) → ((k : K) → has k m ≡ false) → m ≡ []
  unfolding has lookup
  eq-nil_of_no_keys [] h = refl
  eq-nil_of_no_keys ((i, w) ∷ m) h = ground (arith, h i, beq_refl i)

  -- A new key hides no other entry, and what is found afterwards is the new entry or an old one.
  pub lookup-insert_old :
      (k j : K) (v w : V) (m : Map K V)
      → lookup k m ≡ none
      → lookup j m ≡ some w
      → lookup j (insert k v m) ≡ some w
  lookup-insert_old k j v w m new old = ground (arith, lookup-insert k j v m, e.beq_iff k j)

  pub lookup-insert_cases :
      (k j : K) (v w : V) (m : Map K V)
      → lookup j (insert k v m) ≡ some w
      → ((k ≡ j) × (v ≡ w)) ⊎ (lookup j m ≡ some w)
  lookup-insert_cases k j v w m found = ground (arith, lookup-insert k j v m, e.beq_iff k j)

  pub has-insert_old :
      (k j : K) (v : V) (m : Map K V) → has j m ≡ true → has j (insert k v m) ≡ true
  has-insert_old k j v m old = ground (arith, has-insert k j v m)
