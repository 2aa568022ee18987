-- ===== src/Collections/Set.antt =====
-- pkg/set/set.go: a set is a map to the empty struct. A method that changes the set returns the
-- new one; `Copy` is the set itself, since values are not shared here.
pub mod Distinct
use basiccoin.Base.{
  ℕ, ◌≡◌, refl, Bool, true, false, ◌&&◌, ◌||◌, List, [], ◌∷◌, map, arith, length, if◌then◌else◌,
}
use basiccoin.Base.Eq.{Eq, ◌==◌}
use basiccoin.Collections.Map.{Map, lookup, insert, delete, has, has-insert, has-delete}

abbrev pub Set {ℓ} : Type ℓ → Type ℓ
Set K = Map K (Unit {0})

abbrev pub new_set {ℓ} : {K : Type ℓ} → Set K
new_set = []

abbrev pub to_list {ℓ} : {K : Type ℓ} → Set K → List K
to_list s = map (λ entry. entry.0) s

abbrev pub size {ℓ} : {K : Type ℓ} → Set K → ℕ
size s = length s

module _ {ℓ} {K : Type ℓ} ⦃e : Eq K⦄ where
  -- `Add` of one key.
  unfoldable pub add : K → Set K → Set K
  add key s = insert key tt s

  unfoldable pub add_all : List K → Set K → Set K
  add_all [] s = s
  add_all (key ∷ keys) s = add_all keys (add key s)

  unfoldable pub new_set_from_list : List K → Set K
  new_set_from_list list = add_all list new_set

  unfoldable pub includes : K → Set K → Bool
  includes key s = has key s

  -- The set, and whether the key was in it.
  unfoldable pub remove : K → Set K → Set K × Bool
  remove key s = if includes key s then (delete key s, true) else (s, false)

  unfoldable pub includes_any : List K → Set K → Bool
  includes_any [] s = false
  includes_any (key ∷ keys) s = includes key s || includes_any keys s

  unfoldable pub filter : (K → Bool) → Set K → Set K
  filter keep [] = []
  filter keep ((key, u) ∷ s) = if keep key then (key, u) ∷ filter keep s else filter keep s

  -- Ranges over `other` and asks `s`.
  unfoldable pub has_intersection : Set K → Set K → Bool
  has_intersection s [] = false
  has_intersection s ((item, u) ∷ other) = includes item s || has_intersection s other

  pub includes-new_set : (key : K) → includes key new_set ≡ false
  unfolding includes has lookup
  includes-new_set key = refl

  pub includes-add :
      (k j : K) (s : Set K) → includes j (add k s) ≡ (if k == j then true else includes j s)
  unfolding includes add
  includes-add k j s = has-insert k j tt s

  pub includes-delete :
      (k j : K) (s : Set K) → includes j (delete k s) ≡ (if k == j then false else includes j s)
  unfolding includes
  includes-delete k j s = has-delete k j s

  -- A removal says whether the key was there, and takes that key and no other.
  pub includes-remove :
      (k j : K) (s : Set K)
      → ((remove k s).1 ≡ includes k s)
        × (includes j (remove k s).0 ≡ (if k == j then false else includes j s))
  unfolding remove
  includes-remove k j s = ground (arith, includes-delete k j s, e.beq_iff k j)

  pub includes-filter :
      (keep : K → Bool) (k : K) (s : Set K) → includes k (filter keep s) ≡ includes k s && keep k
  unfolding includes has lookup filter
  includes-filter keep k [] = refl
  includes-filter keep k ((i, u) ∷ s) = ground (arith, includes-filter keep k s, e.beq_iff i k)

  abbrev pub contains : K → List K → Bool
  contains k [] = false
  contains k (x ∷ xs) = x == k || contains k xs

  pub includes-to_list : (k : K) (s : Set K) → contains k (to_list s) ≡ includes k s
  unfolding includes has lookup
  includes-to_list k [] = refl
  includes-to_list k ((i, u) ∷ s) = ground (arith, includes-to_list k s)

  pub includes-add_all :
      (k : K) (keys : List K) (s : Set K)
      → includes k (add_all keys s) ≡ contains k keys || includes k s
  unfolding add_all
  includes-add_all k [] s = refl
  includes-add_all k (x ∷ keys) s =
      ground (arith, includes-add_all k keys (add x s), includes-add x k s)

  includes-cons :
      (k i : K) (u : Unit {0}) (s : Set K)
      → includes k ((i, u) ∷ s) ≡ (if i == k then true else includes k s)
  unfolding includes has lookup
  includes-cons k i u s = ground arith

  -- Sets that do not intersect have no key in common.
  pub includes_of_has_intersection :
      (s other : Set K) (k : K)
      → has_intersection s other ≡ false
      → includes k s ≡ true
      → includes k other ≡ false
  unfolding has_intersection
  includes_of_has_intersection s [] k h m = includes-new_set k
  includes_of_has_intersection s ((i, u) ∷ other) k h m =
      ground
        (arith, includes_of_has_intersection s other k, includes-cons k i u other, e.beq_iff i k)
