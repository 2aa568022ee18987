-- ===== src/Collections/Util.antt =====
-- pkg/util/util.go.
use basiccoin.Base.{List, [], ◌∷◌, ◌++◌, map}
use basiccoin.Collections.Map.{Map}

module _ {ℓ} {K : Type ℓ} where
  abbrev pub map_keys {κ} : {V : Type κ} → Map K V → List K
  map_keys m = map (λ entry. entry.0) m

  -- Each item goes to the front, so several end up in reverse.
  unfoldable pub prepend : List K → List K → List K
  prepend ls [] = ls
  prepend ls (item ∷ items) = prepend (item ∷ ls) items

  unfoldable pub reverse : List K → List K
  reverse [] = []
  reverse (item ∷ items) = reverse items ++ item ∷ []

  unfoldable pub flatten_lists : List (List K) → List K
  flatten_lists [] = []
  flatten_lists (inner ∷ rest) = inner ++ flatten_lists rest
