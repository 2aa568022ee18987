-- ===== src/Collections/Set/Distinct.antt =====
-- pkg/set/set.go: no item is in the list of a set twice.
use basiccoin.Base.{◌≡◌, refl, sym, ap, ◌∙◌, false, List, [], ◌∷◌, arith, inl, inr, Bool-cases}
use basiccoin.Base.Eq.{Eq, ◌==◌}
use basiccoin.Collections.Map as Map
use basiccoin.Collections.Map.{lookup, insert, delete}
use basiccoin.Collections.Set.{
  Set, add, remove, includes, to_list, contains, includes-add, includes-delete, includes-to_list,
}

module _ {ℓ} {K : Type ℓ} ⦃e : Eq K⦄ where
  abbrev pub IsDistinct : List K → Type 0
  IsDistinct [] = Unit
  IsDistinct (k ∷ ks) = (contains k ks ≡ false) × IsDistinct ks

  -- The same of a set, by its own test.
  abbrev pub IsOnce : Set K → Type 0
  IsOnce [] = Unit
  IsOnce ((k, u) ∷ s) = (includes k s ≡ false) × IsOnce s

  pub to_list-IsDistinct : (s : Set K) → IsOnce s → IsDistinct (to_list s)
  to_list-IsDistinct [] h = tt
  to_list-IsDistinct ((k, u) ∷ s) h = (includes-to_list k s ∙ h.0, to_list-IsDistinct s h.1)

  pub add-IsOnce : (k : K) (s : Set K) → IsOnce s → IsOnce (add k s)
  unfolding add insert includes Map.has lookup
  add-IsOnce k [] h = (refl, tt)
  add-IsOnce k ((j, u) ∷ s) h = elim (Bool-cases (j == k)) [
    | inl here ↦ rw here (ap (λ (x : K). includes x s) (sym ((e.beq_iff j k).0 here)) ∙ h.0, h.1)
    | inr other ↦
        rw other (
          ground (arith, includes-add k j s, e.beq_iff k j, e.beq_iff j k, h.0),
          add-IsOnce k s h.1,
        )
  ]

  delete-IsOnce : (k : K) (s : Set K) → IsOnce s → IsOnce (delete k s)
  unfolding delete
  delete-IsOnce k [] h = tt
  delete-IsOnce k ((j, u) ∷ s) h = elim (Bool-cases (j == k)) [
    | inl here ↦ rw here (delete-IsOnce k s h.1)
    | inr other ↦ rw other (ground (arith, includes-delete k j s, h.0), delete-IsOnce k s h.1)
  ]

  pub remove-IsOnce : (k : K) (s : Set K) → IsOnce s → IsOnce (remove k s).0
  unfolding remove
  remove-IsOnce k s h = elim (Bool-cases (includes k s)) [
    | inl there ↦ rw there (delete-IsOnce k s h)
    | inr gone ↦ rw gone h
  ]
