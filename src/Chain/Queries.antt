-- ===== src/Chain/Queries.antt =====
-- The queries of internal/chain/state.go. A Go map that is built from a list of keys is a map in
-- the order of its first keys.
use basiccoin.Base.{ℕ, Bool, not, none, some, List, [], ◌∷◌, if◌then◌else◌, ltb, take, ◌^◌}
use basiccoin.Base.Result.{Result, ok, ◌>>=◌}
use basiccoin.Base.Word.{add64, sub64}
use basiccoin.Base.Sort.{sort}
use basiccoin.Collections.Map as Map
use basiccoin.Collections.Map.{Map}
use basiccoin.Collections.Set as Set
use basiccoin.Collections.Util.{map_keys}
use basiccoin.Chain.State.{State}
use basiccoin.Core.Tx.{Utxo, utxo_eq}
use basiccoin.Hash.{HashT, hash_eq}
use basiccoin.Inv.{Inv, has_tx, get_block_height}

-- The loop of `GetPkhBalance`.
unfoldable pub add_values : ℕ → List Utxo → ℕ
add_values total [] = total
add_values total (utxo ∷ utxos) = add_values (add64 total utxo.value) utxos

-- `int(maxLen)` is negative from 2^63 on, and then nothing is listed.
abbrev pub list_len : ℕ → ℕ
list_len max_len = if ltb max_len (2 ^ 63) then max_len else 0

unfoldable pub put_all : HashT → List Utxo → Map Utxo HashT → Map Utxo HashT
put_all pkh [] out = out
put_all pkh (utxo ∷ utxos) out = put_all pkh utxos (Map.insert utxo pkh out)

module _ {F : Type 0} where
  unfoldable pub get_pkh_utxos : State F → HashT → Bool → List Utxo
  get_pkh_utxos s pkh exclude_mempool = elim (Map.lookup pkh s.pkh_utxos) [
    | none ↦ []
    | some utxos ↦ Set.to_list (
        if exclude_mempool
        then Set.filter (λ utxo. not (Map.has utxo s.mempool_utxo_spends)) utxos
        else utxos)
  ]

  unfoldable pub many_pkh_utxos_from : State F → List HashT → Bool → Map Utxo HashT → Map Utxo HashT
  many_pkh_utxos_from s [] exclude_mempool out = out
  many_pkh_utxos_from s (pkh ∷ pkhs) exclude_mempool out =
      many_pkh_utxos_from s pkhs exclude_mempool
        (put_all pkh (get_pkh_utxos s pkh exclude_mempool) out)

  unfoldable pub get_many_pkh_utxos : State F → List HashT → Bool → Map Utxo HashT
  get_many_pkh_utxos s pkhs exclude_mempool = many_pkh_utxos_from s pkhs exclude_mempool []

  unfoldable pub get_pkh_balance : State F → HashT → ℕ
  get_pkh_balance s pkh = elim (Map.lookup pkh s.pkh_utxos) [
    | none ↦ 0
    | some utxos ↦ add_values 0 (Set.to_list utxos)
  ]

  unfoldable pub many_pkh_balances_from : State F → List HashT → Map HashT ℕ → Map HashT ℕ
  many_pkh_balances_from s [] out = out
  many_pkh_balances_from s (pkh ∷ pkhs) out =
      many_pkh_balances_from s pkhs (Map.insert pkh (get_pkh_balance s pkh) out)

  unfoldable pub get_many_pkh_balances : State F → List HashT → Map HashT ℕ
  get_many_pkh_balances s pkhs = many_pkh_balances_from s pkhs []

  -- The confirmations of a known transaction: 0 outside the chain.
  unfoldable pub tx_confirms : Inv → State F → HashT → Result ℕ
  tx_confirms inv s tx_id = elim (Map.lookup tx_id s.included_tx_blocks) [
    | none ↦ ok 0
    | some block_id ↦ do
      head_height ← get_block_height inv s.head
      height ← get_block_height inv block_id
      ok (add64 (sub64 head_height height) 1)
  ]

  unfoldable pub tx_confirms_from : Inv → State F → List HashT → Map HashT ℕ → Result (Map HashT ℕ)
  tx_confirms_from inv s [] out = ok out
  tx_confirms_from inv s (tx_id ∷ tx_ids) out =
      if has_tx inv tx_id
      then (do
        confirms ← tx_confirms inv s tx_id
        tx_confirms_from inv s tx_ids (Map.insert tx_id confirms out))
      else tx_confirms_from inv s tx_ids out

  unfoldable pub get_tx_confirms : Inv → State F → List HashT → Result (Map HashT ℕ)
  get_tx_confirms inv s tx_ids = tx_confirms_from inv s tx_ids []

  unfoldable pub put_included : Inv → State F → HashT → Map HashT HashT → Map HashT HashT
  put_included inv s tx_id out =
      if has_tx inv tx_id
      then elim (Map.lookup tx_id s.included_tx_blocks) [
        | none ↦ out
        | some block_id ↦ Map.insert tx_id block_id out
      ]
      else out

  unfoldable pub included_from : Inv → State F → List HashT → Map HashT HashT → Map HashT HashT
  included_from inv s [] out = out
  included_from inv s (tx_id ∷ tx_ids) out =
      included_from inv s tx_ids (put_included inv s tx_id out)

  unfoldable pub get_tx_included_block : Inv → State F → List HashT → Map HashT HashT
  get_tx_included_block inv s tx_ids = included_from inv s tx_ids []

  -- The keys with the highest balances, at most `max_len` of them.
  unfoldable pub get_rich_list : State F → ℕ → Map HashT ℕ
  get_rich_list s max_len = get_many_pkh_balances s (
      take (list_len max_len)
        (sort (λ a b. ltb (get_pkh_balance s b) (get_pkh_balance s a)) (map_keys s.pkh_utxos)))
