-- ===== src/Base/Result.antt =====
-- The outcome of a Go call: a value, a returned error, a panic, or a loop that the fuel of the
-- model did not see to its end.
use mathlib.Core.Path.{◌≡◌, refl, ap}
use mathlib.Core.Bool.{Bool, true, false}
use mathlib.Core.Option.{Option, none, some}

-- One constructor for each error that the modelled code returns.
pub data Error : Type 0 where
  hash_bad_length hash_bad_hex : Error
  utxo_not_found public_key_mismatch value_mismatch : Error
  signature_invalid tx_too_large coinbase_has_inputs coinbase_outputs coinbase_reward no_surplus :
      Error
  left_child_unknown right_child_unknown children_share_txs merkle_too_large : Error
  misses_target merkle_root_unknown parent_unknown no_txs too_many_txs coinbase_min_block : Error
  first_not_coinbase second_coinbase unbalanced block_too_large before_median before_period : Error
  too_far_ahead target_too_hard target_too_easy target_changed first_target_wrong : Error
  block_known merkle_known tx_known : Error
  too_soon_to_adjust mined_before_first : Error
  block_unknown wrong_parent tx_unknown too_low not_in_mempool input_unavailable : Error
  missing_tx missing_spends missing_spender already_included : Error
  no_utxos not_controlled : Error
  head_unknown less_work : Error
  bad_key insufficient_balance not_consolidated insufficient_for_fee fully_consolidated : Error
  not_controlled_by_keys signing_failed : Error
  bad_base64 bad_bool no_save_dir no_head_file no_file : Error
  incorrect_rows bad_number number_too_large : Error
  wrong_head not_continuous not_attached not_more_work misses_claimed_target : Error

pub data Result {ℓ} (A : Type ℓ) : Type ℓ where
  ok : A → Result A
  err : Error → Result A
  panic : Result A
  out_of_fuel : Result A

abbrev pub ◌>>=◌ {μ ν} : {S : Type μ} {T : Type ν} → Result S → (S → Result T) → Result T
panic >>= next = panic
out_of_fuel >>= next = out_of_fuel
err why >>= next = err why
ok value >>= next = next value

abbrev pub ◌>>◌ {ν} : {T : Type ν} → Result (Unit {0}) → Result T → Result T
first >> second = first >>= (λ _. second)

infixl 5 ◌>>=◌ ◌>>◌
-- `if !cond { return err }`
abbrev pub guard : Bool → Error → Result (Unit {0})
guard false why = err why
guard true why = ok tt

-- `if !cond { panic }`
abbrev pub assert : Bool → Result (Unit {0})
assert true = ok tt
assert false = panic

-- A lookup that panics on a missing key.
abbrev pub expect {ℓ} : {A : Type ℓ} → Option A → Result A
expect none = panic
expect (some a) = ok a

pub >>=-eq-ok {μ ν} :
    {S : Type μ} {T : Type ν} (first : Result S) (next : S → Result T) {result : T}
    → (first >>= next) ≡ ok result
    → (value : S) × (first ≡ ok value) × (next value ≡ ok result)
>>=-eq-ok panic next e = cc
>>=-eq-ok out_of_fuel next e = cc
>>=-eq-ok (err why) next e = cc
>>=-eq-ok (ok value) next e = (value, refl, e)

pub guard-eq-ok {ℓ} :
    {B : Type ℓ} (test : Bool) (e : Error) (rest : Result B) {b : B}
    → (guard test e >> rest) ≡ ok b
    → (test ≡ true) × (rest ≡ ok b)
guard-eq-ok true e rest h = (refl, h)
guard-eq-ok false e rest h = cc

pub guard-ok : (test : Bool) (e : Error) → guard test e ≡ ok tt → test ≡ true
guard-ok true e h = refl
guard-ok false e h = cc

pub assert-eq-ok {ℓ} :
    {B : Type ℓ} (test : Bool) (rest : Result B) {b : B}
    → (assert test >> rest) ≡ ok b
    → (test ≡ true) × (rest ≡ ok b)
assert-eq-ok true rest h = (refl, h)
assert-eq-ok false rest h = cc

value_or {ℓ} : {A : Type ℓ} → A → Result A → A
value_or a (ok b) = b
value_or a (err e) = a
value_or a panic = a
value_or a out_of_fuel = a

pub ok-injective {ℓ} : {A : Type ℓ} (a b : A) → ok a ≡ ok b → a ≡ b
unfolding value_or
ok-injective a b h = ap (value_or a) h
