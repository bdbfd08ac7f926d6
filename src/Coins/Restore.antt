-- ===== src/Coins/Restore.antt =====
-- views_api.py (`check_send_confirmation`, `api_restore_utxo`): a send that was mined or that never
-- came, and the balance of the wallet.
pub mod Held
use si_lnt.Prelude.{
  ℕ, ◌+◌, ◌≡◌, refl, sym, ap, ◌∙◌, arith, Bool, true, false, not, ◌&&◌, Option, none, some, List,
  [], ◌∷◌, keep, sum_of, count_if, ◌==◌, if◌then◌else◌, Bool-cases, and-true, inl, inr, ok, err,
  Result,
}
use si_lnt.Prelude.Text.{Text, text_eq}
use si_lnt.Coins.{
  CoinState, unspent, unconfirmed_spent, spent, is_unspent_state, is_unconfirmed_spent, Coin, Table,
  is_at, is_of, is_spent_in, set_state, given_back, update_where, restore_utxo_to_unspent,
  mark_utxos_confirmed_spent_by_tx, get_wallet_unspent_balance,
}
use si_lnt.Coins.Spend.{TxStatus, dropped, unknown, pending, confirmed}

-- The coins, and the balance of each wallet's row.
abbrev pub Purse : Type 0
Purse = Table × (Text → ℕ)

abbrev pub update_balance : Text → ℕ → (Text → ℕ) → Text → ℕ
update_balance wallet_id balance balances w = if text_eq w wallet_id then balance else balances w

-- Store what the wallet's unspent coins are worth.
abbrev pub settle_balance : Text → Table → (Text → ℕ) → Purse
settle_balance wallet_id table balances =
    (table, update_balance wallet_id (get_wallet_unspent_balance wallet_id table) balances)

-- `is_mined` is what the explorer says of the transaction; the balance is returned.
unfoldable pub check_send_confirmation : Text → Text → (is_mined : Bool) → Purse → Purse × ℕ
check_send_confirmation wallet_id txid is_mined (table, balances) =
    let mined = mark_utxos_confirmed_spent_by_tx wallet_id txid table in
    if is_mined
    then (settle_balance wallet_id mined balances, get_wallet_unspent_balance wallet_id mined)
    else ((table, balances), get_wallet_unspent_balance wallet_id table)

pub data RestoreError : Type 0 where
  no_wallet no_utxo not_leaving spend_confirmed spend_pending not_verified state_changed :
      RestoreError

unfoldable pub get_utxo : Text → Text → ℕ → Table → Option Coin
get_utxo wallet_id txid vout [] = none
get_utxo wallet_id txid vout (c ∷ table) =
    let rest = get_utxo wallet_id txid vout table in
    if is_of wallet_id c && is_at (txid, vout) c then some c else rest

abbrev pub Answer : Type 0
Answer = Purse × Result RestoreError ℕ

-- How many rows go by a transaction, and are finalised with it.
abbrev pub finalised : Text → Option Text → Table → ℕ
finalised wallet_id none table = 0
finalised wallet_id (some stx) table =
    count_if
      (λ c. is_of wallet_id c && is_spent_in stx c.spent_in_txid && is_unconfirmed_spent c.state)
      table

abbrev pub finalise : Text → Option Text → Table → Table
finalise wallet_id none table = table
finalise wallet_id (some stx) table = mark_utxos_confirmed_spent_by_tx wallet_id stx table

abbrev pub restorable : Text → Text → ℕ → Coin → Bool
restorable wallet_id txid vout c =
    is_of wallet_id c && is_at (txid, vout) c && is_unconfirmed_spent c.state

-- What the explorer says of the transaction that took the coin.
unfoldable pub after_status : Text → Text → ℕ → Option Text → TxStatus → Purse → Answer
after_status wallet_id txid vout spent_in confirmed (table, balances) =
    let done = finalise wallet_id spent_in table in
    (
      if finalised wallet_id spent_in table == 0
          then (done, balances)
          else settle_balance wallet_id done balances,
      err spend_confirmed,
    )
after_status wallet_id txid vout spent_in pending s = (s, err spend_pending)
after_status wallet_id txid vout spent_in unknown s = (s, err not_verified)
after_status wallet_id txid vout spent_in dropped (table, balances) =
    let back = restore_utxo_to_unspent wallet_id txid vout table in
    if count_if (restorable wallet_id txid vout) table == 0
    then ((back, balances), err state_changed)
    else (settle_balance wallet_id back balances, ok (get_wallet_unspent_balance wallet_id back))

abbrev pub with_utxo : Text → Text → ℕ → (Option Text → TxStatus) → Option Coin → Purse → Answer
with_utxo wallet_id txid vout get_tx_status none s = (s, err no_utxo)
with_utxo wallet_id txid vout get_tx_status (some utxo) s =
    if not (is_unconfirmed_spent utxo.state)
    then (s, err not_leaving)
    else after_status wallet_id txid vout utxo.spent_in_txid (get_tx_status utxo.spent_in_txid) s

-- `is_owned`: the wallet is there, and the caller's.
unfoldable pub api_restore_utxo :
    (is_owned : Bool) → Text → Text → ℕ → (Option Text → TxStatus) → Purse → Answer
api_restore_utxo is_owned wallet_id txid vout get_tx_status s =
    if not is_owned
    then (s, err no_wallet)
    else with_utxo wallet_id txid vout get_tx_status (get_utxo wallet_id txid vout s.0) s
