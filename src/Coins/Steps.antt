-- ===== src/Coins/Steps.antt =====
-- What happens to the table of coins, one statement or pass at a time.
pub mod Spent
use si_lnt.Prelude.{
  ℕ, Bool, true, false, not, ◌&&◌, List, [], ◌∷◌, any, Option, Result, ok, err, ◌==◌,
}
use si_lnt.Prelude.Text.{Text, text_eq}
use si_lnt.Coins.{
  Coin, Table, is_at, is_of, insert_utxos_for_wallet, mark_utxos_spent_by_tx,
  mark_utxos_spent_by_outpoints, restore_utxo_to_unspent, mark_utxos_confirmed_spent_by_tx,
}
use si_lnt.Coins.Spend.{Outspend, mark_spent_utxos_batch, TxStatus, reconcile_unconfirmed_spent}
use si_lnt.Coins.Dust.{Explorer, evaluate_dust_for_wallet, FreezeError, api_set_utxo_frozen}

pub data CoinEvent : Type 0 where
  found : (wallet_id : Text) → (coins : List Coin) → CoinEvent
  broadcast :
      (wallet_id : Text) → (outpoints : List (Text × ℕ)) → (txid : Text) → (now : ℕ) → CoinEvent
  discovered :
      (wallet_id : Text) → (outpoints : List (Text × ℕ)) → (txid : Text) → (at : ℕ) → CoinEvent
  mined : (wallet_id txid : Text) → CoinEvent
  restored : (wallet_id txid : Text) → (vout : ℕ) → CoinEvent
  scanned :
      (wallet_id : Text) → (heights : List (List Text × (Text → ℕ → Option Outspend))) → CoinEvent
  reconciled : (wallet_id : Text) → (get_tx_status : Text → TxStatus) → CoinEvent
  dust_evaluated : (wallet_id : Text) → (threshold : ℕ) → (inputs_of : Explorer) → CoinEvent
  frozen_by_user :
      (owned_wallet_ids : List Text) → (txid : Text) → (vout : ℕ) → (frozen : Bool) → CoinEvent

-- A refused request changes nothing.
abbrev pub or_unchanged : Table → Result FreezeError Table → Table
or_unchanged table (ok next) = next
or_unchanged table (err e) = table

unfoldable pub apply : CoinEvent → Table → Table
apply (found w coins) table = (insert_utxos_for_wallet w coins table).0
apply (broadcast w ps txid now) table = mark_utxos_spent_by_tx w ps txid now table
apply (discovered w ps txid at) table = mark_utxos_spent_by_outpoints w ps txid at table
apply (mined w txid) table = mark_utxos_confirmed_spent_by_tx w txid table
apply (restored w txid vout) table = restore_utxo_to_unspent w txid vout table
apply (scanned w heights) table = mark_spent_utxos_batch w heights table
apply (reconciled w status) table = reconcile_unconfirmed_spent w status table
apply (dust_evaluated w n inputs_of) table = (evaluate_dust_for_wallet w n inputs_of table).0
apply (frozen_by_user owned txid vout frozen) table =
    or_unchanged table (api_set_utxo_frozen owned txid vout frozen table)

unfoldable pub run_events : List CoinEvent → Table → Table
run_events [] table = table
run_events (event ∷ events) table = run_events events (apply event table)

-- Whether a transaction that is broadcast takes the outpoint from the wallet.
abbrev pub broadcasts : Text → Text → ℕ → CoinEvent → Bool
broadcasts w t v (broadcast wallet_id outpoints txid now) =
    text_eq w wallet_id && any (λ p. text_eq t p.0 && v == p.1) outpoints
broadcasts w t v _ = false
