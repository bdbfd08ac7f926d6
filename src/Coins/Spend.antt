-- ===== src/Coins/Spend.antt =====
-- helpers/scan.py: how a coin that was spent is found to be, and comes back where it was not
-- (`mark_spent_utxos_batch`, `reconcile_unconfirmed_spent`).
pub mod Stays
use si_lnt.Prelude.{
  ℕ, ◌+◌, Bool, true, false, not, ◌&&◌, ◌||◌, Option, none, some, List, [], ◌∷◌, ◌++◌, map, keep,
  any, take, is_empty, length, ◌==◌, if◌then◌else◌,
}
use si_lnt.Prelude.Text.{Text, text_eq}
use si_lnt.Coins.{
  CoinState, unspent, unconfirmed_spent, spent, is_unspent_state, is_unconfirmed_spent, Coin, Table,
  update_where, is_at, is_of, coalesce, set_state, given_back, mark_utxos_confirmed_spent_by_tx,
  restore_utxo_to_unspent, get_wallet_unspent_balance,
}

-- What the explorer says of an outpoint: by which transaction it is spent, and when.
pub record Outspend : Type 0 where
  pub has_spender : Bool
  pub spent_by : Option Text
  pub block_time : Option ℕ

-- `utxo_state IN ('unspent', 'unconfirmed_spent')`
abbrev pub is_held : CoinState → Bool
is_held unspent = true
is_held unconfirmed_spent = true
is_held _ = false

abbrev pub is_row_of : Text → Coin → Coin → Bool
is_row_of wallet_id row c = is_of wallet_id c && is_at (row.txid, row.vout) c

abbrev pub confirmed_as : Outspend → Coin → Coin
confirmed_as status c = record c {
  state = spent;
  spent_in_txid = coalesce c.spent_in_txid status.spent_by;
  spent_at = coalesce c.spent_at status.block_time;
}

-- The table, and the outpoints that are settled.
abbrev pub Settling : Type 0
Settling = Table × List (Text × ℕ)

abbrev pub is_settled : Coin → List (Text × ℕ) → Bool
is_settled row settled = any (λ p. is_at p row) settled

-- What a row's outspend says, behind its match.
abbrev pub after_outspend : Text → Coin → Option Outspend → Settling → Settling
after_outspend wallet_id row none (table, settled) = (table, settled)
after_outspend wallet_id row (some status) (table, settled) =
    if status.has_spender
    then (
      update_where (λ c. is_row_of wallet_id row c && is_unconfirmed_spent c.state)
          (confirmed_as status) table,
      (row.txid, row.vout) ∷ settled,
    )
    else (
      update_where (λ c. is_row_of wallet_id row c && is_unconfirmed_spent c.state)
          (set_state unspent) table,
      settled,
    )

-- A row against the short hashes of one block.
unfoldable pub check_row :
    Text → (Text → ℕ → Option Outspend) → List Text → Coin → Settling → Settling
check_row wallet_id outspend spent_set row (table, settled) =
    if not (any (text_eq (take 16 row.pub_key)) spent_set) || is_settled row settled
    then (table, settled)
    else after_outspend wallet_id row (outspend row.txid row.vout) (
      update_where (λ c. is_row_of wallet_id row c && is_unspent_state c.state)
          (set_state unconfirmed_spent) table,
      settled,
    )

unfoldable pub check_rows :
    Text → (Text → ℕ → Option Outspend) → List Text → List Coin → Settling → Settling
check_rows wallet_id outspend spent_set [] s = s
check_rows wallet_id outspend spent_set (row ∷ rows) s =
    check_rows wallet_id outspend spent_set rows (check_row wallet_id outspend spent_set row s)

-- `spent_by_height`: the blocks in their order, each with its short hashes; the explorer may answer
-- otherwise in each.
unfoldable pub check_heights :
    Text → List (List Text × (Text → ℕ → Option Outspend)) → List Coin → Settling → Settling
check_heights wallet_id [] rows s = s
check_heights wallet_id ((spent_set, outspend) ∷ heights) rows s =
    check_heights wallet_id heights rows
      (if is_empty spent_set then s else check_rows wallet_id outspend spent_set rows s)

-- The lookup that the caller hands in, and without which nothing is done, holds these same rows.
unfoldable pub mark_spent_utxos_batch :
    Text → List (List Text × (Text → ℕ → Option Outspend)) → Table → Table
mark_spent_utxos_batch wallet_id heights table =
    (check_heights wallet_id heights (keep (λ c. is_of wallet_id c && is_held c.state) table)
      (table, [])).0

-- What the explorer says of a transaction.
pub data TxStatus : Type 0 where
  dropped unknown pending confirmed : TxStatus

-- `by_txid`: the outpoints by the transaction that spends them, in the order of the keys.
abbrev pub Groups : Type 0
Groups = List (Text × List (Text × ℕ))

abbrev pub put_group : Text → Text × ℕ → Groups → Groups
put_group stx p [] = (stx, p ∷ []) ∷ []
put_group stx p ((t, ps) ∷ groups) =
    let rest = put_group stx p groups in
    if text_eq t stx then (t, ps ++ p ∷ []) ∷ groups else (t, ps) ∷ rest

abbrev pub grouped : Coin → Option Text → Groups → Groups
grouped row none groups = groups
grouped row (some stx) groups =
    if is_empty stx then groups else put_group stx (row.txid, row.vout) groups

abbrev pub by_txid : List Coin → Groups → Groups
by_txid [] groups = groups
by_txid (row ∷ rows) groups = by_txid rows (grouped row row.spent_in_txid groups)

abbrev pub restore_each : Text → List (Text × ℕ) → Table → Table
restore_each wallet_id [] table = table
restore_each wallet_id ((t, v) ∷ ps) table =
    restore_each wallet_id ps (restore_utxo_to_unspent wallet_id t v table)

abbrev pub finalize_each : Text → List (Text × ℕ) → Table → Table
finalize_each wallet_id [] table = table
finalize_each wallet_id (p ∷ ps) table = finalize_each wallet_id ps (
    update_where (λ c. is_of wallet_id c && is_at p c && is_unconfirmed_spent c.state)
      (set_state spent) table)

abbrev pub reconcile_group : Text → TxStatus → List (Text × ℕ) → Table → Table
reconcile_group wallet_id dropped ps table = restore_each wallet_id ps table
reconcile_group wallet_id confirmed ps table = finalize_each wallet_id ps table
reconcile_group wallet_id unknown ps table = table
reconcile_group wallet_id pending ps table = table

unfoldable pub reconcile_groups : Text → (Text → TxStatus) → Groups → Table → Table
reconcile_groups wallet_id get_tx_status [] table = table
reconcile_groups wallet_id get_tx_status ((stx, ps) ∷ groups) table =
    reconcile_groups wallet_id get_tx_status groups
      (reconcile_group wallet_id (get_tx_status stx) ps table)

unfoldable pub reconcile_unconfirmed_spent : Text → (Text → TxStatus) → Table → Table
reconcile_unconfirmed_spent wallet_id get_tx_status table =
    reconcile_groups wallet_id get_tx_status
      (by_txid (keep (λ c. is_of wallet_id c && is_unconfirmed_spent c.state) table) []) table
