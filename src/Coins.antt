-- ===== src/Coins.antt =====
-- crud.py: the table of a wallet's coins (silnt.utxos) and the statements on it.
pub mod Spend
pub mod Restore
pub mod Dust
pub mod Steps
use si_lnt.Prelude.{
  ℕ, ◌+◌, Bool, true, false, not, ◌&&◌, ◌||◌, Option, none, some, List, [], ◌∷◌, ◌++◌, map, keep,
  any, sum_of, is_empty, ◌==◌, if◌then◌else◌,
}
use si_lnt.Prelude.Text.{Text, strip, text_eq}

pub data CoinState : Type 0 where
  unspent unconfirmed unconfirmed_spent spent : CoinState

abbrev pub is_unspent_state : CoinState → Bool
is_unspent_state unspent = true
is_unspent_state _ = false

abbrev pub is_unconfirmed_spent : CoinState → Bool
is_unconfirmed_spent unconfirmed_spent = true
is_unconfirmed_spent _ = false

abbrev pub is_spent : CoinState → Bool
is_spent spent = true
is_spent _ = false

-- `utxo_state IN ('spent', 'unconfirmed_spent')`
abbrev pub is_leaving : CoinState → Bool
is_leaving spent = true
is_leaving unconfirmed_spent = true
is_leaving _ = false

-- Who froze a coin, or that the user unfroze it.
pub data FreezeReason : Type 0 where
  auto manual manual_unfrozen : FreezeReason

pub record Coin : Type 0 where
  pub wallet_id : Text
  pub txid : Text
  pub vout : ℕ
  pub amount : ℕ
  pub pub_key : Text
  pub state : CoinState
  pub timestamp : ℕ
  pub label : Option Text
  pub label_index : Option ℕ
  pub frozen : Bool
  pub freeze_reason : Option FreezeReason
  pub suspected_dust : Bool
  pub spent_in_txid : Option Text
  pub spent_at : Option ℕ

abbrev pub Table : Type 0
Table = List Coin

-- `UPDATE ... SET ... WHERE`
abbrev pub update_where : (Coin → Bool) → (Coin → Coin) → Table → Table
update_where test set table = map (λ c. if test c then set c else c) table

abbrev pub is_at : Text × ℕ → Coin → Bool
is_at (t, v) c = text_eq c.txid t && c.vout == v

abbrev pub is_of : Text → Coin → Bool
is_of wallet_id c = text_eq c.wallet_id wallet_id

abbrev pub coalesce : {A : Type 0} → Option A → Option A → Option A
coalesce none b = b
coalesce (some a) b = some a

abbrev pub is_same : Coin → Coin → Bool
is_same c d = is_of d.wallet_id c && is_at (d.txid, d.vout) c

-- What an upsert makes of the row that is there.
abbrev pub found_again : Coin → Coin → Coin
found_again new old = record old {
  amount = new.amount;
  pub_key = new.pub_key;
  state = if is_leaving old.state then old.state else new.state;
  label = coalesce old.label new.label;
  label_index = coalesce old.label_index new.label_index;
}

-- The rows, how many of them are new, and what those are worth.
abbrev pub Inserted : Type 0
Inserted = Table × ℕ × ℕ

unfoldable pub upsert : Coin → Inserted → Inserted
upsert new (table, count, sats) =
    if any (λ c. is_same c new) table
    then (update_where (λ c. is_same c new) (found_again new) table, count, sats)
    else (table ++ new ∷ [], count + 1, sats + new.amount)

unfoldable pub insert_each : List Coin → Inserted → Inserted
insert_each [] done = done
insert_each (new ∷ coins) done = insert_each coins (upsert new done)

abbrev pub owned_by : Text → Coin → Coin
owned_by wallet_id c = record c { wallet_id = wallet_id }

abbrev pub insert_utxos_for_wallet : Text → List Coin → Table → Inserted
insert_utxos_for_wallet wallet_id coins table =
    insert_each (map (owned_by wallet_id) coins) (table, 0, 0)

abbrev pub set_state : CoinState → Coin → Coin
set_state state c = record c { state = state }

-- The transaction that takes a coin, and when.
abbrev pub taken_by : Text → ℕ → Coin → Coin
taken_by txid at c = record c {
  state = unconfirmed_spent;
  spent_in_txid = some txid;
  spent_at = some at;
}

abbrev pub given_back : Coin → Coin
given_back c = record c { state = unspent; spent_in_txid = none; spent_at = none }

unfoldable pub mark_utxos_spent_by_tx : Text → List (Text × ℕ) → Text → ℕ → Table → Table
mark_utxos_spent_by_tx wallet_id outpoints spending_txid now table =
    if is_empty outpoints
    then table
    else update_where (λ c. is_of wallet_id c && any (λ p. is_at p c) outpoints)
        (taken_by spending_txid now) table

abbrev pub may_be_taken : CoinState → Bool
may_be_taken unspent = true
may_be_taken unconfirmed = true
may_be_taken _ = false

unfoldable pub mark_utxos_spent_by_outpoints : Text → List (Text × ℕ) → Text → ℕ → Table → Table
mark_utxos_spent_by_outpoints wallet_id [] spending_txid at table = table
mark_utxos_spent_by_outpoints wallet_id (p ∷ outpoints) spending_txid at table =
    mark_utxos_spent_by_outpoints wallet_id outpoints spending_txid at (
      update_where (λ c. is_of wallet_id c && is_at p c && may_be_taken c.state)
        (taken_by spending_txid at) table)

unfoldable pub restore_utxo_to_unspent : Text → Text → ℕ → Table → Table
restore_utxo_to_unspent wallet_id txid vout =
    update_where (λ c. is_of wallet_id c && is_at (txid, vout) c && is_unconfirmed_spent c.state)
      given_back

abbrev pub is_spent_in : Text → Option Text → Bool
is_spent_in txid none = false
is_spent_in txid (some t) = text_eq t txid

unfoldable pub mark_utxos_confirmed_spent_by_tx : Text → Text → Table → Table
mark_utxos_confirmed_spent_by_tx wallet_id spending_txid =
    update_where
      (λ c.
        is_of wallet_id c
        && is_spent_in spending_txid c.spent_in_txid
        && is_unconfirmed_spent c.state)
      (set_state spent)

unfoldable pub get_wallet_unspent_balance : Text → Table → ℕ
get_wallet_unspent_balance wallet_id table =
    sum_of (λ c. c.amount) (keep (λ c. is_of wallet_id c && is_unspent_state c.state) table)
