-- ===== src/Coins/Dust.antt =====
-- helpers/dust_check.py, the statements of crud.py that freeze coins, and the handler that a user
-- freezes and unfreezes one with (`api_set_utxo_frozen`).
pub mod Settled
pub mod Loop
pub mod Pass
use si_lnt.Prelude.{
  ℕ, suc, ◌+◌, Bool, true, false, not, ◌&&◌, ◌||◌, Option, none, some, List, [], ◌∷◌, keep, any,
  is_empty, leb, ◌==◌, if◌then◌else◌, Result, ok, err,
}
use si_lnt.Prelude.Int.{ℤ, pos, negsuc}
use si_lnt.Prelude.Text.{Text, text_eq}
use si_lnt.Coins.{
  FreezeReason, auto, manual, manual_unfrozen, Coin, Table, update_where, is_at, is_of,
  is_unspent_state, is_spent_in,
}

abbrev pub is_auto : Option FreezeReason → Bool
is_auto (some auto) = true
is_auto _ = false

abbrev pub is_unfrozen : Option FreezeReason → Bool
is_unfrozen (some manual_unfrozen) = true
is_unfrozen _ = false

abbrev pub is_null_or_auto : Option FreezeReason → Bool
is_null_or_auto none = true
is_null_or_auto r = is_auto r

unfoldable pub update_utxo_dust_flag : Text → ℕ → Bool → Table → Table
update_utxo_dust_flag txid vout flag =
    update_where (is_at (txid, vout)) (λ c. record c { suspected_dust = flag })

abbrev pub freeze : FreezeReason → Coin → Coin
freeze reason c = record c { frozen = true; freeze_reason = some reason }

unfoldable pub set_utxo_freeze_auto : Text → ℕ → Table → Table
set_utxo_freeze_auto txid vout =
    update_where (λ c. is_at (txid, vout) c && is_null_or_auto c.freeze_reason) (freeze auto)

unfoldable pub set_utxo_freeze_manual : Text → ℕ → Table → Table
set_utxo_freeze_manual txid vout = update_where (is_at (txid, vout)) (freeze manual)

unfoldable pub clear_utxo_freeze_manual : Text → ℕ → Table → Table
clear_utxo_freeze_manual txid vout =
    update_where (is_at (txid, vout))
      (λ c. record c { frozen = false; freeze_reason = some manual_unfrozen })

unfoldable pub clear_utxo_freeze_auto : Text → ℕ → Table → Table
clear_utxo_freeze_auto txid vout =
    update_where (λ c. is_at (txid, vout) c && is_auto c.freeze_reason)
      (λ c. record c { frozen = false; freeze_reason = none })

unfoldable pub normalize_unfrozen_override : Text → ℕ → Table → Table
normalize_unfrozen_override txid vout =
    update_where (λ c. is_at (txid, vout) c && is_unfrozen c.freeze_reason)
      (λ c. record c { freeze_reason = none })

unfoldable pub get_utxo_freeze_reason : Text → ℕ → Table → Option FreezeReason
get_utxo_freeze_reason txid vout [] = none
get_utxo_freeze_reason txid vout (c ∷ table) =
    let rest = get_utxo_freeze_reason txid vout table in
    if is_at (txid, vout) c then c.freeze_reason else rest

-- `current_reason in ("manual", "manual_unfrozen")`
abbrev pub is_users : Option FreezeReason → Bool
is_users r = not (is_null_or_auto r)

unfoldable pub is_own_sent_tx : Text → Text → Table → Bool
is_own_sent_tx wallet_id txid table =
    any (λ c. is_of wallet_id c && is_spent_in txid c.spent_in_txid) table

-- The user's own threshold, where it is above zero; the administrator's, where it is not zero.
unfoldable pub get_effective_dust_threshold : Option ℤ → ℕ → ℕ
get_effective_dust_threshold (some (pos (suc n))) configured = suc n
get_effective_dust_threshold prefs configured = if configured == 0 then 5000 else configured

abbrev pub is_change_index : Option ℕ → Bool
is_change_index none = false
is_change_index (some m) = m == 0 || m == 1

-- The inputs of a transaction, none where the explorer does not say.
abbrev pub Explorer : Type 0
Explorer = Text → Option (List (Text × ℕ))

abbrev pub inputs_match : List Coin → Option (List (Text × ℕ)) → Bool
inputs_match owned none = false
inputs_match owned (some inputs) = any (λ p. any (is_at p) owned) inputs

unfoldable pub funding_tx_inputs_match_owned : Explorer → Text → List Coin → Bool
funding_tx_inputs_match_owned inputs_of txid owned = inputs_match owned (inputs_of txid)

-- `should_be_dust` of a coin; `owned` are the wallet's rows, whatever their state.
unfoldable pub should_be_dust : Text → ℕ → Explorer → List Coin → Table → Coin → Bool
should_be_dust wallet_id threshold inputs_of owned table u =
    leb u.amount threshold
    && not (is_change_index u.label_index)
    && not (
        is_own_sent_tx wallet_id u.txid table
        || funding_tx_inputs_match_owned inputs_of u.txid owned)

-- The table, and how many coins were newly flagged.
abbrev pub Flagged : Type 0
Flagged = Table × ℕ

unfoldable pub mark_dust : Coin → Flagged → Flagged
mark_dust u (table, count) =
    let flagged =
      if u.suspected_dust then table else update_utxo_dust_flag u.txid u.vout true table in
    (
      if is_users (get_utxo_freeze_reason u.txid u.vout flagged)
          then flagged
          else set_utxo_freeze_auto u.txid u.vout flagged,
      if u.suspected_dust then count else count + 1,
    )

unfoldable pub unmark_dust : Coin → Flagged → Flagged
unmark_dust u (table, count) =
    let cleared =
      if u.suspected_dust then update_utxo_dust_flag u.txid u.vout false table else table in
    (
      normalize_unfrozen_override u.txid u.vout (clear_utxo_freeze_auto u.txid u.vout cleared),
      count,
    )

-- The loop over the rows that were read; `is_dust` is `should_be_dust` on the table as it is then.
unfoldable pub evaluate_rows : (is_dust : Table → Coin → Bool) → List Coin → Flagged → Flagged
evaluate_rows is_dust [] s = s
evaluate_rows is_dust (u ∷ rows) s =
    evaluate_rows is_dust rows
      (if is_empty u.txid then s else if is_dust s.0 u then mark_dust u s else unmark_dust u s)

unfoldable pub evaluate_dust_for_wallet : Text → ℕ → Explorer → Table → Flagged
evaluate_dust_for_wallet wallet_id threshold inputs_of table =
    evaluate_rows (should_be_dust wallet_id threshold inputs_of (keep (is_of wallet_id) table))
      (keep (λ c. is_of wallet_id c && is_unspent_state c.state) table) (table, 0)

pub data FreezeError : Type 0 where
  not_found access_denied not_found_at_vout : FreezeError

unfoldable pub api_set_utxo_frozen : List Text → Text → ℕ → Bool → Table → Result FreezeError Table
api_set_utxo_frozen owned_wallet_ids txid vout frozen table =
    let utxos = keep (λ c. text_eq c.txid txid) table in
    if is_empty utxos
    then err not_found
    else if not (any (λ u. u.vout == vout && any (text_eq u.wallet_id) owned_wallet_ids) utxos)
    then err (if any (λ u. u.vout == vout) utxos then access_denied else not_found_at_vout)
    else ok (
        if frozen
        then set_utxo_freeze_manual txid vout table
        else clear_utxo_freeze_manual txid vout table)
