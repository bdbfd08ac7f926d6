-- ===== src/Tests/Coins.antt =====
-- The table of coins on short histories.
use si_lnt.Prelude.{◌≡◌, refl, ℕ, true, false, none, some, List, [], ◌∷◌, map, sum_of, ok}
use si_lnt.Prelude.Text.{Text, codes}
use si_lnt.Coins.{
  Coin, Table, unspent, spent, unconfirmed_spent, manual, manual_unfrozen, auto,
  restore_utxo_to_unspent, get_wallet_unspent_balance, mark_utxos_spent_by_tx, insert_each, upsert,
  mark_utxos_spent_by_outpoints, taken_by,
}
use si_lnt.Coins.Spend.{
  Outspend, mark_spent_utxos_batch, check_heights, check_rows, check_row,
  reconcile_unconfirmed_spent, reconcile_groups, dropped,
}
use si_lnt.Coins.Spend.Stays.{is_spent_at}
use si_lnt.Coins.Restore.{api_restore_utxo, get_utxo, after_status}
use si_lnt.Coins.Restore.Held.{Holds, api_restore_utxo-Holds}
use si_lnt.Coins.Dust.{
  Explorer, evaluate_dust_for_wallet, evaluate_rows, mark_dust, unmark_dust, should_be_dust,
  is_own_sent_tx, funding_tx_inputs_match_owned, update_utxo_dust_flag, set_utxo_freeze_auto,
  clear_utxo_freeze_auto, normalize_unfrozen_override, get_utxo_freeze_reason, api_set_utxo_frozen,
  set_utxo_freeze_manual,
}
use si_lnt.Coins.Dust.Pass.{after, flags, evaluate_dust_lem}
use si_lnt.Coins.Steps.{
  CoinEvent, found, discovered, scanned, reconciled, frozen_by_user, run_events,
}
use si_lnt.Coins.Steps.Spent.{spent_stays}

abbrev coin : Text → ℕ → Coin
coin tx amount = record {
  wallet_id = codes "w";
  txid = tx;
  vout = 1;
  amount = amount;
  pub_key = codes "00112233445566778899";
  state = unspent;
  timestamp = 0;
  label = none;
  label_index = none;
  frozen = false;
  freeze_reason = none;
  suspected_dust = false;
  spent_in_txid = none;
  spent_at = none;
}

abbrev small : Coin
small = coin (codes "aa") 600

abbrev unfrozen : Coin
unfrozen = record (coin (codes "bb") 700) { freeze_reason = some manual_unfrozen }

abbrev wallet : Table
wallet = small ∷ unfrozen ∷ coin (codes "cc") 90000 ∷ []

abbrev silent : Explorer
silent txid = none

dust_pass : evaluate_dust_for_wallet (codes "w") 1000 silent wallet ≡ (
  record small { suspected_dust = true; frozen = true; freeze_reason = some auto }
      ∷ record unfrozen { suspected_dust = true }
      ∷ coin (codes "cc") 90000
      ∷ [],
  2,
)
unfolding evaluate_dust_for_wallet evaluate_rows mark_dust unmark_dust should_be_dust is_own_sent_tx
    funding_tx_inputs_match_owned update_utxo_dust_flag set_utxo_freeze_auto clear_utxo_freeze_auto
    normalize_unfrozen_override get_utxo_freeze_reason
dust_pass = refl

evaluate_dust_lem_example :
    let next = map (after (codes "w") 1000 silent wallet) wallet in
    (evaluate_dust_for_wallet (codes "w") 1000 silent wallet
      ≡ (next, sum_of (flags (codes "w") 1000 silent wallet) wallet))
    × (evaluate_dust_for_wallet (codes "w") 1000 silent next ≡ (next, 0))
evaluate_dust_lem_example =
    evaluate_dust_lem (codes "w") 1000 silent wallet (refl, (refl, (refl, tt)))

-- One outpoint in two wallets: a user who freezes the own row freezes the other one too.
abbrev shared : Table
shared = small ∷ record small { wallet_id = codes "other" } ∷ []

frozen_for_both :
    api_set_utxo_frozen (codes "w" ∷ []) (codes "aa") 1 true shared
    ≡ ok (
        record small { frozen = true; freeze_reason = some manual }
        ∷ record small { wallet_id = codes "other"; frozen = true; freeze_reason = some manual }
        ∷ [])
unfolding api_set_utxo_frozen set_utxo_freeze_manual
frozen_for_both = refl

abbrev taken : Outspend
taken = record { has_spender = true; spent_by = some (codes "ff"); block_time = some 9 }

abbrev not_taken : Outspend
not_taken = record { has_spender = false; spent_by = none; block_time = none }

abbrev hashes : List Text
hashes = codes "0011223344556677" ∷ []

found_spent :
    mark_spent_utxos_batch (codes "w") ((hashes, λ t v. some taken) ∷ []) (small ∷ [])
    ≡ record small { state = spent; spent_in_txid = some (codes "ff"); spent_at = some 9 } ∷ []
unfolding mark_spent_utxos_batch check_heights check_rows check_row
found_spent = refl

-- A coin whose broadcast never reached the chain is unspent again, and keeps that transaction.
keeps_the_old_txid :
    mark_spent_utxos_batch
      (codes "w")
      ((hashes, λ t v. some not_taken) ∷ [])
      (mark_utxos_spent_by_tx (codes "w") ((codes "aa", 1) ∷ []) (codes "ee") 5 (small ∷ []))
    ≡ record small { spent_in_txid = some (codes "ee"); spent_at = some 5 } ∷ []
unfolding mark_spent_utxos_batch check_heights check_rows check_row mark_utxos_spent_by_tx
keeps_the_old_txid = refl

given_back_when_dropped :
    reconcile_unconfirmed_spent
      (codes "w")
      (λ t. dropped)
      (mark_utxos_spent_by_tx (codes "w") ((codes "aa", 1) ∷ []) (codes "ee") 5 (small ∷ []))
    ≡ small ∷ []
unfolding reconcile_unconfirmed_spent reconcile_groups mark_utxos_spent_by_tx
    si_lnt.Coins.restore_utxo_to_unspent
given_back_when_dropped = refl

abbrev gone : Table
gone = record small { state = spent } ∷ []

abbrev events : List CoinEvent
events =
    found (codes "w") (small ∷ [])
    ∷ discovered (codes "w") ((codes "aa", 1) ∷ []) (codes "ee") 5
    ∷ scanned (codes "w") ((hashes, λ t v. some not_taken) ∷ [])
    ∷ reconciled (codes "w") (λ t. dropped)
    ∷ frozen_by_user (codes "w" ∷ []) (codes "aa") 1 true
    ∷ []

spent_stays_example : is_spent_at (codes "w") (codes "aa") 1 (run_events events gone) ≡ true
spent_stays_example = spent_stays (codes "w") (codes "aa") 1 events gone refl refl

abbrev leaving : Table
leaving = taken_by (codes "ee") 5 small ∷ unfrozen ∷ []

restored_by_hand :
    let ((table, balances), result) =
      api_restore_utxo true (codes "w") (codes "aa") 1 (λ stx. dropped) (leaving, λ w. 700) in
    (table ≡ small ∷ unfrozen ∷ []) × (balances (codes "w") ≡ 1300) × (result ≡ ok 1300)
unfolding api_restore_utxo get_utxo after_status restore_utxo_to_unspent get_wallet_unspent_balance
restored_by_hand = (refl, refl, refl)

api_restore_utxo-Holds_example :
    let (s, result) =
      api_restore_utxo true (codes "w") (codes "aa") 1 (λ stx. dropped) (leaving, λ w. 700) in
    Holds (codes "w") (codes "aa") 1 (leaving, λ w. 700) s result
api_restore_utxo-Holds_example =
    api_restore_utxo-Holds true (codes "w") (codes "aa") 1 (λ stx. dropped) leaving (λ w. 700)
