-- ===== src/Tests/History.antt =====
-- The transactions of a short history.
use si_lnt.Prelude.{
  ◌≡◌, refl, ◌+◌, Bool, true, false, not, none, some, List, [], ◌∷◌, arith, keep, sum_of,
}
use si_lnt.Prelude.Int.{pos, negsuc, pos_part, neg_part}
use si_lnt.Prelude.Sort.{sort, insert}
use si_lnt.Prelude.Text.{Text, codes, text_eq, strip}
use si_lnt.Coins.{Coin, Table, unspent, spent, is_of}
use si_lnt.Labels.{wrote_label, party, mix_party, strip_marker}
use si_lnt.History.{
  Incoming, list_plain_incoming, clear_plain_incoming, classify, get_wallet_receives,
  get_wallet_sends, row_of, txids_of, rows_of, history, list_wallet_transactions, has_spender,
  is_superseded, receive, tango,
}
use si_lnt.History.Balance.{history_balances}

-- A coin that a round took, and its change.
abbrev mixed : Coin
mixed = record {
  wallet_id = codes "w";
  txid = codes "aa";
  vout = 0;
  amount = 600;
  pub_key = [];
  state = spent;
  timestamp = 5;
  label = none;
  label_index = none;
  frozen = false;
  freeze_reason = none;
  suspected_dust = false;
  spent_in_txid = some (codes "ee");
  spent_at = some 50;
}

abbrev change : Coin
change = record mixed {
  txid = codes "ee";
  amount = 350;
  state = unspent;
  timestamp = 49;
  label = some (codes "Tango change - bob");
  spent_in_txid = none;
  spent_at = none;
}

abbrev coins : Table
coins = mixed ∷ change ∷ record mixed { wallet_id = codes "other" } ∷ []

-- One payment on its way, and one that a scan has found.
abbrev incoming : List Incoming
incoming =
    record { txid = codes "ff"; wallet_id = codes "w"; amount = 40; created_at = 60 }
    ∷ record { txid = codes "aa"; wallet_id = codes "w"; amount = 600; created_at = 4 }
    ∷ []

abbrev is_mix : Text → Bool
is_mix = text_eq (codes "ee")

newest_first : list_wallet_transactions is_mix 100 (codes "w") 2 0 coins incoming ≡ (
  record {
    kind = receive;
    txid = codes "ff";
    timestamp = 60;
    amount_sats = pos 40;
    input_sum = 0;
    output_sum = 40;
    input_count = 0;
    output_count = 1;
    labels = [];
    confirmed = false;
  }
      ∷ record {
        kind = tango;
        txid = codes "ee";
        timestamp = 50;
        amount_sats = negsuc 249;
        input_sum = 600;
        output_sum = 350;
        input_count = 1;
        output_count = 1;
        labels = [];
        confirmed = true;
      }
      ∷ [],
  record { txid = codes "ff"; wallet_id = codes "w"; amount = 40; created_at = 60 } ∷ [],
)
unfolding list_wallet_transactions get_wallet_receives get_wallet_sends list_plain_incoming sort
    insert history rows_of txids_of row_of classify clear_plain_incoming wrote_label party mix_party
    strip_marker strip
newest_first = refl

history_balances_example :
    let rows = (list_wallet_transactions is_mix 100 (codes "w") 50 0 coins incoming).0 in
    sum_of (λ r. pos_part r.amount_sats) rows
    ≡ sum_of (λ r. neg_part r.amount_sats) rows
      + sum_of
          (λ c. c.amount)
          (keep (λ c. not (has_spender c.spent_in_txid)) (keep (is_of (codes "w")) coins))
      + sum_of
          (λ p. p.amount)
          (keep
            (λ p. not (is_superseded (get_wallet_receives (codes "w") coins) p))
            (list_plain_incoming 100 (codes "w") incoming))
unfolding get_wallet_receives get_wallet_sends list_plain_incoming sort insert history rows_of
    txids_of row_of classify wrote_label party mix_party strip_marker strip
history_balances_example = history_balances is_mix 100 (codes "w") 50 coins incoming (omega arith)
