-- ===== src/Tests/Plain.antt =====
-- The plain pocket at concrete inputs, at one satoshi a vbyte.
use si_lnt.Prelude.{
  ◌+◌, ◌≤◌, ◌≡◌, ◌⊎◌, refl, inl, inr, false, Option, none, some, List, [], ◌∷◌, map, max, sum_of,
  ok, err, ◌>>=◌,
}
use si_lnt.Prelude.Int.{pos, negsuc}
use si_lnt.Prelude.Text.{Text, codes, strip, lstrip, rstrip, is_space, lower, lower_char}
use si_lnt.Prelude.Sort.{insert, sort}
use si_lnt.Floats.{milli, milli_mul}
use si_lnt.Chains.{
  recipient_chain_mismatch, address_chain_family, wallet_chain_family, accepts, bech32_family,
}
use si_lnt.Plain.{
  Utxo, PlainPlan, plan_plain_spend, split, change_script_of, destination_vbytes, output_vbytes,
  dust_sats,
}
use si_lnt.Plain.Spend.{real_vsize, plan_plain_spend_lem}
use si_lnt.Plain.Scan.{Unspent, Client, server_failed, for_each, scan_one, scan_addresses, totalled}
use si_lnt.Plain.Scan.Batch.{answered, Answers, scan_addresses-one_by_one}

abbrev alice : Text
alice = codes "bc1qw508d6qejxtdg4y5r3zarvary0c5xw7kv8f3t4"

-- A 22 byte script for every address.
abbrev script_of : Text → Option Text
script_of address =
    some
      (0 ∷ 20 ∷ 0 ∷ 0 ∷ 0 ∷ 0 ∷ 0 ∷ 0 ∷ 0 ∷ 0 ∷ 0 ∷ 0 ∷ 0 ∷ 0 ∷ 0 ∷ 0 ∷ 0 ∷ 0 ∷ 0 ∷ 0 ∷ 0 ∷ 0 ∷ [])

abbrev coins : List Utxo
coins =
    record { address = alice; txid = codes "bb"; vout = 1; amount = 4000; height = 7 }
    ∷ record { address = alice; txid = codes "aa"; vout = 0; amount = 6000; height = 8 }
    ∷ []

abbrev sorted_coins : List Utxo
sorted_coins =
    record { address = alice; txid = codes "aa"; vout = 0; amount = 6000; height = 8 }
    ∷ record { address = alice; txid = codes "bb"; vout = 1; amount = 4000; height = 7 }
    ∷ []

-- A change of 291 is dust, and goes to the fee.
abbrev planned : PlainPlan milli
planned = record {
  destination = alice;
  destination_script = script_of alice;
  is_silent_payment = false;
  utxos = sorted_coins;
  amount = 9500;
  change = 0;
  change_address = none;
  change_script = none;
  fee = 500;
  total_input = 10_000;
  vsize = 178;
  fee_rate_used = 1000;
  input_count = 2;
  network = codes "mainnet";
}

plan_runs :
    plan_plain_spend milli script_of alice coins 1000 (codes "mainnet") (some (pos 9500)) none
    ≡ ok planned
unfolding plan_plain_spend split change_script_of sort insert strip lstrip rstrip is_space lower
    lower_char milli_mul recipient_chain_mismatch address_chain_family wallet_chain_family accepts
    bech32_family destination_vbytes output_vbytes
plan_runs = refl

plan_plain_spend_lem_example :
    (sum_of (λ u. u.amount) coins ≡ 9500 + 0 + 500)
    × (dust_sats ≤ 9500)
    × ((planned.change ≡ 0) ⊎ (dust_sats ≤ planned.change))
    × (178 ≡ real_vsize planned)
    × (max 1 (milli_mul 178 1000) ≤ 500)
plan_plain_spend_lem_example =
    plan_plain_spend_lem script_of alice coins 1000 (codes "mainnet") (some (pos 9500)) none planned
      plan_runs

abbrev history : Text → List Text
history sh = codes "t" ∷ []

abbrev unspent : Text → List Unspent
unspent sh =
    record { tx_hash = codes "t"; tx_pos = 0; value = 700; height = pos 9 }
    ∷ record { tx_hash = codes "u"; tx_pos = 2; value = 300; height = negsuc 0 }
    ∷ []

-- A server whose batch of coins fails.
abbrev client : Client
client = record {
  scripthash = λ spk. spk;
  get_history = λ sh. ok (history sh);
  list_unspent = λ sh. ok (unspent sh);
  batch_history = λ shs. ok (map (answered history) shs);
  batch_unspent = λ shs. err server_failed;
}

abbrev answers : Answers client
answers = record {
  history = history;
  unspent = unspent;
  one_history = λ sh. refl;
  one_unspent = λ sh. refl;
  all_history = λ shs. inr refl;
  all_unspent = λ shs. inl (server_failed, refl);
}

scan_addresses-one_by_one_example :
    scan_addresses client (alice ∷ [])
    ≡ (for_each (scan_one client) (alice ∷ []) >>= λ found. ok (totalled found))
scan_addresses-one_by_one_example = scan_addresses-one_by_one client answers (alice ∷ [])
