-- ===== src/Tests/Runner.antt =====
-- Runs of the payouts.
use si_lnt.Prelude.{ℕ, ◌+◌, ◌≤◌, ◌≡◌, refl, true, false, Option, none, some, [], ◌∷◌, all}
use si_lnt.Prelude.Int.{pos}
use si_lnt.Prelude.Text.{Text, codes, lower, lower_char, strip, lstrip, rstrip, is_space}
use si_lnt.Floats.{milli, milli_mul}
use si_lnt.Payout.Plan.{payout_plan, payout_fee, not_routed, payout_offered}
use si_lnt.Payout.Invoice.{invoice_network, network_mismatch, network_name}
use si_lnt.Prelude.Sort.{sort, insert}
use si_lnt.Payout.Run.{
  available_sats, can_route, requeue_on_recovery, pending, next_attempt_at, backoff_for,
  status_after, give_up, owed_age_seconds, should_defer, next_deferral_at,
}
use si_lnt.Payout.Run.Config.{PayoutConfig, tango_payout_ready}
use si_lnt.Payout.Run.Liquidity.{tango_payout_liquidity, check_tango_payout_liquidity}
use si_lnt.Payout.Run.Queue.{
  Payout, list_due_tango_payouts, get_tango_payout, create_tango_payout, update_tango_payout,
  tango_payout_totals,
}
use si_lnt.Payout.Run.Enqueue.{
  Broadcast, enqueue_tango_payouts, enqueue_round, enqueue_side, vout_of, payout_for, owed,
}
use si_lnt.Payout.Run.Attempt.{
  World, Outside, invoiced, Books, deliver_due, pay_due, attempt_tango_payout, pay_quote, quote_for,
  record_failure, failed_row, run_tango_payouts,
}
use si_lnt.Payout.Run.Steps.{Reach, here, next, runs, no_books}
use si_lnt.Payout.Run.Counts.{payments_of, paid_rows}
use si_lnt.Payout.Run.Paid.{paid_once}
use si_lnt.Payout.Run.Refines.{Moves, coin_of, times_paid, payouts_refine}
use si_lnt.Payout.Run.Sound.{is_sound, Reach-all}
use si_lnt.Payout.Run.Budget.{sent_on, deliver_due_within}

abbrev config : Text → PayoutConfig milli
config network = record {
  tango_change_payout_enabled = true;
  tango_change_sp_address = codes "sp1";
  tango_change_scan_secret = codes "00";
  tango_change_payout_wallet_id = codes "w";
  tango_change_fee_pct = 10;
  tango_change_fee_floor_sats = pos 100;
  tango_change_min_confirmations = 1;
  tango_change_min_wallet_balance_sats = pos 5000;
}

-- One side routes 10000 satoshis, which the transaction's second output pays.
abbrev round : Broadcast
round = record {
  txid = codes "t";
  network = codes "mainnet";
  side_a = record {
    payout = true;
    change_spk = codes "AB";
    change_sats = 10_000;
    user_id = codes "u";
  };
  side_b = record { payout = false; change_spk = []; change_sats = 0; user_id = [] };
  outputs = codes "cd" ∷ codes "ab" ∷ [];
  depth = 3;
}

abbrev good : Payout → Outside
good row = record { answer = invoiced (codes "lnbc1"); pays = true; records = true }

abbrev unrecorded : Payout → Outside
unrecorded row = record { answer = invoiced (codes "lnbc1"); pays = true; records = false }

abbrev world : (Payout → Outside) → World milli
world outside = record {
  backend_config = config;
  ln_address = λ network user. codes "u@x.org";
  rounds = round ∷ [];
  balance_msat = some 20_000_000;
  outside = outside;
}

abbrev after_one : Books
after_one = run_tango_payouts (world good) 1000 no_books

abbrev one_pass : Reach milli no_books after_one
one_pass = next here (runs (world good) 1000 no_books)

abbrev after_two : Books
after_two = run_tango_payouts (world good) 2000 after_one

abbrev two_passes : Reach milli no_books after_two
two_passes = next one_pass (runs (world good) 2000 after_one)

paid_in_one : payments_of (codes "t") 1 after_one.payments ≡ 1
unfolding run_tango_payouts check_tango_payout_liquidity tango_payout_liquidity tango_payout_totals
    available_sats can_route requeue_on_recovery tango_payout_ready payout_offered deliver_due
    pay_due list_due_tango_payouts sort insert enqueue_tango_payouts enqueue_round enqueue_side
    vout_of lower lower_char get_tango_payout create_tango_payout attempt_tango_payout strip lstrip
    rstrip is_space payout_for owed payout_plan payout_fee not_routed milli_mul invoice_network
    network_mismatch network_name pay_quote quote_for record_failure failed_row update_tango_payout
    next_attempt_at backoff_for status_after give_up owed_age_seconds should_defer next_deferral_at
paid_in_one = refl

-- The payment went out, the statement that says so did not: the payout stays pending, and the next
-- pass pays it again.
abbrev paid_unrecorded : Books
paid_unrecorded = run_tango_payouts (world unrecorded) 1000 no_books

abbrev paid_again : Books
paid_again = run_tango_payouts (world good) 2000 paid_unrecorded

paid_twice : payments_of (codes "t") 1 paid_again.payments ≡ 2
unfolding run_tango_payouts check_tango_payout_liquidity tango_payout_liquidity tango_payout_totals
    available_sats can_route requeue_on_recovery tango_payout_ready payout_offered deliver_due
    pay_due list_due_tango_payouts sort insert enqueue_tango_payouts enqueue_round enqueue_side
    vout_of lower lower_char get_tango_payout create_tango_payout attempt_tango_payout strip lstrip
    rstrip is_space payout_for owed payout_plan payout_fee not_routed milli_mul invoice_network
    network_mismatch network_name pay_quote quote_for record_failure failed_row update_tango_payout
    next_attempt_at backoff_for status_after give_up owed_age_seconds should_defer next_deferral_at
paid_twice = refl

payouts_refine_example :
    Moves (coin_of (codes "t") 1 after_one.rows) (coin_of (codes "t") 1 after_two.rows)
    × (payments_of (codes "t") 1 after_two.payments
        ≡ times_paid (coin_of (codes "t") 1 after_two.rows))
payouts_refine_example =
    payouts_refine (codes "t") 1 one_pass (tt, (λ r. refl)) (runs (world good) 2000 after_one)
      (λ r. refl)

paid_once_example :
    (payments_of (codes "t") 1 after_two.payments ≤ 1)
    × (payments_of (codes "t") 1 after_two.payments ≡ paid_rows (codes "t") 1 after_two.rows)
paid_once_example = paid_once (codes "t") 1 two_passes ((tt, (λ r. refl)), (λ r. refl))

lossy : Reach milli no_books paid_again
lossy =
    next (next here (runs (world unrecorded) 1000 no_books))
      (runs (world good) 2000 paid_unrecorded)

Reach-all_example : all is_sound paid_again.rows ≡ true
Reach-all_example = Reach-all lossy

abbrev owing : ℕ → ℕ → Payout
owing vout net = record {
  txid = codes "t";
  vout = vout;
  user_id = codes "u";
  network = codes "mainnet";
  ln_address = codes "u@x.org";
  gross_sats = net + 100;
  fee_sats = 100;
  net_sats = net;
  status = pending;
  attempts = 0;
  next_attempt = some 1000;
  notified = false;
  created_at = some 1000;
}

-- Two payouts, of which the balance covers one.
abbrev two_owed : Books
two_owed = record { rows = owing 0 900 ∷ owing 1 800 ∷ []; service_health = none; payments = [] }

abbrev short : Text → Option ℕ
short network = some 1000

deliver_due_within_example :
    sent_on (codes "mainnet") (deliver_due (λ network. codes "w") 1500 good short two_owed).payments
    ≤ 1000
unfolding owed_age_seconds
deliver_due_within_example =
    deliver_due_within (λ network. codes "w") 1500 good short two_owed (codes "mainnet") 1000
      (λ r. refl) refl refl
