-- ===== src/Tests/Tango.antt =====
-- helpers/tango.py at concrete inputs, at one satoshi a vbyte.
use si_lnt.Prelude.{
  ℕ, ◌+◌, ◌≤◌, ◌<◌, ◌≡◌, ◌≢◌, refl, arith, true, false, some, List, [], ◌∷◌, sum_of, ok, err,
}
use si_lnt.Prelude.Int.{pos}
use si_lnt.Prelude.Text.{codes}
use si_lnt.Floats.{milli, milli_mul}
use si_lnt.TxSize.{estimate_vsize, fee_for}
use si_lnt.Payjoin.Inputs.{PayjoinInput}
use si_lnt.Tango.Plan.{
  Amounts, plan, dust_to_fee, dust_sats, split_fee, pieces_of, fee_moved, your_coins_short,
  estimate, price, reprice, settle, settle_fees,
}
use si_lnt.Tango.Plan.Conservation.{IsBalanced, plan-IsBalanced}
use si_lnt.Tango.Plan.Fees.{plan-fee_enough, plan-dust_to_fee, outputs_of}
use si_lnt.Tango.Plan.Totality.{plan_total, plan-ne_fee_moved}

abbrev coin : ℕ → PayjoinInput
coin amount = record { txid = codes "aa"; vout = 0; amount = amount; pub_key = [] }

abbrev a_coins : List PayjoinInput
a_coins = coin 13749 ∷ []

abbrev b_coins : List PayjoinInput
b_coins = coin 15930 ∷ []

abbrev planned : Amounts
planned = record {
  denom = 13000;
  pieces = 1;
  share = 13000;
  a_in = 13749;
  b_in = 15930;
  a_change = 600;
  b_change = 2781;
  a_fee = 149;
  b_fee = 149;
  fee = 298;
  vsize = 298;
  clean = false;
}

plan_runs : plan milli a_coins b_coins 13000 1000 (pos 1) ≡ ok planned
unfolding plan settle_fees settle reprice price estimate split_fee pieces_of estimate_vsize fee_for
    milli_mul
plan_runs = refl

plan_short : plan milli a_coins b_coins 13740 1000 (pos 0) ≡ err your_coins_short
unfolding plan settle_fees settle reprice price estimate split_fee pieces_of estimate_vsize fee_for
    milli_mul
plan_short = refl

-- The two rounds of repricing need not settle: a change of 536 at four outputs is 557 at three, so
-- the fourth output is priced again, and the change is then dropped. The size that is reported is
-- that of four outputs, and three are made.
repricing_unsettled :
    plan milli (coin 13685 ∷ []) b_coins 13000 1000 (pos 1)
    ≡ ok (record {
      denom = 13000;
      pieces = 1;
      share = 13000;
      a_in = 13685;
      b_in = 15930;
      a_change = 0;
      b_change = 2781;
      a_fee = 685;
      b_fee = 149;
      fee = 834;
      vsize = 298;
      clean = false;
    })
unfolding plan settle_fees settle reprice price estimate split_fee pieces_of estimate_vsize fee_for
    milli_mul
repricing_unsettled = refl

three_outputs : estimate_vsize 2 (43 ∷ 43 ∷ 43 ∷ []) 0 ≡ 255
unfolding estimate_vsize
three_outputs = refl

plan-IsBalanced_example :
    IsBalanced planned
    × (planned.a_in ≡ sum_of (λ i. i.amount) a_coins)
    × (planned.b_in ≡ sum_of (λ i. i.amount) b_coins)
    × (planned.denom ≡ 13000)
plan-IsBalanced_example = plan-IsBalanced milli a_coins b_coins 13000 1000 (pos 1) planned plan_runs

plan-fee_enough_example :
    (fee_for milli (estimate_vsize 2 (outputs_of planned) 0) 1000 ≤ planned.fee)
    × (estimate_vsize 2 (outputs_of planned) 0 ≤ planned.vsize)
plan-fee_enough_example = plan-fee_enough milli a_coins b_coins 13000 1000 (pos 1) planned plan_runs

plan-dust_to_fee_example :
    (planned.a_fee
      ≡ (split_fee (fee_for milli 298 1000)).0
        + dust_to_fee milli (some 149) (some 600) (some 298) (some 1000) true)
    × (planned.b_fee
        ≡ (split_fee (fee_for milli 298 1000)).1
          + dust_to_fee milli (some 149) (some 2781) (some 298) (some 1000) false)
    × (dust_to_fee milli (some 149) (some 600) (some 298) (some 1000) true < dust_sats)
    × (dust_to_fee milli (some 149) (some 2781) (some 298) (some 1000) false < dust_sats)
plan-dust_to_fee_example =
    plan-dust_to_fee milli a_coins b_coins 13000 1000 (pos 1) planned plan_runs

plan_total_example : (r : Amounts) × (plan milli a_coins b_coins 13000 1000 (pos 2) ≡ ok r)
unfolding pieces_of estimate estimate_vsize fee_for split_fee milli_mul
plan_total_example =
    plan_total milli a_coins b_coins 13000 1000 (pos 2) 2 refl refl (omega arith) refl (omega arith)
      (omega arith)

plan-ne_fee_moved_example : plan milli a_coins b_coins 13000 1000 (pos 1) ≢ err fee_moved
plan-ne_fee_moved_example = plan-ne_fee_moved milli a_coins b_coins 13000 1000 (pos 1)
