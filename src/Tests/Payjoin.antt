-- ===== src/Tests/Payjoin.antt =====
-- A PayJoin of two parties at one satoshi a vbyte.
use si_lnt.Prelude.{
  ℕ, zero, suc, ◌+◌, ◌≤◌, ◌≡◌, ◌⊎◌, refl, Bool, true, List, [], ◌∷◌, ◌++◌, all, replicate, sum_of,
  ok, err,
}
use si_lnt.Prelude.Int.{pos}
use si_lnt.Prelude.Text.{Text, codes, strip, lstrip, rstrip, is_space}
use si_lnt.Prelude.Sort.{insert, sort}
use si_lnt.Floats.{milli, milli_mul}
use si_lnt.TxSize.{estimate_vsize, fee_for}
use si_lnt.Payjoin.Inputs.{PayjoinInput}
use si_lnt.Tango.Plan.{dust_sats}
use si_lnt.Payjoin.Plan.{
  PayjoinAmounts, spendable, still_open, advertised, claimed, estimate_fee, settle_change,
  payjoin_plan, payjoin_turn, require_payjoin_turn,
}
use si_lnt.Tango.Outputs.{canonical}
use si_lnt.Payjoin.Witnesses.{
  digits, from_hex, has_index, has, not_yours, verify_each, verify_witnesses,
}
use si_lnt.Payjoin.Witnesses.Checked.{signs, verify_witnesses_lem}
use si_lnt.Payjoin.Plan.Amounts.{payjoin_plan_lem}

abbrev payer : List PayjoinInput
payer = record { txid = codes "aa"; vout = 0; amount = 20_000; pub_key = [] } ∷ []

abbrev payee : List PayjoinInput
payee = record { txid = codes "bb"; vout = 1; amount = 5000; pub_key = [] } ∷ []

abbrev planned : PayjoinAmounts
planned = record {
  payer_in = 20_000;
  payee_in = 5000;
  payment = 15_000;
  amount = 10_000;
  fee = 212;
  change = 9788;
  vsize = 212;
}

plan_runs : payjoin_plan milli payer payee (pos 10_000) 1000 ≡ ok planned
unfolding payjoin_plan settle_change estimate_fee estimate_vsize fee_for milli_mul
plan_runs = refl

too_much : payjoin_plan milli payer payee (pos 19_900) 1000 ≡ err (spendable 19_788)
unfolding payjoin_plan settle_change estimate_fee estimate_vsize fee_for milli_mul
too_much = refl

not_taken : require_payjoin_turn advertised (codes "payee") ≡ err still_open
unfolding require_payjoin_turn
not_taken = refl

taken : require_payjoin_turn claimed (codes "payee") ≡ ok tt
unfolding require_payjoin_turn payjoin_turn
taken = refl

payjoin_plan_lem_example :
    let made = estimate_fee milli 2 2 1000 in
    (sum_of (λ i. i.amount) payer + sum_of (λ i. i.amount) payee ≡ 15_000 + 9788 + 212)
    × (planned.payment ≡ sum_of (λ i. i.amount) payee + 10_000)
    × (dust_sats ≤ 10_000)
    × ((planned.change ≡ 0) ⊎ (dust_sats ≤ 9788))
    × (made.1 ≤ 212)
    × (planned.vsize ≡ made.0)
payjoin_plan_lem_example = payjoin_plan_lem milli payer payee (pos 10_000) 1000 planned plan_runs

abbrev sig_digits : ℕ → Text
sig_digits zero = codes " "
sig_digits (suc n) = b'0' ∷ b'7' ∷ sig_digits n

-- A signature of 64 bytes of 7, in hex with a blank behind it.
abbrev sig_hex : Text
sig_hex = sig_digits 64

abbrev any_signature : List ℕ → List ℕ → ℕ → Bool
any_signature key sig n = true

-- B's coin is the second in the canonical order.
signed_second :
    verify_witnesses any_signature (payer ++ payee) ((codes " 1", sig_hex) ∷ []) (1 ∷ [])
    ≡ ok ((1, replicate 64 7) ∷ [])
unfolding verify_witnesses verify_each canonical sort insert digits from_hex strip lstrip rstrip
    is_space
signed_second = refl

signed_first :
    verify_witnesses any_signature (payer ++ payee) ((codes "0", sig_hex) ∷ []) (1 ∷ [])
    ≡ err not_yours
unfolding verify_witnesses verify_each canonical sort insert digits strip lstrip rstrip is_space
signed_first = refl

verify_witnesses_lem_example :
    (all (signs any_signature (canonical (payer ++ payee))) ((1, replicate 64 7) ∷ []) ≡ true)
    × (has_index 0 ((1, replicate 64 7) ∷ []) ≡ has 0 (1 ∷ []))
verify_witnesses_lem_example =
    verify_witnesses_lem any_signature (payer ++ payee) ((codes " 1", sig_hex) ∷ []) (1 ∷ []) 0
      ((1, replicate 64 7) ∷ []) signed_second
