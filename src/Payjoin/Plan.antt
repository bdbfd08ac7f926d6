-- ===== src/Payjoin/Plan.antt =====
-- helpers/payjoin_sp.py: the amounts of a PayJoin of two parties (`estimate_fee`, `plan`), its
-- outputs (`outputs_for`) and whose turn it is.
pub mod Amounts
use si_lnt.Prelude.{
  ℕ, ◌+◌, ◌-◌, Bool, true, false, not, ◌||◌, Option, none, some, List, [], ◌∷◌, is_empty, length,
  replicate, sum_of, ltb, leb, ◌==◌, if◌then◌else◌, Result, ok, err, ◌>>=◌, ◌>>◌, refuse_if,
}
use si_lnt.Prelude.Int.{ℤ, pos_part}
use si_lnt.Prelude.Text.{Text, codes, text_eq}
use si_lnt.Prelude.Sort.{sort}
use si_lnt.Floats.{Floats}
use si_lnt.TxSize.{estimate_vsize, fee_for, taproot_output_vbytes}
use si_lnt.Payjoin.Inputs.{PayjoinInput}
use si_lnt.Tango.Plan.{dust_sats}
use si_lnt.Tango.Outputs.{TransactionOutput, output_before}

-- The refusals of `plan` and `outputs_for`; what is spendable is named where it is above dust.
pub data PayjoinError : Type 0 where
  below_dust one_sided nothing_spendable no_change_script : PayjoinError
  spendable : ℕ → PayjoinError

pub record PayjoinAmounts : Type 0 where
  pub payer_in : ℕ
  pub payee_in : ℕ
  pub payment : ℕ
  pub amount : ℕ
  pub fee : ℕ
  pub change : ℕ
  pub vsize : ℕ

module _ (fl : Floats) where
  unfoldable pub estimate_fee : ℕ → ℕ → fl.Rate → ℕ × ℕ
  estimate_fee n_inputs n_outputs fee_rate =
      let vsize = estimate_vsize n_inputs (replicate n_outputs taproot_output_vbytes) 0 in
      (vsize, fee_for fl vsize fee_rate)

  -- The refusals where the coins do not cover the amount and the fee.
  abbrev pub too_little : ℕ → ℕ → PayjoinError
  too_little payer_total fee =
      if ltb payer_total (fee + dust_sats) then nothing_spendable else spendable (payer_total - fee)

  -- (fee, change): a change that is dust is given up, for the fee of one output and what is left.
  unfoldable pub settle_change : ℕ → ℕ → ℕ → ℕ → fl.Rate → ℕ × ℕ
  settle_change n_in payer_total amount fee fee_rate =
      let change = payer_total - amount - fee in
      let (_, alone) = estimate_fee n_in 1 fee_rate in
      if ltb change dust_sats then (alone + (payer_total - amount - alone), 0) else (fee, change)

  unfoldable pub payjoin_plan :
      List PayjoinInput → List PayjoinInput → ℤ → fl.Rate → Result PayjoinError PayjoinAmounts
  payjoin_plan payer_inputs payee_inputs asked fee_rate = do
    let amount = pos_part asked
    refuse_if (ltb amount dust_sats) below_dust
    let payer_total = sum_of (λ i. i.amount) payer_inputs
    let payee_total = sum_of (λ i. i.amount) payee_inputs
    refuse_if (is_empty payer_inputs || is_empty payee_inputs) one_sided
    let n_in = length payer_inputs + length payee_inputs
    let (_, fee) = estimate_fee n_in 2 fee_rate
    refuse_if (ltb payer_total (amount + fee)) (too_little payer_total fee)
    let (fee', change) = settle_change n_in payer_total amount fee fee_rate
    ok (record {
      payer_in = payer_total;
      payee_in = payee_total;
      payment = amount + payee_total;
      amount = amount;
      fee = fee';
      change = change;
      vsize = (estimate_fee n_in (if change == 0 then 1 else 2) fee_rate).0;
    })

-- `outputs_for`: the payment, and the change if there is one, by value and script.
unfoldable pub payjoin_outputs :
    PayjoinAmounts → Text → Option Text → Result PayjoinError (List TransactionOutput)
payjoin_outputs amounts payment_spk change_spk =
    let payment : TransactionOutput = record {
      value = amounts.payment;
      script_pubkey = payment_spk;
    } in
    if amounts.change == 0 then ok (sort output_before (payment ∷ [])) else elim change_spk [
      | none ↦ err no_change_script
      | some spk ↦ ok (
          sort output_before
            (payment ∷ record { value = amounts.change; script_pubkey = spk } ∷ []))
    ]

pub data PayjoinStatus : Type 0 where
  advertised claimed proposed contributed payer_signed broadcast cancelled : PayjoinStatus

abbrev pub is_over : PayjoinStatus → Bool
is_over broadcast = true
is_over cancelled = true
is_over _ = false

-- `_TURN`
unfoldable pub payjoin_turn : PayjoinStatus → Option Text
payjoin_turn proposed = some (codes "payee")
payjoin_turn claimed = some (codes "payee")
payjoin_turn contributed = some (codes "payer")
payjoin_turn payer_signed = some (codes "payee")
payjoin_turn advertised = none
payjoin_turn broadcast = none
payjoin_turn cancelled = none

abbrev pub is_open : PayjoinStatus → Bool
is_open advertised = true
is_open _ = false

pub data PayjoinTurnError : Type 0 where
  not_a_party still_open already_over stuck waiting_on_other : PayjoinTurnError

abbrev pub judge_payjoin : Option Text → Text → Bool → Result PayjoinTurnError (Unit {0})
judge_payjoin (some turn) role over =
    if text_eq turn role then ok tt else if over then err already_over else err waiting_on_other
judge_payjoin none role over = if over then err already_over else err stuck

unfoldable pub require_payjoin_turn : PayjoinStatus → Text → Result PayjoinTurnError (Unit {0})
require_payjoin_turn status role =
    if not (text_eq role (codes "payer") || text_eq role (codes "payee"))
    then err not_a_party
    else if is_open status
    then err still_open
    else judge_payjoin (payjoin_turn status) role (is_over status)

abbrev pub can_cancel_payjoin : PayjoinStatus → Bool
can_cancel_payjoin status = not (is_over status)
