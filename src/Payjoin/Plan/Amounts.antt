-- ===== src/Payjoin/Plan/Amounts.antt =====
-- What a planned PayJoin pays.
use si_lnt.Prelude.{
  ℕ, ◌+◌, ◌-◌, ◌≤◌, ◌≡◌, ◌⊎◌, inl, inr, refl, sym, arith, false, ◌||◌, List, is_empty, length,
  replicate, sum_of, ltb, ◌==◌, if◌then◌else◌, Bool-cases, ok, ok_inj, refuse_if-eq-ok,
}
use si_lnt.Prelude.Int.{ℤ, pos_part}
use si_lnt.Floats.{Floats}
use si_lnt.TxSize.{estimate_vsize, ceil_half, fee_for, taproot_output_vbytes}
use si_lnt.Payjoin.Inputs.{PayjoinInput}
use si_lnt.Tango.Plan.{dust_sats}
use si_lnt.Payjoin.Plan.{
  PayjoinAmounts, below_dust, one_sided, too_little, estimate_fee, settle_change, payjoin_plan,
}

size_mono :
    (n : ℕ)
    → estimate_vsize n (replicate 1 taproot_output_vbytes) 0
      ≤ estimate_vsize n (replicate 2 taproot_output_vbytes) 0
unfolding estimate_vsize ceil_half
size_mono n = omega arith

module _ (fl : Floats) (n_in : ℕ) (rate : fl.Rate) where
  -- One output less is no dearer.
  one_no_dearer : (estimate_fee fl n_in 1 rate).1 ≤ (estimate_fee fl n_in 2 rate).1
  unfolding estimate_fee fee_for
  one_no_dearer = let smaller = fl.ceil_mul_mono rate _ _ (size_mono n_in) in omega (arith, smaller)

  two_outputs :
      (change : ℕ)
      → dust_sats ≤ change
      → (estimate_fee fl n_in (if change == 0 then 1 else 2) rate).1
        ≤ (estimate_fee fl n_in 2 rate).1
  two_outputs change h =
      let there : (change == 0) ≡ false = ground (arith, h) in rw there (omega arith)

  record IsSettled (payer_total amount fee change : ℕ) : Type 0 where
    balanced : payer_total ≡ amount + change + fee
    change_kept : (change ≡ 0) ⊎ (dust_sats ≤ change)
    paid : (estimate_fee fl n_in (if change == 0 then 1 else 2) rate).1 ≤ fee

  settle_change-IsSettled :
      (payer_total amount : ℕ)
      → ltb payer_total (amount + (estimate_fee fl n_in 2 rate).1) ≡ false
      → let s = settle_change fl n_in payer_total amount (estimate_fee fl n_in 2 rate).1 rate in
        IsSettled payer_total amount s.0 s.1
  unfolding settle_change
  settle_change-IsSettled payer_total amount covered =
      let fee = (estimate_fee fl n_in 2 rate).1 in
      let change = payer_total - amount - fee in
      elim (Bool-cases (ltb change dust_sats)) [
        | inl e ↦ rw e (record {
          balanced = ground (arith, covered, one_no_dearer);
          change_kept = inl refl;
          paid = omega arith;
        })
        | inr e ↦ rw e (record {
          balanced = ground (arith, covered);
          change_kept = inr (ground (arith, e));
          paid = two_outputs change (ground (arith, e));
        })
      ]

-- Whatever is planned: the coins of both are the payment, the change and the fee; the payee gets
-- its own coins back with the amount, which is not dust, nor is the change if there is one; the
-- fee is at least the fee for the transaction that is made, whose size is reported.
pub payjoin_plan_lem :
    (fl : Floats) (payer_inputs payee_inputs : List PayjoinInput) (asked : ℤ) (rate : fl.Rate)
    (p : PayjoinAmounts)
    → payjoin_plan fl payer_inputs payee_inputs asked rate ≡ ok p
    → let n_in = length payer_inputs + length payee_inputs in
      let made = estimate_fee fl n_in (if p.change == 0 then 1 else 2) rate in
      (sum_of (λ i. i.amount) payer_inputs + sum_of (λ i. i.amount) payee_inputs
        ≡ p.payment + p.change + p.fee)
      × (p.payment ≡ sum_of (λ i. i.amount) payee_inputs + p.amount)
      × (dust_sats ≤ p.amount)
      × ((p.change ≡ 0) ⊎ (dust_sats ≤ p.change))
      × (made.1 ≤ p.fee)
      × (p.vsize ≡ made.0)
unfolding payjoin_plan
payjoin_plan_lem fl payer_inputs payee_inputs asked rate p h =
    let amount = pos_part asked in
    let payer_total = sum_of (λ (i : PayjoinInput). i.amount) payer_inputs in
    let n_in = length payer_inputs + length payee_inputs in
    let fee = (estimate_fee fl n_in 2 rate).1 in
    let (big, h1) = refuse_if-eq-ok (ltb amount dust_sats) below_dust _ h in
    let (_, h2) = refuse_if-eq-ok (is_empty payer_inputs || is_empty payee_inputs) one_sided _ h1 in
    let (covered, h3) =
      refuse_if-eq-ok (ltb payer_total (amount + fee)) (too_little fl payer_total fee) _ h2 in
    let v = settle_change-IsSettled fl n_in rate payer_total amount covered in
    let same = ok_inj h3 in
    rw (sym same)
      (omega (arith, v.balanced), omega arith, ground (arith, big), v.change_kept, v.paid, refl)
