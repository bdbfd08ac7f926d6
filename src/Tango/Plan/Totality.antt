-- ===== src/Tango/Plan/Totality.antt =====
-- When `plan` succeeds, and the refusal that it never makes.
use si_lnt.Prelude.{
  is_empty, ℕ, ◌+◌, ◌*◌, ◌/◌, ◌%◌, ◌≤◌, ◌≡◌, ◌≢◌, inl, inr, arith, false, ◌||◌, ltb→le, le→ltb,
  List, length, sum_of, ok, err, >>=-eq-err, refuse_if-eq-err,
}
use si_lnt.Prelude.Int.{ℤ}
use si_lnt.Floats.{Floats}
use si_lnt.Payjoin.Inputs.{PayjoinInput}
use si_lnt.Tango.Plan.{
  Amounts, Terms, pieces_of, fee_moved, not_divisible, share_below_dust, no_coins, your_coins_short,
  their_coins_short, split_fee, estimate, price, settle, settle_fees, dust_sats, plan,
}
use si_lnt.Tango.Plan.Balance.{Covers, settle_fees-ok, last}
use si_lnt.Tango.Plan.Conservation.{terms_of}

pieces_of-ne_fee_moved : (asked : ℤ) → pieces_of asked ≢ err fee_moved
unfolding pieces_of
pieces_of-ne_fee_moved asked h = ground arith

module _ (fl : Floats) (t : Terms fl) where
  settle_fees-ne_fee_moved : (share : ℕ) → settle_fees fl t share ≢ err fee_moved
  unfolding settle_fees
  settle_fees-ne_fee_moved share h =
      let (a, h1) = refuse_if-eq-err _ your_coins_short _ (λ e. cc) h in
      let (b, h2) = refuse_if-eq-err _ their_coins_short _ (λ e. cc) h1 in
      let c : Covers fl t = record { a_covers = ltb→le _ _ a; b_covers = ltb→le _ _ b } in
      cc (settle_fees-ok fl t share c)

module _ (fl : Floats) (a_inputs b_inputs : List PayjoinInput) (denom : ℕ)
    (fee_rate : fl.Rate) where
  -- The refusal inside the loop of `plan`, that the fee moved above what the coins cover, is
  -- never made.
  pub plan-ne_fee_moved :
      (asked : ℤ) → plan fl a_inputs b_inputs denom fee_rate asked ≢ err fee_moved
  unfolding plan
  plan-ne_fee_moved asked h = elim (>>=-eq-err (pieces_of asked) _ h) [
    | inl bad ↦ pieces_of-ne_fee_moved asked bad
    | inr (pieces, asks, h1) ↦
        let (_, h2) = refuse_if-eq-err _ not_divisible _ (λ e. cc) h1 in
        let (_, h3) = refuse_if-eq-err _ share_below_dust _ (λ e. cc) h2 in
        let (_, h4) = refuse_if-eq-err _ no_coins _ (λ e. cc) h3 in
        settle_fees-ne_fee_moved fl (terms_of fl a_inputs b_inputs denom fee_rate pieces)
          (denom / pieces) h4
  ]

  covered :
      (pieces : ℕ)
      → denom
          + (split_fee
              (estimate fl (length a_inputs + length b_inputs) (2 * pieces + 2) fee_rate).1).0
        ≤ sum_of (λ i. i.amount) a_inputs
      → denom
          + (split_fee
              (estimate fl (length a_inputs + length b_inputs) (2 * pieces + 2) fee_rate).1).1
        ≤ sum_of (λ i. i.amount) b_inputs
      → Covers fl (terms_of fl a_inputs b_inputs denom fee_rate pieces)
  unfolding price
  covered pieces a b = record { a_covers = a; b_covers = b }

  -- `plan` succeeds whenever the number of pieces is one it accepts and divides the amount into
  -- shares not below the dust limit, both sides have a coin, and each side's coins cover the
  -- amount and its half of the fee for the shape with two changes.
  pub plan_total :
      (asked : ℤ) (pieces : ℕ)
      → pieces_of asked ≡ ok pieces
      → denom % pieces ≡ 0
      → dust_sats ≤ denom / pieces
      → (is_empty a_inputs || is_empty b_inputs) ≡ false
      → denom
          + (split_fee
              (estimate fl (length a_inputs + length b_inputs) (2 * pieces + 2) fee_rate).1).0
        ≤ sum_of (λ i. i.amount) a_inputs
      → denom
          + (split_fee
              (estimate fl (length a_inputs + length b_inputs) (2 * pieces + 2) fee_rate).1).1
        ≤ sum_of (λ i. i.amount) b_inputs
      → (r : Amounts) × (plan fl a_inputs b_inputs denom fee_rate asked ≡ ok r)
  unfolding plan
  plan_total asked pieces asks divides big coins a b =
      let t = terms_of fl a_inputs b_inputs denom fee_rate pieces in
      (
        settle fl t (denom / pieces) (last fl t),
        rw (asks, divides, le→ltb _ _ big, coins)
            (settle_fees-ok fl t (denom / pieces) (covered pieces a b)),
      )
