-- ===== src/Tango/Plan/Fees.antt =====
-- Who pays what of a planned round's fee, and that the fee is enough for its size.
use si_lnt.Prelude.{
  ℕ, ◌+◌, ◌*◌, ◌/◌, ◌≤◌, ◌<◌, ◌≡◌, arith, true, false, ◌==◌, if◌then◌else◌, List, length, ok, some,
  replicate,
}
use native.Mathlib.Nat.{le_trans}
use si_lnt.Prelude.Int.{ℤ}
use si_lnt.Floats.{Floats}
use si_lnt.TxSize.{fee_for, estimate_vsize, taproot_output_vbytes}
use si_lnt.TxSize.Weight.{fee_for_mono}
use si_lnt.Payjoin.Inputs.{PayjoinInput}
use si_lnt.Tango.Plan.{
  Amounts, Terms, split_fee, settle, dust_sats, plan, dust_to_fee, absorb_change, kept,
}
use si_lnt.Tango.Plan.Price.{split_fee-sum}
use si_lnt.Tango.Plan.Balance.{last, last-a_fee, last-b_fee, last-vsize}
use si_lnt.Tango.Plan.Conservation.{terms_of, plan-inv}

abbrev pub has_output : ℕ → ℕ
has_output change = if change == 0 then 0 else 1

-- The outputs that a round will have: the equal shares of both sides and each change there is.
abbrev pub outputs_of : Amounts → List ℕ
outputs_of r =
    replicate (2 * r.pieces + has_output r.a_change + has_output r.b_change) taproot_output_vbytes

has_output-absorb :
    (fl : Floats) (change : ℕ) → has_output (absorb_change fl change) ≡ kept fl change
has_output-absorb fl change = ground arith

module _ (fl : Floats) (t : Terms fl) (share : ℕ) where
  settled : Amounts
  settled = settle fl t share (last fl t)

  -- A fee is a planned share, and what `dust_to_fee` gives back of it.
  settle-a_dust :
      settled.a_fee
      ≡ (split_fee (fee_for fl settled.vsize t.fee_rate)).0
        + dust_to_fee fl
            (some settled.a_fee)
            (some settled.a_change)
            (some settled.vsize)
            (some t.fee_rate)
            true
  unfolding settle dust_to_fee settled
  settle-a_dust = ground (arith, last-a_fee fl t)

  settle-b_dust :
      settled.b_fee
      ≡ (split_fee (fee_for fl settled.vsize t.fee_rate)).1
        + dust_to_fee fl
            (some settled.b_fee)
            (some settled.b_change)
            (some settled.vsize)
            (some t.fee_rate)
            false
  unfolding settle dust_to_fee settled
  settle-b_dust = ground (arith, last-b_fee fl t)

  settle-dust_bounds :
      (dust_to_fee fl
          (some settled.a_fee)
          (some settled.a_change)
          (some settled.vsize)
          (some t.fee_rate)
          true
        < dust_sats)
      × (dust_to_fee fl
            (some settled.b_fee)
            (some settled.b_change)
            (some settled.vsize)
            (some t.fee_rate)
            false
          < dust_sats)
  unfolding settle dust_to_fee settled
  settle-dust_bounds = (ground (arith, last-a_fee fl t), ground (arith, last-b_fee fl t))

  actual_vsize : ℕ
  actual_vsize =
      estimate_vsize t.n_in
        (replicate (2 * settled.pieces + has_output settled.a_change + has_output settled.b_change)
          taproot_output_vbytes)
        0

  settle-vsize : actual_vsize ≤ settled.vsize
  unfolding settle settled actual_vsize
  settle-vsize =
      rw (has_output-absorb fl (last fl t).a_change, has_output-absorb fl (last fl t).b_change)
        (last-vsize fl t)

  settle-fee : fee_for fl settled.vsize t.fee_rate ≤ settled.fee
  unfolding settle settled
  settle-fee = ground (
    arith,
    last-a_fee fl t,
    last-b_fee fl t,
    split_fee-sum (fee_for fl (last fl t).vsize t.fee_rate),
  )

module _ (fl : Floats) (a_inputs b_inputs : List PayjoinInput) (denom : ℕ)
    (fee_rate : fl.Rate) where
  -- The fee that the two sides pay together is at least the fee, at the chosen rate, for the size
  -- of the transaction that the round makes, although the loop of `plan` runs only twice; and the
  -- size that it reports is at least that size.
  pub plan-fee_enough :
      (asked : ℤ) (r : Amounts)
      → plan fl a_inputs b_inputs denom fee_rate asked ≡ ok r
      → (fee_for fl (estimate_vsize (length a_inputs + length b_inputs) (outputs_of r) 0) fee_rate
          ≤ r.fee)
        × (estimate_vsize (length a_inputs + length b_inputs) (outputs_of r) 0 ≤ r.vsize)
  unfolding settled actual_vsize
  plan-fee_enough asked r h =
      let p = plan-inv fl a_inputs b_inputs denom fee_rate asked h in
      let t = terms_of fl a_inputs b_inputs denom fee_rate p.pieces in
      let size = settle-vsize fl t (denom / p.pieces) in
      let cheaper = fee_for_mono fl fee_rate _ _ size in
      rw p.amounts (le_trans cheaper (settle-fee fl t (denom / p.pieces)), size)

  -- Each side's fee is its half of the fee for the reported size (the initiator's with the odd
  -- satoshi) and what `dust_to_fee` finds, which is less than the dust limit: what one side drops,
  -- the other does not pay for.
  pub plan-dust_to_fee :
      (asked : ℤ) (r : Amounts)
      → plan fl a_inputs b_inputs denom fee_rate asked ≡ ok r
      → let halves = split_fee (fee_for fl r.vsize fee_rate) in
        let a_dust =
          dust_to_fee fl (some r.a_fee) (some r.a_change) (some r.vsize) (some fee_rate) true in
        let b_dust =
          dust_to_fee fl (some r.b_fee) (some r.b_change) (some r.vsize) (some fee_rate) false in
        (r.a_fee ≡ halves.0 + a_dust)
        × (r.b_fee ≡ halves.1 + b_dust)
        × (a_dust < dust_sats)
        × (b_dust < dust_sats)
  unfolding settled
  plan-dust_to_fee asked r h =
      let p = plan-inv fl a_inputs b_inputs denom fee_rate asked h in
      let t = terms_of fl a_inputs b_inputs denom fee_rate p.pieces in
      let bounds = settle-dust_bounds fl t (denom / p.pieces) in
      rw p.amounts (
        settle-a_dust fl t (denom / p.pieces),
        settle-b_dust fl t (denom / p.pieces),
        bounds.0,
        bounds.1,
      )
