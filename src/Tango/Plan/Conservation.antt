-- ===== src/Tango/Plan/Conservation.antt =====
-- What the amounts of every planned round add up to.
use si_lnt.Prelude.{
  is_empty, ℕ, ◌+◌, ◌*◌, ◌/◌, ◌%◌, ◌≤◌, ◌≡◌, refl, ◌⊎◌, arith, false, not, ◌||◌, ltb→le, ◌==◌, List,
  length, sum_of, ok, >>=-eq-ok, refuse_if-eq-ok,
}
use si_lnt.Prelude.Int.{ℤ}
use si_lnt.Floats.{Floats}
use si_lnt.Payjoin.Inputs.{PayjoinInput}
use si_lnt.Tango.Plan.{
  Amounts, Terms, pieces_of, not_divisible, share_below_dust, no_coins, settle, dust_sats, plan,
}
use si_lnt.Tango.Plan.Balance.{
  Covers, settle_fees-inv, last, last_covered, last-a_change, last-b_change,
}

module _ (fl : Floats) (a_inputs b_inputs : List PayjoinInput) (denom : ℕ)
    (fee_rate : fl.Rate) where
  abbrev pub terms_of : ℕ → Terms fl
  terms_of pieces = record {
    n_in = length a_inputs + length b_inputs;
    a_in = sum_of (λ i. i.amount) a_inputs;
    b_in = sum_of (λ i. i.amount) b_inputs;
    denom = denom;
    pieces = pieces;
    fee_rate = fee_rate;
  }

  -- What has passed when `plan` has amounts to return.
  pub record Passed (asked : ℤ) (r : Amounts) : Type 0 where
    pub pieces : ℕ
    pub asked_pieces : pieces_of asked ≡ ok pieces
    pub divisible : denom % pieces ≡ 0
    pub share_kept : dust_sats ≤ denom / pieces
    pub has_coins : (is_empty a_inputs || is_empty b_inputs) ≡ false
    pub covers : Covers fl (terms_of pieces)
    pub amounts : r ≡ settle fl (terms_of pieces) (denom / pieces) (last fl (terms_of pieces))

  divisible_of : (m : ℕ) → not (m == 0) ≡ false → m ≡ 0
  divisible_of m h = ground arith

  pub plan-inv :
      (asked : ℤ) {r : Amounts}
      → plan fl a_inputs b_inputs denom fee_rate asked ≡ ok r
      → Passed asked r
  unfolding plan
  plan-inv asked h =
      let (pieces, asks, h1) = >>=-eq-ok (pieces_of asked) _ h in
      let (divides, h2) = refuse_if-eq-ok _ not_divisible _ h1 in
      let (big, h3) = refuse_if-eq-ok _ share_below_dust _ h2 in
      let (coins, h4) = refuse_if-eq-ok _ no_coins _ h3 in
      let (covers, amounts) = settle_fees-inv fl (terms_of pieces) (denom / pieces) h4 in
      record {
        pieces = pieces;
        asked_pieces = asks;
        divisible = divisible_of _ divides;
        share_kept = ltb→le _ _ big;
        has_coins = coins;
        covers = covers;
        amounts = amounts;
      }

-- What both sides put in is what both take out, with the fee, and no output is dust.
pub record IsBalanced (r : Amounts) : Type 0 where
  pub a_balance : r.a_in ≡ r.denom + r.a_change + r.a_fee
  pub b_balance : r.b_in ≡ r.denom + r.b_change + r.b_fee
  pub fee_total : r.fee ≡ r.a_fee + r.b_fee
  pub a_change_kept : (r.a_change ≡ 0) ⊎ (dust_sats ≤ r.a_change)
  pub b_change_kept : (r.b_change ≡ 0) ⊎ (dust_sats ≤ r.b_change)
  pub same_shares : r.pieces * r.share ≡ r.denom
  pub share_kept : dust_sats ≤ r.share

exact_shares : (denom pieces : ℕ) → denom % pieces ≡ 0 → pieces * (denom / pieces) ≡ denom
exact_shares denom pieces h = grind arith

module _ (fl : Floats) (t : Terms fl) (share : ℕ) (c : Covers fl t) where
  settle-IsBalanced :
      t.pieces * share ≡ t.denom → dust_sats ≤ share → IsBalanced (settle fl t share (last fl t))
  unfolding settle
  settle-IsBalanced parts big =
      let (a, b) = last_covered fl t c in ground (arith, last-a_change fl t, last-b_change fl t)

module _ (fl : Floats) (a_inputs b_inputs : List PayjoinInput) (denom : ℕ)
    (fee_rate : fl.Rate) where
  -- Whatever `plan` returns balances on both sides: each side's coins are the amount, its change
  -- and its fee; the fee is the sum of the two; each change is none or at least the dust limit;
  -- and the equal shares, each at least the dust limit, make up the amount.
  pub plan-IsBalanced :
      (asked : ℤ) (r : Amounts)
      → plan fl a_inputs b_inputs denom fee_rate asked ≡ ok r
      → IsBalanced r
        × (r.a_in ≡ sum_of (λ i. i.amount) a_inputs)
        × (r.b_in ≡ sum_of (λ i. i.amount) b_inputs)
        × (r.denom ≡ denom)
  unfolding settle
  plan-IsBalanced asked r h =
      let p = plan-inv fl a_inputs b_inputs denom fee_rate asked h in
      let t = terms_of fl a_inputs b_inputs denom fee_rate p.pieces in
      rw p.amounts (
        settle-IsBalanced fl t (denom / p.pieces) p.covers (exact_shares denom p.pieces p.divisible)
            p.share_kept,
        refl,
        refl,
        refl,
      )
