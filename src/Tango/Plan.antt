-- ===== src/Tango/Plan.antt =====
-- helpers/tango.py: the amounts of a round (`estimate`, `split_fee`, `plan`, `dust_to_fee`).
-- Differences that the source tests for being negative are tested before they are taken.
pub mod Price
pub mod Balance
pub mod Conservation
pub mod Fees
pub mod Totality
use si_lnt.Prelude.{
  is_empty, ℕ, zero, suc, ◌+◌, ◌-◌, ◌*◌, ◌/◌, ◌%◌, Bool, true, false, not, ◌&&◌, ◌||◌, Option, none,
  some, List, [], ◌∷◌, max, length, sum_of, replicate, ltb, leb, ◌==◌, if◌then◌else◌, Result, ok,
  err, ◌>>=◌, ◌>>◌, refuse_if,
}
use si_lnt.Prelude.Int.{ℤ, pos, negsuc}
use si_lnt.Floats.{Floats}
use si_lnt.TxSize.{estimate_vsize, fee_for, taproot_output_vbytes}
use si_lnt.Payjoin.Inputs.{PayjoinInput}

abbrev pub dust_sats : ℕ
dust_sats = 546

-- (A's share, B's share): the odd satoshi is the initiator's.
unfoldable pub split_fee : ℕ → ℕ × ℕ
split_fee fee = let half : ℕ = fee / 2 in (fee - half, half)

-- The refusals of `plan`, in the order of the source.
pub data PlanError : Type 0 where
  no_pieces not_divisible share_below_dust no_coins your_coins_short their_coins_short : PlanError
  fee_moved : PlanError

pub record Amounts : Type 0 where
  pub denom : ℕ
  pub pieces : ℕ
  pub share : ℕ
  pub a_in : ℕ
  pub b_in : ℕ
  pub a_change : ℕ
  pub b_change : ℕ
  pub a_fee : ℕ
  pub b_fee : ℕ
  pub fee : ℕ
  pub vsize : ℕ
  pub clean : Bool

-- `int(pieces or 1)`, then the first refusal.
unfoldable pub pieces_of : ℤ → Result PlanError ℕ
pieces_of (pos zero) = ok 1
pieces_of (pos (suc n)) = ok (suc n)
pieces_of (negsuc n) = err no_pieces

module _ (fl : Floats) where
  -- Every input and output of a Tango is P2TR.
  unfoldable pub estimate : ℕ → ℕ → fl.Rate → ℕ × ℕ
  estimate n_inputs n_outputs fee_rate =
      let vsize = estimate_vsize n_inputs (replicate n_outputs taproot_output_vbytes) 0 in
      (vsize, fee_for fl vsize fee_rate)

  -- What `plan` has computed when it starts to price, which its inner function closes over.
  pub record Terms : Type 0 where
    pub n_in : ℕ
    pub a_in : ℕ
    pub b_in : ℕ
    pub denom : ℕ
    pub pieces : ℕ
    pub fee_rate : fl.Rate

  -- The variables that its loop assigns.
  pub record Priced : Type 0 where
    pub vsize : ℕ
    pub a_fee : ℕ
    pub b_fee : ℕ
    pub a_change : ℕ
    pub b_change : ℕ

  -- The inner function `shares`, and the changes that its fees leave.
  unfoldable pub price : Terms → ℕ → Priced
  unfolding estimate
  price t n_out =
      let (vsize, fee) = estimate t.n_in n_out t.fee_rate in
      let (a_fee, b_fee) = split_fee fee in
      record {
        vsize = vsize;
        a_fee = a_fee;
        b_fee = b_fee;
        a_change = t.a_in - t.denom - a_fee;
        b_change = t.b_in - t.denom - b_fee;
      }

  -- `1 if change >= DUST_SATS else 0`
  abbrev pub kept : ℕ → ℕ
  kept change = if leb dust_sats change then 1 else 0

  -- One round of `for _ in range(2)`.
  unfoldable pub reprice : Terms → Priced → Result PlanError Priced
  reprice t p =
      let next = price t (2 * t.pieces + kept p.a_change + kept p.b_change) in
      do
        refuse_if (ltb t.a_in (t.denom + next.a_fee) || ltb t.b_in (t.denom + next.b_fee)) fee_moved
        ok next

  -- A change below the dust limit joins its owner's fee.
  abbrev pub absorb_fee : ℕ → ℕ → ℕ
  absorb_fee fee change = if ltb change dust_sats then fee + change else fee

  abbrev pub absorb_change : ℕ → ℕ
  absorb_change change = if ltb change dust_sats then 0 else change

  unfoldable pub settle : Terms → ℕ → Priced → Amounts
  settle t share p =
      let a_change = absorb_change p.a_change in
      let b_change = absorb_change p.b_change in
      let a_fee = absorb_fee p.a_fee p.a_change in
      let b_fee = absorb_fee p.b_fee p.b_change in
      record {
        denom = t.denom;
        pieces = t.pieces;
        share = share;
        a_in = t.a_in;
        b_in = t.b_in;
        a_change = a_change;
        b_change = b_change;
        a_fee = a_fee;
        b_fee = b_fee;
        fee = a_fee + b_fee;
        vsize = p.vsize;
        clean = (a_change == 0) && (b_change == 0);
      }

  -- From the first price, of the dearest shape, to the amounts.
  unfoldable pub settle_fees : Terms → ℕ → Result PlanError Amounts
  settle_fees t share = do
    let first = price t (2 * t.pieces + 2)
    refuse_if (ltb t.a_in (t.denom + first.a_fee)) your_coins_short
    refuse_if (ltb t.b_in (t.denom + first.b_fee)) their_coins_short
    second ← reprice t first
    third ← reprice t second
    ok (settle t share third)

  unfoldable pub plan :
      List PayjoinInput → List PayjoinInput → ℕ → fl.Rate → ℤ → Result PlanError Amounts
  plan a_inputs b_inputs denom fee_rate asked = do
    pieces ← pieces_of asked
    refuse_if (not (denom % pieces == 0)) not_divisible
    let share = denom / pieces
    refuse_if (ltb share dust_sats) share_below_dust
    refuse_if (is_empty a_inputs || is_empty b_inputs) no_coins
    settle_fees
        (record {
          n_in = length a_inputs + length b_inputs;
          a_in = sum_of (λ i. i.amount) a_inputs;
          b_in = sum_of (λ i. i.amount) b_inputs;
          denom = denom;
          pieces = pieces;
          fee_rate = fee_rate;
        })
        share

  -- What of a side's fee was a change too small to keep. `None` is none.
  unfoldable pub dust_to_fee : Option ℕ → Option ℕ → Option ℕ → Option fl.Rate → Bool → ℕ
  dust_to_fee (some my_fee) my_change (some vsize) (some fee_rate) i_am_the_initiator =
      let (a_share, b_share) = split_fee (fee_for fl vsize fee_rate) in
      let planned = if i_am_the_initiator then a_share else b_share in
      elim my_change [ some (suc _) ↦ 0 | _ ↦ my_fee - planned ]
  dust_to_fee _ _ _ _ _ = 0
