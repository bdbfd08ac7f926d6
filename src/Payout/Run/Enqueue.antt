-- ===== src/Payout/Run/Enqueue.antt =====
-- views_api.py: the payouts that broadcast rounds owe (`enqueue_tango_payouts`), with the outputs
-- that their transactions have (`_tango_outputs`).
use si_lnt.Prelude.{
  ℕ, ◌+◌, Bool, false, not, ◌||◌, Option, none, some, List, [], ◌∷◌, is_empty, max, ltb, ◌==◌,
  if◌then◌else◌, if_keeps,
}
use si_lnt.Prelude.Int.{pos}
use si_lnt.Prelude.Text.{Text, text_eq, lower}
use si_lnt.Floats.{Floats}
use si_lnt.Payout.Plan.{PayoutPlan, payout_plan}
use si_lnt.Payout.Run.{pending}
use si_lnt.Payout.Run.Config.{PayoutConfig, tango_payout_ready}
use si_lnt.Payout.Run.Queue.{Payout, get_tango_payout, create_tango_payout}

-- One side's columns of a round; a column that is NULL is blank or zero.
pub record Side : Type 0 where
  pub payout : Bool
  pub change_spk : Text
  pub change_sats : ℕ
  pub user_id : Text

-- A round that was broadcast, the scripts of its transaction's outputs in hex as far as it can be
-- read, and how deep the transaction is.
pub record Broadcast : Type 0 where
  pub txid : Text
  pub network : Text
  pub side_a : Side
  pub side_b : Side
  pub outputs : List Text
  pub depth : ℕ

-- `vouts` of `_tango_outputs`: the last output with the script, counted from `n` on.
unfoldable pub vout_of : ℕ → Text → List Text → Option ℕ
vout_of n spk [] = none
vout_of n spk (o ∷ outputs) = elim (vout_of (n + 1) spk outputs) [
  | some m ↦ some m
  | none ↦ if text_eq (lower o) spk then some n else none
]

-- The change whole and no fee, where the rule of today would not route it.
unfoldable pub owed : PayoutPlan → ℕ → Payout → Payout
owed plan change row =
    if plan.routed
    then record row {
      gross_sats = plan.gross_sats;
      fee_sats = plan.fee_sats;
      net_sats = plan.net_sats;
    }
    else record row { gross_sats = change; fee_sats = 0; net_sats = change }

module _ {fl : Floats} where
  -- The row that a side's change at an output is owed, before `create_tango_payout` completes it.
  unfoldable pub payout_for : PayoutConfig fl → Text → Broadcast → Side → ℕ → Payout
  unfolding owed
  payout_for cfg address rnd side vout =
      owed
        (payout_plan fl (pos side.change_sats) cfg.tango_change_fee_pct
          cfg.tango_change_fee_floor_sats)
        side.change_sats
        (record {
          txid = rnd.txid;
          vout = vout;
          user_id = side.user_id;
          network = rnd.network;
          ln_address = address;
          gross_sats = 0;
          fee_sats = 0;
          net_sats = 0;
          status = pending;
          attempts = 0;
          next_attempt = none;
          notified = false;
          created_at = none;
        })

  abbrev pub enqueue_new :
      PayoutConfig fl
      → Text
      → ℕ
      → Broadcast
      → Side
      → ℕ
      → Option Payout
      → List Payout × ℕ
      → List Payout × ℕ
  enqueue_new cfg address now rnd side vout (some _) books = books
  enqueue_new cfg address now rnd side vout none (rows, made) =
      let (rows', created) = create_tango_payout now (payout_for cfg address rnd side vout) rows in
      (rows', if created then made + 1 else made)

  abbrev pub enqueue_at :
      PayoutConfig fl
      → (Text → Text)
      → ℕ
      → Broadcast
      → Side
      → Option ℕ
      → List Payout × ℕ
      → List Payout × ℕ
  enqueue_at cfg saved now rnd side none books = books
  enqueue_at cfg saved now rnd side (some vout) books =
      enqueue_new cfg (saved side.user_id) now rnd side vout
        (get_tango_payout rnd.txid vout books.0) books

  -- The body of the inner loop; `saved` is the Lightning address that a user has on the round's
  -- network, blank without one.
  unfoldable pub enqueue_side :
      PayoutConfig fl → (Text → Text) → ℕ → Broadcast → Side → List Payout × ℕ → List Payout × ℕ
  enqueue_side cfg saved now rnd side books =
      if not side.payout
        || is_empty side.change_spk
        || side.change_sats == 0
        || is_empty side.user_id
      then books
      else enqueue_at cfg saved now rnd side (vout_of 0 (lower side.change_spk) rnd.outputs) books

  unfoldable pub enqueue_round :
      (Text → PayoutConfig fl)
      → (Text → Text → Text)
      → ℕ
      → Broadcast
      → List Payout × ℕ
      → List Payout × ℕ
  enqueue_round config saved now rnd books =
      let cfg = config rnd.network in
      if not (tango_payout_ready cfg rnd.network)
      then books
      else if is_empty rnd.outputs
      then books
      else if ltb rnd.depth (max 1 cfg.tango_change_min_confirmations)
      then books
      else enqueue_side cfg (saved rnd.network) now rnd rnd.side_b
          (enqueue_side cfg (saved rnd.network) now rnd rnd.side_a books)

  -- The outer loop, over `list_broadcast_tango_rounds_with_payouts`.
  unfoldable pub enqueue_tango_payouts :
      (Text → PayoutConfig fl)
      → (Text → Text → Text)
      → ℕ
      → List Broadcast
      → List Payout × ℕ
      → List Payout × ℕ
  enqueue_tango_payouts config saved now [] books = books
  enqueue_tango_payouts config saved now (rnd ∷ rounds) books =
      enqueue_tango_payouts config saved now rounds (enqueue_round config saved now rnd books)

-- What holds of a table and survives a new row for some side holds behind the whole pass.
module _ {fl : Floats} (P : List Payout → Type 0) (now : ℕ)
    (new : (cfg : PayoutConfig fl) (address : Text) (rnd : Broadcast) (side : Side) (vout : ℕ)
        (rows : List Payout)
      → P rows
      → P (create_tango_payout now (payout_for cfg address rnd side vout) rows).0) where
  enqueue_new_keeps :
      (cfg : PayoutConfig fl) (address : Text) (rnd : Broadcast) (side : Side) (vout : ℕ)
      (there : Option Payout) (books : List Payout × ℕ)
      → P books.0
      → P (enqueue_new cfg address now rnd side vout there books).0
  enqueue_new_keeps cfg address rnd side vout (some _) books h = h
  enqueue_new_keeps cfg address rnd side vout none books h = new cfg address rnd side vout books.0 h

  enqueue_at_keeps :
      (cfg : PayoutConfig fl) (saved : Text → Text) (rnd : Broadcast) (side : Side)
      (vout : Option ℕ) (books : List Payout × ℕ)
      → P books.0
      → P (enqueue_at cfg saved now rnd side vout books).0
  enqueue_at_keeps cfg saved rnd side none books h = h
  enqueue_at_keeps cfg saved rnd side (some vout) books h =
      enqueue_new_keeps cfg (saved side.user_id) rnd side vout _ books h

  enqueue_side_keeps :
      (cfg : PayoutConfig fl) (saved : Text → Text) (rnd : Broadcast) (side : Side)
      (books : List Payout × ℕ)
      → P books.0
      → P (enqueue_side cfg saved now rnd side books).0
  unfolding enqueue_side
  enqueue_side_keeps cfg saved rnd side books h =
      if_keeps (λ (x : List Payout × ℕ). P x.0) _ h
        (enqueue_at_keeps cfg saved rnd side (vout_of 0 (lower side.change_spk) rnd.outputs) books
          h)

  enqueue_round_keeps :
      (config : Text → PayoutConfig fl) (saved : Text → Text → Text) (rnd : Broadcast)
      (books : List Payout × ℕ)
      → P books.0
      → P (enqueue_round config saved now rnd books).0
  unfolding enqueue_round
  enqueue_round_keeps config saved rnd books h =
      let cfg = config rnd.network in
      let kept : List Payout × ℕ → Type 0 = λ x. P x.0 in
      let first = enqueue_side_keeps cfg (saved rnd.network) rnd rnd.side_a books h in
      let both : kept (
          enqueue_side cfg (saved rnd.network) now rnd rnd.side_b
            (enqueue_side cfg (saved rnd.network) now rnd rnd.side_a books)) =
        enqueue_side_keeps cfg (saved rnd.network) rnd rnd.side_b _ first in
      let shallow = ltb rnd.depth (max 1 cfg.tango_change_min_confirmations) in
      let by_depth = if_keeps kept shallow {x = books} h both in
      let by_outputs = if_keeps kept (is_empty rnd.outputs) {x = books} h by_depth in
      if_keeps kept (not (tango_payout_ready cfg rnd.network)) {x = books} h by_outputs

  pub enqueue_keeps :
      (config : Text → PayoutConfig fl) (saved : Text → Text → Text) (rounds : List Broadcast)
      (books : List Payout × ℕ)
      → P books.0
      → P (enqueue_tango_payouts config saved now rounds books).0
  unfolding enqueue_tango_payouts
  enqueue_keeps config saved [] books h = h
  enqueue_keeps config saved (rnd ∷ rounds) books h =
      enqueue_keeps config saved rounds _ (enqueue_round_keeps config saved rnd books h)
