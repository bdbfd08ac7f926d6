-- ===== src/Tango/Round/Handlers.antt =====
-- The handlers of views_api.py that move a round, each as one step on the table of rounds, and the
-- queries of crud.py they call. A refusal changes nothing.
use si_lnt.Prelude.{
  is_empty, ℕ, ◌+◌, Bool, false, not, ◌&&◌, Option, none, some, List, [], ◌∷◌, ◌++◌, map, any, leb,
  ◌==◌, if◌then◌else◌, Result, ok, err, ◌>>=◌, ◌>>◌, refuse_if,
}
use si_lnt.Prelude.Text.{Text, codes, text_eq, lower}
use si_lnt.Prelude.Int.{ℤ}
use si_lnt.Floats.{Floats}
use si_lnt.Payjoin.Inputs.{PayjoinInput}
use si_lnt.Payjoin.Wire.{
  WireInput, WireError, bad_spk, is_p2tr_spk, validate_wire_inputs, tango_mix_spks,
}
use si_lnt.Tango.Plan.{Amounts, PlanError, plan}
use si_lnt.Tango.Turns.{
  Status, proposed, accepted, a_signed, broadcast, cancelled, TurnError, require_turn, is_expired,
  can_cancel, cancelled_by, expired,
}
use si_lnt.Tango.Round.Reserve.{
  Round, clashing_outpoints, get_reserved_tango_outpoints, key_eq, is_user,
}

abbrev pub expiry_seconds : ℕ
expiry_seconds = 86_400

pub data Refused : Type 0 where
  not_found no_such_user with_yourself not_connected wrong_network : Refused
  bad_coins coins_reserved coin_on_both_sides gone coins_spent : Refused
  change_script_is_ours change_script_missing bad_signature not_relayed already_over : Refused
  bad_request : WireError → Refused
  bad_plan : PlanError → Refused
  not_your_turn : TurnError → Refused

-- What the handlers ask of the rest of the server: accounts, contacts, wallets and their coins,
-- whether the user's change is routed, the explorer, the check of a signature and the relay.
pub record Server (fl : Floats) : Type 0 where
  pub account : Text → Option Text
  pub is_connected : Text → Text → Text → Bool
  pub wallet_network : Text → Text → Option Text
  pub has_coins : Text → List PayjoinInput → Bool
  pub routes_change : Text → Text → Bool
  pub is_unspent : Round fl → Bool
  pub is_signed : Round fl → Text → Bool
  pub relays : Round fl → Bool

abbrev pub plan_refused : Result PlanError Amounts → Result Refused Amounts
plan_refused (ok a) = ok a
plan_refused (err e) = err (bad_plan e)

abbrev pub turn_refused : Result TurnError (Unit {0}) → Result Refused (Unit {0})
turn_refused (ok u) = ok tt
turn_refused (err e) = err (not_your_turn e)

abbrev pub or_refuse : {A : Type 0} → Option A → Refused → Result Refused A
or_refuse (some a) e = ok a
or_refuse none e = err e

-- Whether a script came with the request; an empty one did not.
abbrev pub is_given : Option Text → Bool
is_given none = false
is_given (some s) = not (is_empty s)

abbrev pub wire_refused : {A : Type 0} → Result WireError A → Result Refused A
wire_refused (ok a) = ok a
wire_refused (err e) = err (bad_request e)

-- Whether a script that came with the request is one.
abbrev pub is_spk : Option Text → Bool
is_spk none = false
is_spk (some s) = is_p2tr_spk s

-- `{…} & {…}` on lower-case ids.
abbrev pub overlaps : List PayjoinInput → List PayjoinInput → Bool
overlaps xs ys = any (λ x. any (λ y. key_eq (lower x.txid, x.vout) (lower y.txid, y.vout)) ys) xs

abbrev pub is_a : Text → Bool
is_a role = text_eq role (codes "a")

abbrev pub has_a_change : Option Amounts → Bool
has_a_change none = false
has_a_change (some a) = not (a.a_change == 0)

-- The status that a side's signature leads to.
abbrev pub signed_status : Text → Status
signed_status role = if is_a role then a_signed else broadcast

module _ {fl : Floats} where
  -- `id` is the primary key.
  unfoldable pub get_tango_round : Text → List (Round fl) → Option (Round fl)
  get_tango_round rid [] = none
  get_tango_round rid (r ∷ rest) =
      let later = get_tango_round rid rest in if text_eq r.id rid then some r else later

  unfoldable pub update_tango_round : Text → Round fl → List (Round fl) → List (Round fl)
  update_tango_round rid new [] = []
  update_tango_round rid new (r ∷ rest) =
      let later = update_tango_round rid new rest in
      if text_eq r.id rid then new ∷ rest else r ∷ later

  unfoldable pub tango_role : Round fl → Text → Option Text
  tango_role r uid =
      if text_eq r.a_user_id uid
      then some (codes "a")
      else if is_user r.b_user_id uid
      then some (codes "b")
      else none

  -- `_refuse_tango_reserved`
  abbrev pub refuse_reserved :
      Text → List PayjoinInput → List (Round fl) → Result Refused (Unit {0})
  refuse_reserved uid rows rounds =
      refuse_if (not (is_empty (clashing_outpoints rows (get_reserved_tango_outpoints uid rounds))))
        coins_reserved

  module _ (server : Server fl) where
    unfoldable pub propose :
        (rid uid wallet partner : Text) (now denom : ℕ) (rate : fl.Rate) (pieces : ℤ)
        (sent_rows : List WireInput) (rounds : List (Round fl))
        → Result Refused (List (Round fl))
    propose rid uid wallet partner now denom rate pieces sent_rows rounds = do
      network ← or_refuse (server.wallet_network uid wallet) not_found
      other ← or_refuse (server.account partner) no_such_user
      refuse_if (text_eq other uid) with_yourself
      refuse_if (not (server.is_connected uid other network)) not_connected
      rows ← wire_refused (validate_wire_inputs sent_rows)
      refuse_if (not (server.has_coins wallet rows)) bad_coins
      refuse_reserved uid rows rounds
      planned ← plan_refused (plan fl rows rows denom rate pieces)
      ok (
          rounds
          ++ (record {
            id = rid;
            status = proposed;
            network = network;
            a_user_id = uid;
            b_user_id = some other;
            denom_sats = denom;
            fee_rate = rate;
            pieces = pieces;
            a_inputs = rows;
            b_inputs = [];
            a_payout = server.routes_change uid network;
            amounts = none;
            expires_at = some (now + expiry_seconds);
            reject_reason = none;
          })
            ∷ [])

    unfoldable pub accept :
        (rid uid wallet : Text) (now : ℕ) (mix_spks : List Text) (change_spk : Option Text)
        (sent_rows : List WireInput) (rounds : List (Round fl))
        → Result Refused (List (Round fl))
    accept rid uid wallet now mix_spks change_spk sent_rows rounds = do
      rnd ← or_refuse (get_tango_round rid rounds) not_found
      refuse_if (not (is_user rnd.b_user_id uid)) not_found
      turn_refused (require_turn rnd.status (codes "b"))
      refuse_if (is_expired rnd.status rnd.expires_at now) gone
      network ← or_refuse (server.wallet_network uid wallet) not_found
      refuse_if (not (text_eq network rnd.network)) wrong_network
      rows ← wire_refused (validate_wire_inputs sent_rows)
      refuse_if (is_given change_spk && not (is_spk change_spk)) (bad_request bad_spk)
      mix ← wire_refused (tango_mix_spks mix_spks rnd.pieces)
      refuse_if (not (server.has_coins wallet rows)) bad_coins
      refuse_reserved uid rows rounds
      refuse_if (overlaps rows rnd.a_inputs) coin_on_both_sides
      amounts ← plan_refused (plan fl rnd.a_inputs rows rnd.denom_sats rnd.fee_rate rnd.pieces)
      refuse_if (server.routes_change uid rnd.network && is_given change_spk) change_script_is_ours
      refuse_if
          (not (server.routes_change uid rnd.network)
            && not (amounts.b_change == 0)
            && not (is_given change_spk))
          change_script_missing
      ok (
          update_tango_round rid
            (record rnd { status = accepted; b_inputs = rows; amounts = some amounts }) rounds)

    unfoldable pub sign :
        (rid uid : Text) (now : ℕ) (mix_spks : List Text) (change_spk : Option Text)
        (rounds : List (Round fl))
        → Result Refused (List (Round fl))
    sign rid uid now mix_spks change_spk rounds = do
      rnd ← or_refuse (get_tango_round rid rounds) not_found
      role ← or_refuse (tango_role rnd uid) not_found
      turn_refused (require_turn rnd.status role)
      refuse_if (is_expired rnd.status rnd.expires_at now) gone
      refuse_if (not (server.is_unspent rnd)) coins_spent
      refuse_if (is_a role && rnd.a_payout && is_given change_spk) change_script_is_ours
      refuse_if
          (is_a role && not rnd.a_payout && has_a_change rnd.amounts && not (is_spk change_spk))
          (bad_request bad_spk)
      mix ← if is_a role then wire_refused (tango_mix_spks mix_spks rnd.pieces) else ok []
      refuse_if (not (server.is_signed rnd role)) bad_signature
      refuse_if (not (is_a role) && not (server.relays rnd)) not_relayed
      ok (update_tango_round rid (record rnd { status = signed_status role }) rounds)

  unfoldable pub cancel :
      (rid uid : Text) (rounds : List (Round fl)) → Result Refused (List (Round fl))
  cancel rid uid rounds = do
    rnd ← or_refuse (get_tango_round rid rounds) not_found
    role ← or_refuse (tango_role rnd uid) not_found
    refuse_if (not (can_cancel rnd.status)) already_over
    ok (
        update_tango_round rid
          (record rnd { status = cancelled; reject_reason = cancelled_by role }) rounds)

  -- `status IN (…) AND expires_at <= now`: what the sweep closes.
  unfoldable pub is_due : ℕ → Round fl → Bool
  is_due now r = can_cancel r.status && elim r.expires_at [ none ↦ false | some t ↦ leb t now ]

  unfoldable pub expire : Round fl → Round fl
  expire r = record r { status = cancelled; reject_reason = some expired }

  -- `run_tango_sweep`, where no more are due than its limit.
  unfoldable pub run_tango_sweep : ℕ → List (Round fl) → List (Round fl)
  run_tango_sweep now rounds = map (λ r. if is_due now r then expire r else r) rounds
