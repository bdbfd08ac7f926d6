-- ===== src/Tango/Round/Inversion.antt =====
-- What a handler that went through has found and tested, and what it has made of the table.
use si_lnt.Prelude.{
  not-false, if◌then◌else◌, ok_inj, ℕ, ◌≡◌, refl, sym, ap, true, false, not, Option, none, some,
  List, [], ◌∷◌, ◌++◌, Result, ok, err, >>=-eq-ok, refuse_if-eq-ok,
}
use si_lnt.Prelude.Text.{Text, codes, text_eq}
use si_lnt.Prelude.Int.{ℤ}
use si_lnt.Floats.{Floats}
use si_lnt.Payjoin.Inputs.{PayjoinInput}
use si_lnt.Payjoin.Wire.{WireInput, WireError, bad_spk, validate_wire_inputs, tango_mix_spks}
use si_lnt.Tango.Plan.{Amounts, PlanError, plan}
use si_lnt.Tango.Turns.{
  Status, is_terminal, proposed, accepted, a_signed, broadcast, cancelled, require_turn,
  cancelled_by, can_cancel,
}
use si_lnt.Tango.Round.Reserve.{Round, clashing_outpoints, get_reserved_tango_outpoints, is_user}
use si_lnt.Tango.Round.Handlers.{
  is_a, wire_refused, bad_request, Server, not_found, no_such_user, with_yourself, not_connected,
  wrong_network, bad_coins, coin_on_both_sides, gone, coins_spent, change_script_is_ours,
  change_script_missing, bad_signature, not_relayed, already_over, propose, accept, sign, cancel,
  get_tango_round, update_tango_round, tango_role, plan_refused, turn_refused, signed_status,
  overlaps,
}
use si_lnt.Tango.Round.Hold.{found, turn-open, refuse_reserved-eq-ok}

plan_refused-eq-ok : (p : Result PlanError Amounts) {a : Amounts} → plan_refused p ≡ ok a → p ≡ ok a
plan_refused-eq-ok (ok a) h = let e : a ≡ _ = ok_inj h in ap ok e
plan_refused-eq-ok (err e) h = cc

open_of : (status : Status) → not (can_cancel status) ≡ false → is_terminal status ≡ false
unfolding can_cancel
open_of proposed h = refl
open_of accepted h = refl
open_of a_signed h = refl
open_of broadcast h = cc
open_of cancelled h = cc

wire_refused-eq-ok :
    {A : Type 0} (p : Result WireError A) {a : A} → wire_refused p ≡ ok a → p ≡ ok a
wire_refused-eq-ok (ok a) h = let e : a ≡ _ = ok_inj h in ap ok e
wire_refused-eq-ok (err e) h = cc

module _ {fl : Floats} where
  pub propose-inv :
      (server : Server fl) (rid uid wallet partner : Text) (now denom : ℕ) (rate : fl.Rate)
      (pieces : ℤ) (sent_rows : List WireInput) (s : List (Round fl)) {t : List (Round fl)}
      → propose server rid uid wallet partner now denom rate pieces sent_rows s ≡ ok t
      → (rows : List PayjoinInput) × (new : Round fl) × (validate_wire_inputs sent_rows ≡ ok rows)
        × (t ≡ s ++ new ∷ [])
        × (new.a_user_id ≡ uid)
        × (new.a_inputs ≡ rows)
        × (new.b_inputs ≡ [])
        × (new.amounts ≡ none)
        × (clashing_outpoints rows (get_reserved_tango_outpoints uid s) ≡ [])
  unfolding propose
  propose-inv server rid uid wallet partner now denom rate pieces sent_rows s h =
      let (network, _, h1) = found (server.wallet_network uid wallet) not_found _ h in
      let (other, _, h2) = found (server.account partner) no_such_user _ h1 in
      let (_, h3) = refuse_if-eq-ok (text_eq other uid) with_yourself _ h2 in
      let (_, h4) =
        refuse_if-eq-ok (not (server.is_connected uid other network)) not_connected _ h3 in
      let (rows, sent, h4b) = >>=-eq-ok (wire_refused (validate_wire_inputs sent_rows)) _ h4 in
      let (_, h5) = refuse_if-eq-ok (not (server.has_coins wallet rows)) bad_coins _ h4b in
      let (free, h6) = refuse_reserved-eq-ok uid rows s _ h5 in
      let (_, _, h7) = >>=-eq-ok (plan_refused (plan fl rows rows denom rate pieces)) _ h6 in
      (rows, _, wire_refused-eq-ok _ sent, sym (ok_inj h7), refl, refl, refl, refl, free)

  pub accept-inv :
      (server : Server fl) (rid uid wallet : Text) (now : ℕ) (mix_spks : List Text)
      (change_spk : Option Text) (sent_rows : List WireInput) (s : List (Round fl))
      {t : List (Round fl)}
      → accept server rid uid wallet now mix_spks change_spk sent_rows s ≡ ok t
      → (rows : List PayjoinInput) × (rnd : Round fl) × (amounts : Amounts) × (validate_wire_inputs
            sent_rows
          ≡ ok rows)
        × (get_tango_round rid s ≡ some rnd)
        × (is_user rnd.b_user_id uid ≡ true)
        × (is_terminal rnd.status ≡ false)
        × (clashing_outpoints rows (get_reserved_tango_outpoints uid s) ≡ [])
        × (overlaps rows rnd.a_inputs ≡ false)
        × (plan fl rnd.a_inputs rows rnd.denom_sats rnd.fee_rate rnd.pieces ≡ ok amounts)
        × (t
            ≡ update_tango_round rid
                (record rnd { status = accepted; b_inputs = rows; amounts = some amounts })
                s)
  unfolding accept
  accept-inv server rid uid wallet now mix_spks change_spk sent_rows s h =
      let (rnd, at, h1) = found (get_tango_round rid s) not_found _ h in
      let (mine, h2) = refuse_if-eq-ok (not (is_user rnd.b_user_id uid)) not_found _ h1 in
      let (_, turn, h3) = >>=-eq-ok (turn_refused (require_turn rnd.status (codes "b"))) _ h2 in
      let (_, h4) = refuse_if-eq-ok _ gone _ h3 in
      let (network, _, h5) = found (server.wallet_network uid wallet) not_found _ h4 in
      let (_, h6) = refuse_if-eq-ok _ wrong_network _ h5 in
      let (rows, sent, h6b) = >>=-eq-ok (wire_refused (validate_wire_inputs sent_rows)) _ h6 in
      let (_, h6c) = refuse_if-eq-ok _ (bad_request bad_spk) _ h6b in
      let (_, _, h6d) = >>=-eq-ok (wire_refused (tango_mix_spks mix_spks rnd.pieces)) _ h6c in
      let (_, h7) = refuse_if-eq-ok _ bad_coins _ h6d in
      let (free, h8) = refuse_reserved-eq-ok uid rows s _ h7 in
      let (apart, h9) = refuse_if-eq-ok _ coin_on_both_sides _ h8 in
      let planned = plan fl rnd.a_inputs rows rnd.denom_sats rnd.fee_rate rnd.pieces in
      let (amounts, pays, h10) = >>=-eq-ok (plan_refused planned) _ h9 in
      let (_, h11) = refuse_if-eq-ok _ change_script_is_ours _ h10 in
      let (_, h12) = refuse_if-eq-ok _ change_script_missing _ h11 in
      (
        rows,
        rnd,
        amounts,
        wire_refused-eq-ok _ sent,
        at,
        not-false _ mine,
        turn-open rnd.status (codes "b") turn,
        free,
        apart,
        plan_refused-eq-ok planned pays,
        sym (ok_inj h12),
      )

  pub sign-inv :
      (server : Server fl) (rid uid : Text) (now : ℕ) (mix_spks : List Text)
      (change_spk : Option Text) (s : List (Round fl)) {t : List (Round fl)}
      → sign server rid uid now mix_spks change_spk s ≡ ok t
      → (rnd : Round fl) × (role : Text) × (get_tango_round rid s ≡ some rnd)
        × (is_terminal rnd.status ≡ false)
        × (t ≡ update_tango_round rid (record rnd { status = signed_status role }) s)
  unfolding sign
  sign-inv server rid uid now mix_spks change_spk s h =
      let (rnd, at, h1) = found (get_tango_round rid s) not_found _ h in
      let (role, _, h2) = found (tango_role rnd uid) not_found _ h1 in
      let (_, turn, h3) = >>=-eq-ok (turn_refused (require_turn rnd.status role)) _ h2 in
      let (_, h4) = refuse_if-eq-ok _ gone _ h3 in
      let (_, h5) = refuse_if-eq-ok _ coins_spent _ h4 in
      let (_, h5a) = refuse_if-eq-ok _ change_script_is_ours _ h5 in
      let (_, h5b) = refuse_if-eq-ok _ (bad_request bad_spk) _ h5a in
      let (_, _, h5c) =
        >>=-eq-ok (if is_a role then wire_refused (tango_mix_spks mix_spks rnd.pieces) else ok []) _
          h5b in
      let (_, h6) = refuse_if-eq-ok _ bad_signature _ h5c in
      let (_, h7) = refuse_if-eq-ok _ not_relayed _ h6 in
      (rnd, role, at, turn-open rnd.status role turn, sym (ok_inj h7))

  pub cancel-inv :
      (rid uid : Text) (s : List (Round fl)) {t : List (Round fl)}
      → cancel rid uid s ≡ ok t
      → (rnd : Round fl) × (role : Text) × (get_tango_round rid s ≡ some rnd)
        × (is_terminal rnd.status ≡ false)
        × (t
            ≡ update_tango_round rid
                (record rnd { status = cancelled; reject_reason = cancelled_by role })
                s)
  unfolding cancel
  cancel-inv rid uid s h =
      let (rnd, at, h1) = found (get_tango_round rid s) not_found _ h in
      let (role, _, h2) = found (tango_role rnd uid) not_found _ h1 in
      let (may, h3) = refuse_if-eq-ok (not (can_cancel rnd.status)) already_over _ h2 in
      (rnd, role, at, open_of rnd.status may, sym (ok_inj h3))
