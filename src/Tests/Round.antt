-- ===== src/Tests/Round.antt =====
-- A round from its offer to its cancellation, at one satoshi a vbyte.
use si_lnt.Prelude.{
  replicate, ◌++◌, map, ℕ, ◌≡◌, ◌≢◌, refl, true, false, none, some, [], ◌∷◌, sum_of, ok,
}
use si_lnt.Prelude.Int.{pos}
use si_lnt.Prelude.Text.{Text, codes, strip, lower}
use si_lnt.Floats.{milli, milli_mul}
use si_lnt.TxSize.{estimate_vsize, fee_for}
use si_lnt.Payjoin.Inputs.{PayjoinInput}
use si_lnt.Payjoin.Wire.{
  WireInput, validate_wire_inputs, validate_each, validate_wire_input, hex_run, tango_mix_spks,
}
use si_lnt.Tango.Plan.{plan, split_fee, pieces_of, estimate, price, reprice, settle, settle_fees}
use si_lnt.Tango.Turns.{
  proposed, accepted, a_signed, cancelled, whose_turn, require_turn, is_expired, can_cancel,
  cancelled_by,
}
use si_lnt.Tango.Plan.Conservation.{IsBalanced}
use si_lnt.Tango.Round.Reserve.{
  Round, clashing_outpoints, get_reserved_tango_outpoints, held_by, outpoint_key, has_key, keys_of,
}
use si_lnt.Tango.Round.Handlers.{
  Server, propose, accept, sign, cancel, get_tango_round, update_tango_round, tango_role, overlaps,
  run_tango_sweep,
}
use si_lnt.Tango.Round.Hold.{IsReserved}
use si_lnt.Tango.Round.Exclusive.{proposes, accepts, sweeps, Reach, here, next, Reach-IsReserved}
use si_lnt.Tango.Round.Planned.{stored-IsBalanced}
use si_lnt.Tango.Round.Freed.{as_partner, cancel_frees, held_refused}
use si_lnt.Tango.Round.Final.{over_forever}

abbrev server : Server milli
server = record {
  account = λ name. some name;
  is_connected = λ a b n. true;
  wallet_network = λ u w. some (codes "signet");
  has_coins = λ w rows. true;
  routes_change = λ u n. false;
  is_unspent = λ r. true;
  is_signed = λ r role. true;
  relays = λ r. true;
}

-- Sixty-four times the same hexadecimal digit, in both letter cases.
abbrev digits : Text
digits = replicate 64 b'A'

abbrev low_digits : Text
low_digits = replicate 64 b'a'

abbrev sent : ℕ → ℕ → WireInput
sent vout amount = record { txid = digits; vout = pos vout; pub_key = digits; amount = pos amount }

abbrev coin : ℕ → ℕ → PayjoinInput
coin vout amount = record { txid = digits; vout = vout; amount = amount; pub_key = digits }

abbrev script : Text
script = codes "5120" ++ digits

-- A newline at the end hides that two scripts are the same.
same_address_twice :
    tango_mix_spks (script ∷ (script ++ 10 ∷ []) ∷ []) (pos 2)
    ≡ ok (map lower (script ∷ (script ++ 10 ∷ []) ∷ []))
unfolding tango_mix_spks hex_run lower
same_address_twice = refl

abbrev offered : Round milli
offered = record {
  id = codes "r";
  status = proposed;
  network = codes "signet";
  a_user_id = codes "ann";
  b_user_id = some (codes "bob");
  denom_sats = 13000;
  fee_rate = 1000;
  pieces = pos 1;
  a_inputs = coin 0 13749 ∷ [];
  b_inputs = [];
  a_payout = false;
  amounts = none;
  expires_at = some 86401;
  reject_reason = none;
}

abbrev matched : Round milli
matched = record offered {
  status = accepted;
  b_inputs = coin 1 15930 ∷ [];
  amounts = some (record {
    denom = 13000;
    pieces = 1;
    share = 13000;
    a_in = 13749;
    b_in = 15930;
    a_change = 600;
    b_change = 2781;
    a_fee = 149;
    b_fee = 149;
    fee = 298;
    vsize = 298;
    clean = false;
  });
}

offer :
    propose server
      (codes "r")
      (codes "ann")
      (codes "w")
      (codes "bob")
      1
      13000
      1000
      (pos 1)
      (sent 0 13749 ∷ [])
      []
    ≡ ok (offered ∷ [])
unfolding propose validate_wire_inputs validate_each validate_wire_input hex_run plan settle_fees
    settle reprice price estimate split_fee pieces_of estimate_vsize fee_for milli_mul
    clashing_outpoints get_reserved_tango_outpoints
offer = refl

match :
    accept server
      (codes "r")
      (codes "bob")
      (codes "v")
      2
      (script ∷ [])
      (some script)
      (sent 1 15930 ∷ [])
      (offered ∷ [])
    ≡ ok (matched ∷ [])
unfolding accept validate_wire_inputs validate_each validate_wire_input hex_run tango_mix_spks plan
    settle_fees settle reprice price estimate split_fee pieces_of estimate_vsize fee_for milli_mul
    clashing_outpoints get_reserved_tango_outpoints get_tango_round update_tango_round require_turn
    whose_turn is_expired held_by outpoint_key lower strip
match = refl

approve :
    sign server (codes "r") (codes "ann") 3 (script ∷ []) (some script) (matched ∷ [])
    ≡ ok (record matched { status = a_signed } ∷ [])
unfolding sign tango_mix_spks hex_run lower get_tango_round update_tango_round require_turn
    whose_turn is_expired tango_role
approve = refl

-- Behind A's signature the round waits for B, and B may match it again, with another coin: the
-- coins that A signed for are not those of the round any more.
matched_again :
    accept server
      (codes "r")
      (codes "bob")
      (codes "v")
      4
      (script ∷ [])
      (some script)
      (sent 2 15930 ∷ [])
      (record matched { status = a_signed } ∷ [])
    ≡ ok (record matched { b_inputs = coin 2 15930 ∷ [] } ∷ [])
unfolding accept validate_wire_inputs validate_each validate_wire_input hex_run tango_mix_spks plan
    settle_fees settle reprice price estimate split_fee pieces_of estimate_vsize fee_for milli_mul
    clashing_outpoints get_reserved_tango_outpoints get_tango_round update_tango_round require_turn
    whose_turn is_expired held_by outpoint_key lower strip
matched_again = refl

abbrev ended : Round milli
ended = record matched { status = cancelled; reject_reason = some (codes "cancelled by b") }

stop : cancel (codes "r") (codes "bob") (matched ∷ []) ≡ ok (ended ∷ [])
unfolding cancel get_tango_round update_tango_round tango_role can_cancel cancelled_by
stop = refl

reached : Reach server [] (matched ∷ [])
reached =
    next
      (next here (
        proposes (codes "r") (codes "ann") (codes "w") (codes "bob") 1 13000 1000 (pos 1)
          (sent 0 13749 ∷ []) offer))
      (accepts (codes "r") (codes "bob") (codes "v") 2 (script ∷ []) (some script)
        (sent 1 15930 ∷ []) match)

there : get_tango_round (codes "r") (matched ∷ []) ≡ some matched
unfolding get_tango_round
there = refl

Reach-IsReserved_example : IsReserved (matched ∷ [])
Reach-IsReserved_example = Reach-IsReserved server reached

stored-IsBalanced_example :
    IsBalanced (record {
      denom = 13000;
      pieces = 1;
      share = 13000;
      a_in = 13749;
      b_in = 15930;
      a_change = 600;
      b_change = 2781;
      a_fee = 149;
      b_fee = 149;
      fee = 298;
      vsize = 298;
      clean = false;
    })
    × (13749 ≡ sum_of (λ i. i.amount) matched.a_inputs)
    × (15930 ≡ sum_of (λ i. i.amount) matched.b_inputs)
    × (13000 ≡ matched.denom_sats)
    × (overlaps matched.b_inputs matched.a_inputs ≡ false)
stored-IsBalanced_example = stored-IsBalanced server (codes "r") matched _ reached there refl

found_ended : get_tango_round (codes "r") (ended ∷ []) ≡ some ended
unfolding get_tango_round
found_ended = refl

held : has_key (low_digits, 1) (held_by (codes "bob") matched) ≡ true
unfolding held_by outpoint_key lower strip
held = refl

cancel_frees_example :
    has_key (low_digits, 1) (get_reserved_tango_outpoints (codes "bob") (ended ∷ [])) ≡ false
cancel_frees_example =
    cancel_frees server (codes "r") (codes "bob") (codes "bob") matched (low_digits, 1) reached
      there held stop

asked_for : has_key (low_digits, 1) (keys_of (coin 1 15930 ∷ [])) ≡ true
unfolding outpoint_key lower strip
asked_for = refl

read_coin : validate_wire_inputs (sent 1 15930 ∷ []) ≡ ok (coin 1 15930 ∷ [])
unfolding validate_wire_inputs validate_each validate_wire_input hex_run
read_coin = refl

held_refused_example :
    (propose server
        (codes "q")
        (codes "bob")
        (codes "v")
        (codes "ann")
        5
        13000
        1000
        (pos 1)
        (sent 1 15930 ∷ [])
        (matched ∷ [])
      ≢ ok [])
    × (accept server
          (codes "q")
          (codes "bob")
          (codes "v")
          5
          []
          none
          (sent 1 15930 ∷ [])
          (matched ∷ [])
        ≢ ok [])
held_refused_example =
    held_refused server (codes "q") (codes "bob") (codes "v") (codes "ann") 5 13000 1000 (pos 1) []
      none (sent 1 15930 ∷ []) (coin 1 15930 ∷ []) (matched ∷ []) [] (low_digits, 1) (codes "r")
      matched read_coin asked_for there (λ e. cc e) (as_partner refl asked_for)

over_forever_example : get_tango_round (codes "r") (run_tango_sweep 99999 (ended ∷ [])) ≡ some ended
over_forever_example =
    over_forever server {s = ended ∷ []} (codes "r") ended refl found_ended
      (next here (sweeps 99999 (ended ∷ [])))
