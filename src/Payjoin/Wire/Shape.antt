-- ===== src/Payjoin/Wire/Shape.antt =====
-- What is known of the coins that a party sent.
use si_lnt.Prelude.{
  is_empty, not-false, zero, ℕ, suc, ◌≡◌, ◌≢◌, refl, sym, arith, Bool, true, false, List, [], ◌∷◌,
  ok, >>=-eq-ok, refuse_if-eq-ok, all, ◌&&◌, leb, not, ap, length, ok_inj,
}
use si_lnt.Prelude.Int.{ℤ, pos, negsuc}
use si_lnt.Payjoin.Inputs.{PayjoinInput}
use si_lnt.Payjoin.Wire.{
  WireInput, bad_txid, bad_pub_key, no_coin_sent, listed_twice, is_hex64, vout_of, amount_of,
  validate_wire_input, validate_each, validate_wire_inputs, has_twice,
}

abbrev pub is_well_formed : PayjoinInput → Bool
is_well_formed i = is_hex64 i.txid && (is_hex64 i.pub_key && leb 1 i.amount)

amount_of-pos : (n : ℤ) {m : ℕ} → amount_of n ≡ ok m → leb 1 m ≡ true
amount_of-pos (pos zero) h = cc
amount_of-pos (pos (suc n)) {m = m} h = let e : suc n ≡ m = ok_inj h in ground (arith, e)
amount_of-pos (negsuc n) h = cc

read_well :
    (i : WireInput) {row : PayjoinInput}
    → validate_wire_input i ≡ ok row
    → is_well_formed row ≡ true
unfolding validate_wire_input
read_well i h =
    let (txid, h1) = refuse_if-eq-ok (not (is_hex64 i.txid)) bad_txid _ h in
    let (vout, _, h2) = >>=-eq-ok (vout_of i.vout) _ h1 in
    let (key, h3) = refuse_if-eq-ok (not (is_hex64 i.pub_key)) bad_pub_key _ h2 in
    let (amount, some_sats, h4) = >>=-eq-ok (amount_of i.amount) _ h3 in
    rw (sym (ok_inj h4))
      (rw (not-false _ txid, not-false _ key, amount_of-pos i.amount some_sats) refl)

each_well :
    (sent : List WireInput) (rows : List PayjoinInput)
    → validate_each sent ≡ ok rows
    → (all is_well_formed rows ≡ true) × (length rows ≡ length sent)
unfolding validate_each
each_well [] rows h = rw (sym (ok_inj h)) (refl, refl)
each_well (i ∷ sent) rows h =
    let (row, read, h1) = >>=-eq-ok (validate_wire_input i) _ h in
    let (rest, later, h2) = >>=-eq-ok (validate_each sent) _ h1 in
    let (well, long) = each_well sent rest later in
    rw (sym (ok_inj h2)) (rw (read_well i read, well) refl, ap suc long)

not_none :
    (sent : List WireInput) (read : List PayjoinInput)
    → is_empty sent ≡ false
    → length read ≡ length sent
    → read ≢ []
not_none [] read e long h = cc
not_none (i ∷ sent) [] e long h = omega (arith, long)
not_none (i ∷ sent) (x ∷ read) e long h = cc

-- What `validate_wire_inputs` lets through is at least one coin, each with a transaction and a key
-- of 64 hex digits (and at most a newline behind them) and an amount above zero, and none twice.
pub validate_wire_inputs_lem :
    (sent : List WireInput) (rows : List PayjoinInput)
    → validate_wire_inputs sent ≡ ok rows
    → (rows ≢ []) × (all is_well_formed rows ≡ true) × (has_twice rows ≡ false)
unfolding validate_wire_inputs
validate_wire_inputs_lem sent rows h =
    let (some_coin, h1) = refuse_if-eq-ok (is_empty sent) no_coin_sent _ h in
    let (read, each, h2) = >>=-eq-ok (validate_each sent) _ h1 in
    let (once, h3) = refuse_if-eq-ok (has_twice read) listed_twice _ h2 in
    let (well, long) = each_well sent read each in
    rw (sym (ok_inj h3)) ((λ none_read. not_none sent read some_coin long none_read), well, once)
