-- ===== src/Tango/Round/Freed.antt =====
-- What holds a coin, and what gives it back.
use si_lnt.Prelude.{
  ok_inj, Result, ℕ, ◌≡◌, ◌≢◌, refl, sym, ◌∙◌, arith, true, false, Bool-cases, or_right, inl, inr,
  ◌∷◌, Option, some, List, [], ok,
}
use si_lnt.Prelude.Text.{Text, text_eq, text_eq_refl}
use si_lnt.Prelude.Int.{ℤ}
use si_lnt.Payjoin.Wire.{WireInput, WireError, validate_wire_inputs}
use si_lnt.Floats.{Floats}
use si_lnt.Payjoin.Inputs.{PayjoinInput}
use si_lnt.Tango.Turns.{Status, proposed, accepted, a_signed, broadcast, cancelled, cancelled_by}
use si_lnt.Tango.Round.Reserve.{
  clashing_outpoints, Round, get_reserved_tango_outpoints, holds, held_by, has_key, keys_of,
  no_clash, reserved, is_live, has_key-append,
}
use si_lnt.Tango.Round.Handlers.{Server, propose, accept, accept, cancel, get_tango_round}
use si_lnt.Tango.Round.Inversion.{propose-inv, accept-inv, cancel-inv}
use si_lnt.Tango.Round.Hold.{update-holders}
use si_lnt.Tango.Round.Exclusive.{Reach, Reach-IsReserved}

clash_refused :
    (k : Text × ℕ) (rows read : List PayjoinInput) (held : List (Text × ℕ))
    {v : Result WireError (List PayjoinInput)}
    → (v ≡ ok rows) × (v ≡ ok read)
    → has_key k (keys_of rows) ≡ true
    → has_key k held ≡ true
    → clashing_outpoints read held ≢ []
clash_refused k rows read held (a, b) mine taken free =
    let same : rows ≡ read = ok_inj (sym a ∙ b) in
    let unheld = no_clash k read held free (rw (← same) mine) in cc (unheld, taken)

live : (status : Status) → status ≢ cancelled → is_live status ≡ true
live cancelled h = absurd (h refl)
live proposed h = refl
live accepted h = refl
live a_signed h = refl
live broadcast h = refl

module _ {fl : Floats} where
  closed_holds :
      (u : Text) (k : Text × ℕ) (r : Round fl) (why : Option Text)
      → holds u k (record r { status = cancelled; reject_reason = why }) ≡ 0
  unfolding held_by
  closed_holds u k r why = refl

  -- Cancelling gives the coins back: behind whatever has happened, once either side has cancelled
  -- a round, no coin that it held for a user is held for that user any more, by any round.
  pub cancel_frees :
      (server : Server fl) {s t : List (Round fl)} (rid uid u : Text) (r : Round fl) (k : Text × ℕ)
      → Reach server [] s
      → get_tango_round rid s ≡ some r
      → has_key k (held_by u r) ≡ true
      → cancel rid uid s ≡ ok t
      → has_key k (get_reserved_tango_outpoints u t) ≡ false
  cancel_frees server {s = s} {t = t} rid uid u r k reached at held h =
      let (rnd, role, at', _, e) = cancel-inv rid uid s h in
      let same : rnd ≡ r = (let both : some rnd ≡ some r = sym at' ∙ at in cc both) in
      let new = record rnd { status = cancelled; reject_reason = cancelled_by role } in
      let v = Reach-IsReserved server reached in
      let one : holds u k rnd ≡ 1 = rw (same, held) refl in
      rw e (
        reserved u k _ (
          omega (
            arith,
            one,
            update-holders u k rid rnd new s at',
            closed_holds u k rnd (cancelled_by role),
            v.at_coin u k,
          )))

  -- Whether a user has put a coin into a round, as the side that the user is.
  pub data Gives (user : Text) (k : Text × ℕ) (r : Round fl) : Type 0 where
    as_initiator : r.a_user_id ≡ user → has_key k (keys_of r.a_inputs) ≡ true → Gives user k r
    as_partner : r.b_user_id ≡ some user → has_key k (keys_of r.b_inputs) ≡ true → Gives user k r

  Gives-held :
      (user : Text) (k : Text × ℕ) (r : Round fl)
      → r.status ≢ cancelled
      → Gives user k r
      → has_key k (held_by user r) ≡ true
  unfolding held_by
  Gives-held user k r open_still (as_initiator mine there) =
      rw (live r.status open_still, mine, text_eq_refl user)
        (has_key-append k (keys_of r.a_inputs) _ ∙ rw there refl)
  Gives-held user k r open_still (as_partner mine there) =
      rw (live r.status open_still, mine, text_eq_refl user)
        (has_key-append k _ (keys_of r.b_inputs) ∙ or_right _ _ there)

  held-reserved :
      (user rid : Text) (k : Text × ℕ) (rounds : List (Round fl)) (r : Round fl)
      → get_tango_round rid rounds ≡ some r
      → has_key k (held_by user r) ≡ true
      → has_key k (get_reserved_tango_outpoints user rounds) ≡ true
  unfolding get_tango_round get_reserved_tango_outpoints
  held-reserved user rid k [] r at h = cc at
  held-reserved user rid k (first_round ∷ rounds) r at h =
      elim (Bool-cases (text_eq first_round.id rid)) [
        | inl e ↦
            let same : first_round ≡ r = (let both = rw e at at in cc both) in
            has_key-append k (held_by user first_round) _ ∙ rw (same, h) refl
        | inr e ↦
            has_key-append k (held_by user first_round) _
            ∙ or_right _ _ (held-reserved user rid k rounds r (rw e at at) h)
      ]

  -- A coin that a user has put into a round that is not cancelled, as whichever side, is refused to
  -- that user, in an offer and in an answer to one.
  pub held_refused :
      (server : Server fl) (rid uid wallet partner : Text) (now denom : ℕ) (rate : fl.Rate)
      (pieces : ℤ) (mix : List Text) (spk : Option Text) (sent : List WireInput)
      (rows : List PayjoinInput) (s t : List (Round fl)) (k : Text × ℕ) (other : Text)
      (r : Round fl)
      → validate_wire_inputs sent ≡ ok rows
      → has_key k (keys_of rows) ≡ true
      → get_tango_round other s ≡ some r
      → r.status ≢ cancelled
      → Gives uid k r
      → (propose server rid uid wallet partner now denom rate pieces sent s ≢ ok t)
        × (accept server rid uid wallet now mix spk sent s ≢ ok t)
  held_refused server rid uid wallet partner now denom rate pieces mix spk sent rows s t k other r
        reads mine at open_still gives =
      let held = held-reserved uid other k s r at (Gives-held uid k r open_still gives) in
      (
        (λ h.
            let (read, new, got, e, _, _, _, _, free) =
              propose-inv server rid uid wallet partner now denom rate pieces sent s h in
            clash_refused k rows read _ (reads, got) mine held free),
        (λ h.
            let (read, rnd, amounts, got, _, _, _, free, _, _, e) =
              accept-inv server rid uid wallet now mix spk sent s h in
            clash_refused k rows read _ (reads, got) mine held free),
      )
