-- ===== src/Tango/Round/Exclusive.antt =====
-- No coin is in two live rounds.
use si_lnt.Prelude.{ℕ, ◌≤◌, ◌≡◌, arith, Option, some, List, [], ◌∷◌, ok, Bool-cases, inl, inr}
use si_lnt.Prelude.Text.{Text}
use si_lnt.Prelude.Int.{ℤ}
use si_lnt.Floats.{Floats}
use si_lnt.Payjoin.Wire.{WireInput}
use si_lnt.Tango.Turns.{cancelled_by, expired}
use si_lnt.Tango.Round.Reserve.{Round, holders}
use si_lnt.Tango.Round.Handlers.{
  Server, propose, accept, sign, cancel, run_tango_sweep, signed_status, expire, is_due,
}
use si_lnt.Tango.Round.Hold.{
  open_live, IsReserved, update-IsReserved, moved-le, closed-le, offered-IsReserved,
  joined-IsReserved,
}
use si_lnt.Tango.Round.Inversion.{propose-inv, accept-inv, sign-inv, cancel-inv}

module _ {fl : Floats} where
  -- A proposed round adds the coins of its one side, which none holds.
  propose-IsReserved :
      (server : Server fl) (rid uid wallet partner : Text) (now denom : ℕ) (rate : fl.Rate)
      (pieces : ℤ) (sent : List WireInput) (s : List (Round fl)) {t : List (Round fl)}
      → propose server rid uid wallet partner now denom rate pieces sent s ≡ ok t
      → IsReserved s
      → IsReserved t
  propose-IsReserved server rid uid wallet partner now denom rate pieces sent s h v =
      let (rows, new, _, e, user, mine, alone, _, free) =
        propose-inv server rid uid wallet partner now denom rate pieces sent s h in
      rw e (offered-IsReserved new s alone (rw (user, mine) free) v)

  -- B's coins are held by no other round, and A's stay what they were.
  accept-IsReserved :
      (server : Server fl) (rid uid wallet : Text) (now : ℕ) (mix_spks : List Text)
      (change_spk : Option Text) (sent : List WireInput) (s : List (Round fl)) {t : List (Round fl)}
      → accept server rid uid wallet now mix_spks change_spk sent s ≡ ok t
      → IsReserved s
      → IsReserved t
  accept-IsReserved server rid uid wallet now mix_spks change_spk sent s h v =
      let (rows, rnd, amounts, _, at, mine, live, free, _, _, e) =
        accept-inv server rid uid wallet now mix_spks change_spk sent s h in
      rw e (joined-IsReserved rid uid rnd rows (some amounts) s at mine (open_live _ live) free v)

  -- A side's signature moves the status and no coin.
  sign-IsReserved :
      (server : Server fl) (rid uid : Text) (now : ℕ) (mix_spks : List Text)
      (change_spk : Option Text) (s : List (Round fl)) {t : List (Round fl)}
      → sign server rid uid now mix_spks change_spk s ≡ ok t
      → IsReserved s
      → IsReserved t
  sign-IsReserved server rid uid now mix_spks change_spk s h v =
      let (rnd, role, at, live, e) = sign-inv server rid uid now mix_spks change_spk s h in
      rw e (
        update-IsReserved rid rnd _ s at
          (λ u k. inl (moved-le u k rnd (signed_status role) rnd.reject_reason (open_live _ live)))
          v)

  cancel-IsReserved :
      (rid uid : Text) (s : List (Round fl)) {t : List (Round fl)}
      → cancel rid uid s ≡ ok t
      → IsReserved s
      → IsReserved t
  cancel-IsReserved rid uid s h v =
      let (rnd, role, at, _, e) = cancel-inv rid uid s h in
      rw e (update-IsReserved rid rnd _ s at (λ u k. inl (closed-le u k rnd (cancelled_by role))) v)

  sweep-le :
      (now : ℕ) (u : Text) (k : Text × ℕ) (s : List (Round fl))
      → holders u k (run_tango_sweep now s) ≤ holders u k s
  unfolding run_tango_sweep expire
  sweep-le now u k [] = omega arith
  sweep-le now u k (r ∷ s) = elim (Bool-cases (is_due now r)) [
    | inl e ↦ rw e (omega (arith, sweep-le now u k s, closed-le u k r (some expired)))
    | inr e ↦ rw e (omega (arith, sweep-le now u k s))
  ]

  -- What changes the table of rounds.
  pub data Step (server : Server fl) : List (Round fl) → List (Round fl) → Type 0 where
    proposes :
        (rid uid wallet partner : Text) (now denom : ℕ) (rate : fl.Rate) (pieces : ℤ)
        (sent : List WireInput) {s t : List (Round fl)}
        → propose server rid uid wallet partner now denom rate pieces sent s ≡ ok t
        → Step server s t
    accepts :
        (rid uid wallet : Text) (now : ℕ) (mix_spks : List Text) (change_spk : Option Text)
        (sent : List WireInput) {s t : List (Round fl)}
        → accept server rid uid wallet now mix_spks change_spk sent s ≡ ok t
        → Step server s t
    signs :
        (rid uid : Text) (now : ℕ) (mix_spks : List Text) (change_spk : Option Text)
        {s t : List (Round fl)}
        → sign server rid uid now mix_spks change_spk s ≡ ok t
        → Step server s t
    cancels : (rid uid : Text) {s t : List (Round fl)} → cancel rid uid s ≡ ok t → Step server s t
    sweeps : (now : ℕ) (s : List (Round fl)) → Step server s (run_tango_sweep now s)

  pub data Reach (server : Server fl) (s : List (Round fl)) : List (Round fl) → Type 0 where
    here : Reach server s s
    next : {t u : List (Round fl)} → Reach server s t → Step server t u → Reach server s u

  Step-IsReserved :
      (server : Server fl) {s t : List (Round fl)} → Step server s t → IsReserved s → IsReserved t
  Step-IsReserved server (proposes rid uid wallet partner now denom rate pieces sent h) v =
      propose-IsReserved server rid uid wallet partner now denom rate pieces sent _ h v
  Step-IsReserved server (accepts rid uid wallet now mix spk sent h) v =
      accept-IsReserved server rid uid wallet now mix spk sent _ h v
  Step-IsReserved server (signs rid uid now mix spk h) v =
      sign-IsReserved server rid uid now mix spk _ h v
  Step-IsReserved server (cancels rid uid h) v = cancel-IsReserved rid uid _ h v
  Step-IsReserved server (sweeps now s) v = record {
    at_coin = λ u k. omega (arith, sweep-le now u k s, v.at_coin u k);
  }

  -- Whatever is proposed, accepted, signed, cancelled and swept, from a table without rounds on: no
  -- coin of a user is ever in two live rounds.
  pub Reach-IsReserved :
      (server : Server fl) {s : List (Round fl)} → Reach server [] s → IsReserved s
  Reach-IsReserved server here = record { at_coin = λ u k. omega arith }
  Reach-IsReserved server (next r st) = Step-IsReserved server st (Reach-IsReserved server r)
