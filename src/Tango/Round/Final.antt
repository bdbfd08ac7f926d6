-- ===== src/Tango/Round/Final.antt =====
-- A round that is over stays as it is.
use si_lnt.Prelude.{ℕ, ◌≡◌, refl, true, false, some, List, [], ◌∷◌, ◌++◌, Bool-cases, inl, inr}
use si_lnt.Prelude.Text.{Text, text_eq}
use si_lnt.Floats.{Floats}
use si_lnt.Tango.Turns.{is_terminal, can_cancel}
use si_lnt.Tango.Round.Reserve.{Round}
use si_lnt.Tango.Round.Handlers.{
  Server, get_tango_round, update_tango_round, run_tango_sweep, is_due, expire,
}
use si_lnt.Tango.Round.Inversion.{propose-inv, accept-inv, sign-inv, cancel-inv}
use si_lnt.Tango.Round.Exclusive.{
  Step, proposes, accepts, signs, cancels, sweeps, Reach, here, next,
}

module _ {fl : Floats} where
  found_at :
      (rid : Text) (x r : Round fl) (s : List (Round fl))
      → text_eq x.id rid ≡ true
      → get_tango_round rid (x ∷ s) ≡ some r
      → x ≡ r
  unfolding get_tango_round
  found_at rid x r s e h = let h1 = rw (e, get_tango_round) at h in cc h1

  get-append :
      (rid : Text) (r : Round fl) (s extra : List (Round fl))
      → get_tango_round rid s ≡ some r
      → get_tango_round rid (s ++ extra) ≡ some r
  unfolding get_tango_round
  get-append rid r [] extra h = cc
  get-append rid r (x ∷ s) extra h = elim (Bool-cases (text_eq x.id rid)) [
    | inl e ↦ rw (e, get_tango_round) (let same = found_at rid x r s e h in rw same refl)
    | inr e ↦ rw (e, get_tango_round) (get-append rid r s extra (rw (e, get_tango_round) at h))
  ]

  -- The round that is moved is another one.
  get-update :
      (rid other : Text) (r old new : Round fl) (s : List (Round fl))
      → new.id ≡ old.id
      → is_terminal r.status ≡ true
      → is_terminal old.status ≡ false
      → get_tango_round other s ≡ some old
      → get_tango_round rid s ≡ some r
      → get_tango_round rid (update_tango_round other new s) ≡ some r
  unfolding get_tango_round update_tango_round
  get-update rid other r old new [] same over going at h = cc
  get-update rid other r old new (x ∷ s) same over going at h =
      elim (Bool-cases (text_eq x.id other)) [
        | inl e ↦ elim (Bool-cases (text_eq x.id rid)) [
          | inl f ↦ absurd (
              let a = found_at other x old s e at in
              let b = found_at rid x r s f h in
              let bad : is_terminal x.status ≡ true = rw b over in
              let good : is_terminal x.status ≡ false = rw a going in cc (bad, good))
          | inr f ↦
              let a = found_at other x old s e at in
              rw (e, update_tango_round)
                (rw (same, ← a, f, get_tango_round) (rw (f, get_tango_round) at h))
        ]
        | inr e ↦ elim (Bool-cases (text_eq x.id rid)) [
          | inl f ↦
              rw (e, update_tango_round)
                (rw (f, get_tango_round) (let b = found_at rid x r s f h in rw b refl))
          | inr f ↦
              rw (e, update_tango_round)
                (rw (f, get_tango_round)
                  (get-update rid other r old new s same over going (rw (e, get_tango_round) at at)
                    (rw (f, get_tango_round) at h)))
        ]
      ]

  not_due : (now : ℕ) (r : Round fl) → is_terminal r.status ≡ true → is_due now r ≡ false
  unfolding is_due can_cancel
  not_due now r over = rw over refl

  get-sweep :
      (now : ℕ) (rid : Text) (r : Round fl) (s : List (Round fl))
      → is_terminal r.status ≡ true
      → get_tango_round rid s ≡ some r
      → get_tango_round rid (run_tango_sweep now s) ≡ some r
  unfolding get_tango_round run_tango_sweep expire
  get-sweep now rid r [] over h = cc
  get-sweep now rid r (x ∷ s) over h = elim (Bool-cases (text_eq x.id rid)) [
    | inl e ↦
        let same = found_at rid x r s e h in
        let kept = not_due now r over in rw (same, kept) (rw (← same, e, get_tango_round) refl)
    | inr e ↦
        let later = get-sweep now rid r s over (rw (e, get_tango_round) at h) in
        elim (Bool-cases (is_due now x)) [
          | inl d ↦ rw d (rw (e, get_tango_round) later)
          | inr d ↦ rw d (rw (e, get_tango_round) later)
        ]
  ]

  Step-over :
      (server : Server fl) {s t : List (Round fl)} (rid : Text) (r : Round fl)
      → is_terminal r.status ≡ true
      → Step server s t
      → get_tango_round rid s ≡ some r
      → get_tango_round rid t ≡ some r
  Step-over server rid r over (proposes id uid wallet partner now denom rate pieces sent h) at =
      let (rows, new, _, e, _, _, _, _, _) =
        propose-inv server id uid wallet partner now denom rate pieces sent _ h in
      rw e (get-append rid r _ (new ∷ []) at)
  Step-over server rid r over (accepts id uid wallet now mix spk sent h) at =
      let (rows, rnd, amounts, _, got, _, going, _, _, _, e) =
        accept-inv server id uid wallet now mix spk sent _ h in
      rw e (get-update rid id r rnd _ _ refl over going got at)
  Step-over server rid r over (signs id uid now mix spk h) at =
      let (rnd, role, got, going, e) = sign-inv server id uid now mix spk _ h in
      rw e (get-update rid id r rnd _ _ refl over going got at)
  Step-over server rid r over (cancels id uid h) at =
      let (rnd, role, got, going, e) = cancel-inv id uid _ h in
      rw e (get-update rid id r rnd _ _ refl over going got at)
  Step-over server rid r over (sweeps now s) at = get-sweep now rid r s over at

  -- A round that was broadcast or cancelled never changes again, whatever is proposed, accepted,
  -- signed, cancelled and swept.
  pub over_forever :
      (server : Server fl) {s t : List (Round fl)} (rid : Text) (r : Round fl)
      → is_terminal r.status ≡ true
      → get_tango_round rid s ≡ some r
      → Reach server s t
      → get_tango_round rid t ≡ some r
  over_forever server rid r over at here = at
  over_forever server rid r over at (next reached st) =
      Step-over server rid r over st (over_forever server rid r over at reached)
