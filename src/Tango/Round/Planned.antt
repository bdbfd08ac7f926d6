-- ===== src/Tango/Round/Planned.antt =====
-- Every round that was accepted is the plan of the coins that it stores.
use si_lnt.Prelude.{
  sum_of, ℕ, ◌≡◌, refl, sym, false, Option, some, List, [], ◌∷◌, ◌++◌, ok, Bool-cases, inl, inr,
}
use si_lnt.Prelude.Text.{Text, text_eq}
use si_lnt.Prelude.Int.{ℤ}
use si_lnt.Payjoin.Wire.{WireInput}
use si_lnt.Floats.{Floats}
use si_lnt.Tango.Plan.{Amounts, plan}
use si_lnt.Tango.Round.Reserve.{Round}
use si_lnt.Tango.Round.Handlers.{
  Server, propose, accept, sign, cancel, run_tango_sweep, get_tango_round, update_tango_round,
  expire, is_due, overlaps,
}
use si_lnt.Tango.Round.Exclusive.{
  Step, proposes, accepts, signs, cancels, sweeps, Reach, here, next,
}
use si_lnt.Tango.Round.Inversion.{propose-inv, accept-inv, sign-inv, cancel-inv}
use si_lnt.Tango.Plan.Conservation.{plan-IsBalanced, IsBalanced}

-- What a round stores fits together.
pub record IsPlanned {fl : Floats} (r : Round fl) : Type 0 where
  pub planned :
      (a : Amounts)
      → r.amounts ≡ some a
      → plan fl r.a_inputs r.b_inputs r.denom_sats r.fee_rate r.pieces ≡ ok a
  pub apart : overlaps r.b_inputs r.a_inputs ≡ false

module _ {fl : Floats} where
  abbrev AllPlanned : List (Round fl) → Type 0
  AllPlanned [] = Unit {0}
  AllPlanned (r ∷ s) = IsPlanned r × AllPlanned s

  get-IsPlanned :
      (rid : Text) (s : List (Round fl)) (r : Round fl)
      → AllPlanned s
      → get_tango_round rid s ≡ some r
      → IsPlanned r
  unfolding get_tango_round
  get-IsPlanned rid [] r v h = cc
  get-IsPlanned rid (x ∷ s) r (p, v) h = elim (Bool-cases (text_eq x.id rid)) [
    | inl e ↦ let same : x ≡ r = (let h1 = rw (e, get_tango_round) at h in cc h1) in rw (sym same) p
    | inr e ↦ get-IsPlanned rid s r v (rw (e, get_tango_round) at h)
  ]

  update-AllPlanned :
      (rid : Text) (new : Round fl) (s : List (Round fl))
      → IsPlanned new
      → AllPlanned s
      → AllPlanned (update_tango_round rid new s)
  unfolding update_tango_round
  update-AllPlanned rid new [] p v = v
  update-AllPlanned rid new (x ∷ s) p (q, v) = elim (Bool-cases (text_eq x.id rid)) [
    | inl e ↦ rw (e, update_tango_round) (p, v)
    | inr e ↦ rw (e, update_tango_round) (q, update-AllPlanned rid new s p v)
  ]

  append-AllPlanned :
      (new : Round fl) (s : List (Round fl))
      → IsPlanned new
      → AllPlanned s
      → AllPlanned (s ++ new ∷ [])
  append-AllPlanned new [] p v = (p, tt)
  append-AllPlanned new (x ∷ s) p (q, v) = (q, append-AllPlanned new s p v)

  propose-AllPlanned :
      (server : Server fl) (rid uid wallet partner : Text) (now denom : ℕ) (rate : fl.Rate)
      (pieces : ℤ) (sent : List WireInput) (s : List (Round fl)) {t : List (Round fl)}
      → propose server rid uid wallet partner now denom rate pieces sent s ≡ ok t
      → AllPlanned s
      → AllPlanned t
  propose-AllPlanned server rid uid wallet partner now denom rate pieces sent s h v =
      let (rows, new, _, e, _, _, alone, none_yet, _) =
        propose-inv server rid uid wallet partner now denom rate pieces sent s h in
      rw e (
        append-AllPlanned new s
          (record { planned = λ a paid. cc (none_yet, paid); apart = rw alone refl }) v)

  accept-AllPlanned :
      (server : Server fl) (rid uid wallet : Text) (now : ℕ) (mix_spks : List Text)
      (change_spk : Option Text) (sent : List WireInput) (s : List (Round fl)) {t : List (Round fl)}
      → accept server rid uid wallet now mix_spks change_spk sent s ≡ ok t
      → AllPlanned s
      → AllPlanned t
  accept-AllPlanned server rid uid wallet now mix_spks change_spk sent s h v =
      let (rows, rnd, amounts, _, at, _, _, _, apart, plans, e) =
        accept-inv server rid uid wallet now mix_spks change_spk sent s h in
      rw e (
        update-AllPlanned rid _ s
          (record {
            planned = λ a paid. let same : amounts ≡ a = cc paid in rw (sym same) plans;
            apart = apart;
          })
          v)

  sign-AllPlanned :
      (server : Server fl) (rid uid : Text) (now : ℕ) (mix_spks : List Text)
      (change_spk : Option Text) (s : List (Round fl)) {t : List (Round fl)}
      → sign server rid uid now mix_spks change_spk s ≡ ok t
      → AllPlanned s
      → AllPlanned t
  sign-AllPlanned server rid uid now mix_spks change_spk s h v =
      let (rnd, role, at, _, e) = sign-inv server rid uid now mix_spks change_spk s h in
      let p = get-IsPlanned rid s rnd v at in
      rw e (update-AllPlanned rid _ s (record { planned = p.planned; apart = p.apart }) v)

  cancel-AllPlanned :
      (rid uid : Text) (s : List (Round fl)) {t : List (Round fl)}
      → cancel rid uid s ≡ ok t
      → AllPlanned s
      → AllPlanned t
  cancel-AllPlanned rid uid s h v =
      let (rnd, role, at, _, e) = cancel-inv rid uid s h in
      let p = get-IsPlanned rid s rnd v at in
      rw e (update-AllPlanned rid _ s (record { planned = p.planned; apart = p.apart }) v)

  sweep-AllPlanned :
      (now : ℕ) (s : List (Round fl)) → AllPlanned s → AllPlanned (run_tango_sweep now s)
  unfolding run_tango_sweep expire
  sweep-AllPlanned now [] v = v
  sweep-AllPlanned now (r ∷ s) (p, v) = elim (Bool-cases (is_due now r)) [
    | inl e ↦ rw e (record { planned = p.planned; apart = p.apart }, sweep-AllPlanned now s v)
    | inr e ↦ rw e (p, sweep-AllPlanned now s v)
  ]

  Step-AllPlanned :
      (server : Server fl) {s t : List (Round fl)} → Step server s t → AllPlanned s → AllPlanned t
  Step-AllPlanned server (proposes rid uid wallet partner now denom rate pieces sent h) v =
      propose-AllPlanned server rid uid wallet partner now denom rate pieces sent _ h v
  Step-AllPlanned server (accepts rid uid wallet now mix spk sent h) v =
      accept-AllPlanned server rid uid wallet now mix spk sent _ h v
  Step-AllPlanned server (signs rid uid now mix spk h) v =
      sign-AllPlanned server rid uid now mix spk _ h v
  Step-AllPlanned server (cancels rid uid h) v = cancel-AllPlanned rid uid _ h v
  Step-AllPlanned server (sweeps now s) v = sweep-AllPlanned now s v

  Reach-AllPlanned : (server : Server fl) {s : List (Round fl)} → Reach server [] s → AllPlanned s
  Reach-AllPlanned server here = tt
  Reach-AllPlanned server (next r st) = Step-AllPlanned server st (Reach-AllPlanned server r)

  -- Whatever has been proposed, accepted, signed, cancelled and swept: the amounts that a round
  -- stores balance, for the coins that it stores and the amount that was offered, and no coin is
  -- given by both sides.
  pub stored-IsBalanced :
      (server : Server fl) {s : List (Round fl)} (rid : Text) (r : Round fl) (a : Amounts)
      → Reach server [] s
      → get_tango_round rid s ≡ some r
      → r.amounts ≡ some a
      → IsBalanced a
        × (a.a_in ≡ sum_of (λ i. i.amount) r.a_inputs)
        × (a.b_in ≡ sum_of (λ i. i.amount) r.b_inputs)
        × (a.denom ≡ r.denom_sats)
        × (overlaps r.b_inputs r.a_inputs ≡ false)
  stored-IsBalanced server {s = s} rid r a reached at paid =
      let p = get-IsPlanned rid s r (Reach-AllPlanned server reached) at in
      let (balanced, a_in, b_in, denom) =
        plan-IsBalanced fl r.a_inputs r.b_inputs r.denom_sats r.fee_rate r.pieces a
          (p.planned a paid) in
      (balanced, a_in, b_in, denom, p.apart)
