-- ===== src/Tango/Outputs/Value.antt =====
-- What the transaction of a planned round pays.
use si_lnt.Prelude.{
  ℕ, zero, suc, ◌+◌, ◌*◌, ◌≤◌, ◌≡◌, refl, sym, ap, ◌∙◌, arith, not, Option, none, some, List, [],
  ◌∷◌, ◌++◌, length, sum_of, sum_of-append, count_if, leb, ◌==◌, if◌then◌else◌, Bool-cases, inl,
  inr, ◌⊎◌, ok, ok_inj, refuse_if-eq-ok, >>=-eq-ok,
}
use si_lnt.Prelude.Int.{ℤ, pos, negsuc}
use si_lnt.Prelude.Text.{Text}
use si_lnt.Prelude.Sort.{sum_of-sort}
use si_lnt.Floats.{Floats}
use si_lnt.Payjoin.Inputs.{PayjoinInput}
use si_lnt.Tango.Plan.{Amounts, dust_sats, plan, pieces_of, settle}
use si_lnt.Tango.Plan.Conservation.{IsBalanced, plan-IsBalanced, plan-inv}
use si_lnt.Tango.Outputs.{
  MixSpk, mix_scripts, TransactionOutput, output_before, OutputsError, a_count, b_count,
  a_script_missing, b_script_missing, change_out, value_or, mixed, outputs_for, Transaction,
  assemble,
}

-- A change that is there, measured.
abbrev kept : (ℕ → ℕ) → ℕ → ℕ
kept g change = if change == 0 then 0 else g change

module _ (g : ℕ → ℕ) where
  sum_of-mixed :
      (share : ℕ) (scripts : List Text)
      → sum_of (λ o. g o.value) (mixed share scripts) ≡ length scripts * g share
  sum_of-mixed share [] = omega arith
  sum_of-mixed share (s ∷ scripts) = grind (arith, sum_of-mixed share scripts)

  sum_of-change_out :
      (change : ℕ) (e : OutputsError) (spk : Option Text) {outs : List TransactionOutput}
      → change_out change e spk ≡ ok outs
      → sum_of (λ o. g o.value) outs ≡ kept g change
  sum_of-change_out change e none h = elim (Bool-cases (change == 0)) [
    | inl z ↦ let made = rw z at h in rw (z, sym (ok_inj made)) refl
    | inr z ↦ absurd (let made = rw z at h in cc)
  ]
  sum_of-change_out change e (some script) h = elim (Bool-cases (change == 0)) [
    | inl z ↦ let made = rw z at h in rw (z, sym (ok_inj made)) refl
    | inr z ↦ let made = rw z at h in rw (z, sym (ok_inj made)) (omega arith)
  ]

  -- The sum over the four parts.
  sum_of-parts :
      (ma mb xa xb : List TransactionOutput)
      → let f : TransactionOutput → ℕ = λ o. g o.value in
        sum_of f ((ma ++ mb) ++ (xa ++ xb))
        ≡ sum_of f ma + sum_of f mb + (sum_of f xa + sum_of f xb)
  sum_of-parts ma mb xa xb =
      let f : TransactionOutput → ℕ = λ o. g o.value in
      omega
        (arith, sum_of-append f (ma ++ mb) (xa ++ xb), sum_of-append f ma mb, sum_of-append f xa xb)

  -- Whatever is summed over the outputs is summed over the shares and the changes.
  sum_of-outputs_for :
      (r : Amounts) (a b : MixSpk) (ca cb : Option Text) {outs : List TransactionOutput}
      → outputs_for r a b ca cb ≡ ok outs
      → sum_of (λ o. g o.value) outs
        ≡ 2 * (value_or r.pieces 1 * g (value_or r.share r.denom))
          + kept g r.a_change
          + kept g r.b_change
  unfolding outputs_for
  sum_of-outputs_for r a b ca cb {outs} h =
      let pieces = value_or r.pieces 1 in
      let (na, h1) = refuse_if-eq-ok (not (length (mix_scripts a) == pieces)) a_count _ h in
      let (nb, h2) = refuse_if-eq-ok (not (length (mix_scripts b) == pieces)) b_count _ h1 in
      let (xa, oa, h3) = >>=-eq-ok (change_out r.a_change a_script_missing ca) _ h2 in
      let (xb, ob, h4) = >>=-eq-ok (change_out r.b_change b_script_missing cb) _ h3 in
      let share = value_or r.share r.denom in
      let ma = mixed share (mix_scripts a) in
      let mb = mixed share (mix_scripts b) in
      let f : TransactionOutput → ℕ = λ o. g o.value in
      let la : length (mix_scripts a) ≡ pieces = ground (arith, na) in
      let lb : length (mix_scripts b) ≡ pieces = ground (arith, nb) in
      rw (sym (ok_inj h4), sum_of-sort output_before f ((ma ++ mb) ++ (xa ++ xb)))
        (sum_of-parts ma mb xa xb
          ∙ omega (
            arith,
            sum_of-mixed share (mix_scripts a) ∙ ap (λ n. n * g share) la,
            sum_of-mixed share (mix_scripts b) ∙ ap (λ n. n * g share) lb,
            sum_of-change_out r.a_change a_script_missing ca oa,
            sum_of-change_out r.b_change b_script_missing cb ob,
          ))

pieces_of-pos : (asked : ℤ) {n : ℕ} → pieces_of asked ≡ ok n → 1 ≤ n
unfolding pieces_of
pieces_of-pos (pos zero) h = let e : 1 ≡ _ = ok_inj h in omega (arith, e)
pieces_of-pos (pos (suc n)) h = let e : suc n ≡ _ = ok_inj h in omega (arith, e)
pieces_of-pos (negsuc n) h = cc

abbrev is_dust : ℕ → ℕ
is_dust n = if not (leb dust_sats n) then 1 else 0

-- The three measures of a balanced round.
module _ (r : Amounts) (v : IsBalanced r) where
  kept_value : (change : ℕ) → kept (λ n. n) change ≡ change
  kept_value change = ground arith

  value_total :
      2 * (r.pieces * r.share) + kept (λ n. n) r.a_change + kept (λ n. n) r.b_change + r.fee
      ≡ r.a_in + r.b_in
  value_total = omega (
    arith,
    kept_value r.a_change,
    kept_value r.b_change,
    v.a_balance,
    v.b_balance,
    v.fee_total,
    v.same_shares,
  )

  share_not_dust : is_dust r.share ≡ 0
  share_not_dust = ground (arith, v.share_kept)

  change_not_dust : (change : ℕ) → (change ≡ 0) ⊎ (dust_sats ≤ change) → kept is_dust change ≡ 0
  change_not_dust change (inl h) = ground (arith, h)
  change_not_dust change (inr h) = ground (arith, h)

  dust_total :
      2 * (r.pieces * is_dust r.share) + kept is_dust r.a_change + kept is_dust r.b_change ≡ 0
  dust_total = rw share_not_dust (
      omega (
        arith,
        change_not_dust r.a_change v.a_change_kept,
        change_not_dust r.b_change v.b_change_kept,
      ))

module _ (fl : Floats) (a_inputs b_inputs : List PayjoinInput) (denom : ℕ) (rate : fl.Rate) where
  plan-pieces :
      (asked : ℤ) {r : Amounts} → plan fl a_inputs b_inputs denom rate asked ≡ ok r → 1 ≤ r.pieces
  unfolding settle
  plan-pieces asked h =
      let p = plan-inv fl a_inputs b_inputs denom rate asked h in
      rw p.amounts (pieces_of-pos asked p.asked_pieces)

  -- What is summed over the outputs of a planned round.
  planned-sum :
      (g : ℕ → ℕ) (asked : ℤ) (r : Amounts) (a b : MixSpk) (ca cb : Option Text)
      {outs : List TransactionOutput}
      → plan fl a_inputs b_inputs denom rate asked ≡ ok r
      → outputs_for r a b ca cb ≡ ok outs
      → sum_of (λ o. g o.value) outs
        ≡ 2 * (r.pieces * g r.share) + kept g r.a_change + kept g r.b_change
  planned-sum g asked r a b ca cb h made =
      let v = (plan-IsBalanced fl a_inputs b_inputs denom rate asked r h).0 in
      let share : value_or r.share r.denom ≡ r.share = ground (arith, v.share_kept) in
      let pieces : value_or r.pieces 1 ≡ r.pieces = ground (arith, plan-pieces asked h) in
      sum_of-outputs_for g r a b ca cb made
      ∙ ap (λ n. 2 * n + kept g r.a_change + kept g r.b_change) (cc (share, pieces))

  -- The transaction of a planned round spends its coins on its outputs and the fee; no output is
  -- dust, and at least two for each piece are worth the same share.
  pub assemble_lem :
      (asked : ℤ) (r : Amounts) (a b : MixSpk) (ca cb : Option Text) (tx : Transaction)
      → plan fl a_inputs b_inputs denom rate asked ≡ ok r
      → assemble (a_inputs ++ b_inputs) r a b ca cb ≡ ok tx
      → (sum_of (λ i. i.amount) (a_inputs ++ b_inputs) ≡ sum_of (λ o. o.value) tx.vout + r.fee)
        × (count_if (λ o. not (leb dust_sats o.value)) tx.vout ≡ 0)
        × (2 * r.pieces ≤ count_if (λ o. o.value == r.share) tx.vout)
  unfolding assemble
  assemble_lem asked r a b ca cb tx h built =
      let (outs, made, e) = >>=-eq-ok (outputs_for r a b ca cb) _ built in
      let same = ok_inj e in
      let (v, a_in, b_in, _) = plan-IsBalanced fl a_inputs b_inputs denom rate asked r h in
      let total = planned-sum (λ n. n) asked r a b ca cb h made in
      let dust = planned-sum is_dust asked r a b ca cb h made in
      let equal = planned-sum (λ n. if n == r.share then 1 else 0) asked r a b ca cb h made in
      let coins = sum_of-append (λ (i : PayjoinInput). i.amount) a_inputs b_inputs in
      rw (sym same) (
        omega (arith, coins, a_in, b_in, total, value_total r v),
        dust ∙ dust_total r v,
        ground (arith, equal),
      )
