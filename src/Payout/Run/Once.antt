-- ===== src/Payout/Run/Once.antt =====
-- The runner of payouts pays a coin once: what holds of the books between two runs, and while a
-- run goes through the rows that it read at its start.
use si_lnt.Prelude.{
  ℕ, ◌+◌, ◌≤◌, ◌≡◌, ◌∙◌, refl, sym, arith, Bool, true, false, ◌&&◌, Option, List, [], ◌∷◌, keep,
  sum_of-take-le, ◌==◌, if◌then◌else◌, ltb, Bool-cases, inl, inr,
}
use si_lnt.Prelude.Text.{Text, text_eq, text_eq_refl}
use si_lnt.Prelude.Sort.{sort, sum_of-sort}
use si_lnt.Payout.Run.{pending, paid, failed, unpayable, status_after, give_up}
use si_lnt.Payout.Run.Queue.{
  Payout, is_row, is_paid, is_due, list_due_tango_payouts, update_tango_payout, created,
}
use si_lnt.Payout.Run.Attempt.{
  Books, Outside, Quote, quoted, unquoted, failed_row, record_failure, payment_of, pay_quote,
  quote_for, defers, attempt_tango_payout, pay_due, deliver_due,
}
use si_lnt.Payout.Run.Counts.{
  rows_of, paid_rows, payments_of, is_row_at, update-rows_of, update-paid_rows,
}

-- Rows that are paid, more by those of the key that is paid now.
pay-paid_rows :
    (txid t : Text) (vout v n : ℕ) (rows : List Payout)
    → paid_rows txid vout rows ≡ 0
    → paid_rows t v
        (update_tango_payout txid vout (λ r. record r { status = paid; attempts = n }) rows)
      ≡ paid_rows t v rows + (if text_eq txid t && vout == v then rows_of txid vout rows else 0)
unfolding update_tango_payout
pay-paid_rows txid t vout v n [] none_paid = ground arith
pay-paid_rows txid t vout v n (r ∷ rows) none_paid =
    ground (arith, is_row_at txid t vout v r, pay-paid_rows txid t vout v n rows (omega arith))

pub paid_rows-le : (t : Text) (v : ℕ) (rows : List Payout) → paid_rows t v rows ≤ rows_of t v rows
paid_rows-le t v [] = omega arith
paid_rows-le t v (r ∷ rows) = ground (arith, paid_rows-le t v rows)

-- A coin has one row at most, and as many payments as it has paid rows.
pub record IsOnce (b : Books) : Type 0 where
  pub single : (t : Text) (v : ℕ) → rows_of t v b.rows ≤ 1
  pub matched : (t : Text) (v : ℕ) → payments_of t v b.payments ≡ paid_rows t v b.rows

-- While a pass goes through the queue: the rows that it has yet to try are not paid, and from the
-- table that it began with no row is gone and none that was paid is not.
pub record IsOpen (base due : List Payout) (b : Books) : Type 0 where
  pub once : IsOnce b
  pub kept : (t : Text) (v : ℕ) → rows_of t v b.rows ≡ rows_of t v base
  pub grown : (t : Text) (v : ℕ) → paid_rows t v base ≤ paid_rows t v b.rows
  pub unpaid : (t : Text) (v : ℕ) → rows_of t v due + paid_rows t v b.rows ≤ rows_of t v b.rows

status_after-not_paid : (n : ℕ) (permanent : Bool) → is_paid (status_after n permanent) ≡ false
unfolding status_after give_up
status_after-not_paid n permanent = ground arith

module _ (base : List Payout) (row : Payout) (due : List Payout) (b : Books)
    (h : IsOpen base (row ∷ due) b) where
  row-unpaid : paid_rows row.txid row.vout b.rows ≡ 0
  row-unpaid =
      grind
        (arith, h.unpaid row.txid row.vout, h.once.single row.txid row.vout, text_eq_refl row.txid)

  row-single : rows_of row.txid row.vout b.rows ≡ 1
  row-single =
      grind
        (arith, h.unpaid row.txid row.vout, h.once.single row.txid row.vout, text_eq_refl row.txid)

  -- A statement that neither pays nor changes a key.
  unpaid-IsOpen :
      (set : Payout → Payout)
      → ((r : Payout) → is_paid (set r).status ≡ true → is_paid r.status ≡ true)
      → ((t : Text) (v : ℕ) (r : Payout) → is_row t v (set r) ≡ is_row t v r)
      → IsOpen base due (record b { rows = update_tango_payout row.txid row.vout set b.rows })
  unpaid-IsOpen set no_pay kept =
      let same_rows =
        λ (t : Text) (v : ℕ). update-rows_of row.txid t row.vout v set b.rows (kept t v) in
      let same_paid = λ (t : Text) (v : ℕ).
        update-paid_rows row.txid t row.vout v set b.rows row-unpaid no_pay (kept t v) in
      record {
        once = record {
          single = λ t v. grind (arith, same_rows t v, h.once.single t v);
          matched = λ t v. h.once.matched t v ∙ sym (same_paid t v);
        };
        kept = λ t v. same_rows t v ∙ h.kept t v;
        grown = λ t v. omega (arith, same_paid t v, h.grown t v);
        unpaid = λ t v. grind (arith, same_rows t v, same_paid t v, h.unpaid t v);
      }

  paid-IsOpen :
      (n : ℕ)
      → IsOpen base due (record b {
        rows =
            update_tango_payout row.txid row.vout
              (λ r. record r { status = paid; attempts = n })
              b.rows;
        payments = payment_of row ∷ b.payments;
      })
  paid-IsOpen n =
      let set : Payout → Payout = λ r. record r { status = paid; attempts = n } in
      let same_rows =
        λ (t : Text) (v : ℕ). update-rows_of row.txid t row.vout v set b.rows (λ r. refl) in
      let more = λ (t : Text) (v : ℕ). pay-paid_rows row.txid t row.vout v n b.rows row-unpaid in
      record {
        once = record {
          single = λ t v. grind (arith, same_rows t v, h.once.single t v);
          matched = λ t v. ground (arith, more t v, h.once.matched t v, row-single);
        };
        kept = λ t v. same_rows t v ∙ h.kept t v;
        grown = λ t v. omega (arith, more t v, h.grown t v);
        unpaid = λ t v. ground (arith, same_rows t v, more t v, h.unpaid t v, row-single);
      }

  failure-IsOpen :
      (now : ℕ) (permanent : Bool) → IsOpen base due (record_failure now row permanent b).0
  unfolding record_failure failed_row
  failure-IsOpen now permanent =
      unpaid-IsOpen _ (λ r e. ground (arith, e, status_after-not_paid (row.attempts + 1) permanent))
        (λ t v r. refl)

  pay_quote-IsOpen :
      (now : ℕ) (q : Quote) (out : Outside)
      → out.records ≡ true
      → IsOpen base due (pay_quote now row q out b).0
  unfolding pay_quote
  pay_quote-IsOpen now (unquoted permanent) out recorded = failure-IsOpen now permanent
  pay_quote-IsOpen now (quoted bolt11) out recorded = elim (Bool-cases out.pays) [
    | inl e ↦ rw (e, recorded) (paid-IsOpen (row.attempts + 1))
    | inr e ↦ rw e (failure-IsOpen now false)
  ]

  attempt-IsOpen :
      (wallet_id : Text) (now : ℕ) (balance_sats : Option ℕ) (out : Outside)
      → out.records ≡ true
      → IsOpen base due (attempt_tango_payout wallet_id now row balance_sats out b).0
  unfolding attempt_tango_payout
  attempt-IsOpen wallet_id now balance_sats out recorded =
      elim (Bool-cases (defers now row balance_sats)) [
        | inl e ↦ rw e (unpaid-IsOpen _ (λ r paid. paid) (λ t v r. refl))
        | inr e ↦ rw e (pay_quote-IsOpen now (quote_for wallet_id row out.answer) out recorded)
      ]

pay_due-IsOpen :
    (wallets : Text → Text) (now : ℕ) (outside : Payout → Outside) (base due : List Payout)
    (balances : Text → Option ℕ) (b : Books)
    → ((r : Payout) → (outside r).records ≡ true)
    → IsOpen base due b
    → IsOpen base [] (pay_due wallets now outside due balances b)
unfolding pay_due
pay_due-IsOpen wallets now outside base [] balances b recorded h = h
pay_due-IsOpen wallets now outside base (row ∷ due) balances b recorded h =
    pay_due-IsOpen wallets now outside base due _ _ recorded (
      attempt-IsOpen base row due b h (wallets row.network) now (balances row.network) (outside row)
        (recorded row))

-- A row is due only where it is pending, and so not paid.
due-unpaid :
    (now : ℕ) (t : Text) (v : ℕ) (rows : List Payout)
    → rows_of t v (keep (is_due now) rows) + paid_rows t v rows ≤ rows_of t v rows
due-unpaid now t v [] = omega arith
due-unpaid now t v (r ∷ rows) = elim r.status [
  | pending ↦ ground (arith, due-unpaid now t v rows)
  | paid ↦ ground (arith, due-unpaid now t v rows)
  | failed ↦ ground (arith, due-unpaid now t v rows)
  | unpayable ↦ ground (arith, due-unpaid now t v rows)
]

list_due-unpaid :
    (now limit : ℕ) (t : Text) (v : ℕ) (rows : List Payout)
    → rows_of t v (list_due_tango_payouts now limit rows) + paid_rows t v rows ≤ rows_of t v rows
unfolding list_due_tango_payouts
list_due-unpaid now limit t v rows =
    let earlier = λ (a b : Payout). ltb (created a) (created b) in
    let one : Payout → ℕ = λ r. if is_row t v r then 1 else 0 in
    omega (
      arith,
      sum_of-take-le one limit (sort earlier (keep (is_due now) rows)),
      sum_of-sort earlier one (keep (is_due now) rows),
      due-unpaid now t v rows,
    )

-- A pass over the queue keeps the books in order, where every payment that is made is recorded.
pub deliver_due-IsOpen :
    (wallets : Text → Text) (now : ℕ) (outside : Payout → Outside) (balances : Text → Option ℕ)
    (b : Books)
    → ((r : Payout) → (outside r).records ≡ true)
    → IsOnce b
    → IsOpen b.rows [] (deliver_due wallets now outside balances b)
unfolding deliver_due
deliver_due-IsOpen wallets now outside balances b recorded h =
    pay_due-IsOpen wallets now outside b.rows _ balances b recorded (record {
      once = h;
      kept = λ t v. refl;
      grown = λ t v. omega arith;
      unpaid = λ t v. list_due-unpaid now 25 t v b.rows;
    })
