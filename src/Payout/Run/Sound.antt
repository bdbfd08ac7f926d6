-- ===== src/Payout/Run/Sound.antt =====
-- What every row of the table of payouts satisfies.
use si_lnt.Prelude.{
  ℕ, ◌+◌, ◌≤◌, ◌≡◌, refl, sym, arith, Bool, true, false, not, ◌&&◌, ◌||◌, Option, none, some, List,
  [], ◌∷◌, ◌++◌, map, keep, all, any, ltb, leb, ◌==◌, if◌then◌else◌, if_keeps, count_if,
  sum_of-take-le, Bool-cases, inl, inr, ok, ok_inj,
}
use si_lnt.Prelude.Text.{Text, codes, text_eq}
use si_lnt.Prelude.Sort.{sort, sum_of-sort}
use si_lnt.Floats.{Floats}
use si_lnt.Payout.Plan.{payout_plan, not_routed}
use si_lnt.Payout.Run.{status_after, give_up, max_attempts}
use si_lnt.Payout.Run.Queue.{
  Payout, is_row, is_paid, is_pending, is_due, created, create_tango_payout, update_tango_payout,
  list_due_tango_payouts, requeued, requeue_tango_payout, requeue_failed_tango_payouts,
  redact_tango_payouts_for_user, tango_payout_totals, sum_where,
}
use si_lnt.Payout.Run.Config.{PayoutConfig}
use si_lnt.Payout.Run.Liquidity.{check_keeps}
use si_lnt.Payout.Run.Enqueue.{Broadcast, Side, payout_for, owed, enqueue_keeps}
use si_lnt.Payout.Run.Attempt.{
  Books, Outcome, payment_of, Outside, Quote, quoted, unquoted, failed_row, record_failure,
  pay_quote, quote_for, defers, deferred_row, attempt_tango_payout, pay_due, deliver_due,
  run_tango_payouts, retry_address, retry_found, api_admin_tango_payout_retry,
}
use si_lnt.Payout.Run.Steps.{Step, runs, retries, revives, redacts, Reach, here, next, no_books}

-- The change is the fee and the rest, and a payout that may still be tried has been tried less
-- often than the limit; no payout has been more often.
abbrev pub is_sound : Payout → Bool
is_sound r =
    (r.gross_sats == r.fee_sats + r.net_sats)
    && leb r.attempts max_attempts
    && (not (is_pending r.status) || ltb r.attempts max_attempts)

update-all :
    (txid : Text) (vout : ℕ) (set : Payout → Payout) (rows : List Payout)
    → ((r : Payout) → is_sound r ≡ true → is_sound (set r) ≡ true)
    → all is_sound rows ≡ true
    → all is_sound (update_tango_payout txid vout set rows) ≡ true
unfolding update_tango_payout
update-all txid vout set [] kept h = refl
update-all txid vout set (r ∷ rows) kept h =
    ground (arith, kept r, update-all txid vout set rows kept, h)

map-all :
    (set : Payout → Payout) (rows : List Payout)
    → ((r : Payout) → is_sound r ≡ true → is_sound (set r) ≡ true)
    → all is_sound rows ≡ true
    → all is_sound (map set rows) ≡ true
map-all set [] kept h = refl
map-all set (r ∷ rows) kept h = ground (arith, kept r, map-all set rows kept, h)

failed_row-all :
    (now n : ℕ) (permanent told : Bool) (r : Payout)
    → n ≤ 5
    → is_sound r ≡ true
    → is_sound (failed_row now (n + 1) (status_after (n + 1) permanent) told r) ≡ true
unfolding failed_row status_after give_up
failed_row-all now n permanent told r le h = ground arith

append-all :
    (rows : List Payout) (r : Payout)
    → all is_sound rows ≡ true
    → is_sound r ≡ true
    → all is_sound (rows ++ r ∷ []) ≡ true
append-all [] r h hr = ground arith
append-all (x ∷ rows) r h hr = ground (arith, append-all rows r)

-- A row that a side is owed is split, whether or not the rule would route it today.
payout_for-splits :
    {fl : Floats} (cfg : PayoutConfig fl) (address : Text) (rnd : Broadcast) (side : Side)
    (vout : ℕ)
    → let r = payout_for cfg address rnd side vout in r.gross_sats ≡ r.fee_sats + r.net_sats
unfolding payout_for owed payout_plan not_routed
payout_for-splits cfg address rnd side vout = ground arith

create-all :
    (now : ℕ) (new : Payout) (rows : List Payout)
    → new.gross_sats ≡ new.fee_sats + new.net_sats
    → all is_sound rows ≡ true
    → all is_sound (create_tango_payout now new rows).0 ≡ true
unfolding create_tango_payout
create-all now new rows splits h =
    if_keeps (λ (x : List Payout × Bool). all is_sound x.0 ≡ true)
      (any (is_row new.txid new.vout) rows) {x = (rows, false)} h
      (append-all rows _ h (ground (arith, splits)))

module _ (now : ℕ) (row : Payout) (le : row.attempts ≤ 5) (b : Books)
    (h : all is_sound b.rows ≡ true) where
  failure-all : (permanent : Bool) → all is_sound (record_failure now row permanent b).0.rows ≡ true
  unfolding record_failure failed_row
  failure-all permanent =
      update-all row.txid row.vout _ b.rows
        (λ r. failed_row-all now row.attempts permanent false r le) h

  pay_quote-all :
      (q : Quote) (out : Outside) → all is_sound (pay_quote now row q out b).0.rows ≡ true
  unfolding pay_quote record_failure
  pay_quote-all (unquoted permanent) out = failure-all permanent
  pay_quote-all (quoted bolt11) out =
      if_keeps (λ (x : Books × Outcome). all is_sound x.0.rows ≡ true) (not out.pays)
        (failure-all false)
        (if_keeps (λ (x : Books × Outcome). all is_sound x.0.rows ≡ true) (not out.records)
          {x = record_failure now row false (record b { payments = payment_of row ∷ b.payments })}
          (failure-all false)
          (update-all row.txid row.vout _ b.rows (λ r hr. ground (arith, hr, le)) h))

  attempt-all :
      (wallet_id : Text) (balance_sats : Option ℕ) (out : Outside)
      → all is_sound (attempt_tango_payout wallet_id now row balance_sats out b).0.rows ≡ true
  unfolding attempt_tango_payout
  attempt-all wallet_id balance_sats out = elim (Bool-cases (defers now row balance_sats)) [
    | inl e ↦ rw e (update-all row.txid row.vout (deferred_row now) b.rows (λ r hr. hr) h)
    | inr e ↦ rw e (pay_quote-all (quote_for wallet_id row out.answer) out)
  ]

-- How many rows of a list have been tried too often to be due.
abbrev pub is_worn : Payout → Bool
is_worn r = not (leb r.attempts 5)

pay_due-all :
    (wallets : Text → Text) (now : ℕ) (outside : Payout → Outside) (due : List Payout)
    (balances : Text → Option ℕ) (b : Books)
    → count_if is_worn due ≡ 0
    → all is_sound b.rows ≡ true
    → all is_sound (pay_due wallets now outside due balances b).rows ≡ true
unfolding pay_due
pay_due-all wallets now outside [] balances b fresh h = h
pay_due-all wallets now outside (row ∷ due) balances b fresh h =
    pay_due-all wallets now outside due _ _ (ground (arith, fresh)) (
      attempt-all now row (ground (arith, fresh)) b h (wallets row.network) (balances row.network)
        (outside row))

keep-fresh :
    (now : ℕ) (rows : List Payout)
    → all is_sound rows ≡ true
    → count_if is_worn (keep (is_due now) rows) ≡ 0
keep-fresh now [] h = refl
keep-fresh now (r ∷ rows) h = ground (arith, keep-fresh now rows, h)

list_due-fresh :
    (now limit : ℕ) (rows : List Payout)
    → all is_sound rows ≡ true
    → count_if is_worn (list_due_tango_payouts now limit rows) ≡ 0
unfolding list_due_tango_payouts
list_due-fresh now limit rows h =
    let earlier = λ (a b : Payout). ltb (created a) (created b) in
    let one : Payout → ℕ = λ r. if is_worn r then 1 else 0 in
    omega (
      arith,
      sum_of-take-le one limit (sort earlier (keep (is_due now) rows)),
      sum_of-sort earlier one (keep (is_due now) rows),
      keep-fresh now rows h,
    )

retry_found-all :
    (txid : Text) (vout : ℕ) (saved : Option Text) (now : ℕ) (found : Option Payout)
    (old rows : List Payout)
    → retry_found txid vout saved now found old ≡ ok rows
    → all is_sound old ≡ true
    → all is_sound rows ≡ true
unfolding requeue_tango_payout
retry_found-all txid vout saved now none old rows e h = cc
retry_found-all txid vout saved now (some row) old rows e h =
    elim (Bool-cases (is_paid row.status)) [
      | inl was_paid ↦ absurd (let bad = rw was_paid at e in cc)
      | inr unpaid ↦
          let done = rw unpaid at e in
          rw (sym (ok_inj done)) (
            update-all txid vout (requeued (retry_address saved row) now) old
              (λ r hr. ground (arith, hr)) h)
    ]

revived-all :
    (network : Text) (now : ℕ) (rows : List Payout)
    → all is_sound rows ≡ true
    → all is_sound (requeue_failed_tango_payouts network now rows) ≡ true
unfolding requeue_failed_tango_payouts
revived-all network now rows h = map-all _ rows (λ r hr. ground (arith, hr)) h

module _ {fl : Floats} where
  Step-all : {s t : Books} → Step fl s t → all is_sound s.rows ≡ true → all is_sound t.rows ≡ true
  unfolding run_tango_payouts deliver_due api_admin_tango_payout_retry redact_tango_payouts_for_user
  Step-all (runs w now b) h =
      let kept : List Payout → Type 0 = λ rows. all is_sound rows ≡ true in
      let checked =
        check_keeps kept (w.backend_config (codes "mainnet")) w.balance_msat now b.rows
          b.service_health h (revived-all (codes "mainnet") now b.rows h) in
      let queued =
        enqueue_keeps kept now
          (λ cfg address rnd side vout rows v.
            create-all now _ rows (payout_for-splits cfg address rnd side vout) v)
          w.backend_config w.ln_address w.rounds (_, 0) checked in
      pay_due-all _ now w.outside _ _ _ (list_due-fresh now 25 _ queued) queued
  Step-all (retries txid vout saved now b rows e) h =
      retry_found-all txid vout saved now _ b.rows rows e h
  Step-all (revives network now b) h = revived-all network now b.rows h
  Step-all (redacts user_id b) h = map-all _ b.rows (λ r hr. ground (arith, hr)) h

  -- Whatever is owed, paid, retried, revived and redacted, from empty books on, whether or not the
  -- payments that go out are recorded: every payout's
  -- gross amount is its fee and its net amount; no payout has failed more than six times since it
  -- was last queued, and one that is still pending less often.
  pub Reach-all : {b : Books} → Reach fl no_books b → all is_sound b.rows ≡ true
  Reach-all here = refl
  Reach-all (next r st) = Step-all st (Reach-all r)

sums_balance :
    (network : Text) (rows : List Payout)
    → all is_sound rows ≡ true
    → let t = tango_payout_totals network rows in
      t.collected_sats
      ≡ t.fees_earned_sats
        + t.paid_net_sats
        + t.owed_sats
        + sum_where
            (λ r. text_eq r.network network && not (is_paid r.status))
            (λ r. r.fee_sats)
            rows
unfolding tango_payout_totals
sums_balance network [] h = refl
sums_balance network (r ∷ rows) h = ground (arith, sums_balance network rows, h)

-- Behind the same steps, the totals of a network add up: what was collected is what was earned,
-- what was paid, what is owed, and the fees of what is owed.
pub totals_balance :
    {fl : Floats} {b : Books} (network : Text)
    → Reach fl no_books b
    → let t = tango_payout_totals network b.rows in
      t.collected_sats
      ≡ t.fees_earned_sats
        + t.paid_net_sats
        + t.owed_sats
        + sum_where
            (λ r. text_eq r.network network && not (is_paid r.status))
            (λ r. r.fee_sats)
            b.rows
totals_balance {b} network r = sums_balance network b.rows (Reach-all r)
