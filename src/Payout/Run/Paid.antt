-- ===== src/Payout/Run/Paid.antt =====
-- Whatever happens to the payouts, no coin is paid twice.
use si_lnt.Prelude.{
  ℕ, ◌≤◌, ◌≡◌, ◌∙◌, refl, sym, arith, true, false, Option, none, some, List, [], ◌∷◌, map,
  sum_of-append, any, Bool-cases, inl, inr, ok, ok_inj,
}
use si_lnt.Prelude.Text.{Text, codes, text_eq→≡}
use si_lnt.Floats.{Floats}
use si_lnt.Payout.Run.{pending, paid, failed, unpayable}
use si_lnt.Payout.Run.Queue.{
  Payout, is_row, is_paid, get_tango_payout, create_tango_payout, requeued, requeue_tango_payout,
  requeue_failed_tango_payouts, redact_tango_payouts_for_user,
}
use si_lnt.Payout.Run.Liquidity.{check_keeps}
use si_lnt.Payout.Run.Enqueue.{enqueue_keeps}
use si_lnt.Payout.Run.Attempt.{
  Books, run_tango_payouts, retry_address, retry_found, api_admin_tango_payout_retry,
}
use si_lnt.Payout.Run.Steps.{
  Step, runs, retries, revives, redacts, Reach, here, next, IsRecorded, AllRecorded, no_books,
}
use si_lnt.Payout.Run.Counts.{
  rows_of, paid_rows, payments_of, is_paid_row, update-rows_of, update-paid_rows,
}
use si_lnt.Payout.Run.Once.{IsOnce, paid_rows-le, deliver_due-IsOpen}

-- Statements on every row at once that change neither keys nor what is paid.
module _ (set : Payout → Payout) where
  pub map-rows_of :
      (t : Text) (v : ℕ) (rows : List Payout)
      → ((r : Payout) → is_row t v (set r) ≡ is_row t v r)
      → rows_of t v (map set rows) ≡ rows_of t v rows
  map-rows_of t v [] kept = refl
  map-rows_of t v (r ∷ rows) kept = ground (arith, kept r, map-rows_of t v rows kept)

  pub map-paid_rows :
      (t : Text) (v : ℕ) (rows : List Payout)
      → ((r : Payout) → is_paid_row t v (set r) ≡ is_paid_row t v r)
      → paid_rows t v (map set rows) ≡ paid_rows t v rows
  map-paid_rows t v [] kept = refl
  map-paid_rows t v (r ∷ rows) kept = ground (arith, kept r, map-paid_rows t v rows kept)

  map-IsOnce :
      (b : Books)
      → ((t : Text) (v : ℕ) (r : Payout) → is_row t v (set r) ≡ is_row t v r)
      → ((t : Text) (v : ℕ) (r : Payout) → is_paid_row t v (set r) ≡ is_paid_row t v r)
      → IsOnce b
      → IsOnce (record b { rows = map set b.rows })
  map-IsOnce b kept kept_paid h = record {
    single = λ t v. omega (arith, map-rows_of t v b.rows (kept t v), h.single t v);
    matched = λ t v. h.matched t v ∙ sym (map-paid_rows t v b.rows (kept_paid t v));
  }

pub requeue_failed-IsOnce :
    (network : Text) (now : ℕ) (b : Books)
    → IsOnce b
    → IsOnce (record b { rows = requeue_failed_tango_payouts network now b.rows })
unfolding requeue_failed_tango_payouts
requeue_failed-IsOnce network now b h =
    map-IsOnce _ b (λ t v r. ground arith)
      (λ t v r. elim r.status [
        | pending ↦ ground arith
        | paid ↦ ground arith
        | failed ↦ ground arith
        | unpayable ↦ ground arith
      ])
      h

redact-IsOnce :
    (user_id : Text) (b : Books)
    → IsOnce b
    → IsOnce (record b { rows = redact_tango_payouts_for_user user_id b.rows })
unfolding redact_tango_payouts_for_user
redact-IsOnce user_id b h = map-IsOnce _ b (λ t v r. ground arith) (λ t v r. ground arith) h

-- A key without a row has none to count.
any-rows_of :
    (t : Text) (v : ℕ) (rows : List Payout) → any (is_row t v) rows ≡ false → rows_of t v rows ≡ 0
any-rows_of t v [] h = refl
any-rows_of t v (r ∷ rows) h = ground (arith, any-rows_of t v rows)

-- Nor has another key that stands for the same.
fresh-rows_of :
    (new : Payout) (t : Text) (v : ℕ) (rows : List Payout)
    → any (is_row new.txid new.vout) rows ≡ false
    → is_row t v new ≡ true
    → rows_of t v rows ≡ 0
fresh-rows_of new t v rows none_there same =
    let txid : new.txid ≡ t = text_eq→≡ new.txid t (ground (arith, same)) in
    let vout : new.vout ≡ v = ground (arith, same) in
    rw (sym txid, sym vout) (any-rows_of new.txid new.vout rows none_there)

pub create-IsOnce :
    (now : ℕ) (new : Payout) (b : Books)
    → IsOnce b
    → IsOnce (record b { rows = (create_tango_payout now new b.rows).0 })
unfolding create_tango_payout
create-IsOnce now new b h = elim (Bool-cases (any (is_row new.txid new.vout) b.rows)) [
  | inl e ↦ rw e h
  | inr e ↦ rw e (record {
    single = λ t v.
        rw (sum_of-append _ b.rows _)
          (ground (arith, fresh-rows_of new t v b.rows e, h.single t v));
    matched = λ t v. h.matched t v ∙ sym (sum_of-append _ b.rows _ ∙ ground arith);
  })
]

-- A row that the key finds unpaid is the key's only one, so that none of its rows is paid.
pub get-unpaid :
    (txid : Text) (vout : ℕ) (rows : List Payout) (row : Payout)
    → get_tango_payout txid vout rows ≡ some row
    → is_paid row.status ≡ false
    → rows_of txid vout rows ≤ 1
    → paid_rows txid vout rows ≡ 0
unfolding get_tango_payout
get-unpaid txid vout (r ∷ rows) row found unpaid single =
    ground (arith, get-unpaid txid vout rows row, paid_rows-le txid vout rows)
get-unpaid txid vout [] row found unpaid single = refl

requeue-IsOnce :
    (txid : Text) (vout : ℕ) (address : Text) (now : ℕ) (b : Books)
    → paid_rows txid vout b.rows ≡ 0
    → IsOnce b
    → IsOnce (record b { rows = requeue_tango_payout txid vout address now b.rows })
unfolding requeue_tango_payout
requeue-IsOnce txid vout address now b unpaid h = record {
  single = λ t v.
      omega (
        arith,
        update-rows_of txid t vout v (requeued address now) b.rows (λ r. refl),
        h.single t v,
      );
  matched = λ t v.
      h.matched t v
      ∙ sym (
          update-paid_rows txid t vout v (requeued address now) b.rows unpaid
            (λ r e. ground (arith, e)) (λ r. refl));
}

retry_found-IsOnce :
    (txid : Text) (vout : ℕ) (saved : Option Text) (now : ℕ) (b : Books) (found : Option Payout)
    (rows : List Payout)
    → get_tango_payout txid vout b.rows ≡ found
    → retry_found txid vout saved now found b.rows ≡ ok rows
    → IsOnce b
    → IsOnce (record b { rows = rows })
retry_found-IsOnce txid vout saved now b none rows at e h = cc
retry_found-IsOnce txid vout saved now b (some row) rows at e h =
    elim (Bool-cases (is_paid row.status)) [
      | inl was_paid ↦ absurd (let bad = rw was_paid at e in cc)
      | inr unpaid ↦
          let done = rw unpaid at e in
          let none_paid = get-unpaid txid vout b.rows row at unpaid (h.single txid vout) in
          let after = requeue-IsOnce txid vout (retry_address saved row) now b none_paid h in
          rw (sym (ok_inj done)) after
    ]

retry-IsOnce :
    (txid : Text) (vout : ℕ) (saved : Option Text) (now : ℕ) (b : Books) (rows : List Payout)
    → api_admin_tango_payout_retry txid vout saved now b.rows ≡ ok rows
    → IsOnce b
    → IsOnce (record b { rows = rows })
unfolding api_admin_tango_payout_retry
retry-IsOnce txid vout saved now b rows e h =
    retry_found-IsOnce txid vout saved now b _ rows refl e h

module _ {fl : Floats} where
  pub Step-IsOnce : {s t : Books} (st : Step fl s t) → IsRecorded st → IsOnce s → IsOnce t
  unfolding run_tango_payouts
  Step-IsOnce (runs w now b) recorded h =
      let kept : List Payout → Type 0 = λ rows. IsOnce (record b { rows = rows }) in
      let checked =
        check_keeps kept (w.backend_config (codes "mainnet")) w.balance_msat now b.rows
          b.service_health h (requeue_failed-IsOnce (codes "mainnet") now b h) in
      let queued =
        enqueue_keeps kept now
          (λ cfg address rnd side vout rows v. create-IsOnce now _ (record b { rows = rows }) v)
          w.backend_config w.ln_address w.rounds (_, 0) checked in
      (deliver_due-IsOpen _ now w.outside _ _ recorded
        (record { single = queued.single; matched = queued.matched })).once
  Step-IsOnce (retries txid vout saved now b rows e) recorded h =
      retry-IsOnce txid vout saved now b rows e h
  Step-IsOnce (revives network now b) recorded h = requeue_failed-IsOnce network now b h
  Step-IsOnce (redacts user_id b) recorded h = redact-IsOnce user_id b h

  pub Reach-IsOnce : {b : Books} (r : Reach fl no_books b) → AllRecorded r → IsOnce b
  Reach-IsOnce here recorded = record { single = λ t v. omega arith; matched = λ t v. refl }
  Reach-IsOnce (next r st) recorded = Step-IsOnce st recorded.1 (Reach-IsOnce r recorded.0)

  -- Whatever is owed, paid, retried, revived and redacted, from empty books on, where every payment
  -- that goes out is returned and recorded: no coin is paid twice, and a coin was paid exactly when
  -- its row says so.
  pub paid_once :
      {b : Books} (t : Text) (v : ℕ) (r : Reach fl no_books b)
      → AllRecorded r
      → (payments_of t v b.payments ≤ 1) × (payments_of t v b.payments ≡ paid_rows t v b.rows)
  paid_once {b} t v r recorded =
      let h = Reach-IsOnce r recorded in
      (omega (arith, h.matched t v, paid_rows-le t v b.rows, h.single t v), h.matched t v)
