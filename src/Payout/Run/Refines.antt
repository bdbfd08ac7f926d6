-- ===== src/Payout/Run/Refines.antt =====
-- What the payouts promise of one coin, as a machine of three states, and that the table keeps it.
use si_lnt.Prelude.{
  ℕ, zero, suc, ◌+◌, ◌≤◌, ◌≡◌, ◌∙◌, refl, sym, arith, Bool, true, false, Option, none, some, List,
  [], ◌∷◌, any, sum_of-append, if◌then◌else◌, if_keeps, Bool-cases, inl, inr, ok, ok_inj,
}
use si_lnt.Prelude.Text.{Text, codes}
use si_lnt.Floats.{Floats}
use si_lnt.Payout.Run.{pending, paid, failed, unpayable}
use si_lnt.Payout.Run.Queue.{
  Payout, is_row, is_paid, get_tango_payout, create_tango_payout, requeued, revived, redacted,
  requeue_tango_payout, requeue_failed_tango_payouts, redact_tango_payouts_for_user,
}
use si_lnt.Payout.Run.Enqueue.{enqueue_keeps}
use si_lnt.Payout.Run.Liquidity.{check_keeps}
use si_lnt.Payout.Run.Attempt.{
  Books, Outside, deliver_due, run_tango_payouts, retry_address, retry_found,
  api_admin_tango_payout_retry,
}
use si_lnt.Payout.Run.Steps.{
  Step, runs, retries, revives, redacts, Reach, IsRecorded, AllRecorded, no_books,
}
use si_lnt.Payout.Run.Counts.{
  rows_of, paid_rows, payments_of, is_paid_row, update-rows_of, update-paid_rows,
}
use si_lnt.Payout.Run.Once.{IsOnce, paid_rows-le, deliver_due-IsOpen}
use si_lnt.Payout.Run.Paid.{
  Reach-IsOnce, Step-IsOnce, create-IsOnce, map-rows_of, map-paid_rows, requeue_failed-IsOnce,
  get-unpaid,
}

-- Nothing is known of the coin, its owner is owed a payment, or has got it.
pub data Coin : Type 0 where
  unknown owed settled : Coin

-- What may happen to a coin: its payment comes to be owed, and what is owed is paid, at once or
-- later. A coin that is settled stays so.
pub data Moves : Coin → Coin → Type 0 where
  stays : {c : Coin} → Moves c c
  owes : Moves unknown owed
  settles : Moves owed settled
  settles_at_once : Moves unknown settled

-- How often a coin has been paid for.
abbrev pub times_paid : Coin → ℕ
times_paid settled = 1
times_paid _ = 0

-- A coin as `get_tango_payout` shows it.
abbrev pub coin_read : Option Payout → Coin
coin_read none = unknown
coin_read (some r) = if is_paid r.status then settled else owed

abbrev pub coin_of : Text → ℕ → List Payout → Coin
coin_of t v rows = coin_read (get_tango_payout t v rows)

-- The same, by the numbers of rows.
coin_by : ℕ → ℕ → Coin
coin_by zero zero = unknown
coin_by (suc rows) zero = owed
coin_by rows (suc paid_ones) = settled

coin_by-eq : {n n' m m' : ℕ} → n ≡ n' → m ≡ m' → coin_by n m ≡ coin_by n' m'
coin_by-eq hn hm = cc (hn, hm)

coin_head :
    (was_paid : Bool) (n m : ℕ)
    → n ≡ 0
    → m ≡ 0
    → (if was_paid then settled else owed) ≡ coin_by (1 + n) ((if was_paid then 1 else 0) + m)
unfolding coin_by
coin_head true n m hn hm = rw (hn, hm) refl
coin_head false n m hn hm = rw (hn, hm) refl

coin_of-by :
    (t : Text) (v : ℕ) (rows : List Payout)
    → rows_of t v rows ≤ 1
    → coin_of t v rows ≡ coin_by (rows_of t v rows) (paid_rows t v rows)
unfolding get_tango_payout
coin_of-by t v [] single = unfold coin_by in refl
coin_of-by t v (r ∷ rows) single = elim (Bool-cases (is_row t v r)) [
  | inl e ↦
      let single' = rw e at single in
      let alone : rows_of t v rows ≡ 0 = omega (arith, single') in
      let unpaid : paid_rows t v rows ≡ 0 = omega (arith, alone, paid_rows-le t v rows) in
      rw e (coin_head (is_paid r.status) _ _ alone unpaid)
  | inr e ↦
      let single' = rw e at single in
      rw e (coin_of-by t v rows (omega (arith, single')) ∙ coin_by-eq (omega arith) (omega arith))
]

-- No row is gone, and none that was paid is not.
IsGrown : List Payout → List Payout → Type 0
IsGrown base rows =
    (t : Text) (v : ℕ)
    → (rows_of t v base ≤ rows_of t v rows) × (paid_rows t v base ≤ paid_rows t v rows)

by-Moves : (r r' p p' : ℕ) → r ≤ r' → p ≤ p' → p ≤ r → Moves (coin_by r p) (coin_by r' p')
unfolding coin_by
by-Moves zero zero zero zero hr hp h = stays
by-Moves zero (suc r') zero zero hr hp h = owes
by-Moves zero r' zero (suc p') hr hp h = settles_at_once
by-Moves (suc r) zero zero zero hr hp h = absurd (ground (arith, hr))
by-Moves (suc r) (suc r') zero zero hr hp h = stays
by-Moves (suc r) r' zero (suc p') hr hp h = settles
by-Moves r r' (suc p) zero hr hp h = absurd (ground (arith, hp))
by-Moves zero r' (suc p) (suc p') hr hp h = stays
by-Moves (suc r) r' (suc p) (suc p') hr hp h = stays

IsGrown-refl : (rows : List Payout) → IsGrown rows rows
unfolding IsGrown
IsGrown-refl rows t v = (omega arith, omega arith)

grown_at :
    (base rows : List Payout)
    → IsGrown base rows
    → (t : Text) (v : ℕ)
    → (rows_of t v base ≤ rows_of t v rows) × (paid_rows t v base ≤ paid_rows t v rows)
unfolding IsGrown
grown_at base rows h = h

create-IsGrown :
    (base : List Payout) (now : ℕ) (new : Payout) (rows : List Payout)
    → IsGrown base rows
    → IsGrown base (create_tango_payout now new rows).0
unfolding create_tango_payout IsGrown
create-IsGrown base now new rows h =
    if_keeps (λ (x : List Payout × Bool). IsGrown base x.0) (any (is_row new.txid new.vout) rows)
      {x = (rows, false)} h
      (λ t v.
        let more = sum_of-append (λ r. if is_row t v r then 1 else 0) rows in
        let more_paid = sum_of-append (λ r. if is_paid_row t v r then 1 else 0) rows in
        (omega (arith, (h t v).0, more _), omega (arith, (h t v).1, more_paid _)))

revived-IsGrown :
    (network : Text) (now : ℕ) (rows : List Payout)
    → IsGrown rows (requeue_failed_tango_payouts network now rows)
unfolding requeue_failed_tango_payouts IsGrown
revived-IsGrown network now rows t v = (
  omega (arith, map-rows_of (revived network now) t v rows (λ r. ground arith)),
  omega (
    arith,
    map-paid_rows (revived network now) t v rows (λ r. elim r.status [
      | pending ↦ ground arith
      | paid ↦ ground arith
      | failed ↦ ground arith
      | unpayable ↦ ground arith
    ]),
  ),
)

redacted-IsGrown :
    (user_id : Text) (rows : List Payout)
    → IsGrown rows (redact_tango_payouts_for_user user_id rows)
unfolding redact_tango_payouts_for_user IsGrown
redacted-IsGrown user_id rows t v = (
  omega (arith, map-rows_of (redacted user_id) t v rows (λ r. ground arith)),
  omega (arith, map-paid_rows (redacted user_id) t v rows (λ r. ground arith)),
)

retry_found-IsGrown :
    (txid : Text) (vout : ℕ) (saved : Option Text) (now : ℕ) (old : List Payout)
    (found : Option Payout) (rows : List Payout)
    → get_tango_payout txid vout old ≡ found
    → retry_found txid vout saved now found old ≡ ok rows
    → rows_of txid vout old ≤ 1
    → IsGrown old rows
unfolding requeue_tango_payout IsGrown
retry_found-IsGrown txid vout saved now old none rows at e single = cc
retry_found-IsGrown txid vout saved now old (some row) rows at e single =
    elim (Bool-cases (is_paid row.status)) [
      | inl was_paid ↦ absurd (let bad = rw was_paid at e in cc)
      | inr unpaid ↦
          let done = rw unpaid at e in
          let none_paid = get-unpaid txid vout old row at unpaid single in
          let set : Payout → Payout = requeued (retry_address saved row) now in
          rw (sym (ok_inj done)) (λ t v. (
            omega (arith, update-rows_of txid t vout v set old (λ r. refl)),
            omega (
              arith,
              update-paid_rows txid t vout v set old none_paid (λ r e. ground (arith, e))
                  (λ r. refl),
            ),
          ))
    ]

-- What a settled coin was paid.
by-times_paid : (n m : ℕ) → m ≤ n → n ≤ 1 → m ≡ times_paid (coin_by n m)
unfolding coin_by
by-times_paid zero zero h single = refl
by-times_paid (suc n) zero h single = refl
by-times_paid zero (suc m) h single = absurd (ground (arith, h))
by-times_paid (suc n) (suc m) h single = omega (arith, h, single)

delivered-IsGrown :
    (wallets : Text → Text) (now : ℕ) (outside : Payout → Outside) (balances : Text → Option ℕ)
    (base : List Payout) (c : Books)
    → ((r : Payout) → (outside r).records ≡ true)
    → IsOnce c
    → IsGrown base c.rows
    → IsGrown base (deliver_due wallets now outside balances c).rows
unfolding IsGrown
delivered-IsGrown wallets now outside balances base c recorded h grown t v =
    let passed = deliver_due-IsOpen wallets now outside balances c recorded h in
    (omega (arith, (grown t v).0, passed.kept t v), omega (arith, (grown t v).1, passed.grown t v))

module _ {fl : Floats} where
  Step-IsGrown : {b c : Books} (st : Step fl b c) → IsRecorded st → IsOnce b → IsGrown b.rows c.rows
  unfolding run_tango_payouts api_admin_tango_payout_retry
  Step-IsGrown (runs w now b) recorded h =
      let kept : List Payout → Type 0 =
        λ rows. IsOnce (record b { rows = rows }) × IsGrown b.rows rows in
      let network = codes "mainnet" in
      let checked =
        check_keeps kept (w.backend_config network) w.balance_msat now b.rows b.service_health
          (h, IsGrown-refl b.rows)
          (requeue_failed-IsOnce network now b h, revived-IsGrown network now b.rows) in
      let queued =
        enqueue_keeps kept now
          (λ cfg address rnd side vout rows v. (
            create-IsOnce now _ (record b { rows = rows }) v.0,
            create-IsGrown b.rows now _ rows v.1,
          ))
          w.backend_config w.ln_address w.rounds (_, 0) checked in
      delivered-IsGrown _ now w.outside _ b.rows _ recorded
        (record { single = queued.0.single; matched = queued.0.matched }) queued.1
  Step-IsGrown (retries txid vout saved now b rows e) recorded h =
      retry_found-IsGrown txid vout saved now b.rows _ rows refl e (h.single txid vout)
  Step-IsGrown (revives network now b) recorded h = revived-IsGrown network now b.rows
  Step-IsGrown (redacts user_id b) recorded h = redacted-IsGrown user_id b.rows

  -- Behind steps in which every payment that goes out is returned and recorded, each further such
  -- step moves each coin as the machine allows, and behind it a coin has been paid for once if it is
  -- settled, and else not at all.
  pub payouts_refine :
      {b c : Books} (t : Text) (v : ℕ) (r : Reach fl no_books b)
      → AllRecorded r
      → (st : Step fl b c) → IsRecorded st
      → Moves (coin_of t v b.rows) (coin_of t v c.rows)
        × (payments_of t v c.payments ≡ times_paid (coin_of t v c.rows))
  payouts_refine {b} {c} t v r recorded st too =
      let before = Reach-IsOnce r recorded in
      let after = Step-IsOnce st too before in
      let (rows_le, paid_le) = grown_at b.rows c.rows (Step-IsGrown st too before) t v in
      let moves =
        by-Moves (rows_of t v b.rows) (rows_of t v c.rows) (paid_rows t v b.rows)
          (paid_rows t v c.rows) rows_le paid_le (paid_rows-le t v b.rows) in
      (
        rw (coin_of-by t v b.rows (before.single t v), coin_of-by t v c.rows (after.single t v))
            moves,
        after.matched t v
            ∙ rw (coin_of-by t v c.rows (after.single t v)) (
                by-times_paid (rows_of t v c.rows) (paid_rows t v c.rows) (paid_rows-le t v c.rows)
                  (after.single t v)),
      )
