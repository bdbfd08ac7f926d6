-- ===== src/Payout/Run/Budget.antt =====
-- What a pass over the queue spends of the balance that it read.
use si_lnt.Prelude.{
  ℕ, ◌+◌, ◌-◌, ◌≤◌, ◌≡◌, refl, ap, arith, Bool, true, false, ◌&&◌, Option, some, List, [], ◌∷◌,
  keep, count_if, sum_of, sum_of-keep-le, sum_of-take-le, is_empty, ltb, leb, if◌then◌else◌,
  Bool-cases, inl, inr, ◌⊎◌,
}
use si_lnt.Prelude.Text.{Text, text_eq, text_eq→≡, strip}
use si_lnt.Prelude.Sort.{sort, sum_of-sort}
use si_lnt.Payout.Run.{status_after, give_up, defer_max_seconds, should_defer, owed_age_seconds}
use si_lnt.Payout.Run.Queue.{Payout, is_due, created, list_due_tango_payouts}
use si_lnt.Payout.Run.Attempt.{
  InvoiceAnswer, Payment, Books, Outcome, became, Outside, Quote, quoted, unquoted, record_failure,
  payment_of, pay_quote, quote_for, defers, attempt_tango_payout, pay_due, deliver_due, spend,
  balances_after,
}

-- What was paid on a network.
abbrev pub sent_on : Text → List Payment → ℕ
sent_on network payments = sum_of (λ p. if text_eq p.network network then p.sats else 0) payments

-- A payout of the network that has waited for a day, and is tried whatever the balance.
abbrev pub is_overdue : ℕ → Text → Payout → Bool
is_overdue now network r =
    text_eq r.network network && leb defer_max_seconds (owed_age_seconds r.created_at now)

-- Nothing was paid, and the balances stay; or the payout, from a balance that did not defer it.
Spent : ℕ → Payout → (Text → Option ℕ) → List Payment → Books × Outcome → Type 0
Spent now row balances payments (books, outcome) =
    ((books.payments ≡ payments) × (balances_after row outcome balances ≡ balances))
    ⊎ ((books.payments ≡ payment_of row ∷ payments)
        × (balances_after row outcome balances ≡ spend row.network row.net_sats balances)
        × (is_empty (strip row.ln_address) ≡ false))

module _ (now : ℕ) (row : Payout) (balances : Text → Option ℕ) (b : Books) where
  stopped_keeps :
      (n : ℕ) (permanent : Bool)
      → balances_after row (became (status_after n permanent)) balances ≡ balances
  unfolding status_after give_up
  stopped_keeps n permanent = ground arith

  failure-Spent :
      (permanent : Bool) → Spent now row balances b.payments (record_failure now row permanent b)
  unfolding record_failure Spent
  failure-Spent permanent = inl (refl, stopped_keeps (row.attempts + 1) permanent)

  pay_quote-Spent :
      (q : Quote) (out : Outside)
      → out.records ≡ true
      → ((bolt11 : Text) → q ≡ quoted bolt11 → is_empty (strip row.ln_address) ≡ false)
      → Spent now row balances b.payments (pay_quote now row q out b)
  unfolding pay_quote Spent
  pay_quote-Spent (unquoted permanent) out recorded addressed = failure-Spent permanent
  pay_quote-Spent (quoted bolt11) out recorded addressed = elim (Bool-cases out.pays) [
    | inl e ↦ rw (e, recorded) (inr (refl, refl, addressed bolt11 refl))
    | inr e ↦ rw e (failure-Spent false)
  ]

  quoted-addressed :
      (wallet_id : Text) (answer : InvoiceAnswer) (bolt11 : Text)
      → quote_for wallet_id row answer ≡ quoted bolt11
      → is_empty (strip row.ln_address) ≡ false
  unfolding quote_for
  quoted-addressed wallet_id answer bolt11 h = elim (Bool-cases (is_empty (strip row.ln_address))) [
    | inl e ↦ absurd (let bad = rw e at h in cc)
    | inr e ↦ e
  ]

  -- A payment is made only where the balance did not defer it.
  attempt-Spent :
      (wallet_id : Text) (balance_sats : Option ℕ) (out : Outside)
      → out.records ≡ true
      → let r = attempt_tango_payout wallet_id now row balance_sats out b in
        ((r.0.payments ≡ b.payments) × (balances_after row r.1 balances ≡ balances))
        ⊎ ((r.0.payments ≡ payment_of row ∷ b.payments)
            × (balances_after row r.1 balances ≡ spend row.network row.net_sats balances)
            × (should_defer balance_sats row.net_sats (owed_age_seconds row.created_at now)
                ≡ false))
  unfolding attempt_tango_payout Spent
  attempt-Spent wallet_id balance_sats out recorded =
      elim (Bool-cases (defers now row balance_sats)) [
        | inl e ↦ rw e (inl (refl, refl))
        | inr e ↦
            elim (pay_quote-Spent (quote_for wallet_id row out.answer) out recorded
              (quoted-addressed wallet_id out.answer)) [
                | inl kept ↦ rw e (inl kept)
                | inr (sent, left, addressed) ↦
                    rw e (inr (sent, left, ground (arith, e, addressed)))
              ]
      ]

module _ (row : Payout) (network : Text) (balance : ℕ) where
  spend_here :
      (balances : Text → Option ℕ)
      → text_eq row.network network ≡ true
      → balances network ≡ some balance
      → spend row.network row.net_sats balances network ≡ some (balance - row.net_sats)
  spend_here balances on read = ground (arith, read, on)

  spend_elsewhere :
      (balances : Text → Option ℕ)
      → text_eq row.network network ≡ false
      → balances network ≡ some balance
      → spend row.network row.net_sats balances network ≡ some balance
  spend_elsewhere balances off read = ground (arith, read, off)

  sent_more :
      {payments before : List Payment}
      → payments ≡ payment_of row ∷ before
      → sent_on network payments
        ≡ (if text_eq row.network network then row.net_sats else 0) + sent_on network before
  sent_more e = ap (sent_on network) e

  -- A young payout that was not deferred is one that the balance covers.
  covers :
      (now : ℕ)
      → text_eq row.network network ≡ true
      → is_overdue now network row ≡ false
      → should_defer (some balance) row.net_sats (owed_age_seconds row.created_at now) ≡ false
      → row.net_sats ≤ balance
  unfolding should_defer
  covers now on young kept = ground (arith, on, young, kept)

pay_due-within :
    (wallets : Text → Text) (now : ℕ) (outside : Payout → Outside) (network : Text) (balance : ℕ)
    (due : List Payout) (balances : Text → Option ℕ) (b : Books)
    → ((r : Payout) → (outside r).records ≡ true)
    → count_if (is_overdue now network) due ≡ 0
    → balances network ≡ some balance
    → sent_on network (pay_due wallets now outside due balances b).payments
      ≤ sent_on network b.payments + balance
unfolding pay_due
pay_due-within wallets now outside network balance [] balances b recorded young read = omega arith
pay_due-within wallets now outside network balance (row ∷ due) balances b recorded young read =
    let out = outside row in
    let step = attempt_tango_payout (wallets row.network) now row (balances row.network) out b in
    let later : count_if (is_overdue now network) due ≡ 0 = ground (arith, young) in
    elim (attempt-Spent now row balances b (wallets row.network) (balances row.network) out
      (recorded row)) [
        | inl (kept, same) ↦
            let rest =
              pay_due-within wallets now outside network balance due
                (balances_after row step.1 balances) step.0 recorded later (rw same read) in
            rw kept at rest
        | inr (sent, left, covered) ↦ elim (Bool-cases (text_eq row.network network)) [
          | inl on ↦
              let here : row.network ≡ network = text_eq→≡ row.network network on in
              let enough : row.net_sats ≤ balance =
                covers row network balance now on (ground (arith, young))
                  (rw (here, read) at covered) in
              let rest =
                pay_due-within wallets now outside network (balance - row.net_sats) due
                  (balances_after row step.1 balances) step.0 recorded later
                  (rw left (spend_here row network balance balances on read)) in
              ground (arith, on, sent_more row network balance sent, rest, enough)
          | inr off ↦
              let rest =
                pay_due-within wallets now outside network balance due
                  (balances_after row step.1 balances) step.0 recorded later
                  (rw left (spend_elsewhere row network balance balances off read)) in
              ground (arith, off, sent_more row network balance sent, rest)
        ]
      ]

-- Where no payout of a network in the queue has waited for a day, its balance was read, and every
-- payment that is made is recorded: a pass over the queue pays out no more on that network than
-- the balance.
pub deliver_due_within :
    (wallets : Text → Text) (now : ℕ) (outside : Payout → Outside) (balances : Text → Option ℕ)
    (b : Books) (network : Text) (balance : ℕ)
    → ((r : Payout) → (outside r).records ≡ true)
    → count_if (is_overdue now network) b.rows ≡ 0
    → balances network ≡ some balance
    → sent_on network (deliver_due wallets now outside balances b).payments
      ≤ sent_on network b.payments + balance
unfolding deliver_due list_due_tango_payouts
deliver_due_within wallets now outside balances b network balance recorded young read =
    let earlier = λ (a b : Payout). ltb (created a) (created b) in
    let one : Payout → ℕ = λ r. if is_overdue now network r then 1 else 0 in
    let queue = keep (is_due now) b.rows in
    pay_due-within wallets now outside network balance _ balances b recorded
      (omega (
        arith,
        sum_of-take-le one 25 (sort earlier queue),
        sum_of-sort earlier one queue,
        sum_of-keep-le one (is_due now) b.rows,
        young,
      ))
      read
