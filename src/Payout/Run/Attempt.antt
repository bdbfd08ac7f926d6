-- ===== src/Payout/Run/Attempt.antt =====
-- views_api.py: one payout tried (`_attempt_tango_payout`), all that are due
-- (`run_tango_payouts`), and the retry of the admin console.
use si_lnt.Prelude.{
  ℕ, ◌+◌, ◌-◌, Bool, true, false, not, ◌&&◌, ◌||◌, Option, none, some, List, [], ◌∷◌, is_empty,
  if◌then◌else◌, Result, ok, err,
}
use si_lnt.Prelude.Text.{Text, codes, text_eq, strip}
use si_lnt.Payout.Invoice.{network_mismatch}
use si_lnt.Payout.Run.{
  PayoutStatus, paid, should_defer, owed_age_seconds, next_deferral_at, status_after,
  next_attempt_at,
}
use si_lnt.Floats.{Floats}
use si_lnt.Payout.Run.Config.{PayoutConfig}
use si_lnt.Payout.Run.Enqueue.{Broadcast, enqueue_tango_payouts}
use si_lnt.Payout.Run.Liquidity.{check_tango_payout_liquidity}
use si_lnt.Payout.Run.Queue.{
  Payout, is_pending, is_paid, get_tango_payout, list_due_tango_payouts, update_tango_payout,
  requeue_tango_payout,
}

-- What a Lightning address answers: an invoice, or an error that may pass, or one that will not.
pub data InvoiceAnswer : Type 0 where
  invoiced : Text → InvoiceAnswer
  temporary refused : InvoiceAnswer

-- What is outside, for one attempt: the answer, whether a payment goes out, and whether, if it does,
-- `pay_invoice` returns and the statement that records it goes through. Where it does not, the
-- payment is made and the `except` counts a failure. A pending payment that is returned has gone
-- out.
pub record Outside : Type 0 where
  pub answer : InvoiceAnswer
  pub pays : Bool
  pub records : Bool

pub record Payment : Type 0 where
  pub txid : Text
  pub vout : ℕ
  pub network : Text
  pub sats : ℕ

-- The table, every payment that was made, and whether the payout wallet was last seen above its
-- floor, if it ever was seen.
pub record Books : Type 0 where
  pub rows : List Payout
  pub service_health : Option Bool
  pub payments : List Payment

pub data Outcome : Type 0 where
  deferred : Outcome
  became : PayoutStatus → Outcome

-- What the attempt has before it pays: an invoice, or an error that is permanent or not.
pub data Quote : Type 0 where
  quoted : Text → Quote
  unquoted : Bool → Quote

-- The invoice that came must be for the payout's chain.
abbrev pub checked : Text → Text → Quote
checked network bolt11 = elim (network_mismatch bolt11 network) [
  | none ↦ quoted bolt11
  | some _ ↦ unquoted true
]

abbrev pub of_answer : Text → InvoiceAnswer → Quote
of_answer network (invoiced bolt11) = checked network bolt11
of_answer network temporary = unquoted false
of_answer network refused = unquoted true

-- `wallet_id` is the payout wallet of the row's network, blank where none is set.
unfoldable pub quote_for : Text → Payout → InvoiceAnswer → Quote
quote_for wallet_id row answer =
    if is_empty (strip row.ln_address)
    then unquoted true
    else if is_empty (strip wallet_id)
    then unquoted false
    else of_answer row.network answer

-- The row behind a failure.
unfoldable pub failed_row : ℕ → ℕ → PayoutStatus → Bool → Payout → Payout
failed_row now attempts status told r = record r {
  status = status;
  attempts = attempts;
  next_attempt = if is_pending status then some (next_attempt_at now attempts) else r.next_attempt;
  notified = r.notified || told;
}

-- The end of an attempt that failed; who has not been told yet is told when it stops.
unfoldable pub record_failure : ℕ → Payout → Bool → Books → Books × Outcome
unfolding failed_row
record_failure now row permanent books =
    let attempts = row.attempts + 1 in
    let status = status_after attempts permanent in
    (
      record books {
        rows =
            update_tango_payout row.txid row.vout
              (failed_row now attempts status (not (is_pending status) && not row.notified))
              books.rows;
      },
      became status,
    )

abbrev pub payment_of : Payout → Payment
payment_of row = record {
  txid = row.txid;
  vout = row.vout;
  network = row.network;
  sats = row.net_sats;
}

-- The payment, and the statement that records it, which one `except` covers.
unfoldable pub pay_quote : ℕ → Payout → Quote → Outside → Books → Books × Outcome
pay_quote now row (unquoted permanent) out books = record_failure now row permanent books
pay_quote now row (quoted bolt11) out books =
    let sent = record books { payments = payment_of row ∷ books.payments } in
    if not out.pays
    then record_failure now row false books
    else if not out.records
    then record_failure now row false sent
    else (
      record sent {
        rows =
            update_tango_payout row.txid row.vout
              (λ r. record r { status = paid; attempts = row.attempts + 1 }) books.rows;
      },
      became paid,
    )

-- The wallet cannot cover the payout, which has an address and has not waited for a day.
abbrev pub defers : ℕ → Payout → Option ℕ → Bool
defers now row balance_sats =
    not (is_empty (strip row.ln_address))
    && should_defer balance_sats row.net_sats (owed_age_seconds row.created_at now)

abbrev pub deferred_row : ℕ → Payout → Payout
deferred_row now r = record r { next_attempt = some (next_deferral_at now) }

unfoldable pub attempt_tango_payout :
    Text → ℕ → Payout → Option ℕ → Outside → Books → Books × Outcome
attempt_tango_payout wallet_id now row balance_sats out books =
    if defers now row balance_sats
    then (
      record books { rows = update_tango_payout row.txid row.vout (deferred_row now) books.rows },
      deferred,
    )
    else pay_quote now row (quote_for wallet_id row out.answer) out books

-- What a payment leaves of the balance that was read for its network.
abbrev pub spend : Text → ℕ → (Text → Option ℕ) → Text → Option ℕ
spend network sats balances n = elim (balances n) [
  | none ↦ none
  | some b ↦ some (if text_eq network n then b - sats else b)
]

abbrev pub balances_after : Payout → Outcome → (Text → Option ℕ) → Text → Option ℕ
balances_after row (became paid) balances = spend row.network row.net_sats balances
balances_after row _ balances = balances

-- The loop of `run_tango_payouts` over the rows that are due.
unfoldable pub pay_due :
    (Text → Text) → ℕ → (Payout → Outside) → List Payout → (Text → Option ℕ) → Books → Books
pay_due wallets now outside [] balances books = books
pay_due wallets now outside (row ∷ due) balances books =
    let (books', outcome) =
      attempt_tango_payout (wallets row.network) now row (balances row.network) (outside row)
        books in
    pay_due wallets now outside due (balances_after row outcome balances) books'

-- The rows that are due when the queue is read.
unfoldable pub deliver_due :
    (Text → Text) → ℕ → (Payout → Outside) → (Text → Option ℕ) → Books → Books
deliver_due wallets now outside balances books =
    pay_due wallets now outside (list_due_tango_payouts now 25 books.rows) balances books

-- What a pass meets: the configuration of each network, a user's Lightning address on a network,
-- the rounds that were broadcast, the balance of the payout wallet, and what each attempt meets.
pub record World (fl : Floats) : Type 0 where
  pub backend_config : Text → PayoutConfig fl
  pub ln_address : Text → Text → Text
  pub rounds : List Broadcast
  pub balance_msat : Option ℕ
  pub outside : Payout → Outside

-- A pass: the wallet is checked, what is owed is put into the queue, and what is due is tried.
unfoldable pub run_tango_payouts : {fl : Floats} → World fl → ℕ → Books → Books
run_tango_payouts w now books =
    let (rows, health, balances) =
      check_tango_payout_liquidity (w.backend_config (codes "mainnet")) w.balance_msat now
        books.rows books.service_health in
    let (queued, _) = enqueue_tango_payouts w.backend_config w.ln_address now w.rounds (rows, 0) in
    deliver_due (λ network. (w.backend_config network).tango_change_payout_wallet_id) now w.outside
      balances (record books { rows = queued; service_health = health })

pub data RetryError : Type 0 where
  no_such_payout already_paid : RetryError

-- The address that is on record now, else the payout's own.
abbrev pub retry_address : Option Text → Payout → Text
retry_address none row = row.ln_address
retry_address (some address) row = if is_empty address then row.ln_address else address

abbrev pub retry_found :
    Text → ℕ → Option Text → ℕ → Option Payout → List Payout → Result RetryError (List Payout)
retry_found txid vout saved now none rows = err no_such_payout
retry_found txid vout saved now (some row) rows =
    if is_paid row.status
    then err already_paid
    else ok (requeue_tango_payout txid vout (retry_address saved row) now rows)

-- `api_admin_tango_payout_retry`; `saved` is the address that the user has on record now.
unfoldable pub api_admin_tango_payout_retry :
    Text → ℕ → Option Text → ℕ → List Payout → Result RetryError (List Payout)
api_admin_tango_payout_retry txid vout saved now rows =
    retry_found txid vout saved now (get_tango_payout txid vout rows) rows
