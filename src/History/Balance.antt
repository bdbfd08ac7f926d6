-- ===== src/History/Balance.antt =====
-- The history of a wallet adds up to what the wallet holds.
use si_lnt.Prelude.{
  ℕ, ◌+◌, ◌≤◌, ◌≡◌, refl, sym, ap, ◌∙◌, arith, Bool, true, not, ◌||◌, List, ◌++◌, map, any, keep,
  length, sum_of, sum_of-append, or_right,
}
use si_lnt.Prelude.Int.{pos_part, neg_part}
use si_lnt.Prelude.Sort.{sum_of-sort}
use si_lnt.Prelude.Text.{Text, text_eq}
use si_lnt.Coins.{Table, is_of}
use si_lnt.Labels.Undo.{set_of}
use si_lnt.History.{
  Receive, Sent, get_wallet_receives, received, has_spender, spender, get_wallet_sends, Incoming,
  list_plain_incoming, receive_of, send_of, or_nothing, Row, row_of, incoming_row, as_mix, txids_of,
  is_superseded, rows_of, history, list_wallet_transactions,
}
use si_lnt.History.Sums.{
  is_distinct, set_of-distinct, any-set_of, any-append, worth, worths_all, worth-none,
}
use si_lnt.History.Rows.{
  taken, got, gave, amount, receive-worth, send-worth, rows-net, incoming-got, incoming-gave,
  mixed_same, mix-got, mix-gave, receives-txids, sends-txids, keep-parts, take-all,
}

or_left : (p q : Bool) → p ≡ true → (p || q) ≡ true
or_left p q h = rw h refl

-- Among the transactions are those that a coin came by.
received-known :
    (wallet_id : Text) (table : Table) (k : Text)
    → any (text_eq k) (map (λ c. c.txid) (keep (is_of wallet_id) table)) ≡ true
    → any
        (text_eq k)
        (txids_of (get_wallet_receives wallet_id table) (get_wallet_sends wallet_id table))
      ≡ true
unfolding txids_of get_wallet_receives get_wallet_sends
received-known wallet_id table k h =
    let own = keep (is_of wallet_id) table in
    let spent = keep (λ c. has_spender c.spent_in_txid) own in
    let ts = set_of (map (λ c. c.txid) own) in
    let ss = set_of (map spender spent) in
    let same = receives-txids own ts in
    any-set_of k _
    ∙ any-append k (map (λ r. r.txid) (map (received own) ts)) _
    ∙ or_left _ _ (ap (any (text_eq k)) same ∙ any-set_of k (map (λ c. c.txid) own) ∙ h)

-- And those that took one.
sent-known :
    (wallet_id : Text) (table : Table) (k : Text)
    → any
        (text_eq k)
        (map spender (keep (λ c. has_spender c.spent_in_txid) (keep (is_of wallet_id) table)))
      ≡ true
    → any
        (text_eq k)
        (txids_of (get_wallet_receives wallet_id table) (get_wallet_sends wallet_id table))
      ≡ true
unfolding txids_of get_wallet_receives get_wallet_sends
sent-known wallet_id table k h =
    let own = keep (is_of wallet_id) table in
    let spent = keep (λ c. has_spender c.spent_in_txid) own in
    let ts = set_of (map (λ c. c.txid) own) in
    let ss = set_of (map spender spent) in
    let same = sends-txids spent ss in
    any-set_of k _
    ∙ any-append k (map (λ r. r.txid) (map (received own) ts)) _
    ∙ or_right _ _ (ap (any (text_eq k)) same ∙ any-set_of k (map spender spent) ∙ h)

txids-distinct :
    (receives : List Receive) (sends : List Sent) → is_distinct (txids_of receives sends) ≡ true
unfolding txids_of
txids-distinct receives sends =
    set_of-distinct (map (λ r. r.txid) receives ++ map (λ s. s.txid) sends)

worths_in :
    (wallet_id : Text) (table : Table)
    → sum_of
        (worth (λ c. c.txid) amount (keep (is_of wallet_id) table))
        (txids_of (get_wallet_receives wallet_id table) (get_wallet_sends wallet_id table))
      ≡ sum_of amount (keep (is_of wallet_id) table)
worths_in wallet_id table =
    worths_all (λ c. c.txid) amount _ _ (txids-distinct _ _) (received-known wallet_id table)

worths_out :
    (wallet_id : Text) (table : Table)
    → let spent = keep (λ c. has_spender c.spent_in_txid) (keep (is_of wallet_id) table) in
      sum_of
        (worth spender amount spent)
        (txids_of (get_wallet_receives wallet_id table) (get_wallet_sends wallet_id table))
      ≡ sum_of amount spent
worths_out wallet_id table =
    worths_all spender amount _ _ (txids-distinct _ _) (sent-known wallet_id table)

got-in :
    (wallet_id : Text) (table : Table) (t : Text)
    → (or_nothing t (receive_of t (get_wallet_receives wallet_id table))).output_sum
      ≡ worth (λ c. c.txid) amount (keep (is_of wallet_id) table) t
unfolding get_wallet_receives
got-in wallet_id table t =
    let own = keep (is_of wallet_id) table in
    receive-worth own t _
      (λ h. worth-none (λ c. c.txid) amount own t (sym (any-set_of t (map (λ c. c.txid) own)) ∙ h))

taken-out :
    (wallet_id : Text) (table : Table) (t : Text)
    → taken (send_of t (get_wallet_sends wallet_id table))
      ≡ worth spender amount
          (keep (λ c. has_spender c.spent_in_txid) (keep (is_of wallet_id) table))
          t
unfolding get_wallet_sends
taken-out wallet_id table t =
    let spent = keep (λ c. has_spender c.spent_in_txid) (keep (is_of wallet_id) table) in
    send-worth spent t _
      (λ h. worth-none spender amount spent t (sym (any-set_of t (map spender spent)) ∙ h))

-- Before they are sorted, the rows add up.
rows_of-net :
    (wallet_id : Text) (table : Table) (in_flight : List Incoming)
    → let receives = get_wallet_receives wallet_id table in
      let rows = rows_of receives (get_wallet_sends wallet_id table) in_flight in
      let own = keep (is_of wallet_id) table in
      sum_of got rows
      ≡ sum_of gave rows
        + sum_of amount (keep (λ c. not (has_spender c.spent_in_txid)) own)
        + sum_of (λ p. p.amount) (keep (λ p. not (is_superseded receives p)) in_flight)
unfolding rows_of
rows_of-net wallet_id table in_flight =
    let receives = get_wallet_receives wallet_id table in
    let sends = get_wallet_sends wallet_id table in
    let own = keep (is_of wallet_id) table in
    let known =
      map (λ t. row_of t (or_nothing t (receive_of t receives)) (send_of t sends))
        (txids_of receives sends) in
    let more = keep (λ p. not (is_superseded receives p)) in_flight in
    omega (
      arith,
      sum_of-append got known (map incoming_row more),
      sum_of-append gave known (map incoming_row more),
      rows-net receives sends _ _ (txids_of receives sends) (got-in wallet_id table)
          (taken-out wallet_id table),
      worths_in wallet_id table,
      worths_out wallet_id table,
      incoming-got more,
      incoming-gave more,
      keep-parts (λ c. has_spender c.spent_in_txid) own,
    )

history-sums :
    (is_mix : Text → Bool) (f : Row → ℕ) (receives : List Receive) (sends : List Sent)
    (in_flight : List Incoming)
    → ((r : Row) → f (as_mix is_mix r) ≡ f r)
    → sum_of f (history is_mix receives sends in_flight)
      ≡ sum_of f (rows_of receives sends in_flight)
unfolding history
history-sums is_mix f receives sends in_flight h =
    sum_of-sort _ f _ ∙ mixed_same is_mix f (rows_of receives sends in_flight) h

-- A page that begins with the newest transaction and is as long as the history adds up to what the
-- wallet holds: the signed amounts of its rows are the coins that no transaction is recorded to have
-- taken, and the payments on their way that no row is there for yet.
pub history_balances :
    (is_mix : Text → Bool) (now : ℕ) (wallet_id : Text) (limit : ℕ) (table : Table)
    (incoming : List Incoming)
    → let receives = get_wallet_receives wallet_id table in
      let in_flight = list_plain_incoming now wallet_id incoming in
      length (history is_mix receives (get_wallet_sends wallet_id table) in_flight) ≤ limit
      → let rows = (list_wallet_transactions is_mix now wallet_id limit 0 table incoming).0 in
        sum_of (λ r. pos_part r.amount_sats) rows
        ≡ sum_of (λ r. neg_part r.amount_sats) rows
          + sum_of
              (λ c. c.amount)
              (keep (λ c. not (has_spender c.spent_in_txid)) (keep (is_of wallet_id) table))
          + sum_of
              (λ p. p.amount)
              (keep
                (λ p. not (is_superseded (get_wallet_receives wallet_id table) p))
                (list_plain_incoming now wallet_id incoming))
unfolding list_wallet_transactions
history_balances is_mix now wallet_id limit table incoming h =
    let receives = get_wallet_receives wallet_id table in
    let sends = get_wallet_sends wallet_id table in
    let in_flight = list_plain_incoming now wallet_id incoming in
    rw (take-all limit (history is_mix receives sends in_flight) h) (
      omega (
        arith,
        history-sums is_mix got receives sends in_flight (mix-got is_mix),
        history-sums is_mix gave receives sends in_flight (mix-gave is_mix),
        rows_of-net wallet_id table in_flight,
      ))
