-- ===== src/History.antt =====
-- helpers/transactions.py (`classify`, `list_wallet_transactions`), and what it reads by crud.py: a
-- wallet's transactions, made of the rows of its coins.
pub mod Sums
pub mod Rows
pub mod Balance
use si_lnt.Prelude.{
  ℕ, ◌+◌, Bool, true, false, not, ◌&&◌, ◌||◌, Option, none, some, List, [], ◌∷◌, ◌++◌, map, min,
  any, keep, take, length, sum_of, count_if, ltb, leb, ◌==◌, if◌then◌else◌,
}
use si_lnt.Prelude.Int.{ℤ, pos, negsuc, sub_ℕ}
use si_lnt.Prelude.Find.{drop}
use si_lnt.Prelude.Sort.{sort}
use si_lnt.Prelude.Text.{Text, text_eq}
use si_lnt.Coins.{Coin, Table, is_of, is_unconfirmed_spent}
use si_lnt.Labels.{or_empty, wrote_label}
use si_lnt.Labels.Undo.{set_of}

-- `PLAIN_INCOMING_TTL_SECONDS`
abbrev pub incoming_ttl_seconds : ℕ
incoming_ttl_seconds = 86400

pub record Receive : Type 0 where
  pub txid : Text
  pub timestamp : ℕ
  pub output_sum : ℕ
  pub output_count : ℕ
  pub labels : List Text

pub record Sent : Type 0 where
  pub txid : Text
  pub spent_at : ℕ
  pub input_sum : ℕ
  pub input_count : ℕ
  pub pending_inputs : ℕ

-- `MIN`, 0 of none.
abbrev pub least : List ℕ → ℕ
least [] = 0
least (n ∷ []) = n
least (n ∷ more) = min n (least more)

-- The values of a column that are not NULL.
abbrev pub values {ℓ} : {A : Type ℓ} → (Coin → Option A) → List Coin → List A
values column [] = []
values column (c ∷ coins) =
    let rest = values column coins in elim (column c) [ none ↦ rest | some v ↦ v ∷ rest ]

abbrev pub received : List Coin → Text → Receive
received own txid =
    let group = keep (λ c. text_eq c.txid txid) own in
    record {
      txid = txid;
      timestamp = least (map (λ c. c.timestamp) group);
      output_sum = sum_of (λ c. c.amount) group;
      output_count = length group;
      labels = set_of (values (λ c. c.label) group);
    }

unfoldable pub get_wallet_receives : Text → Table → List Receive
get_wallet_receives wallet_id table =
    let own = keep (is_of wallet_id) table in map (received own) (set_of (map (λ c. c.txid) own))

abbrev pub has_spender : Option Text → Bool
has_spender none = false
has_spender (some t) = true

abbrev pub spender : Coin → Text
spender c = or_empty c.spent_in_txid

abbrev pub sent : List Coin → Text → Sent
sent own txid =
    let group = keep (λ c. text_eq (spender c) txid) own in
    record {
      txid = txid;
      spent_at = least (values (λ c. c.spent_at) group);
      input_sum = sum_of (λ c. c.amount) group;
      input_count = length group;
      pending_inputs = count_if (λ c. is_unconfirmed_spent c.state) group;
    }

unfoldable pub get_wallet_sends : Text → Table → List Sent
get_wallet_sends wallet_id table =
    let own = keep (λ c. has_spender c.spent_in_txid) (keep (is_of wallet_id) table) in
    map (sent own) (set_of (map spender own))

-- A row of silnt.plain_incoming.
pub record Incoming : Type 0 where
  pub txid : Text
  pub wallet_id : Text
  pub amount : ℕ
  pub created_at : ℕ

unfoldable pub list_plain_incoming : ℕ → Text → List Incoming → List Incoming
list_plain_incoming now wallet_id table =
    keep (λ p. leb now (p.created_at + incoming_ttl_seconds))
      (sort (λ p q. ltb q.created_at p.created_at)
        (keep (λ p. text_eq p.wallet_id wallet_id) table))

unfoldable pub clear_plain_incoming : List Text → List Incoming → List Incoming
clear_plain_incoming [] table = table
clear_plain_incoming (txid ∷ txids) table =
    clear_plain_incoming txids (keep (λ p. not (text_eq p.txid txid)) table)

pub data Kind : Type 0 where
  receive send tango : Kind

pub record Row : Type 0 where
  pub kind : Kind
  pub txid : Text
  pub timestamp : ℕ
  pub amount_sats : ℤ
  pub input_sum : ℕ
  pub output_sum : ℕ
  pub input_count : ℕ
  pub output_count : ℕ
  pub labels : List Text
  pub confirmed : Bool

abbrev pub direction : ℤ → Kind
direction (pos n) = if n == 0 then send else receive
direction (negsuc n) = send

unfoldable pub classify : ℕ → ℕ → Kind × ℤ
classify input_sum output_sum = let net = sub_ℕ output_sum input_sum in (direction net, net)

abbrev pub receive_of : Text → List Receive → Option Receive
receive_of txid [] = none
receive_of txid (r ∷ receives) =
    let rest = receive_of txid receives in if text_eq r.txid txid then some r else rest

abbrev pub send_of : Text → List Sent → Option Sent
send_of txid [] = none
send_of txid (s ∷ sends) =
    let rest = send_of txid sends in if text_eq s.txid txid then some s else rest

-- What a send reads of a receive that is not there.
abbrev pub or_nothing : Text → Option Receive → Receive
or_nothing txid (some r) = r
or_nothing txid none = record {
  txid = txid;
  timestamp = 0;
  output_sum = 0;
  output_count = 0;
  labels = [];
}

-- The row of a transaction, of its receive and its send.
unfoldable pub row_of : Text → Receive → Option Sent → Row
row_of txid rcv (some snd) =
    let (kind, amount_sats) = classify snd.input_sum rcv.output_sum in
    record {
      kind = kind;
      txid = txid;
      timestamp = if snd.spent_at == 0 then rcv.timestamp else snd.spent_at;
      amount_sats = amount_sats;
      input_sum = snd.input_sum;
      output_sum = rcv.output_sum;
      input_count = snd.input_count;
      output_count = rcv.output_count;
      labels = rcv.labels;
      confirmed = snd.pending_inputs == 0;
    }
row_of txid rcv none = record {
  kind = receive;
  txid = txid;
  timestamp = rcv.timestamp;
  amount_sats = pos rcv.output_sum;
  input_sum = 0;
  output_sum = rcv.output_sum;
  input_count = 0;
  output_count = rcv.output_count;
  labels = rcv.labels;
  confirmed = true;
}

abbrev pub incoming_row : Incoming → Row
incoming_row p = record {
  kind = receive;
  txid = p.txid;
  timestamp = p.created_at;
  amount_sats = pos p.amount;
  input_sum = 0;
  output_sum = p.amount;
  input_count = 0;
  output_count = 1;
  labels = [];
  confirmed = false;
}

-- What is made of a row of one of the wallet's broadcast rounds; its figures are left out.
abbrev pub as_mix : (is_mix : Text → Bool) → Row → Row
as_mix is_mix row =
    if is_mix row.txid
    then record row { kind = tango; labels = keep (λ l. not (wrote_label l)) row.labels }
    else row

-- The transactions in the order of a set, which is any.
unfoldable pub txids_of : List Receive → List Sent → List Text
txids_of receives sends = set_of (map (λ r. r.txid) receives ++ map (λ s. s.txid) sends)

abbrev pub is_superseded : List Receive → Incoming → Bool
is_superseded receives p = any (λ r. text_eq r.txid p.txid) receives

-- The rows of all transactions, before they are sorted.
unfoldable pub rows_of : List Receive → List Sent → List Incoming → List Row
rows_of receives sends in_flight =
    map (λ t. row_of t (or_nothing t (receive_of t receives)) (send_of t sends))
      (txids_of receives sends)
    ++ map incoming_row (keep (λ p. not (is_superseded receives p)) in_flight)

unfoldable pub history :
    (is_mix : Text → Bool) → List Receive → List Sent → List Incoming → List Row
history is_mix receives sends in_flight =
    sort (λ r s. ltb s.timestamp r.timestamp)
      (map (as_mix is_mix) (rows_of receives sends in_flight))

-- A page of the transactions, and the table of incoming payments without what the scan has found.
unfoldable pub list_wallet_transactions :
    (is_mix : Text → Bool) → ℕ → Text → ℕ → ℕ → Table → List Incoming → List Row × List Incoming
list_wallet_transactions is_mix now wallet_id limit offset table incoming =
    let receives = get_wallet_receives wallet_id table in
    let in_flight = list_plain_incoming now wallet_id incoming in
    let superseded = map (λ p. p.txid) (keep (is_superseded receives) in_flight) in
    (
      take limit
          (drop offset (history is_mix receives (get_wallet_sends wallet_id table) in_flight)),
      clear_plain_incoming superseded incoming,
    )
