-- ===== src/History/Rows.antt =====
-- What the rows of a wallet's transactions add up to.
use si_lnt.Prelude.{
  ℕ, zero, suc, ◌+◌, ◌≤◌, ◌≡◌, refl, sym, ap, arith, Bool, false, not, Option, none, some, List, [],
  ◌∷◌, map, any, keep, take, length, sum_of, Bool-cases, inl, inr,
}
use si_lnt.Prelude.Int.{pos_part, neg_part, sub_parts}
use si_lnt.Prelude.Order.{text_eq_sym}
use si_lnt.Prelude.Text.{Text, text_eq, text_eq→≡}
use si_lnt.Coins.{Coin}
use si_lnt.History.{
  Receive, Sent, received, spender, sent, Incoming, classify, receive_of, send_of, or_nothing, Row,
  row_of, incoming_row, as_mix,
}
use si_lnt.History.Sums.{worth}

-- What a transaction took of the wallet's coins.
abbrev pub taken : Option Sent → ℕ
taken none = 0
taken (some s) = s.input_sum

abbrev pub got : Row → ℕ
got r = pos_part r.amount_sats

abbrev pub gave : Row → ℕ
gave r = neg_part r.amount_sats

abbrev pub amount : Coin → ℕ
amount c = c.amount

pub receive-worth :
    (own : List Coin) (t : Text) (ts : List Text)
    → (any (text_eq t) ts ≡ false → worth (λ c. c.txid) amount own t ≡ 0)
    → (or_nothing t (receive_of t (map (received own) ts))).output_sum
      ≡ worth (λ c. c.txid) amount own t
receive-worth own t [] h = sym (h refl)
receive-worth own t (s ∷ ts) h = elim (Bool-cases (text_eq s t)) [
  | inl e ↦ rw e (ap (worth (λ c. c.txid) amount own) (text_eq→≡ s t e))
  | inr e ↦ rw e (receive-worth own t ts (λ g. h (rw (text_eq_sym t s, e) g)))
]

pub send-worth :
    (own : List Coin) (t : Text) (ts : List Text)
    → (any (text_eq t) ts ≡ false → worth spender amount own t ≡ 0)
    → taken (send_of t (map (sent own) ts)) ≡ worth spender amount own t
send-worth own t [] h = sym (h refl)
send-worth own t (s ∷ ts) h = elim (Bool-cases (text_eq s t)) [
  | inl e ↦ rw e (ap (worth spender amount own) (text_eq→≡ s t e))
  | inr e ↦ rw e (send-worth own t ts (λ g. h (rw (text_eq_sym t s, e) g)))
]

row-net :
    (t : Text) (rcv : Receive) (snd : Option Sent)
    → got (row_of t rcv snd) + taken snd ≡ gave (row_of t rcv snd) + rcv.output_sum
unfolding row_of classify
row-net t rcv (some snd) = sub_parts rcv.output_sum snd.input_sum
row-net t rcv none = omega arith

pub rows-net :
    (receives : List Receive) (sends : List Sent) (out into : Text → ℕ) (ts : List Text)
    → ((t : Text) → (or_nothing t (receive_of t receives)).output_sum ≡ into t)
    → ((t : Text) → taken (send_of t sends) ≡ out t)
    → let rows = map (λ t. row_of t (or_nothing t (receive_of t receives)) (send_of t sends)) ts in
      sum_of got rows + sum_of out ts ≡ sum_of gave rows + sum_of into ts
rows-net receives sends out into [] h h' = refl
rows-net receives sends out into (t ∷ ts) h h' = omega (
  arith,
  row-net t (or_nothing t (receive_of t receives)) (send_of t sends),
  h t,
  h' t,
  rows-net receives sends out into ts h h',
)

pub incoming-got :
    (ps : List Incoming) → sum_of got (map incoming_row ps) ≡ sum_of (λ p. p.amount) ps
incoming-got [] = refl
incoming-got (p ∷ ps) = omega (arith, incoming-got ps)

pub incoming-gave : (ps : List Incoming) → sum_of gave (map incoming_row ps) ≡ 0
incoming-gave [] = refl
incoming-gave (p ∷ ps) = omega (arith, incoming-gave ps)

pub mixed_same :
    (is_mix : Text → Bool) (f : Row → ℕ) (rows : List Row)
    → ((r : Row) → f (as_mix is_mix r) ≡ f r)
    → sum_of f (map (as_mix is_mix) rows) ≡ sum_of f rows
mixed_same is_mix f [] h = refl
mixed_same is_mix f (r ∷ rows) h = omega (arith, h r, mixed_same is_mix f rows h)

pub mix-got : (is_mix : Text → Bool) (r : Row) → got (as_mix is_mix r) ≡ got r
mix-got is_mix r = elim (Bool-cases (is_mix r.txid)) [ inl e ↦ rw e refl | inr e ↦ rw e refl ]

pub mix-gave : (is_mix : Text → Bool) (r : Row) → gave (as_mix is_mix r) ≡ gave r
mix-gave is_mix r = elim (Bool-cases (is_mix r.txid)) [ inl e ↦ rw e refl | inr e ↦ rw e refl ]

pub receives-txids :
    (own : List Coin) (ts : List Text) → map (λ r. r.txid) (map (received own) ts) ≡ ts
receives-txids own [] = refl
receives-txids own (t ∷ ts) = ap (λ l. t ∷ l) (receives-txids own ts)

pub sends-txids : (own : List Coin) (ts : List Text) → map (λ s. s.txid) (map (sent own) ts) ≡ ts
sends-txids own [] = refl
sends-txids own (t ∷ ts) = ap (λ l. t ∷ l) (sends-txids own ts)

pub keep-parts :
    (p : Coin → Bool) (coins : List Coin)
    → sum_of amount coins
      ≡ sum_of amount (keep p coins) + sum_of amount (keep (λ c. not (p c)) coins)
keep-parts p [] = refl
keep-parts p (c ∷ coins) = elim (Bool-cases (p c)) [
  | inl e ↦ rw e (omega (arith, keep-parts p coins))
  | inr e ↦ rw e (omega (arith, keep-parts p coins))
]

pub take-all : (n : ℕ) (rows : List Row) → length rows ≤ n → take n rows ≡ rows
take-all zero [] h = refl
take-all zero (r ∷ rows) h = absurd (omega (arith, h))
take-all (suc n) [] h = refl
take-all (suc n) (r ∷ rows) h = ap (λ l. r ∷ l) (take-all n rows (omega (arith, h)))
