-- ===== src/Coins/Restore/Held.antt =====
-- What a restored coin does to the balance of its wallet.
use si_lnt.Prelude.{
  ℕ, ◌+◌, ◌≡◌, refl, sym, ◌∙◌, arith, Bool, true, false, ◌&&◌, Option, none, some, [], ◌∷◌, keep,
  sum_of, count_if, ◌==◌, if◌then◌else◌, Bool-cases, and-true, inl, inr, ok, err, Result, ◌⊎◌,
  ==_iff,
}
use si_lnt.Prelude.Text.{Text, text_eq_refl}
use si_lnt.Coins.{
  CoinState, unspent, spent, is_unspent_state, is_unconfirmed_spent, Coin, Table, is_of,
  is_spent_in, set_state, given_back, restore_utxo_to_unspent, mark_utxos_confirmed_spent_by_tx,
  get_wallet_unspent_balance,
}
use si_lnt.Coins.Spend.{TxStatus, dropped, unknown, pending, confirmed}
use si_lnt.Coins.Restore.{
  Purse, restorable, finalise, finalised, after_status, with_utxo, get_utxo, api_restore_utxo,
  RestoreError,
}

abbrev pub worth : Text → Table → ℕ
worth wallet_id table = get_wallet_unspent_balance wallet_id table

leaving-gone :
    (state : CoinState) → is_unconfirmed_spent state ≡ true → is_unspent_state state ≡ false
leaving-gone unspent h = sym h
leaving-gone _ h = refl

abbrev value : Text → Coin → ℕ
value wallet_id c = if is_of wallet_id c && is_unspent_state c.state then c.amount else 0

worth-cons :
    (wallet_id : Text) (c : Coin) (table : Table)
    → worth wallet_id (c ∷ table) ≡ value wallet_id c + worth wallet_id table
unfolding get_wallet_unspent_balance
worth-cons wallet_id c table = elim (Bool-cases (is_of wallet_id c && is_unspent_state c.state)) [
  | inl e ↦ rw e (omega arith)
  | inr e ↦ rw e (omega arith)
]

gives_back :
    (w t : Text) (v : ℕ) (c : Coin)
    → value w (if restorable w t v c then given_back c else c)
      ≡ value w c + (if restorable w t v c then c.amount else 0)
gives_back w t v c = elim (Bool-cases (restorable w t v c)) [
  | inr e ↦ rw e (omega arith)
  | inl e ↦
      let (at, leaving) = and-true _ (is_unconfirmed_spent c.state) e in
      let (own, here) = and-true (is_of w c) _ at in
      rw (e, own, leaving-gone c.state leaving) (omega arith)
]

restore-worth :
    (w t : Text) (v : ℕ) (table : Table)
    → worth w (restore_utxo_to_unspent w t v table)
      ≡ worth w table + sum_of (λ c. c.amount) (keep (restorable w t v) table)
unfolding restore_utxo_to_unspent get_wallet_unspent_balance
restore-worth w t v [] = refl
restore-worth w t v (c ∷ table) =
    let kept : sum_of (λ c. c.amount) (keep (restorable w t v) (c ∷ table))
        ≡ (if restorable w t v c then c.amount else 0)
          + sum_of (λ c. c.amount) (keep (restorable w t v) table) =
      elim (Bool-cases (restorable w t v c)) [ inl e ↦ rw e refl | inr e ↦ rw e (omega arith) ] in
    let next = restore_utxo_to_unspent w t v table in
    omega (
      arith,
      worth-cons w (if restorable w t v c then given_back c else c) next,
      worth-cons w c table,
      gives_back w t v c,
      kept,
      restore-worth w t v table,
    )

mined-worth :
    (w stx : Text) (table : Table)
    → worth w (mark_utxos_confirmed_spent_by_tx w stx table) ≡ worth w table
unfolding mark_utxos_confirmed_spent_by_tx get_wallet_unspent_balance
mined-worth w stx [] = refl
mined-worth w stx (c ∷ table) =
    let taken = is_of w c && is_spent_in stx c.spent_in_txid && is_unconfirmed_spent c.state in
    let same : value w (if taken then set_state spent c else c) ≡ value w c =
      elim (Bool-cases taken) [
        | inr e ↦ rw e refl
        | inl e ↦
            let (at, leaving) = and-true _ (is_unconfirmed_spent c.state) e in
            let (own, here) = and-true (is_of w c) _ at in
            rw (e, own, leaving-gone c.state leaving) refl
      ] in
    omega (
      arith,
      worth-cons w (if taken then set_state spent c else c)
          (mark_utxos_confirmed_spent_by_tx w stx table),
      worth-cons w c table,
      same,
      mined-worth w stx table,
    )

-- What is true of an answer, and of the coins and balances that it leaves.
abbrev pub Holds : (w t : Text) (v : ℕ) → Purse → Purse → Result RestoreError ℕ → Type 0
Holds w t v (table, balances) (table', balances') (ok balance) =
    (balance ≡ worth w table + sum_of (λ c. c.amount) (keep (restorable w t v) table))
    × (worth w table' ≡ balance)
    × (balances' w ≡ balance)
Holds w t v (table, balances) (table', balances') (err e) =
    (worth w table' ≡ worth w table) × ((balances' w ≡ balances w) ⊎ (balances' w ≡ worth w table'))

finalise-worth :
    (w : Text) (spent_in : Option Text) (table : Table)
    → worth w (finalise w spent_in table) ≡ worth w table
finalise-worth w none table = refl
finalise-worth w (some stx) table = mined-worth w stx table

none_restored :
    (w t : Text) (v : ℕ) (table : Table)
    → count_if (restorable w t v) table ≡ 0
    → sum_of (λ c. c.amount) (keep (restorable w t v) table) ≡ 0
none_restored w t v [] h = refl
none_restored w t v (c ∷ table) h = elim (Bool-cases (restorable w t v c)) [
  | inl e ↦ absurd (let one = rw e at h in omega (arith, one))
  | inr e ↦ rw e (none_restored w t v table (let rest = rw e at h in omega (arith, rest)))
]

after_status-Holds :
    (w t : Text) (v : ℕ) (spent_in : Option Text) (status : TxStatus) (table : Table)
    (balances : Text → ℕ)
    → let (s', result) = after_status w t v spent_in status (table, balances) in
      Holds w t v (table, balances) s' result
unfolding after_status
after_status-Holds w t v spent_in pending table balances = (refl, inl refl)
after_status-Holds w t v spent_in unknown table balances = (refl, inl refl)
after_status-Holds w t v spent_in confirmed table balances =
    elim (Bool-cases (finalised w spent_in table == 0)) [
      | inl e ↦ rw e (finalise-worth w spent_in table, inl refl)
      | inr e ↦ rw e (finalise-worth w spent_in table, inr (rw (text_eq_refl w) refl))
    ]
after_status-Holds w t v spent_in dropped table balances =
    elim (Bool-cases (count_if (restorable w t v) table == 0)) [
      | inl e ↦
          let gone =
            none_restored w t v table ((==_iff (count_if (restorable w t v) table) 0).0 e) in
          rw e (restore-worth w t v table ∙ omega (arith, gone), inl refl)
      | inr e ↦ rw e (restore-worth w t v table, refl, rw (text_eq_refl w) refl)
    ]

with_utxo-Holds :
    (w t : Text) (v : ℕ) (get_tx_status : Option Text → TxStatus) (found : Option Coin)
    (table : Table) (balances : Text → ℕ)
    → let (s', result) = with_utxo w t v get_tx_status found (table, balances) in
      Holds w t v (table, balances) s' result
with_utxo-Holds w t v get_tx_status none table balances = (refl, inl refl)
with_utxo-Holds w t v get_tx_status (some utxo) table balances =
    elim (Bool-cases (is_unconfirmed_spent utxo.state)) [
      | inl e ↦ rw e (
          after_status-Holds w t v utxo.spent_in_txid (get_tx_status utxo.spent_in_txid) table
            balances)
      | inr e ↦ rw e (refl, inl refl)
    ]

-- Whatever is asked of a coin: a restored one adds what it is worth to the wallet's unspent coins,
-- and the balance that is stored and returned is theirs. A refusal leaves what they are worth, and
-- the stored balance is as it was or what they are worth.
pub api_restore_utxo-Holds :
    (is_owned : Bool) (w t : Text) (v : ℕ) (get_tx_status : Option Text → TxStatus) (table : Table)
    (balances : Text → ℕ)
    → let (s', result) = api_restore_utxo is_owned w t v get_tx_status (table, balances) in
      Holds w t v (table, balances) s' result
unfolding api_restore_utxo
api_restore_utxo-Holds true w t v get_tx_status table balances =
    with_utxo-Holds w t v get_tx_status (get_utxo w t v table) table balances
api_restore_utxo-Holds false w t v get_tx_status table balances = (refl, inl refl)
