-- ===== src/Coins/Spend/Stays.antt =====
-- A coin that is spent stays spent.
use si_lnt.Prelude.{
  ℕ, ◌≡◌, refl, sym, ◌∙◌, Bool, true, false, not, ◌&&◌, ◌||◌, Option, none, some, List, [], ◌∷◌,
  ◌++◌, any, take, is_empty, if◌then◌else◌, if_keeps, Bool-cases, or_right, and-true, inl, inr,
}
use si_lnt.Prelude.Text.{Text, text_eq}
use si_lnt.Coins.{
  CoinState, unspent, unconfirmed, unconfirmed_spent, spent, is_unspent_state, is_unconfirmed_spent,
  is_leaving, is_spent, Coin, Table, update_where, is_at, is_of, is_same, found_again, Inserted,
  upsert, insert_each, set_state, taken_by, given_back, may_be_taken, mark_utxos_spent_by_outpoints,
  restore_utxo_to_unspent, mark_utxos_confirmed_spent_by_tx,
}
use si_lnt.Coins.Spend.{
  Outspend, is_row_of, confirmed_as, Settling, is_settled, after_outspend, check_row, check_rows,
  check_heights, mark_spent_utxos_batch, TxStatus, dropped, unknown, pending, confirmed, Groups,
  restore_each, finalize_each, reconcile_group, reconcile_groups, reconcile_unconfirmed_spent,
}

module _ (w t : Text) (v : ℕ) where
  abbrev pub spent_here : Coin → Bool
  spent_here c = is_of w c && is_at (t, v) c && is_spent c.state

  abbrev pub is_spent_at : Table → Bool
  is_spent_at table = any spent_here table

  pub any-update :
      (test : Coin → Bool) (set : Coin → Coin)
      → ((c : Coin) → spent_here c ≡ true → test c ≡ true → spent_here (set c) ≡ true)
      → (table : Table) → is_spent_at table ≡ true
      → is_spent_at (update_where test set table) ≡ true
  any-update test set keeps [] h = h
  any-update test set keeps (c ∷ table) h = elim (Bool-cases (spent_here c)) [
    | inl e ↦ elim (Bool-cases (test c)) [
      | inl e' ↦ rw e' (rw (keeps c e e') refl)
      | inr e' ↦ rw e' (rw e refl)
    ]
    | inr e ↦ or_right _ _ (any-update test set keeps table (rw e at h))
  ]

  spent-state : (c : Coin) → spent_here c ≡ true → is_spent c.state ≡ true
  spent-state c h =
      let (_, state) = and-true (is_of w c && is_at (t, v) c) (is_spent c.state) h in state

  -- A statement whose test no spent coin passes.
  pub any-guarded :
      (test : Coin → Bool) (set : Coin → Coin)
      → ((c : Coin) → is_spent c.state ≡ true → test c ≡ false)
      → (table : Table) → is_spent_at table ≡ true
      → is_spent_at (update_where test set table) ≡ true
  any-guarded test set guard table h =
      any-update test set (λ c e e'. absurd (let no = guard c (spent-state c e) in cc (no, e')))
        table h

  any-append : (table more : Table) → is_spent_at table ≡ true → is_spent_at (table ++ more) ≡ true
  any-append [] more h = cc h
  any-append (c ∷ table) more h = elim (Bool-cases (spent_here c)) [
    | inl e ↦ rw e refl
    | inr e ↦ or_right _ _ (any-append table more (rw e at h))
  ]

and_off : (p : Bool) → (p && false) ≡ false
and_off true = refl
and_off false = refl

not_provisional :
    (p : Bool) (s : CoinState) → is_spent s ≡ true → (p && is_unconfirmed_spent s) ≡ false
not_provisional p spent h = and_off p
not_provisional p unspent h = cc h
not_provisional p unconfirmed h = cc h
not_provisional p unconfirmed_spent h = cc h

not_unspent : (p : Bool) (s : CoinState) → is_spent s ≡ true → (p && is_unspent_state s) ≡ false
not_unspent p spent h = and_off p
not_unspent p unspent h = cc h
not_unspent p unconfirmed h = cc h
not_unspent p unconfirmed_spent h = cc h

not_takable : (p : Bool) (s : CoinState) → is_spent s ≡ true → (p && may_be_taken s) ≡ false
not_takable p spent h = and_off p
not_takable p unspent h = cc h
not_takable p unconfirmed h = cc h
not_takable p unconfirmed_spent h = cc h

still_spent :
    (p : Bool) (s new : CoinState)
    → (p && is_spent s) ≡ true
    → (p && is_spent (if is_leaving s then s else new)) ≡ true
still_spent p spent new h = h
still_spent p unconfirmed_spent new h = h
still_spent p unspent new h = absurd (let no = sym (and_off p) ∙ h in cc no)
still_spent p unconfirmed new h = absurd (let no = sym (and_off p) ∙ h in cc no)

module _ (w t : Text) (v : ℕ) where
  upsert-stays :
      (new : Coin) (done : Inserted)
      → is_spent_at w t v done.0 ≡ true
      → is_spent_at w t v (upsert new done).0 ≡ true
  unfolding upsert
  upsert-stays new (table, count, sats) h = elim (Bool-cases (any (λ c. is_same c new) table)) [
    | inl e ↦ rw e (
        any-update w t v (λ c. is_same c new) (found_again new)
          (λ c spent same. still_spent (is_of w c && is_at (t, v) c) c.state new.state spent) table
          h)
    | inr e ↦ rw e (any-append w t v table (new ∷ []) h)
  ]

  pub insert-stays :
      (coins : List Coin) (done : Inserted)
      → is_spent_at w t v done.0 ≡ true
      → is_spent_at w t v (insert_each coins done).0 ≡ true
  unfolding insert_each
  insert-stays [] done h = h
  insert-stays (new ∷ coins) done h = insert-stays coins (upsert new done) (upsert-stays new done h)

  pub outpoints-stay :
      (wallet_id : Text) (ps : List (Text × ℕ)) (stx : Text) (at : ℕ) (table : Table)
      → is_spent_at w t v table ≡ true
      → is_spent_at w t v (mark_utxos_spent_by_outpoints wallet_id ps stx at table) ≡ true
  unfolding mark_utxos_spent_by_outpoints
  outpoints-stay wallet_id [] stx at table h = h
  outpoints-stay wallet_id (p ∷ ps) stx at table h = outpoints-stay wallet_id ps stx at _ (
      any-guarded w t v _ (taken_by stx at)
        (λ c. not_takable (is_of wallet_id c && is_at p c) c.state) table h)

  pub restore-stays :
      (wallet_id txid : Text) (vout : ℕ) (table : Table)
      → is_spent_at w t v table ≡ true
      → is_spent_at w t v (restore_utxo_to_unspent wallet_id txid vout table) ≡ true
  unfolding restore_utxo_to_unspent
  restore-stays wallet_id txid vout table h =
      any-guarded w t v _ given_back
        (λ c. not_provisional (is_of wallet_id c && is_at (txid, vout) c) c.state) table h

  pub confirm-stays :
      (wallet_id stx : Text) (table : Table)
      → is_spent_at w t v table ≡ true
      → is_spent_at w t v (mark_utxos_confirmed_spent_by_tx wallet_id stx table) ≡ true
  unfolding mark_utxos_confirmed_spent_by_tx
  confirm-stays wallet_id stx table h =
      any-guarded w t v _ (set_state spent) (λ c. not_provisional _ c.state) table h

  restore_each-stays :
      (wallet_id : Text) (ps : List (Text × ℕ)) (table : Table)
      → is_spent_at w t v table ≡ true
      → is_spent_at w t v (restore_each wallet_id ps table) ≡ true
  restore_each-stays wallet_id [] table h = h
  restore_each-stays wallet_id ((txid, vout) ∷ ps) table h =
      restore_each-stays wallet_id ps _ (restore-stays wallet_id txid vout table h)

  finalize_each-stays :
      (wallet_id : Text) (ps : List (Text × ℕ)) (table : Table)
      → is_spent_at w t v table ≡ true
      → is_spent_at w t v (finalize_each wallet_id ps table) ≡ true
  finalize_each-stays wallet_id [] table h = h
  finalize_each-stays wallet_id (p ∷ ps) table h = finalize_each-stays wallet_id ps _ (
      any-guarded w t v _ (set_state spent)
        (λ c. not_provisional (is_of wallet_id c && is_at p c) c.state) table h)

  reconciled-stays :
      (wallet_id : Text) (status : TxStatus) (ps : List (Text × ℕ)) (table : Table)
      → is_spent_at w t v table ≡ true
      → is_spent_at w t v (reconcile_group wallet_id status ps table) ≡ true
  reconciled-stays wallet_id dropped ps table h = restore_each-stays wallet_id ps table h
  reconciled-stays wallet_id confirmed ps table h = finalize_each-stays wallet_id ps table h
  reconciled-stays wallet_id unknown ps table h = h
  reconciled-stays wallet_id pending ps table h = h

  groups-stay :
      (wallet_id : Text) (status : Text → TxStatus) (groups : Groups) (table : Table)
      → is_spent_at w t v table ≡ true
      → is_spent_at w t v (reconcile_groups wallet_id status groups table) ≡ true
  unfolding reconcile_groups
  groups-stay wallet_id status [] table h = h
  groups-stay wallet_id status ((stx, ps) ∷ groups) table h =
      groups-stay wallet_id status groups _ (reconciled-stays wallet_id (status stx) ps table h)

  pub reconcile-stays :
      (wallet_id : Text) (status : Text → TxStatus) (table : Table)
      → is_spent_at w t v table ≡ true
      → is_spent_at w t v (reconcile_unconfirmed_spent wallet_id status table) ≡ true
  unfolding reconcile_unconfirmed_spent
  reconcile-stays wallet_id status table h = groups-stay wallet_id status _ table h

  outspend-stays :
      (wallet_id : Text) (row : Coin) (status : Option Outspend) (s : Settling)
      → is_spent_at w t v s.0 ≡ true
      → is_spent_at w t v (after_outspend wallet_id row status s).0 ≡ true
  outspend-stays wallet_id row none (table, settled) h = h
  outspend-stays wallet_id row (some status) (table, settled) h =
      elim (Bool-cases status.has_spender) [
        | inl e ↦ rw e (
            any-guarded w t v _ (confirmed_as status)
              (λ c. not_provisional (is_row_of wallet_id row c) c.state) table h)
        | inr e ↦ rw e (
            any-guarded w t v _ (set_state unspent)
              (λ c. not_provisional (is_row_of wallet_id row c) c.state) table h)
      ]

  check_row-stays :
      (wallet_id : Text) (outspend : Text → ℕ → Option Outspend) (spent_set : List Text)
      (row : Coin) (s : Settling)
      → is_spent_at w t v s.0 ≡ true
      → is_spent_at w t v (check_row wallet_id outspend spent_set row s).0 ≡ true
  unfolding check_row
  check_row-stays wallet_id outspend spent_set row (table, settled) h =
      if_keeps (λ (s : Settling). is_spent_at w t v s.0 ≡ true)
        (not (any (text_eq (take 16 row.pub_key)) spent_set) || is_settled row settled) h
        (outspend-stays wallet_id row (outspend row.txid row.vout) _ (
          any-guarded w t v _ (set_state unconfirmed_spent)
            (λ c. not_unspent (is_row_of wallet_id row c) c.state) table h))

  check_rows-stay :
      (wallet_id : Text) (outspend : Text → ℕ → Option Outspend) (spent_set : List Text)
      (rows : List Coin) (s : Settling)
      → is_spent_at w t v s.0 ≡ true
      → is_spent_at w t v (check_rows wallet_id outspend spent_set rows s).0 ≡ true
  unfolding check_rows
  check_rows-stay wallet_id outspend spent_set [] s h = h
  check_rows-stay wallet_id outspend spent_set (row ∷ rows) s h =
      check_rows-stay wallet_id outspend spent_set rows _
        (check_row-stays wallet_id outspend spent_set row s h)

  heights-stay :
      (wallet_id : Text) (heights : List (List Text × (Text → ℕ → Option Outspend)))
      (rows : List Coin) (s : Settling)
      → is_spent_at w t v s.0 ≡ true
      → is_spent_at w t v (check_heights wallet_id heights rows s).0 ≡ true
  unfolding check_heights
  heights-stay wallet_id [] rows s h = h
  heights-stay wallet_id ((spent_set, outspend) ∷ heights) rows s h =
      heights-stay wallet_id heights rows _ (
        if_keeps (λ (s : Settling). is_spent_at w t v s.0 ≡ true) (is_empty spent_set) h
          (check_rows-stay wallet_id outspend spent_set rows s h))

  pub batch-stays :
      (wallet_id : Text) (heights : List (List Text × (Text → ℕ → Option Outspend))) (table : Table)
      → is_spent_at w t v table ≡ true
      → is_spent_at w t v (mark_spent_utxos_batch wallet_id heights table) ≡ true
  unfolding mark_spent_utxos_batch
  batch-stays wallet_id heights table h = heights-stay wallet_id heights _ (table, []) h
