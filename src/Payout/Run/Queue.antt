-- ===== src/Payout/Run/Queue.antt =====
-- The table of payouts, silnt.tango_change_payouts, and the statements of crud.py on it. A
-- statement that the database refuses changes nothing and is left out; an address is stored
-- encrypted and read back, so it is the address here.
use si_lnt.Prelude.{
  ℕ, ◌+◌, Bool, true, false, not, ◌&&◌, Option, none, some, List, [], ◌∷◌, ◌++◌, map, any, keep,
  take, sum_of, leb, ltb, ◌==◌, if◌then◌else◌,
}
use si_lnt.Prelude.Text.{Text, text_eq, strip, codes}
use si_lnt.Prelude.Sort.{sort}
use si_lnt.Payout.Run.{PayoutStatus, pending, paid, failed}

-- The columns of a payout; its round and the side's role are left out.
pub record Payout : Type 0 where
  pub txid : Text
  pub vout : ℕ
  pub user_id : Text
  pub network : Text
  pub ln_address : Text
  pub gross_sats : ℕ
  pub fee_sats : ℕ
  pub net_sats : ℕ
  pub status : PayoutStatus
  pub attempts : ℕ
  pub next_attempt : Option ℕ
  pub notified : Bool
  pub created_at : Option ℕ

abbrev pub is_pending : PayoutStatus → Bool
is_pending pending = true
is_pending _ = false

abbrev pub is_paid : PayoutStatus → Bool
is_paid paid = true
is_paid _ = false

abbrev pub is_failed : PayoutStatus → Bool
is_failed failed = true
is_failed _ = false

-- `WHERE txid = :txid AND vout = :vout`, the primary key.
abbrev pub is_row : Text → ℕ → Payout → Bool
is_row txid vout r = text_eq r.txid txid && r.vout == vout

unfoldable pub get_tango_payout : Text → ℕ → List Payout → Option Payout
get_tango_payout txid vout [] = none
get_tango_payout txid vout (r ∷ rest) =
    let later = get_tango_payout txid vout rest in if is_row txid vout r then some r else later

-- The row that is new, if the key is.
unfoldable pub create_tango_payout : ℕ → Payout → List Payout → List Payout × Bool
create_tango_payout now new rows = if any (is_row new.txid new.vout) rows then (rows, false) else (
  rows
      ++ (record new {
        ln_address = strip new.ln_address;
        status = pending;
        attempts = 0;
        next_attempt = some now;
        notified = false;
        created_at = some now;
      })
        ∷ [],
  true,
)

abbrev pub is_due : ℕ → Payout → Bool
is_due now r = is_pending r.status && elim r.next_attempt [ none ↦ true | some t ↦ leb t now ]

-- `created_at`, a missing one first.
abbrev pub created : Payout → ℕ
created r = elim r.created_at [ none ↦ 0 | some t ↦ t + 1 ]

unfoldable pub list_due_tango_payouts : ℕ → ℕ → List Payout → List Payout
list_due_tango_payouts now limit rows =
    take limit (sort (λ a b. ltb (created a) (created b)) (keep (is_due now) rows))

-- `UPDATE … SET … WHERE` the key.
unfoldable pub update_tango_payout : Text → ℕ → (Payout → Payout) → List Payout → List Payout
update_tango_payout txid vout set rows = map (λ r. if is_row txid vout r then set r else r) rows

abbrev pub requeued : Text → ℕ → Payout → Payout
requeued ln_address now r = record r {
  status = pending;
  attempts = 0;
  next_attempt = some now;
  notified = false;
  ln_address = strip ln_address;
}

unfoldable pub requeue_tango_payout : Text → ℕ → Text → ℕ → List Payout → List Payout
requeue_tango_payout txid vout ln_address now rows =
    update_tango_payout txid vout (requeued ln_address now) rows

abbrev pub revived : Text → ℕ → Payout → Payout
revived network now r =
    if text_eq r.network network && is_failed r.status
    then record r { status = pending; attempts = 0; next_attempt = some now }
    else r

unfoldable pub requeue_failed_tango_payouts : Text → ℕ → List Payout → List Payout
requeue_failed_tango_payouts network now rows = map (revived network now) rows

abbrev pub redacted : Text → Payout → Payout
redacted user_id r =
    if text_eq r.user_id user_id then record r { ln_address = []; user_id = codes "deleted" } else r

unfoldable pub redact_tango_payouts_for_user : Text → List Payout → List Payout
redact_tango_payouts_for_user user_id rows = map (redacted user_id) rows

-- The sums of `tango_payout_totals` for one network.
pub record Totals : Type 0 where
  pub fees_earned_sats : ℕ
  pub paid_net_sats : ℕ
  pub collected_sats : ℕ
  pub owed_sats : ℕ

abbrev pub sum_where : (Payout → Bool) → (Payout → ℕ) → List Payout → ℕ
sum_where p f rows = sum_of (λ r. if p r then f r else 0) rows

unfoldable pub tango_payout_totals : Text → List Payout → Totals
tango_payout_totals network rows =
    let here = λ (r : Payout). text_eq r.network network in
    record {
      fees_earned_sats = sum_where (λ r. here r && is_paid r.status) (λ r. r.fee_sats) rows;
      paid_net_sats = sum_where (λ r. here r && is_paid r.status) (λ r. r.net_sats) rows;
      collected_sats = sum_where here (λ r. r.gross_sats) rows;
      owed_sats = sum_where (λ r. here r && not (is_paid r.status)) (λ r. r.net_sats) rows;
    }
