-- ===== src/Payout/Run/Counts.antt =====
-- How many rows and payments a coin has, and how the statements change that.
use si_lnt.Prelude.{ℕ, ◌≡◌, refl, arith, Bool, true, ◌&&◌, List, [], ◌∷◌, count_if, ◌==◌}
use si_lnt.Prelude.Text.{Text, text_eq, text_eq→≡}
use si_lnt.Payout.Run.Queue.{Payout, is_row, is_paid, update_tango_payout}
use si_lnt.Payout.Run.Attempt.{Payment}

abbrev pub is_paid_row : Text → ℕ → Payout → Bool
is_paid_row txid vout r = is_row txid vout r && is_paid r.status

abbrev pub rows_of : Text → ℕ → List Payout → ℕ
rows_of txid vout rows = count_if (is_row txid vout) rows

abbrev pub paid_rows : Text → ℕ → List Payout → ℕ
paid_rows txid vout rows = count_if (is_paid_row txid vout) rows

abbrev pub is_payment : Text → ℕ → Payment → Bool
is_payment txid vout p = text_eq p.txid txid && p.vout == vout

abbrev pub payments_of : Text → ℕ → List Payment → ℕ
payments_of txid vout payments = count_if (is_payment txid vout) payments

-- A row with a key is a row of another exactly when the keys are the same.
pub is_row_at :
    (txid t : Text) (vout v : ℕ) (r : Payout)
    → is_row txid vout r ≡ true
    → is_row t v r ≡ (text_eq txid t && vout == v)
is_row_at txid t vout v r h =
    let same : r.txid ≡ txid = text_eq→≡ r.txid txid (ground (arith, h)) in
    let at : r.vout ≡ vout = ground (arith, h) in cc (same, at)

pub update-rows_of :
    (txid t : Text) (vout v : ℕ) (set : Payout → Payout) (rows : List Payout)
    → ((r : Payout) → is_row t v (set r) ≡ is_row t v r)
    → rows_of t v (update_tango_payout txid vout set rows) ≡ rows_of t v rows
unfolding update_tango_payout
update-rows_of txid t vout v set [] kept = refl
update-rows_of txid t vout v set (r ∷ rows) kept =
    ground (arith, kept r, update-rows_of txid t vout v set rows kept)

-- Rows of a key none of which is paid stay so under a change that does not pay.
pub update-paid_rows :
    (txid t : Text) (vout v : ℕ) (set : Payout → Payout) (rows : List Payout)
    → paid_rows txid vout rows ≡ 0
    → ((r : Payout) → is_paid (set r).status ≡ true → is_paid r.status ≡ true)
    → ((r : Payout) → is_row t v (set r) ≡ is_row t v r)
    → paid_rows t v (update_tango_payout txid vout set rows) ≡ paid_rows t v rows
unfolding update_tango_payout
update-paid_rows txid t vout v set [] none_paid kept_open kept = refl
update-paid_rows txid t vout v set (r ∷ rows) none_paid kept_open kept = ground (
  arith,
  kept r,
  kept_open r,
  update-paid_rows txid t vout v set rows (omega arith) kept_open kept,
)
