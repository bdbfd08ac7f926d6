-- ===== src/Payout/Run/Steps.antt =====
-- What happens to the books of payouts.
use si_lnt.Prelude.{ℕ, ◌≡◌, true, Option, none, List, [], ok}
use si_lnt.Prelude.Text.{Text}
use si_lnt.Floats.{Floats}
use si_lnt.Payout.Run.Queue.{Payout, requeue_failed_tango_payouts, redact_tango_payouts_for_user}
use si_lnt.Payout.Run.Attempt.{Books, World, run_tango_payouts, api_admin_tango_payout_retry}

-- What changes the payouts: passes of the runner, whatever they meet, an admin's retry, the revival when money came, and a user's deletion.
pub data Step (fl : Floats) : Books → Books → Type 0 where
  runs : (w : World fl) (now : ℕ) (b : Books) → Step fl b (run_tango_payouts w now b)
  retries :
      (txid : Text) (vout : ℕ) (saved : Option Text) (now : ℕ) (b : Books) (rows : List Payout)
      → api_admin_tango_payout_retry txid vout saved now b.rows ≡ ok rows
      → Step fl b (record b { rows = rows })
  revives :
      (network : Text) (now : ℕ) (b : Books)
      → Step fl b (record b { rows = requeue_failed_tango_payouts network now b.rows })
  redacts :
      (user_id : Text) (b : Books)
      → Step fl b (record b { rows = redact_tango_payouts_for_user user_id b.rows })

pub data Reach (fl : Floats) (s : Books) : Books → Type 0 where
  here : Reach fl s s
  next : {t u : Books} → Reach fl s t → Step fl t u → Reach fl s u

-- A step in which every payment that goes out is returned and recorded.
abbrev pub IsRecorded : {fl : Floats} {b c : Books} → Step fl b c → Type 0
IsRecorded (runs w now b) = (r : Payout) → (w.outside r).records ≡ true
IsRecorded (retries txid vout saved now b rows e) = Unit {0}
IsRecorded (revives network now b) = Unit {0}
IsRecorded (redacts user_id b) = Unit {0}

abbrev pub AllRecorded : {fl : Floats} {s t : Books} → Reach fl s t → Type 0
AllRecorded here = Unit {0}
AllRecorded (next r st) = AllRecorded r × IsRecorded st

abbrev pub no_books : Books
no_books = record { rows = []; service_health = none; payments = [] }
