-- ===== src/Registration/Flow/Confirmed.antt =====
-- What a registration that was confirmed has been, and what a refused one leaves.
use si_lnt.Prelude.{ℕ, ◌≡◌, false, ◌||◌, Option, none, some, List, Result}
use si_lnt.Prelude.Text.{Text}
use si_lnt.Registration.{
  Pending, hash_registration_code, find_for, delete_for, is_stale, RegistrationError,
}
use si_lnt.Registration.Flow.{Lnbits, Site}

-- The row of the address, whose code it is and which is not an hour old, makes the account, and is
-- used up.
pub record IsConfirmed (lnbits : Lnbits) (hmac : Text → Text) (now : ℕ) (email code : Text)
    (s s' : Site lnbits) (address : Text) : Type 0 where
  row : Pending
  was_stored : find_for email s.pending ≡ some row
  in_time : is_stale now row ≡ false
  same_code : row.code_hmac ≡ hash_registration_code hmac email code
  for_address : address ≡ row.email
  free : (lnbits.is_taken row.username s.accounts || lnbits.is_taken row.email s.accounts) ≡ false
  account : lnbits.create row.username row.email row.password_hash s.accounts ≡ some s'.accounts
  used_up : find_for email s'.pending ≡ none

-- A code that was taken.
record IsTaken (hmac : Text → Text) (now : ℕ) (email code : Text) (table next : List Pending)
    (o : Option Pending) (r : Pending) : Type 0 where
  found : o ≡ some r
  in_time : is_stale now r ≡ false
  same_code : r.code_hmac ≡ hash_registration_code hmac email code
  gone : next ≡ delete_for email table

module _ (lnbits : Lnbits) (hmac : Text → Text) where
  abbrev Answer : Type 0
  Answer = Site lnbits × Result RegistrationError Text

  record IsCreated (username email hash : Text) (s s' : Site lnbits) (address : Text) : Type 0 where
    free : (lnbits.is_taken username s.accounts || lnbits.is_taken email s.accounts) ≡ false
    account : lnbits.create username email hash s.accounts ≡ some s'.accounts
    address_is : address ≡ email
    pending_is : s'.pending ≡ s.pending
