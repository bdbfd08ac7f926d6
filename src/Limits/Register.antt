-- ===== src/Limits/Register.antt =====
-- helpers/register_rate_limiter.py: who may start a registration.
pub mod Bounds
pub mod Cooldown
use si_lnt.Prelude.{
  ℕ, ◌+◌, ◌≤◌, Bool, true, false, not, ◌&&◌, Option, none, some, List, [], ◌∷◌, ◌++◌, length, ltb,
  leb, if◌then◌else◌,
}
use si_lnt.Prelude.Text.{Text, strip, lower, text_eq}
use si_lnt.Limits.Window.{prune, update}

abbrev pub max_starts_per_ip_hour : ℕ
max_starts_per_ip_hour = 10

abbrev pub resend_cooldown_seconds : ℕ
resend_cooldown_seconds = 60

abbrev pub max_starts_global_hour : ℕ
max_starts_global_hour = 200

pub record Limiter : Type 0 where
  pub ip_log : Text → List ℕ
  pub global_log : List ℕ
  pub email_sent : Text → ℕ

abbrev pub start : Limiter
start = record { ip_log = λ _. []; global_log = []; email_sent = λ _. 0 }

-- The limit that fired is for the operator's log; the caller is told the same of all three.
pub data Limit : Type 0 where
  per_ip_hourly global_hourly per_email_cooldown : Limit

abbrev pub email_key : Text → Text
email_key email = lower (strip email)

-- The logs that the call prunes and keeps, whatever it answers.
unfoldable pub pruned : ℕ → Text → Limiter → Limiter
pruned now ip s = record s { ip_log = update s.ip_log ip (prune now 3600 (s.ip_log ip)) }

unfoldable pub pruned_global : ℕ → Limiter → Limiter
pruned_global now s = record s { global_log = prune now 3600 s.global_log }

-- An attempt is counted only when every limit has passed.
unfoldable pub admit : ℕ → Text → Limiter → Limiter
admit now ip s = record s {
  ip_log = update s.ip_log ip (s.ip_log ip ++ now ∷ []);
  global_log = s.global_log ++ now ∷ [];
}

unfoldable pub check_registration_allowed : ℕ → Text → Text → Limiter → Limiter × Option Limit
unfolding pruned pruned_global admit
check_registration_allowed now ip email s =
    let key = email_key email in
    let s1 = pruned now ip s in
    let s2 = pruned_global now s1 in
    if leb max_starts_per_ip_hour (length (s1.ip_log ip))
    then (s1, some per_ip_hourly)
    else if leb max_starts_global_hour (length s2.global_log)
    then (s2, some global_hourly)
    else if not (text_eq key []) && ltb now (s2.email_sent key + resend_cooldown_seconds)
    then (s2, some per_email_cooldown)
    else (admit now ip s2, none)

unfoldable pub record_registration_email : ℕ → Text → Limiter → Limiter
record_registration_email now email s =
    let key = email_key email in
    if text_eq key [] then s else record s { email_sent = update s.email_sent key now }

-- What can happen to the limiter, each at a time.
pub data Event : Type 0 where
  attempt : ℕ → Text → Text → Event
  mailed : ℕ → Text → Event

abbrev pub time_of : Event → ℕ
time_of (attempt now ip email) = now
time_of (mailed now email) = now

unfoldable pub step : Event → Limiter → Limiter
step (attempt now ip email) s = (check_registration_allowed now ip email s).0
step (mailed now email) s = record_registration_email now email s

-- The times at which attempts were let through: all of them, and those from one address.
abbrev pub admitted_at : ℕ → Option Limit → List ℕ
admitted_at now none = now ∷ []
admitted_at now (some _) = []

abbrev pub admitted : Event → Limiter → List ℕ
admitted (attempt now ip email) s = admitted_at now (check_registration_allowed now ip email s).1
admitted (mailed now email) s = []

abbrev pub admitted_from : Text → Event → Limiter → List ℕ
admitted_from who (attempt now ip email) s =
    if text_eq ip who then admitted_at now (check_registration_allowed now ip email s).1 else []
admitted_from who (mailed now email) s = []

pub run : Limiter → List Event → Limiter
run s [] = s
run s (e ∷ es) = run (step e s) es

pub all_admitted : Limiter → List Event → List ℕ
all_admitted s [] = []
all_admitted s (e ∷ es) = admitted e s ++ all_admitted (step e s) es

pub all_admitted_from : Text → Limiter → List Event → List ℕ
all_admitted_from who s [] = []
all_admitted_from who s (e ∷ es) = admitted_from who e s ++ all_admitted_from who (step e s) es

-- The clock does not run back.
abbrev pub IsInOrder : ℕ → List Event → Type 0
IsInOrder now [] = Unit {0}
IsInOrder now (e ∷ es) = (now ≤ time_of e) × IsInOrder (time_of e) es

abbrev pub last_time : ℕ → List Event → ℕ
last_time now [] = now
last_time now (e ∷ es) = last_time (time_of e) es
