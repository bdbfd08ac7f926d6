-- ===== src/Limits/Invite.antt =====
-- helpers/invite_rate_limiter.py: who may invite whom.
use si_lnt.Prelude.{
  ℕ, ◌+◌, ◌-◌, ◌<◌, ◌≡◌, ◌⊎◌, arith, Option, none, some, List, [], ◌∷◌, ◌++◌, length, ltb, leb,
  if◌then◌else◌,
}
use si_lnt.Prelude.Text.{Text, lower, text_eq_refl}
use si_lnt.Limits.Window.{prune, update}

abbrev pub max_invites_per_user_day : ℕ
max_invites_per_user_day = 20

abbrev pub resend_cooldown_seconds : ℕ
resend_cooldown_seconds = 300

-- `_recent_pairs` is keyed by the user and the lowered address.
pub record Limiter : Type 0 where
  pub user_invite_log : Text → List ℕ
  pub recent_pairs : Text → Text → ℕ

pub data Refusal : Type 0 where
  daily_limit : Refusal
  just_invited : ℕ → Refusal

unfoldable pub check_invite_allowed : ℕ → Text → Text → Limiter → Limiter × Option Refusal
check_invite_allowed now user_id email s =
    let log = prune now 86400 (s.user_invite_log user_id) in
    let s1 = record s { user_invite_log = update s.user_invite_log user_id log } in
    let wait = s.recent_pairs user_id (lower email) + resend_cooldown_seconds - now in
    if leb max_invites_per_user_day (length log)
    then (s1, some daily_limit)
    else if ltb 0 wait
    then (s1, some (just_invited wait))
    else (s1, none)

unfoldable pub record_invite : ℕ → Text → Text → Limiter → Limiter
record_invite now user_id email s = record s {
  user_invite_log = update s.user_invite_log user_id (s.user_invite_log user_id ++ now ∷ []);
  recent_pairs = update s.recent_pairs user_id (update (s.recent_pairs user_id) (lower email) now);
}

-- Until five minutes after an invite was recorded, another check by the same user for the same
-- address, in any letter case, is refused: by the daily limit, or with the time that is left.
pub record_invite_cooldown :
    (sent now : ℕ) (user email again : Text) (s : Limiter)
    → lower again ≡ lower email
    → now < sent + resend_cooldown_seconds
    → let r = (check_invite_allowed now user again (record_invite sent user email s)).1 in
      (r ≡ some daily_limit) ⊎ (r ≡ some (just_invited (sent + resend_cooldown_seconds - now)))
unfolding check_invite_allowed record_invite
record_invite_cooldown sent now user email again s same soon =
    rw same (ground (arith, text_eq_refl user, text_eq_refl (lower email)))
