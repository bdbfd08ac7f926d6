-- ===== src/Limits/Scan.antt =====
-- helpers/scan_rate_limiter.py: who may start a scan, and what a finished scan gives back.
pub mod Slots
pub mod Budget
use si_lnt.Prelude.{
  ℕ, ◌+◌, ◌-◌, Bool, true, false, not, ◌&&◌, Option, none, some, List, [], ◌∷◌, ◌++◌, length, keep,
  any, sum_of, ltb, leb, ◌==◌, if◌then◌else◌,
}
use si_lnt.Prelude.Int.{ℤ, pos_part, sub_ℕ}
use si_lnt.Prelude.Text.{Text, text_eq}
use si_lnt.Limits.Window.{prune, update}

abbrev pub wallet_cooldown_seconds : ℕ
wallet_cooldown_seconds = 60

abbrev pub max_concurrent_per_user : ℕ
max_concurrent_per_user = 1

abbrev pub max_scan_starts_per_ip_hr : ℕ
max_scan_starts_per_ip_hr = 30

abbrev pub max_blocks_per_user_hr : ℕ
max_blocks_per_user_hr = 500_000

abbrev pub max_plain_previews_per_user_min : ℕ
max_plain_previews_per_user_min = 30

pub record Limiter : Type 0 where
  pub last_scan_time : Text → ℕ
  pub active_scans : Text → List Text
  pub ip_scan_log : Text → List ℕ
  pub user_blocks_log : Text → List (ℕ × ℕ)
  pub plain_preview_log : Text → List ℕ

abbrev pub start : Limiter
start = record {
  last_scan_time = λ _. 0;
  active_scans = λ _. [];
  ip_scan_log = λ _. [];
  user_blocks_log = λ _. [];
  plain_preview_log = λ _. [];
}

-- `set.add` and `set.discard`; a set is a list without its order.
abbrev pub set_add : Text → List Text → List Text
set_add x xs = if any (λ y. text_eq y x) xs then xs else x ∷ xs

abbrev pub set_discard : Text → List Text → List Text
set_discard x xs = keep (λ y. not (text_eq y x)) xs

-- `_prune_old` on (time, blocks) pairs.
unfoldable pub prune_blocks : ℕ → ℕ → List (ℕ × ℕ) → List (ℕ × ℕ)
prune_blocks now age entries = keep (λ e. leb now (e.0 + age)) entries

abbrev pub blocks_of : List (ℕ × ℕ) → ℕ
blocks_of entries = sum_of (λ e. e.1) entries

-- The refusals; a wait in seconds and the blocks that remain are told.
pub data Refusal : Type 0 where
  cooldown : ℕ → Refusal
  already_running too_many_from_ip too_many_previews : Refusal
  budget : ℤ → Refusal

-- The pruned log is stored before it is counted.
unfoldable pub prune_ip : ℕ → Text → Limiter → Limiter
prune_ip now ip s = record s {
  ip_scan_log = update s.ip_scan_log ip (prune now 3600 (s.ip_scan_log ip));
}

unfoldable pub prune_user : ℕ → Text → Limiter → Limiter
prune_user now user_id s = record s {
  user_blocks_log =
      update s.user_blocks_log user_id (prune_blocks now 3600 (s.user_blocks_log user_id));
}

-- The four writes behind all checks.
unfoldable pub admit : ℕ → Text → Text → Text → ℕ → Limiter → Limiter
admit now user_id wallet_id ip blocks s = record s {
  last_scan_time = update s.last_scan_time wallet_id now;
  active_scans = update s.active_scans user_id (set_add wallet_id (s.active_scans user_id));
  ip_scan_log = update s.ip_scan_log ip (s.ip_scan_log ip ++ now ∷ []);
  user_blocks_log =
      update s.user_blocks_log user_id (s.user_blocks_log user_id ++ (now, blocks) ∷ []);
}

unfoldable pub check_scan_allowed : ℕ → Text → Text → Text → ℕ → Limiter → Limiter × Option Refusal
unfolding prune_ip prune_user admit
check_scan_allowed now user_id wallet_id ip estimated_blocks s =
    let until = s.last_scan_time wallet_id + wallet_cooldown_seconds in
    let s1 = prune_ip now ip s in
    let s2 = prune_user now user_id s1 in
    let consumed = blocks_of (s2.user_blocks_log user_id) in
    if ltb now until
    then (s, some (cooldown (until - now)))
    else if leb max_concurrent_per_user (length (s.active_scans user_id))
    then (s, some already_running)
    else if leb max_scan_starts_per_ip_hr (length (s1.ip_scan_log ip))
    then (s1, some too_many_from_ip)
    else if ltb max_blocks_per_user_hr (consumed + estimated_blocks)
    then (s2, some (budget (sub_ℕ max_blocks_per_user_hr consumed)))
    else (admit now user_id wallet_id ip estimated_blocks s2, none)

unfoldable pub check_plain_preview_allowed : ℕ → Text → Limiter → Limiter × Option Refusal
check_plain_preview_allowed now user_id s =
    let kept = prune now 60 (s.plain_preview_log user_id) in
    if leb max_plain_previews_per_user_min (length kept)
    then (
      record s { plain_preview_log = update s.plain_preview_log user_id kept },
      some too_many_previews,
    )
    else (
      record s { plain_preview_log = update s.plain_preview_log user_id (kept ++ now ∷ []) },
      none,
    )

-- The latest entry of the estimate gets the count that was scanned.
unfoldable pub correct_latest : ℕ → ℕ → List (ℕ × ℕ) → List (ℕ × ℕ)
correct_latest estimated actual [] = []
correct_latest estimated actual ((ts, count) ∷ log) =
    let rest = correct_latest estimated actual log in
    if any (λ e. e.1 == estimated) log
    then (ts, count) ∷ rest
    else if count == estimated
    then (ts, actual) ∷ log
    else (ts, count) ∷ log

-- `if actual_blocks is not None and estimated_blocks is not None`
unfoldable pub reconcile : Option ℤ → Option ℕ → List (ℕ × ℕ) → List (ℕ × ℕ)
unfolding correct_latest
reconcile (some actual) (some estimated) log = correct_latest estimated (pos_part actual) log
reconcile _ _ log = log

unfoldable pub mark_scan_finished : Text → Text → Option ℤ → Option ℕ → Bool → Limiter → Limiter
unfolding reconcile
mark_scan_finished user_id wallet_id actual estimated reset_wallet_cooldown s = record s {
  last_scan_time =
      if reset_wallet_cooldown then update s.last_scan_time wallet_id 0 else s.last_scan_time;
  active_scans = update s.active_scans user_id (set_discard wallet_id (s.active_scans user_id));
  user_blocks_log =
      update s.user_blocks_log user_id (reconcile actual estimated (s.user_blocks_log user_id));
}

discard_for : Text → Option Text → (Text → List Text) → Text → List Text
discard_for wallet_id (some user_id) active =
    update active user_id (set_discard wallet_id (active user_id))
discard_for wallet_id none active = λ user_id. set_discard wallet_id (active user_id)

unfoldable pub clear_wallet_limits : Text → Option Text → Limiter → Limiter
unfolding discard_for
clear_wallet_limits wallet_id user_id s = record s {
  last_scan_time = update s.last_scan_time wallet_id 0;
  active_scans = discard_for wallet_id user_id s.active_scans;
}
