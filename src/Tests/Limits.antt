-- ===== src/Tests/Limits.antt =====
-- The rate limiters on short histories.
use si_lnt.Prelude.{◌≤◌, ◌≡◌, refl, arith, none, List, [], ◌∷◌}
use si_lnt.Prelude.Text.{codes}
use si_lnt.Limits.Window.{prune, count_since}
use si_lnt.Limits.Register
use si_lnt.Limits.Register.{
  Event, attempt, mailed, all_admitted, all_admitted_from, max_starts_global_hour,
  max_starts_per_ip_hour,
}
use si_lnt.Limits.Register.Bounds.{registrations_bounded}
use si_lnt.Limits.Scan
use si_lnt.Limits.Scan.Slots.{Step, Reach, IsExclusive, IsExclusive-start, Reach-IsExclusive}

abbrev events : List Event
events =
    attempt 1000 (codes "10.0.0.1") (codes "a@b.c")
    ∷ mailed 1002 (codes "a@b.c")
    ∷ attempt 1010 (codes "10.0.0.1") (codes "A@b.c ")
    ∷ attempt 1100 (codes "10.0.0.2") (codes "A@b.c")
    ∷ []

registrations_bounded_example :
    (count_since 900 (all_admitted Register.start events) ≤ max_starts_global_hour)
    × (count_since 900 (all_admitted_from (codes "10.0.0.1") Register.start events)
        ≤ max_starts_per_ip_hour)
registrations_bounded_example =
    registrations_bounded (codes "10.0.0.1") events 900 (omega arith) (omega arith)

abbrev admitted : Scan.Limiter
admitted = (Scan.check_scan_allowed 1000 (codes "u") (codes "w") (codes "ip") 400 Scan.start).0

first_scan :
    (Scan.check_scan_allowed 1000 (codes "u") (codes "w") (codes "ip") 400 Scan.start).1 ≡ none
unfolding Scan.check_scan_allowed prune Scan.prune_blocks
first_scan = refl

Reach-IsExclusive_example : IsExclusive admitted
Reach-IsExclusive_example =
    Reach-IsExclusive IsExclusive-start
      (Reach.next Reach.here (Step.scan 1000 (codes "u") (codes "w") (codes "ip") 400 Scan.start))
