-- ===== src/Tango/Turns/Order.antt =====
-- Whose turn it is, and who stopped a round.
use si_lnt.Prelude.{◌≡◌, refl, ◌↔◌, ◌⊎◌, true, some, ok, arith, Bool-cases, inl, inr, sym, ap, ◌++◌}
use si_lnt.Prelude.Text.{Text, codes, text_eq, text_eq→≡, text_eq_refl, strip, lower}
use si_lnt.Tango.Turns.{
  Status, proposed, accepted, a_signed, broadcast, cancelled, whose_turn, require_turn, is_party,
  cancelled_by, who_cancelled, by,
}

is_party-cases : (role : Text) → is_party role ≡ true → (role ≡ codes "a") ⊎ (role ≡ codes "b")
is_party-cases role h = elim (Bool-cases (text_eq role (codes "a"))) [
  | inl e ↦ inl (text_eq→≡ _ _ e)
  | inr e ↦ inr (text_eq→≡ _ _ (ground arith))
]

turn_of :
    (role : Text) (status : Status) (turn : Text)
    → whose_turn status ≡ some turn
    → is_party turn ≡ true
    → (require_turn status role ≡ ok tt) ↔ (some turn ≡ some role)
unfolding require_turn
turn_of role status turn h p = rw h (
  (λ passed. elim (Bool-cases (text_eq turn role)) [
    | inl e ↦ ap some (text_eq→≡ _ _ e)
    | inr e ↦ absurd (ground (arith, passed, e))
  ]),
  (λ same. let e : turn ≡ role = cc same in rw (← e) (rw (p, text_eq_refl turn) refl)),
)

-- A step is allowed exactly to the side whose turn it is: neither a stranger nor the other side,
-- nor anyone once a round is over.
pub require_turn_iff :
    (status : Status) (role : Text)
    → (require_turn status role ≡ ok tt) ↔ (whose_turn status ≡ some role)
unfolding whose_turn require_turn
require_turn_iff proposed role = turn_of role proposed (codes "b") refl refl
require_turn_iff accepted role = turn_of role accepted (codes "a") refl refl
require_turn_iff a_signed role = turn_of role a_signed (codes "b") refl refl
require_turn_iff broadcast role = ((λ h. absurd (ground (arith, h))), λ h. absurd (cc h))
require_turn_iff cancelled role = ((λ h. absurd (ground (arith, h))), λ h. absurd (cc h))

-- The reason that is stored for a cancellation names, when it is read back, the side that
-- cancelled.
pub who_cancelled-cancelled_by :
    (role reason : Text) → cancelled_by role ≡ some reason → who_cancelled (some reason) ≡ some role
unfolding cancelled_by who_cancelled strip lower
who_cancelled-cancelled_by role reason h = elim (Bool-cases (is_party role)) [
  | inr e ↦ absurd (let bad = rw e at h in cc)
  | inl e ↦
      let stored = rw e at h in
      elim (is_party-cases role e) [
        | inl a ↦ rw (sym (let s : by ++ role ≡ reason = cc stored in s), a) refl
        | inr b ↦ rw (sym (let s : by ++ role ≡ reason = cc stored in s), b) refl
      ]
]
