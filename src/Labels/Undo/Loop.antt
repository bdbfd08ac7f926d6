-- ===== src/Labels/Undo/Loop.antt =====
-- What the loop over the coins has seen at its end.
use si_lnt.Prelude.{
  ◌+◌, ◌≡◌, refl, ◌∙◌, arith, Bool, true, false, not, ◌&&◌, ◌||◌, none, some, List, [], ◌∷◌, ◌++◌,
  any, all, count_if, is_empty, length, length-append, if◌then◌else◌, Bool-cases, Option-cases,
  if_keeps, inl, inr,
}
use si_lnt.Prelude.Text.{Text, text_eq, text_eq→≡}
use si_lnt.Labels.{is_some, mix_party, party, change_prefix}
use si_lnt.Labels.Undo.{Labelled, add, or_someone, Seen, share_of, see, see_all}

abbrev pub is_share : Labelled → Bool
is_share (txid, label) = is_some (mix_party label)

abbrev pub is_change : Labelled → Bool
is_change (txid, label) = not (is_some (mix_party label)) && is_some (party label change_prefix)

abbrev pub is_share_of : Text → Labelled → Bool
is_share_of t (txid, label) = is_some (mix_party label) && text_eq t txid

pub record IsSeen (seen : Seen) : Type 0 where
  pub keyed : (t : Text) → is_empty (seen.names t) ≡ false → any (text_eq t) seen.round_ids ≡ true
  pub has_txid : all (λ t. not (is_empty t)) seen.round_ids ≡ true

module _ (txid label : Text) (seen : Seen) where
  see-share :
      {who : Text} → mix_party label ≡ some who → see (txid, label) seen ≡ share_of txid who seen
  unfolding see
  see-share h = rw (h, see) refl

  see-other :
      mix_party label ≡ none
      → see (txid, label) seen
        ≡ (if is_some (party label change_prefix) then record seen { has_change = true } else seen)
  unfolding see
  see-other h = rw (h, see) refl

pub add-empty : (s : Text) (set : List Text) → is_empty (add s set) ≡ false
add-empty s [] = refl
add-empty s (t ∷ set) = ground arith

append-empty : (s : Text) (names : List Text) → is_empty (names ++ s ∷ []) ≡ false
append-empty s [] = refl
append-empty s (t ∷ names) = refl

text_eq-nil : (t : Text) → is_empty t ≡ false → text_eq t [] ≡ false
text_eq-nil [] h = h
text_eq-nil (c ∷ t) h = refl

share_of-names :
    (t txid who : Text) (seen : Seen)
    → is_empty t ≡ false
    → length ((share_of txid who seen).names t)
      ≡ length (seen.names t) + (if text_eq t txid then 1 else 0)
share_of-names t [] who seen h = rw (text_eq-nil t h) (omega arith)
share_of-names t (c ∷ txid) who seen h = elim (Bool-cases (text_eq t (c ∷ txid))) [
  | inl e ↦ rw e (length-append (seen.names t) (or_someone who ∷ []))
  | inr e ↦ rw e (omega arith)
]

share_of-mixed : (txid who : Text) (seen : Seen) → is_empty (share_of txid who seen).shares ≡ false
share_of-mixed [] who seen = add-empty (or_someone who) seen.shares
share_of-mixed (c ∷ txid) who seen = add-empty (or_someone who) seen.shares

share_of-change :
    (txid who : Text) (seen : Seen) → (share_of txid who seen).has_change ≡ seen.has_change
share_of-change [] who seen = refl
share_of-change (c ∷ txid) who seen = refl

-- What one coin adds to what the loop has seen.
pub record Adds (coin : Labelled) (seen next : Seen) : Type 0 where
  pub share :
      (t : Text)
      → is_empty t ≡ false
      → length (next.names t) ≡ length (seen.names t) + (if is_share_of t coin then 1 else 0)
  pub change : next.has_change ≡ (seen.has_change || is_change coin)
  pub mixes : is_empty next.shares ≡ (is_empty seen.shares && not (is_share coin))
  pub stays : IsSeen seen → IsSeen next

or-false : (b : Bool) → b ≡ (b || false)
or-false true = refl
or-false false = refl

pub or-true : (b : Bool) → true ≡ (b || true)
or-true true = refl
or-true false = refl

and-false : (b : Bool) → false ≡ (b && false)
and-false true = refl
and-false false = refl

and-one : (b : Bool) → b ≡ (b && true)
and-one true = refl
and-one false = refl

any-add :
    (t s : Text) (set : List Text)
    → (text_eq t s || any (text_eq t) set) ≡ true
    → any (text_eq t) (add s set) ≡ true
any-add t s set h = elim (Bool-cases (any (text_eq s) set)) [
  | inl e ↦
      rw e
        (elim (Bool-cases (text_eq t s)) [ inl e' ↦ rw (text_eq→≡ t s e') e | inr e' ↦ rw e' at h ])
  | inr e ↦ rw e h
]

share_of-IsSeen : (txid who : Text) (seen : Seen) → IsSeen seen → IsSeen (share_of txid who seen)
share_of-IsSeen [] who seen h = record { keyed = h.keyed; has_txid = h.has_txid }
share_of-IsSeen (c ∷ txid) who seen h = record {
  keyed = λ t full. any-add t (c ∷ txid) seen.round_ids (elim (Bool-cases (text_eq t (c ∷ txid))) [
    | inl e ↦ rw e refl
    | inr e ↦ rw e (h.keyed t (rw e at full))
  ]);
  has_txid =
      if_keeps (λ set. all (λ t. not (is_empty t)) set ≡ true)
        (any (text_eq (c ∷ txid)) seen.round_ids) h.has_txid h.has_txid;
}

see-Adds : (coin : Labelled) (seen : Seen) → Adds coin seen (see coin seen)
see-Adds (txid, label) seen = elim (Option-cases (mix_party label)) [
  | inr (who, e) ↦ rw (see-share txid label seen e) (record {
    share = λ t h. rw e (share_of-names t txid who seen h);
    change = rw e (share_of-change txid who seen ∙ or-false seen.has_change);
    mixes = rw e (share_of-mixed txid who seen ∙ and-false (is_empty seen.shares));
    stays = share_of-IsSeen txid who seen;
  })
  | inl e ↦ elim (Bool-cases (is_some (party label change_prefix))) [
    | inl e' ↦
        rw (see-other txid label seen e, e')
          (record {
            share = λ t h. rw e (omega arith);
            change = rw (e, e') (or-true seen.has_change);
            mixes = rw e (and-one (is_empty seen.shares));
            stays = λ h. record { keyed = h.keyed; has_txid = h.has_txid };
          })
    | inr e' ↦
        rw (see-other txid label seen e, e')
          (record {
            share = λ t h. rw e (omega arith);
            change = rw (e, e') (or-false seen.has_change);
            mixes = rw e (and-one (is_empty seen.shares));
            stays = λ h. h;
          })
  ]
]

or_assoc : (p q r : Bool) → ((p || q) || r) ≡ (p || (q || r))
or_assoc true q r = refl
or_assoc false q r = refl

and_not_or : (p q r : Bool) → ((p && not q) && not r) ≡ (p && not (q || r))
and_not_or true true r = refl
and_not_or true false r = refl
and_not_or false q r = refl

pub see_all-names :
    (t : Text) (coins : List Labelled) (seen : Seen)
    → is_empty t ≡ false
    → length ((see_all coins seen).names t) ≡ length (seen.names t) + count_if (is_share_of t) coins
unfolding see_all
see_all-names t [] seen h = omega arith
see_all-names t (coin ∷ coins) seen h =
    see_all-names t coins (see coin seen) h ∙ omega (arith, (see-Adds coin seen).share t h)

pub see_all-change :
    (coins : List Labelled) (seen : Seen)
    → (see_all coins seen).has_change ≡ (seen.has_change || any is_change coins)
unfolding see_all
see_all-change [] seen = or-false seen.has_change
see_all-change (coin ∷ coins) seen =
    see_all-change coins (see coin seen)
    ∙ rw (see-Adds coin seen).change (or_assoc seen.has_change _ _)

pub see_all-mixed :
    (coins : List Labelled) (seen : Seen)
    → is_empty (see_all coins seen).shares ≡ (is_empty seen.shares && not (any is_share coins))
unfolding see_all
see_all-mixed [] seen = and-one (is_empty seen.shares)
see_all-mixed (coin ∷ coins) seen =
    see_all-mixed coins (see coin seen)
    ∙ rw (see-Adds coin seen).mixes (and_not_or (is_empty seen.shares) (is_share coin) _)

pub see_all-IsSeen :
    (coins : List Labelled) (seen : Seen) → IsSeen seen → IsSeen (see_all coins seen)
unfolding see_all
see_all-IsSeen [] seen h = h
see_all-IsSeen (coin ∷ coins) seen h =
    see_all-IsSeen coins (see coin seen) ((see-Adds coin seen).stays h)
