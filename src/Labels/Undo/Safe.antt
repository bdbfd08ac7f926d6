-- ===== src/Labels/Undo/Safe.antt =====
-- Which selections of coins are let through.
use si_lnt.Prelude.{
  ◌≤◌, ◌≡◌, refl, sym, ap, ◌∙◌, arith, Bool, true, false, not, ◌&&◌, ◌||◌, none, some, List, [],
  ◌∷◌, map, any, all, keep, count_if, is_empty, length, ltb, if◌then◌else◌, Bool-cases, and-true,
  not-true, inl, inr, ◌↔◌,
}
use si_lnt.Prelude.Text.{Text, text_eq, text_eq→≡}
use si_lnt.Labels.Undo.{
  Labelled, Seen, see_all, nothing_seen, first_name, set_of, together, undoes_a_round,
}
use si_lnt.Labels.Undo.Loop.{
  is_share, is_change, is_share_of, IsSeen, add-empty, or-true, see_all-names, see_all-change,
  see_all-mixed, see_all-IsSeen,
}

any-found :
    {A : Type 0} (p q : A → Bool) (set : List A)
    → any p set ≡ true
    → all q set ≡ true
    → (a : A) × (p a ≡ true) × (q a ≡ true)
any-found p q [] h g = absurd (cc h)
any-found p q (a ∷ set) h g =
    let (here, rest) = and-true (q a) (all q set) g in
    elim (Bool-cases (p a)) [ inl e ↦ (a, e, here) | inr e ↦ any-found p q set (rw e at h) rest ]

any-at :
    (p : Text → Bool) (t : Text) (set : List Text)
    → any (text_eq t) set ≡ true
    → p t ≡ true
    → any p set ≡ true
any-at p t [] h g = cc h
any-at p t (s ∷ set) h g = elim (Bool-cases (text_eq t s)) [
  | inl e ↦ let same = text_eq→≡ t s e in rw (sym same) (rw g refl)
  | inr e ↦ let rest = any-at p t set (rw e at h) g in rw rest (sym (or-true (p s)))
]

kept-empty :
    (f : Text → Text) (p : Text → Bool) (set : List Text)
    → is_empty (set_of (map f (keep p set))) ≡ not (any p set)
kept-empty f p [] = refl
kept-empty f p (s ∷ set) = elim (Bool-cases (p s)) [
  | inl e ↦ rw e (add-empty (f s) (set_of (map f (keep p set))))
  | inr e ↦ rw e (kept-empty f p set)
]

-- At most one share of a round, and no share beside a change.
abbrev pub IsSafe : List Labelled → Type 0
IsSafe coins =
    ((t : Text) → is_empty t ≡ false → count_if (is_share_of t) coins ≤ 1)
    × ((any is_share coins && any is_change coins) ≡ false)

choice_iff :
    (p q : Bool) (x y : Text)
    → ((if not p then some x else if q then none else some y) ≡ none) ↔ ((p ≡ true) × (q ≡ true))
choice_iff true true x y = (λ h. (refl, refl), λ h. refl)
choice_iff true false x y = (λ h. absurd (cc h), λ (h, g). absurd (cc g))
choice_iff false q x y = (λ h. absurd (cc h), λ (h, g). absurd (cc h))

apart : (p q : Bool) → ((not p || not q) ≡ true) ↔ ((p && q) ≡ false)
apart true true = (λ h. sym h, λ h. sym h)
apart true false = (λ h. refl, λ h. refl)
apart false q = (λ h. refl, λ h. refl)

module _ (coins : List Labelled) where
  abbrev seen : Seen
  seen = see_all coins nothing_seen

  abbrev often : Text → Bool
  often t = ltb 1 (length (seen.names t))

  seen-names :
      (t : Text) → is_empty t ≡ false → length (seen.names t) ≡ count_if (is_share_of t) coins
  seen-names t h = omega (arith, see_all-names t coins nothing_seen h)

  seen-IsSeen : IsSeen seen
  seen-IsSeen =
      see_all-IsSeen coins nothing_seen (record { keyed = λ t full. sym full; has_txid = refl })

  none_often :
      any often seen.round_ids ≡ false
      → (t : Text) → is_empty t ≡ false
      → count_if (is_share_of t) coins ≤ 1
  none_often h t full = elim (Bool-cases (often t)) [
    | inl e ↦
        absurd
          (let bad = any-at often t seen.round_ids (seen-IsSeen.keyed t (many e)) e in cc (h, bad))
    | inr e ↦ rw (sym (seen-names t full)) (ground (arith, e))
  ]
    where
      many : often t ≡ true → is_empty (seen.names t) ≡ false
      many e =
          elim (seen.names t) as (λ l. ltb 1 (length l) ≡ true → is_empty l ≡ false) [
            | [] ↦ λ e. cc e
            | s ∷ l ↦ λ e. refl
          ]
            e

  seldom :
      ((t : Text) → is_empty t ≡ false → count_if (is_share_of t) coins ≤ 1)
      → any often seen.round_ids ≡ false
  seldom h = elim (Bool-cases (any often seen.round_ids)) [
    | inr e ↦ e
    | inl e ↦
        let (t, twice, full) =
          any-found often (λ t. not (is_empty t)) seen.round_ids e seen-IsSeen.has_txid in
        let once = h t (not-true (is_empty t) full) in
        let n = seen-names t (not-true (is_empty t) full) in absurd (ground (arith, once, n, twice))
  ]

  mixed_empty : is_empty seen.shares ≡ not (any is_share coins)
  mixed_empty = see_all-mixed coins nothing_seen

  changed : seen.has_change ≡ any is_change coins
  changed = see_all-change coins nothing_seen

  no_mix :
      ((is_empty seen.shares || not seen.has_change) ≡ true)
      ↔ ((any is_share coins && any is_change coins) ≡ false)
  no_mix = rw (mixed_empty, changed) (apart (any is_share coins) (any is_change coins))

-- A selection of coins is let through exactly when it has at most one share of each transaction,
-- and no share beside a change.
pub undoes_a_round_iff : (coins : List Labelled) → (undoes_a_round coins ≡ none) ↔ IsSafe coins
unfolding undoes_a_round
undoes_a_round_iff coins =
    let s = seen coins in
    let (to, back) =
      choice_iff (is_empty (together s)) (is_empty s.shares || not s.has_change) _ _ in
    let (apart_to, apart_back) = no_mix coins in
    let kept = kept-empty (λ t. first_name (s.names t)) (often coins) s.round_ids in
    (
      λ h.
          let (alone, plain) = to h in
          (none_often coins (not-true _ (sym kept ∙ alone)), apart_to plain),
      λ (once, plain). back (kept ∙ ap not (seldom coins once), apart_back plain),
    )
