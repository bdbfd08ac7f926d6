-- ===== src/Labels/Undo.antt =====
-- helpers/tangolabels.py: which coins may be spent together (`undoes_a_round`).
pub mod Loop
pub mod Safe
use si_lnt.Prelude.{
  ℕ, suc, ◌+◌, ◌≤◌, ◌≡◌, refl, arith, Bool, true, false, not, ◌&&◌, ◌||◌, Option, none, some, List,
  [], ◌∷◌, ◌++◌, map, any, keep, count_if, is_empty, length, ltb, if◌then◌else◌, Bool-cases, inl,
  inr, ◌↔◌,
}
use si_lnt.Prelude.Text.{Text, codes, text_eq}
use si_lnt.Prelude.Sort.{sort}
use si_lnt.Prelude.Order.{text_lt}
use si_lnt.Labels.{is_some, mix_party, party, change_prefix}

-- A coin by its transaction, empty where there is none, and its label.
abbrev pub Labelled : Type 0
Labelled = Text × Text

abbrev pub add : Text → List Text → List Text
add s set = if any (text_eq s) set then set else s ∷ set

abbrev pub or_someone : Text → Text
or_someone who = if is_empty who then codes "someone" else who

-- What the loop has seen: `shares` is the set `mixed`, `round_ids` the keys of `by_txid`, and `names`
-- its values.
pub record Seen : Type 0 where
  pub shares : List Text
  pub has_change : Bool
  pub round_ids : List Text
  pub names : Text → List Text

abbrev pub share_of : Text → Text → Seen → Seen
share_of txid who seen =
    if is_empty txid
    then record seen { shares = add (or_someone who) seen.shares }
    else record seen {
      shares = add (or_someone who) seen.shares;
      round_ids = add txid seen.round_ids;
      names = λ t. if text_eq t txid then seen.names t ++ or_someone who ∷ [] else seen.names t;
    }

unfoldable pub see : Labelled → Seen → Seen
see (txid, label) seen = elim (mix_party label) [
  | some who ↦ share_of txid who seen
  | none ↦ if is_some (party label change_prefix) then record seen { has_change = true } else seen
]

unfoldable pub see_all : List Labelled → Seen → Seen
see_all [] seen = seen
see_all (coin ∷ coins) seen = see_all coins (see coin seen)

abbrev pub nothing_seen : Seen
nothing_seen = record { shares = []; has_change = false; round_ids = []; names = λ t. [] }

-- `" and ".join(sorted(set))`
abbrev pub joined : List Text → Text
joined [] = []
joined (s ∷ []) = s
joined (s ∷ more) = s ++ codes " and " ++ joined more

abbrev pub first_name : List Text → Text
first_name [] = []
first_name (s ∷ _) = s

abbrev pub set_of : List Text → List Text
set_of [] = []
set_of (s ∷ more) = add s (set_of more)

abbrev pub together : Seen → List Text
together seen = set_of (
    map (λ t. first_name (seen.names t)) (keep (λ t. ltb 1 (length (seen.names t))) seen.round_ids))

abbrev pub verdict : Seen → Option Text
verdict seen =
    if not (is_empty (together seen))
    then some (joined (sort text_lt (together seen)))
    else if is_empty seen.shares || not seen.has_change
    then none
    else some (joined (sort text_lt seen.shares))

unfoldable pub undoes_a_round : List Labelled → Option Text
undoes_a_round coins = verdict (see_all coins nothing_seen)
