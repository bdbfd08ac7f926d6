-- ===== src/Labels.antt =====
-- helpers/tangolabels.py: what a Tango writes on a coin, and how it is read back.
pub mod Read
pub mod Party
pub mod Undo
use si_lnt.Prelude.{
  ℕ, zero, suc, ◌+◌, Bool, true, false, not, ◌&&◌, ◌||◌, Option, none, some, List, [], ◌∷◌, ◌++◌,
  map, keep, take, any, is_empty, length, ltb, ◌==◌, if◌then◌else◌,
}
use si_lnt.Prelude.Text.{Text, codes, strip, lower, starts_with, text_eq}
use si_lnt.Prelude.Find.{drop, has_text, before_last_text}
use si_lnt.Prelude.Sort.{sort}
use si_lnt.Prelude.Order.{text_lt}

-- What a column holds for the scripts of a side.
pub data RawSpks : Type 0 where
  nothing : RawSpks
  listed : List Text → RawSpks
  written : Text → RawSpks

abbrev pub lowered : List Text → List Text
lowered items = map lower (keep (λ s. not (is_empty s)) items)

abbrev pub loaded : Option (List Text) → List Text
loaded none = []
loaded (some items) = lowered items

-- `json_items` is `json.loads` of a text that begins with a bracket, none where it raises; an item
-- that Python counts as false is the empty text.
unfoldable pub spk_list : (json_items : Text → Option (List Text)) → RawSpks → List Text
spk_list json_items nothing = []
spk_list json_items (listed items) = lowered items
spk_list json_items (written raw) =
    let text = strip raw in
    if is_empty raw
    then []
    else if starts_with text (codes "[")
    then loaded (json_items text)
    else lower text ∷ []

abbrev pub mix_prefix : Text
mix_prefix = codes "Tango share"

abbrev pub change_prefix : Text
change_prefix = codes "Tango change"

abbrev pub legacy_mix_prefix : Text
legacy_mix_prefix = codes "Tango mix"

-- The day of a round: a string, or a date by what its `strftime` gives, none where it raises.
pub data When : Type 0 where
  no_day : When
  day_text : Text → When
  date : Option Text → When

abbrev pub marker_text : Text → Text
marker_text text = if is_empty text then [] else codes "· " ++ text

unfoldable pub day_marker : When → Text
day_marker no_day = []
day_marker (day_text when) = marker_text (take 10 (strip when))
day_marker (date none) = []
day_marker (date (some text)) = codes "· " ++ text

abbrev pub or_empty : Option Text → Text
or_empty none = []
or_empty (some s) = s

-- `" ".join(parts)` of a text and a part that may be left out.
abbrev pub and_part : Text → Text → Text
and_part text part = if is_empty part then text else text ++ b' ' ∷ part

unfoldable pub labelled : Text → Option Text → When → Text
labelled prefix other_username when =
    let who = strip (or_empty other_username) in
    and_part (and_part prefix (if is_empty who then [] else codes "- " ++ who)) (day_marker when)

abbrev pub mix_label : Option Text → When → Text
mix_label = labelled mix_prefix

abbrev pub change_label : Option Text → When → Text
change_label = labelled change_prefix

abbrev pub day_sep : Text
day_sep = codes " · "

abbrev pub tag_sep : Text
tag_sep = codes " #"

unfoldable pub strip_marker : Text → Text
strip_marker rest =
    if has_text day_sep rest
    then strip (before_last_text day_sep rest)
    else if has_text tag_sep rest
    then strip (before_last_text tag_sep rest)
    else rest

-- What follows the prefix and a blank.
abbrev pub party_of : Text → Option Text
party_of rest =
    if starts_with rest (codes "- ")
    then some (strip_marker (strip (drop 2 rest)))
    else if starts_with rest (codes "#") || starts_with rest (codes "·")
    then some []
    else none

unfoldable pub party : Text → Text → Option Text
party label prefix =
    let text = strip label in
    if text_eq text prefix
    then some []
    else if not (starts_with text (prefix ++ codes " "))
    then none
    else party_of (strip (drop (length prefix + 1) text))

abbrev pub or_party : Option Text → Option Text → Option Text
or_party (some who) other = some who
or_party none other = other

unfoldable pub mix_party : Text → Option Text
mix_party label = or_party (party label mix_prefix) (party label legacy_mix_prefix)

abbrev pub is_some : Option Text → Bool
is_some none = false
is_some (some who) = true

unfoldable pub wrote_label : Text → Bool
wrote_label label = is_some (mix_party label) || is_some (party label change_prefix)

-- A script as it is compared.
abbrev pub normal : Text → Text
normal spk = lower (strip spk)

abbrev pub later : Option ℕ → Option ℕ → Option ℕ
later none earlier = earlier
later (some v) earlier = some v

-- `outs.get(key)`: of two keys that compare alike, the later one stays.
abbrev pub value_of : List (Text × ℕ) → Text → Option ℕ
value_of [] key = none
value_of ((k, v) ∷ outs) key =
    later (value_of outs key) (if text_eq (normal k) key then some v else none)

abbrev pub put_label : Text → Text → List (Text × Text) → List (Text × Text)
put_label key label [] = (key, label) ∷ []
put_label key label ((k, l) ∷ out) =
    let rest = put_label key label out in
    if text_eq k key then (key, label) ∷ out else (k, l) ∷ rest

unfoldable pub coin_labels_from :
    List (Text × ℕ) → ℕ → List Text → Option Text → When → List (Text × Text) → List (Text × Text)
coin_labels_from tx_outputs share [] other_username when out = out
coin_labels_from tx_outputs share (spk ∷ scripts) other_username when out =
    let key = normal spk in
    coin_labels_from tx_outputs share scripts other_username when (
      if is_empty key then out else elim (value_of tx_outputs key) [
        | none ↦ out
        | some value ↦
            put_label key
              (if value == share
                then mix_label other_username when
                else change_label other_username when)
              out
      ])

abbrev pub coin_labels : List (Text × ℕ) → ℕ → List Text → Option Text → When → List (Text × Text)
coin_labels tx_outputs share scripts other_username when =
    coin_labels_from tx_outputs share scripts other_username when []
