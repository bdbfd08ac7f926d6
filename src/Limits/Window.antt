-- ===== src/Limits/Window.antt =====
-- A log of times, pruned to a sliding window: `_prune` of the limiters, and what it keeps.
use si_lnt.Prelude.{
  ℕ, ◌+◌, ◌≤◌, ◌≡◌, refl, arith, List, [], ◌∷◌, ◌++◌, length, keep, leb, if◌then◌else◌,
}
use si_lnt.Prelude.Text.{Text, text_eq}

-- `[t for t in entries if t >= now - age]`
unfoldable pub prune : ℕ → ℕ → List ℕ → List ℕ
prune now age entries = keep (λ t. leb now (t + age)) entries

-- How many entries are not before `from`.
pub count_since : ℕ → List ℕ → ℕ
count_since from entries = length (keep (leb from) entries)

-- `d[k] = v`
abbrev pub update {ℓ} : {V : Type ℓ} → (Text → V) → Text → V → Text → V
update m k v j = if text_eq k j then v else m j

abbrev pub is_since : ℕ → ℕ → ℕ
is_since from t = if leb from t then 1 else 0

pub count_since-append :
    (from t : ℕ) (entries : List ℕ)
    → count_since from (entries ++ t ∷ []) ≡ count_since from entries + is_since from t
unfolding count_since
count_since-append from t [] = ground arith
count_since-append from t (x ∷ xs) = ground (arith, count_since-append from t xs)

-- Pruning loses nothing of a window that lies within the age.
pub count_since-prune :
    (from now age : ℕ) (entries : List ℕ)
    → now ≤ from + age
    → count_since from (prune now age entries) ≡ count_since from entries
unfolding count_since prune
count_since-prune from now age [] h = refl
count_since-prune from now age (x ∷ xs) h = ground (arith, count_since-prune from now age xs h)

pub count_since-le-length :
    (from : ℕ) (entries : List ℕ) → count_since from entries ≤ length entries
unfolding count_since
count_since-le-length from [] = omega arith
count_since-le-length from (x ∷ xs) = ground (arith, count_since-le-length from xs)
