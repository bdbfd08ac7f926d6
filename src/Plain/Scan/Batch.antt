-- ===== src/Plain/Scan/Batch.antt =====
-- A batch finds what one call after the other finds.
use si_lnt.Prelude.{
  ℕ, suc, ◌+◌, ◌<◌, ◌≡◌, ◌⊎◌, inl, inr, refl, sym, ap, ◌∙◌, arith, Bool, true, false, not, List, [],
  ◌∷◌, map, is_empty, length, ◌==◌, if◌then◌else◌, Bool-cases, Result, Result-cases, ok, ok_inj,
  err, >>=-eq-ok, ◌>>=◌, ◌>>◌, refuse_if,
}
use si_lnt.Prelude.Text.{Text}
use si_lnt.Plain.Scan.{
  Unspent, AddressSummary, summarize, ScanError, wrong_number, Reply, Client, for_each, numbered,
  flag_of, gather, at_index, summaries, electrum_scripthash, scan_one, fetch_used, scan_batched,
  scan_addresses, totalled,
}

-- A good answer of a batch.
abbrev pub answered : {A : Type 0} → (Text → List A) → Text → Reply A
answered f sh = record { failed = false; result = f sh }

-- The server's answers: a call returns them, and a batch raises or returns them one for one.
pub record Answers (client : Client) : Type 0 where
  pub history : Text → List Text
  pub unspent : Text → List Unspent
  pub one_history : (sh : Text) → client.get_history sh ≡ ok (history sh)
  pub one_unspent : (sh : Text) → client.list_unspent sh ≡ ok (unspent sh)
  pub all_history :
      (shs : List Text)
      → ((e : ScanError) × (client.batch_history shs ≡ err e))
        ⊎ (client.batch_history shs ≡ ok (map (answered history) shs))
  pub all_unspent :
      (shs : List Text)
      → ((e : ScanError) × (client.batch_unspent shs ≡ err e))
        ⊎ (client.batch_unspent shs ≡ ok (map (answered unspent) shs))

length-map : {A B : Type 0} (f : A → B) (xs : List A) → length (map f xs) ≡ length xs
length-map f [] = refl
length-map f (x ∷ xs) = ap suc (length-map f xs)

-- Two counts that agree are not refused.
refuse_equal :
    {B : Type 0} (n m : ℕ) (e : ScanError) (k : Result ScanError B)
    → n ≡ m
    → (refuse_if (not (n == m)) e >> k) ≡ k
refuse_equal n m e k h = let passed : not (n == m) ≡ false = ground (arith, h) in rw passed refl

module _ (client : Client) (s : Answers client) where
  used_at : Text → Bool
  used_at sh = not (is_empty (s.history sh))

  -- What one address holds.
  found_at : Text → Text → AddressSummary
  found_at address sh = summarize address (used_at sh) (if used_at sh then s.unspent sh else [])

  flags_read :
      (shs : List Text) → for_each flag_of (map (answered s.history) shs) ≡ ok (map used_at shs)
  unfolding used_at
  flags_read [] = refl
  flags_read (sh ∷ shs) = rw (flags_read shs) refl

  table_of : List (ℕ × Text) → List (ℕ × List Unspent)
  table_of used = map (λ p. (p.0, s.unspent p.1)) used

  gathered :
      (used : List (ℕ × Text))
      → gather used (map (answered s.unspent) (map (λ p. p.1) used)) ≡ ok (table_of used)
  unfolding table_of
  gathered [] = refl
  gathered (p ∷ used) = rw (gathered used) refl

  -- The fetch raises or finds every address's coins.
  fetched :
      (used : List (ℕ × Text))
      → ((e : ScanError) × (fetch_used client used ≡ err e))
        ⊎ (fetch_used client used ≡ ok (table_of used))
  unfolding fetch_used table_of
  fetched [] = inr refl
  fetched (p ∷ used) = elim (s.all_unspent (map (λ p. p.1) (p ∷ used))) [
    | inl (e, h) ↦ inl (e, rw h refl)
    | inr h ↦
        let counts =
          length-map (answered s.unspent) (map (λ (q : ℕ × Text). q.1) (p ∷ used))
          ∙ length-map (λ (q : ℕ × Text). q.1) (p ∷ used) in
        inr (rw h (refuse_equal _ _ wrong_number _ counts ∙ gathered (p ∷ used)))
  ]

  -- A position below all that are in the table, and one that is passed.
  at_index-below :
      (n m : ℕ) (flags : List Bool) (shs : List Text)
      → n < m
      → at_index n (table_of (numbered m flags shs)) ≡ []
  unfolding table_of
  at_index-below n m [] shs h = refl
  at_index-below n m (used ∷ flags) [] h = refl
  at_index-below n m (true ∷ flags) (sh ∷ shs) h =
      ground (arith, h, at_index-below n (m + 1) flags shs (omega (arith, h)))
  at_index-below n m (false ∷ flags) (sh ∷ shs) h =
      at_index-below n (m + 1) flags shs (omega (arith, h))

  summaries-passed :
      (n m : ℕ) (addresses : List Text) (flags : List Bool) (us : List Unspent)
      (table : List (ℕ × List Unspent))
      → n < m
      → summaries m addresses flags ((n, us) ∷ table) ≡ summaries m addresses flags table
  summaries-passed n m [] flags us table h = refl
  summaries-passed n m (a ∷ addresses) [] us table h = refl
  summaries-passed n m (a ∷ addresses) (used ∷ flags) us table h =
      let passed : (n == m) ≡ false = ground (arith, h) in
      rw (passed, summaries-passed n (m + 1) addresses flags us table (omega (arith, h))) refl

  scan_one-found :
      (a sh : Text) → electrum_scripthash client a ≡ ok sh → scan_one client a ≡ ok (found_at a sh)
  unfolding scan_one found_at used_at
  scan_one-found a sh h = elim (Bool-cases (is_empty (s.history sh))) [
    | inl e ↦ rw (h, s.one_history sh, e) refl
    | inr e ↦ rw (h, s.one_history sh, e, s.one_unspent sh) refl
  ]

  head_found :
      (n : ℕ) (a sh : Text) (addresses shs : List Text)
      → summaries n
          (a ∷ addresses)
          (map used_at (sh ∷ shs))
          (table_of (numbered n (map used_at (sh ∷ shs)) (sh ∷ shs)))
        ≡ found_at a sh
          ∷ summaries
              (n + 1)
              addresses
              (map used_at shs)
              (table_of (numbered (n + 1) (map used_at shs) shs))
  unfolding table_of found_at
  head_found n a sh addresses shs = elim (Bool-cases (used_at sh)) [
    | inl e ↦
        let here : (n == n) ≡ true = ground arith in
        rw e (
          rw
            (
              here,
              summaries-passed n (n + 1) addresses (map used_at shs) (s.unspent sh)
                  (table_of (numbered (n + 1) (map used_at shs) shs)) (omega arith),
            )
            refl)
    | inr e ↦ rw e (rw (at_index-below n (n + 1) (map used_at shs) shs (omega arith)) refl)
  ]

  -- The summaries of a table that holds the coins of the used addresses.
  summaries-found :
      (n : ℕ) (addresses shs : List Text)
      → for_each (electrum_scripthash client) addresses ≡ ok shs
      → for_each (scan_one client) addresses
        ≡ ok (summaries n addresses (map used_at shs) (table_of (numbered n (map used_at shs) shs)))
  summaries-found n [] shs h = refl
  summaries-found n (a ∷ addresses) shs h =
      let (sh, first, h1) = >>=-eq-ok (electrum_scripthash client a) _ h in
      let (rest, later, h2) = >>=-eq-ok (for_each (electrum_scripthash client) addresses) _ h1 in
      rw
        (
          scan_one-found a sh first,
          summaries-found (n + 1) addresses rest later,
          sym (ok_inj h2),
          head_found n a sh addresses rest,
        )
        refl

  -- A batch raises, or finds what the single calls find.
  batched-found :
      (addresses : List Text)
      → ((e : ScanError) × (scan_batched client addresses ≡ err e))
        ⊎ (scan_batched client addresses ≡ for_each (scan_one client) addresses)
  unfolding scan_batched
  batched-found addresses = elim (Result-cases (for_each (electrum_scripthash client) addresses)) [
    | inr (e, h) ↦ inl (e, rw h refl)
    | inl (shs, h) ↦ elim (s.all_history shs) [
      | inl (e, g) ↦ inl (e, rw (h, g) refl)
      | inr g ↦
          let counts = length-map (answered s.history) shs in
          elim (fetched (numbered 0 (map used_at shs) shs)) [
            | inl (e, f) ↦ inl (
              e,
              rw (h, g) (refuse_equal _ _ wrong_number _ counts ∙ rw (flags_read shs, f) refl),
            )
            | inr f ↦ inr (
                rw (h, g)
                  (refuse_equal _ _ wrong_number _ counts
                    ∙ rw (flags_read shs, f) (sym (summaries-found 0 addresses shs h))))
          ]
    ]
  ]

  -- Where the server answers single calls, and a batch raises or answers as they do: the scan finds
  -- what one call after the other finds, address by address, and fails exactly where that does.
  pub scan_addresses-one_by_one :
      (addresses : List Text)
      → scan_addresses client addresses
        ≡ (for_each (scan_one client) addresses >>= λ found. ok (totalled found))
  unfolding scan_addresses
  scan_addresses-one_by_one addresses = elim (batched-found addresses) [
    | inl (e, h) ↦ rw h refl
    | inr h ↦ elim (Result-cases (for_each (scan_one client) addresses)) [
      | inl (found, f) ↦ rw (h, f) refl
      | inr (e, f) ↦ rw (h, f) refl
    ]
  ]
