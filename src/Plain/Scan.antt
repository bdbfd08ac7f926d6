-- ===== src/Plain/Scan.antt =====
-- helpers/plain.py: what the addresses hold (`_summarize`, `_scan_one`, `_scan_batched`,
-- `scan_addresses`), with electrum_scripthash of helpers/electrum_client.py.
pub mod Batch
use si_lnt.Prelude.{
  ℕ, ◌+◌, Bool, true, false, not, Option, none, some, List, [], ◌∷◌, ◌++◌, map, is_empty, length,
  sum_of, ltb, ◌==◌, if◌then◌else◌, Result, ok, err, ◌>>=◌, ◌>>◌, refuse_if,
}
use si_lnt.Prelude.Int.{ℤ, pos_part}
use si_lnt.Prelude.Text.{Text}
use si_lnt.Prelude.Sort.{sort}
use si_lnt.Bech32.{address_to_scriptpubkey}
use si_lnt.Plain.{Utxo, utxo_before}

-- A coin as the server lists it.
pub record Unspent : Type 0 where
  pub tx_hash : Text
  pub tx_pos : ℕ
  pub value : ℕ
  pub height : ℤ

pub record AddressSummary : Type 0 where
  pub address : Text
  pub used : Bool
  pub utxos : List Utxo
  pub confirmed_sats : ℕ
  pub unconfirmed_sats : ℕ
  pub unconfirmed_count : ℕ

abbrev pub tally : Unspent → AddressSummary → AddressSummary
tally u s =
    if pos_part u.height == 0
    then record s {
      unconfirmed_sats = u.value + s.unconfirmed_sats;
      unconfirmed_count = s.unconfirmed_count + 1;
    }
    else record s {
      utxos =
          record {
            address = s.address;
            txid = u.tx_hash;
            vout = u.tx_pos;
            amount = u.value;
            height = pos_part u.height;
          }
          ∷ s.utxos;
      confirmed_sats = u.value + s.confirmed_sats;
    }

unfoldable pub summarize : Text → Bool → List Unspent → AddressSummary
summarize address used [] = record {
  address = address;
  used = used;
  utxos = [];
  confirmed_sats = 0;
  unconfirmed_sats = 0;
  unconfirmed_count = 0;
}
summarize address used (u ∷ unspent) = tally u (summarize address used unspent)

pub data ScanError : Type 0 where
  bad_address wrong_number batch_failed server_failed : ScanError

-- One answer of a batch.
pub record Reply (A : Type 0) : Type 0 where
  pub failed : Bool
  pub result : List A

-- The hash of a script as the server wants it, and the server: its calls one by one, and batches.
pub record Client : Type 0 where
  pub scripthash : Text → Text
  pub get_history : Text → Result ScanError (List Text)
  pub list_unspent : Text → Result ScanError (List Unspent)
  pub batch_history : List Text → Result ScanError (List (Reply Text))
  pub batch_unspent : List Text → Result ScanError (List (Reply Unspent))

-- `[f(x) for x in xs]`, where `f` may raise.
abbrev pub for_each : {A B : Type 0} → (A → Result ScanError B) → List A → Result ScanError (List B)
for_each f [] = ok []
for_each f (x ∷ xs) = f x >>= λ y. for_each f xs >>= λ ys. ok (y ∷ ys)

abbrev pub numbered : {A : Type 0} → ℕ → List Bool → List A → List (ℕ × A)
numbered n [] shs = []
numbered n (used ∷ flags) [] = []
numbered n (used ∷ flags) (sh ∷ shs) =
    let rest = numbered (n + 1) flags shs in if used then (n, sh) ∷ rest else rest

abbrev pub flag_of : Reply Text → Result ScanError Bool
flag_of r = if r.failed then err batch_failed else ok (not (is_empty r.result))

-- `unspent_by_idx`, by the positions that were used.
abbrev pub gather :
    List (ℕ × Text) → List (Reply Unspent) → Result ScanError (List (ℕ × List Unspent))
gather [] res = ok []
gather (i ∷ used) [] = ok []
gather ((i, sh) ∷ used) (r ∷ res) =
    refuse_if r.failed batch_failed >> (gather used res >>= λ table. ok ((i, r.result) ∷ table))

abbrev pub at_index : ℕ → List (ℕ × List Unspent) → List Unspent
at_index n [] = []
at_index n ((i, unspent) ∷ table) =
    let later = at_index n table in if i == n then unspent else later

abbrev pub summaries : ℕ → List Text → List Bool → List (ℕ × List Unspent) → List AddressSummary
summaries n [] flags table = []
summaries n (a ∷ addresses) [] table = []
summaries n (a ∷ addresses) (used ∷ flags) table =
    summarize a used (at_index n table) ∷ summaries (n + 1) addresses flags table

pub record Scan : Type 0 where
  pub addresses : List AddressSummary
  pub utxos : List Utxo
  pub confirmed_sats : ℕ
  pub unconfirmed_sats : ℕ
  pub unconfirmed_count : ℕ

abbrev pub all_utxos : List AddressSummary → List Utxo
all_utxos [] = []
all_utxos (a ∷ rest) = a.utxos ++ all_utxos rest

abbrev pub totalled : List AddressSummary → Scan
totalled found = record {
  addresses = found;
  utxos = sort utxo_before (all_utxos found);
  confirmed_sats = sum_of (λ a. a.confirmed_sats) found;
  unconfirmed_sats = sum_of (λ a. a.unconfirmed_sats) found;
  unconfirmed_count = sum_of (λ a. a.unconfirmed_count) found;
}

abbrev pub or_singly :
    Result ScanError (List AddressSummary)
    → Result ScanError (List AddressSummary)
    → Result ScanError (List AddressSummary)
or_singly (ok found) singly = ok found
or_singly (err _) singly = singly

module _ (client : Client) where
  abbrev pub electrum_scripthash : Text → Result ScanError Text
  electrum_scripthash addr = elim (address_to_scriptpubkey addr) [
    | none ↦ err bad_address
    | some spk ↦ ok (client.scripthash spk)
  ]

  unfoldable pub scan_one : Text → Result ScanError AddressSummary
  scan_one address = do
    sh ← electrum_scripthash address
    history ← client.get_history sh
    let used = not (is_empty history)
    unspent ← if used then client.list_unspent sh else ok []
    ok (summarize address used unspent)

  -- The coins of the addresses that were used.
  unfoldable pub fetch_used : List (ℕ × Text) → Result ScanError (List (ℕ × List Unspent))
  fetch_used [] = ok []
  fetch_used (u ∷ used) = do
    res ← client.batch_unspent (map (λ p. p.1) (u ∷ used))
    refuse_if (not (length res == length (u ∷ used))) wrong_number
    gather (u ∷ used) res

  unfoldable pub scan_batched : List Text → Result ScanError (List AddressSummary)
  scan_batched addresses = do
    shs ← for_each electrum_scripthash addresses
    hist ← client.batch_history shs
    refuse_if (not (length hist == length shs)) wrong_number
    flags ← for_each flag_of hist
    table ← fetch_used (numbered 0 flags shs)
    ok (summaries 0 addresses flags table)

  -- One batch for all, or one call after the other where that fails.
  abbrev pub per_address : List Text → Result ScanError (List AddressSummary)
  per_address addresses = or_singly (scan_batched addresses) (for_each scan_one addresses)

  unfoldable pub scan_addresses : List Text → Result ScanError Scan
  scan_addresses addresses = per_address addresses >>= λ found. ok (totalled found)
