-- ===== src/Tests/Send.antt =====
-- The recipient and the coins of a send, at concrete inputs.
use si_lnt.Prelude.{
  ◌↔◌, ◌≡◌, refl, ℕ, Bool, true, false, none, some, List, [], ◌∷◌, is_empty, ok, err,
}
use si_lnt.Prelude.Text.{Text, codes, strip, lower}
use si_lnt.Chains.{
  bech32_family, address_chain_family, wallet_chain_family, accepts, recipient_chain_mismatch,
}
use si_lnt.Send.{
  Alert, alerts_after, Dns, DnsReply, Request, tampered, not_signed, no_domain,
  query_txt_with_dnssec, domain_resolves, bip353_resolve, get_issued_bitmail_sp_address,
  require_recipient_network, is_tampered, resolve_bitmail, resolve_recipient,
}
use si_lnt.Coins.{Coin, unspent}
use si_lnt.Send.Coins.{
  is_ok, get_eligible_utxos, validate_spendable_utxos, validate_spendable_utxos_iff, AreFree,
}

abbrev signed : DnsReply
signed = record {
  texts = some (codes "bitcoin:?sp=sp1qqw508d6q" ∷ []);
  authentic = true;
  rcode = 0;
}

-- The first answer comes over UDP.
abbrev answering : DnsReply → Dns
answering r = record {
  readable = λ name. true;
  tcp = λ server name type. none;
  udp = λ server name type. some r;
}

abbrev issued : Text → Request
issued address = record {
  final_username = some (codes "Alice");
  sp_address = some address;
  approved = true;
  processed_at = some 7;
}

abbrev bitmail : Text
bitmail = codes " alice@pay.me "

abbrev forged : Alert
forged = record {
  user = codes "alice";
  domain = codes "pay.me";
  resolved_sp = codes "sp1qqw508d6q";
  expected_sp = some (codes "sp1other");
}

not_the_issued_one :
    resolve_recipient
      (answering signed)
      (some (codes "pay.me"))
      (issued (codes "sp1other") ∷ [])
      bitmail
      (codes "mainnet")
    ≡ err (tampered forged)
unfolding resolve_recipient resolve_bitmail require_recipient_network bip353_resolve is_tampered
    query_txt_with_dnssec domain_resolves get_issued_bitmail_sp_address recipient_chain_mismatch
    address_chain_family wallet_chain_family bech32_family accepts strip lower
not_the_issued_one = refl

forged_is_told : alerts_after true (err (tampered forged)) [] ≡ forged ∷ []
forged_is_told = refl

unsigned_record :
    resolve_recipient
      (answering (record signed { authentic = false }))
      none
      []
      bitmail
      (codes "mainnet")
    ≡ err not_signed
unfolding resolve_recipient resolve_bitmail require_recipient_network bip353_resolve
    query_txt_with_dnssec recipient_chain_mismatch strip
unsigned_record = refl

unknown_domain :
    resolve_recipient
      (answering (record signed { texts = some []; rcode = 3 }))
      none
      []
      bitmail
      (codes "mainnet")
    ≡ err no_domain
unfolding resolve_recipient resolve_bitmail require_recipient_network bip353_resolve
    query_txt_with_dnssec domain_resolves recipient_chain_mismatch strip
unknown_domain = refl

abbrev coin : Text → Bool → Coin
coin tx frozen = record {
  wallet_id = codes "w";
  txid = tx;
  vout = 1;
  amount = 5000;
  pub_key = codes "02";
  state = unspent;
  timestamp = 0;
  label = none;
  label_index = none;
  frozen = frozen;
  freeze_reason = none;
  suspected_dust = false;
  spent_in_txid = none;
  spent_at = none;
}

abbrev asked : List (Text × ℕ)
asked = (codes "aa", 1) ∷ (codes "bb", 1) ∷ []

abbrev coins : List Coin
coins = coin (codes "aa") false ∷ coin (codes "bb") true ∷ []

spendable :
    validate_spendable_utxos coins (codes "w") ((codes "aa", 1) ∷ []) false
    ≡ ok (coin (codes "aa") false ∷ [])
unfolding validate_spendable_utxos get_eligible_utxos
spendable = refl

validate_spendable_utxos_iff_example :
    (is_ok (validate_spendable_utxos coins (codes "w") asked true) ≡ true)
    ↔ ((is_empty asked ≡ false) × AreFree coins (codes "w") asked)
validate_spendable_utxos_iff_example = validate_spendable_utxos_iff coins (codes "w") asked true
