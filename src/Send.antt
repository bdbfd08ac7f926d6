-- ===== src/Send.antt =====
-- helpers/send_guards.py (`require_recipient_network`, `resolve_recipient`),
-- helpers/address_resolver.py and crud.py (`get_issued_bitmail_sp_address`): who a send goes to.
-- The DNS library is a parameter.
pub mod Resolved
pub mod Coins
use si_lnt.Prelude.{
  ℕ, suc, zero, Bool, true, false, not, ◌&&◌, ◌||◌, Option, none, some, List, [], ◌∷◌, ◌++◌, keep,
  is_empty, length, ltb, ◌-◌, ◌==◌, if◌then◌else◌, Result, ok, err, ◌>>=◌, ◌>>◌, refuse_if,
}
use si_lnt.Prelude.Text.{Text, codes, strip, lower, starts_with, text_eq, has_char}
use si_lnt.Chains.{Mismatch, recipient_chain_mismatch}

-- `s.partition(c)`: what stands before the first `c`, and behind it.
abbrev pub partition : ℕ → Text → Text × Text
partition c [] = ([], [])
partition c (d ∷ s) = let rest = partition c s in if d == c then ([], s) else (d ∷ rest.0, rest.1)

-- `s.replace(pattern, "")`, from the left, where the first `skip` characters are of a match.
abbrev pub without : Text → ℕ → Text → Text
without pattern skip [] = []
without pattern (suc skip) (c ∷ s) = without pattern skip s
without pattern zero (c ∷ s) =
    let past = without pattern (length pattern - 1) s in
    let on = without pattern 0 s in if starts_with (c ∷ s) pattern then past else c ∷ on

-- What a name server answers: the texts, `none` where one does not decode; the AD flag; the RCODE.
pub record DnsReply : Type 0 where
  pub texts : Option (List Text)
  pub authentic : Bool
  pub rcode : ℕ

pub data RdType : Type 0 where
  txt soa a : RdType

-- The DNS library: the names it can read, and a query, which is `none` where it raises.
pub record Dns : Type 0 where
  pub readable : Text → Bool
  pub tcp : Text → Text → RdType → Option DnsReply
  pub udp : Text → Text → RdType → Option DnsReply

abbrev pub dnssec_resolvers : List Text
dnssec_resolvers = codes "1.1.1.1" ∷ codes "8.8.8.8" ∷ codes "9.9.9.9" ∷ []

pub data Lookup : Type 0 where
  found : List Text → Bool → Lookup
  nothing_there lookup_failed : Lookup

abbrev pub or_udp : Option DnsReply → Option DnsReply → Option DnsReply
or_udp (some r) udp = some r
or_udp none udp = udp

-- One turn of the loop over the resolvers; `next` is what the others give.
abbrev pub judged : Option DnsReply → Lookup → Lookup
judged none next = next
judged (some r) next = elim r.texts [
  | none ↦ next
  | some texts ↦
      if not (is_empty texts)
      then found texts r.authentic
      else if r.rcode == 3 || r.rcode == 0
      then nothing_there
      else next
]

abbrev pub ask : Dns → Text → List Text → Lookup
ask dns qname [] = lookup_failed
ask dns qname (server ∷ servers) =
    judged (or_udp (dns.tcp server qname txt) (dns.udp server qname txt)) (ask dns qname servers)

unfoldable pub query_txt_with_dnssec : Dns → Text → Lookup
query_txt_with_dnssec dns qname =
    let answer = ask dns qname dnssec_resolvers in
    if dns.readable qname then answer else lookup_failed

abbrev pub exists_by : Option DnsReply → Bool
exists_by none = true
exists_by (some r) = not (r.rcode == 3)

unfoldable pub domain_resolves : Dns → Text → Bool
domain_resolves dns domain =
    not (dns.readable domain)
    || exists_by (dns.udp (codes "1.1.1.1") domain soa)
    || exists_by (dns.udp (codes "1.1.1.1") domain a)

-- What the administrators are told of a BitMail that names another address than the issued one.
pub record Alert : Type 0 where
  pub user : Text
  pub domain : Text
  pub resolved_sp : Text
  pub expected_sp : Option Text

-- The refusals of a send's recipient.
pub data SendError : Type 0 where
  wrong_chain : Mismatch → SendError
  not_bitmail not_signed malformed no_domain no_bitmail lookup_down not_silent_payment : SendError
  tampered : Alert → SendError

abbrev pub unpublished : Dns → Text → SendError
unpublished dns domain = if domain_resolves dns domain then no_bitmail else no_domain

abbrev pub published : Dns → Text → Lookup → Result SendError Text
published dns domain lookup_failed = err lookup_down
published dns domain nothing_there = err (unpublished dns domain)
published dns domain (found [] authentic) = err (unpublished dns domain)
published dns domain (found (r ∷ records) authentic) = do
  refuse_if (not authentic) not_signed
  refuse_if (not (starts_with r (codes "bitcoin:"))) malformed
  ok r

-- The record that a BitMail has published.
unfoldable pub bip353_resolve : Dns → Text → Result SendError Text
bip353_resolve dns address =
    let (user, domain) = partition b'@' (strip address) in
    refuse_if (is_empty user || is_empty domain || has_char b'@' domain) not_bitmail
    >> published dns domain
        (query_txt_with_dnssec dns (user ++ codes ".user._bitcoin-payment." ++ domain))

-- A row of silnt.bip353_requests.
pub record Request : Type 0 where
  pub final_username : Option Text
  pub sp_address : Option Text
  pub approved : Bool
  pub processed_at : Option ℕ

abbrev pub is_named : Text → Option Text → Bool
is_named user none = false
is_named user (some name) = text_eq (lower name) (lower user)

-- `processed_at DESC NULLS LAST`
abbrev pub is_after : Option ℕ → Option ℕ → Bool
is_after none other = false
is_after (some t) none = true
is_after (some t) (some u) = ltb u t

abbrev pub latest : List Request → Option Request
latest [] = none
latest (r ∷ rs) = elim (latest rs) [
  | none ↦ some r
  | some s ↦ if is_after s.processed_at r.processed_at then some s else some r
]

abbrev pub address_of : Option Request → Option Text
address_of none = none
address_of (some r) = r.sp_address

unfoldable pub get_issued_bitmail_sp_address : List Request → Text → Option Text
get_issued_bitmail_sp_address requests username =
    address_of (latest (keep (λ r. is_named username r.final_username && r.approved) requests))

unfoldable pub require_recipient_network : Text → Text → Result SendError (Unit {0})
require_recipient_network recipient network = elim (recipient_chain_mismatch recipient network) [
  | none ↦ ok tt
  | some problem ↦ err (wrong_chain problem)
]

-- The configured domain; `none` where the configuration cannot be read.
abbrev pub our_domain : Option Text → Text
our_domain none = []
our_domain (some domain) = lower (strip domain)

-- Whether an address was issued for the name, and is not the one that was resolved.
abbrev pub is_other : Option Text → Text → Bool
is_other none result = false
is_other (some expected) result =
    not (is_empty expected) && not (text_eq (lower (strip expected)) (lower (strip result)))

unfoldable pub is_tampered : Option Text → List Request → Text → Text → Text → Bool
is_tampered config requests user domain result =
    let ours = our_domain config in
    not (is_empty ours)
    && text_eq (lower (strip domain)) ours
    && is_other (get_issued_bitmail_sp_address requests (strip user)) result

-- The address behind a BitMail of `user` at `domain`.
unfoldable pub resolve_bitmail :
    Dns → Option Text → List Request → Text → Text → Text → Text → Result SendError Text
resolve_bitmail dns config requests recipient user domain network = do
  record_text ← bip353_resolve dns recipient
  let result = without (codes "bitcoin:?sp=") 0 record_text
  refuse_if (not (starts_with result (codes "sp1")) && not (starts_with result (codes "tsp1")))
      not_silent_payment
  refuse_if (is_tampered config requests user domain result) (
      tampered (record {
        user = user;
        domain = domain;
        resolved_sp = result;
        expected_sp = get_issued_bitmail_sp_address requests (strip user);
      }))
  require_recipient_network result network
  ok result

unfoldable pub resolve_recipient :
    Dns → Option Text → List Request → Text → Text → Result SendError Text
resolve_recipient dns config requests recipient network =
    let r = strip recipient in
    let (user, domain) = partition b'@' r in
    require_recipient_network r network
    >> (if not (has_char b'@' r) || is_empty user || is_empty domain
        then ok r
        else resolve_bitmail dns config requests r user domain network)

-- The alert is stored before the refusal is raised, unless that fails.
abbrev pub alerts_after : Bool → Result SendError Text → List Alert → List Alert
alerts_after stored (err (tampered alert)) alerts = if stored then alert ∷ alerts else alerts
alerts_after stored _ alerts = alerts
