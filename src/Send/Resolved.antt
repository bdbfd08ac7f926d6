-- ===== src/Send/Resolved.antt =====
-- Where the recipient of a send has been resolved.
use si_lnt.Prelude.{
  ◌≡◌, Bool, true, false, not, ◌&&◌, ◌||◌, ◌++◌, Option, none, some, List, ◌∷◌, any, is_empty, ◌⊎◌,
}
use si_lnt.Prelude.Text.{Text, codes, strip, lower, starts_with, text_eq}
use si_lnt.Send.{
  Dns, DnsReply, txt, dnssec_resolvers, or_udp, Request, without, get_issued_bitmail_sp_address,
}

-- What a resolver said: one of the three, over TCP or else over UDP.
pub record IsAnswer (dns : Dns) (qname : Text) (texts : List Text) (authentic : Bool) : Type 0 where
  server : Text
  reply : DnsReply
  asked : any (text_eq server) dnssec_resolvers ≡ true
  said : or_udp (dns.tcp server qname txt) (dns.udp server qname txt) ≡ some reply
  read : reply.texts ≡ some texts
  checked : reply.authentic ≡ authentic

-- What a BitMail stands for: the first text of an answer that the resolver has checked, which is a
-- payment instruction, without its prefix; it begins as a Silent Payment address does.
pub record IsBitmailOf (dns : Dns) (user domain result : Text) : Type 0 where
  record_text : Text
  more : List Text
  signed :
      IsAnswer dns (user ++ codes ".user._bitcoin-payment." ++ domain) (record_text ∷ more) true
  instruction : starts_with record_text (codes "bitcoin:") ≡ true
  named : result ≡ without (codes "bitcoin:?sp=") 0 record_text
  silent : (starts_with result (codes "sp1") || starts_with result (codes "tsp1")) ≡ true

-- Whether a domain is the configured one.
abbrev pub is_ours : Option Text → Text → Bool
is_ours none domain = false
is_ours (some ours) domain =
    not (is_empty (lower (strip ours))) && text_eq (lower (strip domain)) (lower (strip ours))

-- The address is the one that was issued, if one was.
abbrev pub Agrees : Option Text → Text → Type 0
Agrees none result = Unit {0}
Agrees (some expected) result =
    (is_empty expected ≡ true) ⊎ (lower (strip result) ≡ lower (strip expected))

-- A BitMail of the configured domain stands for the address that was issued for its name.
abbrev pub IsIssued : Option Text → List Request → Text → Text → Text → Type 0
IsIssued config requests user domain result =
    (is_ours config domain ≡ false)
    ⊎ Agrees (get_issued_bitmail_sp_address requests (strip user)) result
