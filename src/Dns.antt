-- ===== src/Dns.antt =====
-- 01-bits-and-bytes/exercises/ex3-bitfield-packing/dns.c and dns.h. dns_pack and dns_unpack are
-- placeholders in the source, and are so here.
use syseng.Base.{ℕ, List, [], ◌∷◌, codes, if◌then◌else◌}
use syseng.Base.Int.{ℤ, pos, eqb_ℤ}

record DnsHeader : Type 0 where
  id : ℕ
  qr : ℤ
  opcode : ℤ
  aa : ℤ
  tc : ℤ
  rd : ℤ
  ra : ℤ
  z : ℤ
  rcode : ℤ
  qdcount : ℕ
  ancount : ℕ
  nscount : ℕ
  arcount : ℕ

-- The twelve bytes behind `out`, after the call.
unfoldable dns_pack : DnsHeader → List ℕ → List ℕ
dns_pack hdr out = out

-- The header behind `hdr`, after the call.
unfoldable dns_unpack : List ℕ → DnsHeader → DnsHeader
dns_unpack bytes hdr = hdr

-- What one conversion of printf() is given: %04X, %d, %d with a word behind it, or %u.
data Field : Type 0 where
  hex : ℕ → Field
  signed : ℤ → Field
  worded : ℤ → List ℕ → Field
  unsigned : ℕ → Field

-- The fields printed, each with its name.
unfoldable dns_print : DnsHeader → List (List ℕ × Field)
dns_print hdr =
    (codes "ID", hex hdr.id)
    ∷ (codes "QR", worded hdr.qr (if eqb_ℤ hdr.qr (pos 0) then codes "query" else codes "response"))
    ∷ (codes "Opcode", signed hdr.opcode)
    ∷ (codes "AA", signed hdr.aa)
    ∷ (codes "TC", signed hdr.tc)
    ∷ (codes "RD", signed hdr.rd)
    ∷ (codes "RA", signed hdr.ra)
    ∷ (codes "Z", signed hdr.z)
    ∷ (codes "RCODE", signed hdr.rcode)
    ∷ (codes "QDCOUNT", unsigned hdr.qdcount)
    ∷ (codes "ANCOUNT", unsigned hdr.ancount)
    ∷ (codes "NSCOUNT", unsigned hdr.nscount)
    ∷ (codes "ARCOUNT", unsigned hdr.arcount)
    ∷ []
