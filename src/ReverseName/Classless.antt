-- ===== src/ReverseName/Classless.antt =====
-- The names of blocks of IPv4 addresses that end within the last octet (RFC 2317).
use mathlib.Core.List.{append_assoc}
use dns_sync.Base.{
  true, false, ◌&&◌, some, List, [], ◌∷◌, ◌++◌, ℕ, ◌≤◌, ◌<◌, Str, codes, nat_beq, leb, ltb, split,
  decimal, concat_map, All, ◌≡◌, refl, ap, ◌∙◌, arith,
}
use dns_sync.Attempt.{returned}
use dns_sync.ReverseName.{
  Addr, v4, Cidr, Net, split_n, trimmed, fourth, second, classless, as_block, cidr_to_in_addr,
}
use dns_sync.ReverseName.Labels.{NoDot, dot, decimal-NoDot, split_n-dot, cidr_to_in_addr-read, zone}

split-part : (part : Str) → All NoDot part → split b'.' part ≡ part ∷ []
unfolding split
split-part [] h = refl
split-part (c ∷ part) (no_dot, h) = rw (no_dot, split-part part h) refl

split-dot :
    (part rest : Str) → All NoDot part → split b'.' (part ++ b'.' ∷ rest) ≡ part ∷ split b'.' rest
unfolding split
split-dot [] rest h = refl
split-dot (c ∷ part) rest (no_dot, h) = rw (no_dot, split-dot part rest h) refl

-- The text of four octets
abbrev pub printed_octets : ℕ → ℕ → ℕ → ℕ → Str
printed_octets w x y z =
    decimal w ++ (b'.' ∷ (decimal x ++ (b'.' ∷ (decimal y ++ (b'.' ∷ decimal z)))))

fourth-octets : (w x y z : ℕ) → fourth (split b'.' (printed_octets w x y z)) ≡ some (decimal z)
fourth-octets w x y z = ap fourth (
    split-dot (decimal w) _ (decimal-NoDot w)
    ∙ ap (λ parts. decimal w ∷ parts)
        (split-dot (decimal x) _ (decimal-NoDot x)
          ∙ ap (λ parts. decimal x ∷ parts)
              (split-dot (decimal y) _ (decimal-NoDot y)
                ∙ ap (λ parts. decimal y ∷ parts) (split-part (decimal z) (decimal-NoDot z)))))

-- The first label and the rest
first_cut :
    (part : Str) (parts : List Str) (zone : Str)
    → All NoDot part
    → second (split_n 1 (concat_map dot (part ∷ parts) ++ zone))
      ≡ some (concat_map dot parts ++ zone)
unfolding split_n
first_cut part parts zone no_dot =
    ap (λ name. second (split_n 1 name))
      (append_assoc (dot part) (concat_map dot parts) zone
        ∙ append_assoc part (codes ".") (concat_map dot parts ++ zone))
    ∙ ap second (split_n-dot 0 part (concat_map dot parts ++ zone) no_dot)

trimmed-classless :
    (net : Net) (c : Cidr) (base : Str)
    → c.total ≡ 32
    → 25 ≤ c.bits
    → c.bits < 32
    → trimmed net c base
      ≡ classless (fourth (split b'.' (net.ip_string c.network))) c.bits (second (split_n 1 base))
unfolding trimmed
trimmed-classless net c base all_bits least most = rw (no_zero, between) refl
  where
    no_zero : nat_beq c.bits 0 ≡ false
    no_zero = ground arith

    between : (nat_beq c.total 32 && (leb 25 c.bits && ltb c.bits 32)) ≡ true
    between = ground arith

-- A block of an address with so many bits
abbrev pub octet_block : Addr → ℕ → Cidr
octet_block a bits = record { address = a; network = a; bits = bits; total = 32 }

-- For a text that package net reads as a block of IPv4 addresses of 25 to 31 bits, an address that
-- package net prints as its octets with dots and reads back, the name is the fourth octet and the
-- number of bits, with a slash between them, before the name of the block of the other three octets.
pub cidr_to_in_addr-classless :
    (net : Net) (cidr : Str) (w x y z bits : ℕ)
    → 25 ≤ bits
    → bits < 32
    → net.parse_cidr (as_block net cidr (net.parse_ip cidr))
      ≡ some (octet_block (v4 (w ∷ x ∷ y ∷ z ∷ [])) bits)
    → net.parse_ip (net.ip_string (v4 (w ∷ x ∷ y ∷ z ∷ []))) ≡ some (v4 (w ∷ x ∷ y ∷ z ∷ []))
    → net.ip_string (v4 (w ∷ x ∷ y ∷ z ∷ [])) ≡ printed_octets w x y z
    → cidr_to_in_addr net cidr
      ≡ returned (
          decimal z
          ++ (codes "/"
              ++ (decimal bits
                  ++ (codes "."
                      ++ (concat_map dot (decimal y ∷ decimal x ∷ decimal w ∷ [])
                          ++ codes "in-addr.arpa")))))
cidr_to_in_addr-classless net cidr w x y z bits least most read back printed =
    cidr_to_in_addr-read net cidr (octet_block (v4 (w ∷ x ∷ y ∷ z ∷ [])) bits) read back refl
    ∙ trimmed-classless net (octet_block (v4 (w ∷ x ∷ y ∷ z ∷ [])) bits) base refl least most
    ∙ ap (λ text. classless (fourth (split b'.' text)) bits (second (split_n 1 base))) printed
    ∙ ap (λ first. classless first bits (second (split_n 1 base))) (fourth-octets w x y z)
    ∙ ap (classless (some (decimal z)) bits) (
        first_cut (decimal z) (decimal y ∷ decimal x ∷ decimal w ∷ []) (codes "in-addr.arpa")
          (decimal-NoDot z))
  where
    base : Str
    base =
        concat_map dot (decimal z ∷ decimal y ∷ decimal x ∷ decimal w ∷ []) ++ codes "in-addr.arpa"
