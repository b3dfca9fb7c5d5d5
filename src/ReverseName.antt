-- ===== src/ReverseName.antt =====
-- pkg/rfc2317/arpa.go: the name of the reverse zone of a block of addresses. Parsing and printing of
-- addresses are package net's.
pub mod Labels
pub mod Classless
use Prim.Native.Nat.{◌/◌, ◌%◌}
use dns_sync.Base.{
  Bool, true, false, ◌&&◌, ◌||◌, not, Option, none, some, List, [], ◌∷◌, ◌++◌, ℕ, zero, suc, ◌+◌,
  ◌-◌, Str, codes, ◌==◌, str_eq, nat_eq, nat_beq, reverse, ltb, leb, split, decimal, concat_map,
  map, if◌then◌else◌,
}
use dns_sync.Attempt.{Attempt, failed, returned, continue}

-- An address: the bytes that it has for the version
pub data Addr : Type 0 where
  v4 v6 : List ℕ → Addr

abbrev pub addr_beq : Addr → Addr → Bool
addr_beq (v4 a) (v4 b) = a == b
addr_beq (v6 a) (v6 b) = a == b
addr_beq _ _ = false

-- What `net.ParseCIDR` returns: the address, that of the network, the bits of the mask and how many
-- there could be
pub record Cidr : Type 0 where
  pub address : Addr
  pub network : Addr
  pub bits : ℕ
  pub total : ℕ

pub record Net : Type 0 where
  pub parse_ip : Str → Option Addr
  pub ip_string : Addr → Str
  pub parse_cidr : Str → Option Cidr

pub data NameError : Type 0 where
  not_cidr unrecognized_address bits_beyond_mask no_bits not_octets not_nibbles not_ip panic :
      NameError

-- `hexDigit`
abbrev pub hex_digit : ℕ → ℕ
hex_digit n = if ltb n 10 then b'0' + n else b'a' + (n - 10)

-- `reverseaddr`, on the bytes
abbrev pub dotted : ℕ → Str
dotted b = decimal b ++ codes "."

abbrev pub nibbles : ℕ → Str
nibbles b = hex_digit (b % 16) ∷ b'.' ∷ hex_digit (b / 16) ∷ b'.' ∷ []

abbrev pub arpa : Addr → Str
arpa (v4 bytes) = concat_map dotted (reverse bytes) ++ codes "in-addr.arpa."
arpa (v6 bytes) = concat_map nibbles (reverse bytes) ++ codes "ip6.arpa."

abbrev pub arpa_of : Option Addr → Attempt NameError Str
arpa_of none = failed unrecognized_address
arpa_of (some a) = returned (arpa a)

unfoldable pub reverseaddr : Net → Str → Attempt NameError Str
reverseaddr net addr = arpa_of (net.parse_ip addr)

-- `strings.TrimRight(s, ".")`
abbrev pub drop_dots : Str → Str
drop_dots [] = []
drop_dots (c ∷ cs) = let rest = drop_dots cs in if nat_beq c b'.' then rest else c ∷ cs

unfoldable pub trim_dots : Str → Str
trim_dots s = reverse (drop_dots (reverse s))

-- `strings.SplitN(s, ".", n)`, by the number of cuts, n less one
abbrev pub add_byte : ℕ → List Str → List Str
add_byte c [] = []
add_byte c (part ∷ parts) = (c ∷ part) ∷ parts

unfoldable pub split_n : ℕ → Str → List Str
split_n zero s = s ∷ []
split_n (suc cuts) [] = [] ∷ []
split_n (suc cuts) (c ∷ s) =
    let after = split_n cuts s in
    let more = split_n (suc cuts) s in if nat_beq c b'.' then [] ∷ after else add_byte c more

-- The last part
abbrev pub last_from : Str → List Str → Str
last_from part [] = part
last_from part (next ∷ parts) = last_from next parts

abbrev pub last_of : List Str → Str
last_of [] = []
last_of (part ∷ parts) = last_from part parts

-- The name of a block that ends between the octets of an address: its fourth octet, the length of
-- the mask, and the name of the octets before
abbrev pub fourth : List Str → Option Str
fourth (a ∷ b ∷ c ∷ d ∷ rest) = some d
fourth _ = none

abbrev pub second : List Str → Option Str
second (a ∷ b ∷ rest) = some b
second _ = none

abbrev pub classless : Option Str → ℕ → Option Str → Attempt NameError Str
classless (some first) bits (some rest) =
    returned (first ++ (codes "/" ++ (decimal bits ++ (codes "." ++ rest))))
classless _ bits _ = failed panic

-- After the checks, with the name of the address
unfoldable pub trimmed : Net → Cidr → Str → Attempt NameError Str
trimmed net c base =
    if nat_beq c.bits 0
    then failed no_bits
    else if nat_beq c.total 32 && (leb 25 c.bits && ltb c.bits 32)
    then classless (fourth (split b'.' (net.ip_string c.network))) c.bits (second (split_n 1 base))
    else if nat_beq c.total 32
    then (if nat_beq (c.bits % 8) 0
        then returned (last_of (split_n ((c.total - c.bits) / 8) base))
        else failed not_octets)
    else if nat_beq c.total 128
    then (if nat_beq (c.bits % 4) 0
        then returned (last_of (split_n ((c.total - c.bits) / 4) base))
        else failed not_nibbles)
    else failed not_ip

abbrev pub name_of : Net → Option Cidr → Attempt NameError Str
name_of net none = failed not_cidr
name_of net (some c) = continue (reverseaddr net (net.ip_string c.address)) (λ name.
    if addr_beq c.address c.network
    then trimmed net c (trim_dots name)
    else failed bits_beyond_mask)

-- An address alone as a block
abbrev pub as_block : Net → Str → Option Addr → Str
as_block net cidr none = cidr
as_block net cidr (some (v4 bytes)) = net.ip_string (v4 bytes) ++ codes "/32"
as_block net cidr (some (v6 bytes)) = cidr ++ codes "/128"

-- `CidrToInAddr`
unfoldable pub cidr_to_in_addr : Net → Str → Attempt NameError Str
cidr_to_in_addr net cidr = name_of net (net.parse_cidr (as_block net cidr (net.parse_ip cidr)))
