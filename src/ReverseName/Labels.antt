-- ===== src/ReverseName/Labels.antt =====
-- The names of blocks that end between the labels of an address: octets of IPv4, nibbles of IPv6.
use Prim.Native.Nat.{◌/◌, ◌%◌, ◌*◌}
use mathlib.Core.List.{append_assoc, reverse-append, reverse-reverse}
use dns_sync.Base.{
  true, false, ◌&&◌, some, List, [], ◌∷◌, ◌++◌, ℕ, suc, ◌+◌, ◌-◌, ◌≤◌, Str, codes, str_eq, nat_beq,
  reverse, leb, ltb, beq_refl, decimal, concat_map, concat_map-append, map, length, All, All-map,
  IsDigit, decimal-All, ◌≡◌, refl, ap, sym, ◌∙◌, subst, arith, if◌then◌else◌,
}
use dns_sync.Attempt.{failed, returned, continue}
use dns_sync.ReverseName.{
  Addr, v4, v6, Cidr, Net, bits_beyond_mask, hex_digit, dotted, nibbles, arpa, arpa_of, reverseaddr,
  drop_dots, trim_dots, add_byte, split_n, last_from, last_of, trimmed, addr_beq, name_of, as_block,
  cidr_to_in_addr,
}

-- The labels of an address, the last one first, what each stands for in bits, how many bits there
-- are, and the zone that they are in
abbrev pub nibble_labels : ℕ → List Str
nibble_labels b = (hex_digit (b % 16) ∷ []) ∷ (hex_digit (b / 16) ∷ []) ∷ []

abbrev pub labels : Addr → List Str
labels (v4 bytes) = map decimal (reverse bytes)
labels (v6 bytes) = concat_map nibble_labels (reverse bytes)

abbrev pub unit : Addr → ℕ
unit (v4 bytes) = 8
unit (v6 bytes) = 4

abbrev pub count : Addr → ℕ
count (v4 bytes) = 4
count (v6 bytes) = 32

abbrev pub zone : Addr → Str
zone (v4 bytes) = codes "in-addr.arpa"
zone (v6 bytes) = codes "ip6.arpa"

-- Labels, each with a dot
abbrev pub dot : Str → Str
dot label = label ++ codes "."

abbrev pub NoDot : ℕ → Type 0
NoDot c = nat_beq c b'.' ≡ false

digit-NoDot : (c : ℕ) → IsDigit c → NoDot c
digit-NoDot c h = ground arith

pub decimal-NoDot : (b : ℕ) → All NoDot (decimal b)
decimal-NoDot b = All-map digit-NoDot (decimal b) (decimal-All b)

hex-NoDot : (n : ℕ) → NoDot (hex_digit n)
hex-NoDot n = ground arith

decimals-NoDot : (bytes : List ℕ) → All (All NoDot) (map decimal bytes)
decimals-NoDot [] = tt
decimals-NoDot (b ∷ bytes) = (decimal-NoDot b, decimals-NoDot bytes)

nibbles-NoDot : (bytes : List ℕ) → All (All NoDot) (concat_map nibble_labels bytes)
nibbles-NoDot [] = tt
nibbles-NoDot (b ∷ bytes) =
    ((hex-NoDot (b % 16), tt), ((hex-NoDot (b / 16), tt), nibbles-NoDot bytes))

labels-NoDot : (a : Addr) → All (All NoDot) (labels a)
labels-NoDot (v4 bytes) = decimals-NoDot (reverse bytes)
labels-NoDot (v6 bytes) = nibbles-NoDot (reverse bytes)

-- Splitting takes off labels.
pub split_n-dot :
    (cuts : ℕ) (part rest : Str)
    → All NoDot part
    → split_n (suc cuts) (part ++ b'.' ∷ rest) ≡ part ∷ split_n cuts rest
unfolding split_n
split_n-dot cuts [] rest h = refl
split_n-dot cuts (c ∷ part) rest (no_dot, h) =
    rw no_dot (ap (add_byte c) (split_n-dot cuts part rest h))

pub split_n-dots :
    (parts : List Str) (rest : Str)
    → All (All NoDot) parts
    → split_n (length parts) (concat_map dot parts ++ rest) ≡ parts ++ rest ∷ []
unfolding split_n
split_n-dots [] rest h = refl
split_n-dots (part ∷ parts) rest (no_dot, h) =
    ap (split_n (suc (length parts))) (
      append_assoc (dot part) (concat_map dot parts) rest
      ∙ append_assoc part (codes ".") (concat_map dot parts ++ rest))
    ∙ split_n-dot (length parts) part (concat_map dot parts ++ rest) no_dot
    ∙ ap (λ found. part ∷ found) (split_n-dots parts rest h)

last_from-snoc :
    (first : Str) (parts : List Str) (rest : Str) → last_from first (parts ++ rest ∷ []) ≡ rest
last_from-snoc first [] rest = refl
last_from-snoc first (part ∷ parts) rest = last_from-snoc part parts rest

last_of-snoc : (parts : List Str) (rest : Str) → last_of (parts ++ rest ∷ []) ≡ rest
last_of-snoc [] rest = refl
last_of-snoc (part ∷ parts) rest = last_from-snoc part parts rest

-- The name of an address without its last dot
trim_in_addr :
    (name : Str) → trim_dots (name ++ codes "in-addr.arpa.") ≡ name ++ codes "in-addr.arpa"
unfolding trim_dots
trim_in_addr name =
    ap (λ l. reverse (drop_dots l)) (reverse-append name (codes "in-addr.arpa."))
    ∙ sym (ap reverse (reverse-append name (codes "in-addr.arpa")))
    ∙ reverse-reverse (name ++ codes "in-addr.arpa")

trim_ip6 : (name : Str) → trim_dots (name ++ codes "ip6.arpa.") ≡ name ++ codes "ip6.arpa"
unfolding trim_dots
trim_ip6 name =
    ap (λ l. reverse (drop_dots l)) (reverse-append name (codes "ip6.arpa."))
    ∙ sym (ap reverse (reverse-append name (codes "ip6.arpa")))
    ∙ reverse-reverse (name ++ codes "ip6.arpa")

dotted-dot : (bytes : List ℕ) → concat_map dotted bytes ≡ concat_map dot (map decimal bytes)
dotted-dot [] = refl
dotted-dot (b ∷ bytes) = ap (λ name. dotted b ++ name) (dotted-dot bytes)

nibbles-dot :
    (bytes : List ℕ) → concat_map nibbles bytes ≡ concat_map dot (concat_map nibble_labels bytes)
nibbles-dot [] = refl
nibbles-dot (b ∷ bytes) = ap (λ name. nibbles b ++ name) (nibbles-dot bytes)

pub trim_dots-arpa : (a : Addr) → trim_dots (arpa a) ≡ concat_map dot (labels a) ++ zone a
trim_dots-arpa (v4 bytes) =
    trim_in_addr (concat_map dotted (reverse bytes))
    ∙ ap (λ name. name ++ codes "in-addr.arpa") (dotted-dot (reverse bytes))
trim_dots-arpa (v6 bytes) =
    trim_ip6 (concat_map nibbles (reverse bytes))
    ∙ ap (λ name. name ++ codes "ip6.arpa") (nibbles-dot (reverse bytes))

first_NoDot : (host kept : List Str) → All (All NoDot) (host ++ kept) → All (All NoDot) host
first_NoDot [] kept h = tt
first_NoDot (part ∷ host) kept (no_dot, h) = (no_dot, first_NoDot host kept h)

-- The name without the labels of a host
labels_left :
    (a : Addr) (host kept : List Str)
    → labels a ≡ host ++ kept
    → last_of (split_n (length host) (concat_map dot (labels a) ++ zone a))
      ≡ concat_map dot kept ++ zone a
labels_left a host kept e =
    ap (λ parts. last_of (split_n (length host) (concat_map dot parts ++ zone a))) e
    ∙ ap (λ name. last_of (split_n (length host) (name ++ zone a)))
        (concat_map-append dot host kept)
    ∙ ap (λ name. last_of (split_n (length host) name))
        (append_assoc (concat_map dot host) (concat_map dot kept) (zone a))
    ∙ ap last_of (
        split_n-dots host (concat_map dot kept ++ zone a)
          (first_NoDot host kept (subst (All (All NoDot)) e (labels-NoDot a))))
    ∙ last_of-snoc host (concat_map dot kept ++ zone a)

-- A block of an address of which so many labels are the prefix
abbrev pub block : Addr → ℕ → Cidr
block a n = record { address = a; network = a; bits = unit a * n; total = unit a * count a }

trimmed-block :
    (net : Net) (a : Addr) (n m : ℕ) (base : Str)
    → m + n ≡ count a
    → 1 ≤ n
    → trimmed net (block a n) base ≡ returned (last_of (split_n m base))
unfolding trimmed
trimmed-block net (v4 bytes) n m base all_labels some_labels =
    rw (no_zero, not_between, octets, left) refl
  where
    no_zero : nat_beq (8 * n) 0 ≡ false
    no_zero = ground arith

    not_between : (leb 25 (8 * n) && ltb (8 * n) 32) ≡ false
    not_between = ground arith

    octets : nat_beq ((8 * n) % 8) 0 ≡ true
    octets = ground arith

    left : (32 - 8 * n) / 8 ≡ m
    left = omega (arith, all_labels)
trimmed-block net (v6 bytes) n m base all_labels some_labels =
    rw (no_zero, whole_nibbles, left) refl
  where
    no_zero : nat_beq (4 * n) 0 ≡ false
    no_zero = ground arith

    whole_nibbles : nat_beq ((4 * n) % 4) 0 ≡ true
    whole_nibbles = ground arith

    left : (128 - 4 * n) / 4 ≡ m
    left = omega (arith, all_labels)

addr_beq_refl : (a : Addr) → addr_beq a a ≡ true
addr_beq_refl (v4 bytes) = beq_refl bytes
addr_beq_refl (v6 bytes) = beq_refl bytes

-- What the name is when the address is read back from its text
pub cidr_to_in_addr-read :
    (net : Net) (cidr : Str) (c : Cidr)
    → net.parse_cidr (as_block net cidr (net.parse_ip cidr)) ≡ some c
    → net.parse_ip (net.ip_string c.address) ≡ some c.address
    → c.address ≡ c.network
    → cidr_to_in_addr net cidr ≡ trimmed net c (concat_map dot (labels c.address) ++ zone c.address)
unfolding cidr_to_in_addr reverseaddr
cidr_to_in_addr-read net cidr c read printed same =
    ap (name_of net) read
    ∙ ap
        (λ o. continue (arpa_of o) (λ name.
          if addr_beq c.address c.network
          then trimmed net c (trim_dots name)
          else failed bits_beyond_mask))
        printed
    ∙ ap (λ b. if b then trimmed net c (trim_dots (arpa c.address)) else failed bits_beyond_mask)
        (subst (λ n. addr_beq c.address n ≡ true) same (addr_beq_refl c.address))
    ∙ ap (trimmed net c) (trim_dots-arpa c.address)

-- The labels of an address are its octets or its nibbles, the last one first. For a text that package
-- net reads as the block of an address whose prefix is some of its labels, and the host the others,
-- an address that package net prints and reads back, the name is that of the labels of the prefix,
-- each with a dot, before the zone of addresses of the version.
pub cidr_to_in_addr-labels :
    (net : Net) (cidr : Str) (a : Addr) (host kept : List Str)
    → labels a ≡ host ++ kept
    → length host + length kept ≡ count a
    → 1 ≤ length kept
    → net.parse_cidr (as_block net cidr (net.parse_ip cidr)) ≡ some (block a (length kept))
    → net.parse_ip (net.ip_string a) ≡ some a
    → cidr_to_in_addr net cidr ≡ returned (concat_map dot kept ++ zone a)
cidr_to_in_addr-labels net cidr a host kept e all_labels some_labels read printed =
    cidr_to_in_addr-read net cidr (block a (length kept)) read printed refl
    ∙ trimmed-block net a (length kept) (length host) (concat_map dot (labels a) ++ zone a)
        all_labels some_labels
    ∙ ap returned (labels_left a host kept e)
