-- ===== src/Targets.antt =====
-- The Targets type of endpoint/endpoint.go: ordering and comparison of target lists. Parsing and
-- printing IP addresses is package net/netip's, an interface here.
use dns_sync.Base.{
  ℕ, Bool, true, false, ◌&&◌, ◌||◌, Option, none, some, List, [], ◌∷◌, Str, ltb, ◌==◌, str_eq,
  str_ltb, to_lower, sort_by, if◌then◌else◌, nat_eq,
}

-- A valid netip.Addr: its width, its bits as a number, and the zone of a scoped IPv6 address.
pub record Addr : Type 0 where
  pub bit_len : ℕ
  pub bits : ℕ
  pub zone : Str

-- netip.ParseAddr, with `none` for an error, and Addr.String
pub record NetIp : Type 0 where
  pub parse_addr : Str → Option Addr
  pub show_addr : Addr → Str

-- Addr.Less: the width first, then the bits, then the zone
unfoldable pub addr_less : Addr → Addr → Bool
unfolding str_ltb
addr_less a b =
    if a.bit_len == b.bit_len
    then ltb a.bits b.bits || (a.bits == b.bits && str_ltb a.zone b.zone)
    else ltb a.bit_len b.bit_len

-- strings.EqualFold, over ASCII
unfoldable pub equal_fold : Str → Str → Bool
unfolding to_lower
equal_fold s t = to_lower s == to_lower t

module _ (net : NetIp) where
  open net use {parse_addr, show_addr}

  -- `t.Less(i, j)`, on the two items
  unfoldable pub target_less : Str → Str → Bool
  unfolding str_ltb
  target_less a b = elim (parse_addr a) [
    | none ↦ str_ltb a b
    | some x ↦ elim (parse_addr b) [
      | none ↦ str_ltb a b
      | some y ↦ str_ltb (show_addr x) (show_addr y)
    ]
  ]

  -- sort.Sort and sort.Stable on a Targets value
  unfoldable pub sort_targets : List Str → List Str
  unfolding sort_by target_less
  sort_targets ts = sort_by target_less ts

  -- Two texts that differ: the same if both are addresses that print alike
  unfoldable pub same_addr : Str → Str → Bool
  same_addr a b = elim (parse_addr a) [
    | none ↦ false
    | some x ↦ elim (parse_addr b) [ none ↦ false | some y ↦ show_addr x == show_addr y ]
  ]

  -- The loop of `Same`, over two sorted lists of one length. It ends at the first pair whose texts
  -- differ, with what the addresses say.
  unfoldable pub same_sorted : List Str → List Str → Bool
  unfolding equal_fold same_addr
  same_sorted [] o = true
  same_sorted (a ∷ t) [] = true
  same_sorted (a ∷ t) (b ∷ o) =
      let rest = same_sorted t o in if equal_fold a b then rest else same_addr a b

  -- The switch of `IsLess`, on the first pair of items that differ.
  unfoldable pub less_differing : Str → Str → Bool
  unfolding addr_less str_ltb
  less_differing a b = elim (parse_addr a) [
    | none ↦ elim (parse_addr b) [ none ↦ str_ltb a b | some y ↦ false ]
    | some x ↦ elim (parse_addr b) [ none ↦ true | some y ↦ addr_less x y ]
  ]

  -- The loop of `IsLess`, over two sorted lists of one length.
  unfoldable pub is_less_sorted : List Str → List Str → Bool
  unfolding less_differing
  is_less_sorted [] o = false
  is_less_sorted (a ∷ t) [] = false
  is_less_sorted (a ∷ t) (b ∷ o) =
      let rest = is_less_sorted t o in if a == b then rest else less_differing a b
