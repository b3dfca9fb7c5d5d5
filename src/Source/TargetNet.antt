-- ===== src/Source/TargetNet.antt =====
-- endpoint/target_filter.go: the filter of targets by networks. Parsing is package net's; a network
-- is its test on the address that `net.ParseIP` returns, or on nil.
use dns_sync.Base.{
  Bool, true, false, ◌&&◌, not, Option, none, some, List, [], ◌∷◌, ◌++◌, Str, any, trim_space,
  if◌then◌else◌,
}
use dns_sync.Source.{is_empty}

abbrev pub IpNet : Type 0 → Type 0
IpNet A = Option A → Bool

-- `TargetNetFilter`
pub record TargetNetFilter (A : Type 0) : Type 0 where
  pub filter_nets : List (IpNet A)
  pub exclude_nets : List (IpNet A)

-- `prepareTargetFilters`
abbrev pub parsed : {A : Type 0} → Option (IpNet A) → List (IpNet A)
parsed none = []
parsed (some net) = net ∷ []

unfoldable pub prepare_target_filters :
    {A : Type 0} → (Str → Option (IpNet A)) → List Str → List (IpNet A)
prepare_target_filters parse_cidr [] = []
prepare_target_filters parse_cidr (filter ∷ filters) =
    parsed (parse_cidr (trim_space filter)) ++ prepare_target_filters parse_cidr filters

-- `NewTargetNetFilterWithExclusions`
unfoldable pub new_target_net_filter_with_exclusions :
    {A : Type 0} → (Str → Option (IpNet A)) → List Str → List Str → TargetNetFilter A
new_target_net_filter_with_exclusions parse_cidr target_filter_nets exclude_nets = record {
  filter_nets = prepare_target_filters parse_cidr target_filter_nets;
  exclude_nets = prepare_target_filters parse_cidr exclude_nets;
}

-- `matchTargetNetFilter`
unfoldable pub match_target_net_filter : {A : Type 0} → Option A → List (IpNet A) → Bool → Bool
match_target_net_filter ip filters emptyval =
    if is_empty filters then emptyval else any (λ filter. filter ip) filters

-- `TargetNetFilter.Match`
unfoldable pub net_match : {A : Type 0} → (Str → Option A) → TargetNetFilter A → Str → Bool
net_match parse_ip tf target =
    if is_empty tf.filter_nets && is_empty tf.exclude_nets
    then true
    else match_target_net_filter (parse_ip target) tf.filter_nets true
      && not (match_target_net_filter (parse_ip target) tf.exclude_nets false)
