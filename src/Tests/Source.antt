-- ===== src/Tests/Source.antt =====
-- Sources and provider helpers on small inputs.
use dns_sync.Base.{
  ◌≡◌, ◌≤◌, refl, true, Bool, none, some, Option, List, [], ◌∷◌, Str, codes, ◌==◌, str_eq, split,
  pos, if◌then◌else◌, keep, All, Memᴰ, ◌⊎◌, length,
}
use dns_sync.Endpoint.{record_type_a, record_type_aaaa, record_type_cname}
use dns_sync.Source.{Ip, ipv4, ipv6, endpoints_for_hostname, dedup_endpoints, filter_targets}
use dns_sync.Source.Targets.{targets_of, suited, endpoints_for_hostname-targets}
use dns_sync.Source.Filter.{is_address, filter_targets-targets}
use dns_sync.Source.Dedup.{IsDeduplicated, dedup_endpoints-IsDeduplicated}
use dns_sync.Provider.Helpers.{find_zone, in_zone, difference}
use dns_sync.Provider.Helpers.Zone.{find_zone_lem}
use dns_sync.Provider.Helpers.Diff.{IsDifference, difference-IsDifference}
use dns_sync.Tests.Planner.{record_of, owned}

abbrev pub parse_sample : Str → Option Ip
parse_sample s =
    if s == codes "1.1.1.1" then some ipv4 else if s == codes "::1" then some ipv6 else none

abbrev sample_targets : List Str
sample_targets = codes "::1" ∷ codes "x.org." ∷ codes "1.1.1.1" ∷ []

endpoints_for_hostname-targets_example :
    (targets_of record_type_a
        (endpoints_for_hostname parse_sample (codes "a.b") sample_targets (pos 0) [] [] [])
      ≡ suited parse_sample record_type_a sample_targets)
    × (targets_of record_type_aaaa
          (endpoints_for_hostname parse_sample (codes "a.b") sample_targets (pos 0) [] [] [])
        ≡ suited parse_sample record_type_aaaa sample_targets)
    × (targets_of record_type_cname
          (endpoints_for_hostname parse_sample (codes "a.b") sample_targets (pos 0) [] [] [])
        ≡ suited parse_sample record_type_cname sample_targets)
unfolding split
endpoints_for_hostname-targets_example =
    endpoints_for_hostname-targets parse_sample (codes "a.b") sample_targets (pos 0) [] [] [] refl

abbrev not_x : Str → Bool
not_x s = s == codes "1.1.1.1"

filter_targets-targets_example :
    targets_of record_type_a (
      filter_targets not_x (
        record_of (codes "a") record_type_a (codes "1.1.1.1") none
        ∷ record_of (codes "b") record_type_a (codes "2.2.2.2") none
        ∷ []))
    ≡ (if is_address record_type_a
        then keep not_x (
            targets_of record_type_a (
              record_of (codes "a") record_type_a (codes "1.1.1.1") none
              ∷ record_of (codes "b") record_type_a (codes "2.2.2.2") none
              ∷ []))
        else targets_of record_type_a (
            record_of (codes "a") record_type_a (codes "1.1.1.1") none
            ∷ record_of (codes "b") record_type_a (codes "2.2.2.2") none
            ∷ []))
filter_targets-targets_example = filter_targets-targets not_x record_type_a (
    record_of (codes "a") record_type_a (codes "1.1.1.1") none
    ∷ record_of (codes "b") record_type_a (codes "2.2.2.2") none
    ∷ [])

dedup_endpoints-IsDeduplicated_example :
    IsDeduplicated
      (record_of (codes "a") record_type_a (codes "1.1.1.1") none
        ∷ record_of (codes "a") record_type_a (codes "1.1.1.1") owned
        ∷ [])
      (dedup_endpoints (
        record_of (codes "a") record_type_a (codes "1.1.1.1") none
        ∷ record_of (codes "a") record_type_a (codes "1.1.1.1") owned
        ∷ []))
dedup_endpoints-IsDeduplicated_example = dedup_endpoints-IsDeduplicated (
    record_of (codes "a") record_type_a (codes "1.1.1.1") none
    ∷ record_of (codes "a") record_type_a (codes "1.1.1.1") owned
    ∷ [])

abbrev sample_zones : List (Str × Str)
sample_zones = (codes "1", codes "org") ∷ (codes "2", codes "a.org") ∷ []

find_zone_lem_example :
    ((find_zone sample_zones (codes "x.a.org") ≡ ([], []))
      ⊎ (Memᴰ (find_zone sample_zones (codes "x.a.org")) sample_zones
          × (in_zone (codes "x.a.org") (find_zone sample_zones (codes "x.a.org")).1 ≡ true)))
    × All
        (λ z.
          in_zone (codes "x.a.org") z.1 ≡ true
          → length z.1 ≤ length (find_zone sample_zones (codes "x.a.org")).1)
        sample_zones
find_zone_lem_example = find_zone_lem sample_zones (codes "x.a.org")

difference-IsDifference_example :
    IsDifference
      (codes "a" ∷ codes "b" ∷ [])
      (codes "b" ∷ codes "c" ∷ [])
      (difference (codes "a" ∷ codes "b" ∷ []) (codes "b" ∷ codes "c" ∷ []))
difference-IsDifference_example =
    difference-IsDifference (codes "a" ∷ codes "b" ∷ []) (codes "b" ∷ codes "c" ∷ [])
