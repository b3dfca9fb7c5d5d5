-- ===== src/Tests/Names.antt =====
-- Reverse names, filters of targets by networks and custom resources on small inputs.
use dns_sync.Base.{
  ◌≡◌, refl, false, Bool, none, some, Option, List, [], ◌∷◌, ◌++◌, ℕ, codes, map, ◌==◌, str_eq,
  str_beq, nat_beq, concat_map, decimal, digits, if◌then◌else◌, arith,
}
use dns_sync.Attempt.{returned}
use dns_sync.Endpoint.{record_type_a}
use dns_sync.ReverseName.{v4, Net, cidr_to_in_addr}
use dns_sync.ReverseName.Labels.{block, dot, cidr_to_in_addr-labels}
use dns_sync.ReverseName.Classless.{octet_block, printed_octets, cidr_to_in_addr-classless}
use dns_sync.Source.TargetNet.{net_match, match_target_net_filter}
use dns_sync.Source.DnsEndpoint.{DnsEndpoint, crd_loop, observed}
use dns_sync.Source.DnsEndpoint.Labelled.{AreListed}
use dns_sync.Source.DnsEndpoint.Legal.{crd_loop-AreListed}
use dns_sync.Tests.Planner.{record_of}
use dns_sync.Tests.Kube.{meta_of}

-- A network package that knows one block
abbrev one_block : Net
one_block = record {
  parse_ip = λ s. if s == codes "10.20.30.0" then some (v4 (10 ∷ 20 ∷ 30 ∷ 0 ∷ [])) else none;
  ip_string = λ a. codes "10.20.30.0";
  parse_cidr = λ s. some (block (v4 (10 ∷ 20 ∷ 30 ∷ 0 ∷ [])) 3);
}

cidr_to_in_addr-labels_example :
    cidr_to_in_addr one_block (codes "10.20.30.0/24")
    ≡ returned (concat_map dot (decimal 30 ∷ decimal 20 ∷ decimal 10 ∷ []) ++ codes "in-addr.arpa")
unfolding str_beq
cidr_to_in_addr-labels_example =
    cidr_to_in_addr-labels one_block (codes "10.20.30.0/24") (v4 (10 ∷ 20 ∷ 30 ∷ 0 ∷ []))
      (decimal 0 ∷ []) (decimal 30 ∷ decimal 20 ∷ decimal 10 ∷ []) refl refl (omega arith) refl refl

-- One that knows half of it
abbrev half_block : Net
half_block = record {
  parse_ip =
      λ s. if s == printed_octets 10 20 30 0 then some (v4 (10 ∷ 20 ∷ 30 ∷ 0 ∷ [])) else none;
  ip_string = λ a. printed_octets 10 20 30 0;
  parse_cidr = λ s. some (octet_block (v4 (10 ∷ 20 ∷ 30 ∷ 0 ∷ [])) 25);
}

cidr_to_in_addr-classless_example :
    cidr_to_in_addr half_block (codes "10.20.30.0/25")
    ≡ returned (
        decimal 0
        ++ (codes "/"
            ++ (decimal 25
                ++ (codes "."
                    ++ (concat_map dot (decimal 30 ∷ decimal 20 ∷ decimal 10 ∷ [])
                        ++ codes "in-addr.arpa")))))
unfolding str_beq decimal digits
cidr_to_in_addr-classless_example =
    cidr_to_in_addr-classless half_block (codes "10.20.30.0/25") 10 20 30 0 25 (omega arith)
      (omega arith) refl refl refl

reverse_name_example :
    concat_map dot (decimal 30 ∷ decimal 20 ∷ decimal 10 ∷ []) ++ codes "in-addr.arpa"
    ≡ codes "30.20.10.in-addr.arpa"
unfolding decimal digits
reverse_name_example = refl

abbrev only_two : Option ℕ → Bool
only_two none = false
only_two (some n) = nat_beq n 2

net_match_example :
    net_match (λ s. some 2) (record { filter_nets = []; exclude_nets = only_two ∷ [] }) (codes "2")
    ≡ false
unfolding net_match match_target_net_filter
net_match_example = refl

abbrev sample_crds : List DnsEndpoint
sample_crds =
    record {
      meta = meta_of (codes "c") [];
      endpoints = record_of (codes "a") record_type_a (codes "1.1.1.1") none ∷ [];
      generation = 2;
      observed_generation = 1;
    }
    ∷ []

crd_loop-AreListed_example :
    AreListed sample_crds (crd_loop sample_crds).0
    × (crd_loop (map observed sample_crds) ≡ ((crd_loop sample_crds).0, []))
crd_loop-AreListed_example = crd_loop-AreListed sample_crds
