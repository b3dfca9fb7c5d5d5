-- ===== src/Source/Targets.antt =====
-- source/source.go: the endpoints of a host name have all its targets.
use dns_sync.Base.{
  subst, ◌≡◌, ◌≢◌, refl, sym, ap, ◌∙◌, Bool, true, false, ◌&&◌, ◌||◌, not, Option, none, some, List,
  [], ◌∷◌, ◌++◌, Str, ◌==◌, str_eq, map, keep, any, ltb, length, split, trim_suffix, ℤ,
  if◌then◌else◌, Bool-cases, if_both, arith, inl, inr, All, ◌⊎◌, Memᴰ,
}
use mathlib.Core.List.{append-nil, append_assoc}
use dns_sync.Endpoint.{
  Endpoint, ProviderSpecificProperty, record_type_a, record_type_aaaa, record_type_cname,
  new_endpoint_with_ttl,
}
use dns_sync.Source.{
  Ip, ipv4, ipv6, type_of, is_ipv6, suitable_type, is_ipv6_string, a_targets, aaaa_targets,
  cname_targets, filled, endpoints_of_type, endpoints_for_hostname,
}

-- The targets of all endpoints of a type
unfoldable pub targets_of : Str → List Endpoint → List Str
targets_of ty [] = []
targets_of ty (e ∷ es) =
    let rest = targets_of ty es in if e.record_type == ty then e.targets ++ rest else rest

-- A host name whose parts have at most 63 bytes
abbrev pub IsShort : Str → Type 0
IsShort hostname = any (λ l. ltb 63 (length l)) (split b'.' hostname) ≡ false

pub targets_of-append :
    (ty : Str) (xs ys : List Endpoint)
    → targets_of ty (xs ++ ys) ≡ targets_of ty xs ++ targets_of ty ys
unfolding targets_of
targets_of-append ty [] ys = refl
targets_of-append ty (e ∷ xs) ys = elim (Bool-cases (e.record_type == ty)) [
  | inl same ↦
      rw (same, targets_of-append ty xs ys)
        (sym (append_assoc e.targets (targets_of ty xs) (targets_of ty ys)))
  | inr other ↦ rw other (targets_of-append ty xs ys)
]

taken :
    (ty hostname : Str) (ts : List Str) (ttl : ℤ)
    → IsShort hostname
    → new_endpoint_with_ttl hostname ty ttl ts
      ≡ some (record {
        dns_name = trim_suffix b'.' hostname;
        targets = map (λ t. trim_suffix b'.' t) ts;
        record_type = ty;
        set_identifier = [];
        record_ttl = ttl;
        labels = some [];
        provider_specific = [];
      })
unfolding new_endpoint_with_ttl
taken ty hostname ts ttl h = rw h refl

keep-ext : (p q : Str → Bool) → ((t : Str) → p t ≡ q t) → (xs : List Str) → keep p xs ≡ keep q xs
keep-ext p q h [] = refl
keep-ext p q h (x ∷ xs) = rw (h x, keep-ext p q h xs) refl

module _ (parse_ip : Str → Option Ip) where
  block :
      (ty ty' hostname : Str) (ts : List Str) (ttl : ℤ) (ps : List ProviderSpecificProperty)
      (id resource : Str)
      → IsShort hostname
      → targets_of ty' (endpoints_of_type parse_ip ty hostname ts ttl ps id resource)
        ≡ (if ty == ty' then map (λ t. trim_suffix b'.' t) ts else [])
  unfolding targets_of endpoints_of_type new_endpoint_with_ttl
  block ty ty' hostname [] ttl ps id resource h = elim (Bool-cases (ty == ty')) [
    | inl same ↦ rw same refl
    | inr other ↦ rw other refl
  ]
  block ty ty' hostname (t ∷ ts) ttl ps id resource h =
      ap (λ o. targets_of ty' (filled parse_ip ps id resource o)) (taken ty hostname (t ∷ ts) ttl h)
      ∙ elim (Bool-cases (ty == ty')) [
        | inl same ↦ rw same (append-nil (map (λ t. trim_suffix b'.' t) (t ∷ ts)))
        | inr other ↦ rw other refl
      ]

  keep-a :
      (ts : List Str)
      → a_targets parse_ip ts ≡ keep (λ t. suitable_type parse_ip t == record_type_a) ts
  unfolding a_targets suitable_type is_ipv6_string dns_sync.Base.str_beq
  keep-a ts =
      keep-ext (λ t. type_of (parse_ip t) == record_type_a && not (is_ipv6 (parse_ip t)))
        (λ t. type_of (parse_ip t) == record_type_a) (λ t. one (parse_ip t)) ts
    where
      one :
          (o : Option Ip)
          → (type_of o == record_type_a && not (is_ipv6 o)) ≡ (type_of o == record_type_a)
      one none = refl
      one (some ipv4) = refl
      one (some ipv6) = refl

  keep-aaaa :
      (ts : List Str)
      → aaaa_targets parse_ip ts ≡ keep (λ t. suitable_type parse_ip t == record_type_aaaa) ts
  unfolding aaaa_targets suitable_type is_ipv6_string dns_sync.Base.str_beq
  keep-aaaa ts =
      keep-ext (λ t. type_of (parse_ip t) == record_type_aaaa && is_ipv6 (parse_ip t))
        (λ t. type_of (parse_ip t) == record_type_aaaa) (λ t. one (parse_ip t)) ts
    where
      one :
          (o : Option Ip)
          → (type_of o == record_type_aaaa && is_ipv6 o) ≡ (type_of o == record_type_aaaa)
      one none = refl
      one (some ipv4) = refl
      one (some ipv6) = refl

  keep-cname :
      (ts : List Str)
      → cname_targets parse_ip ts ≡ keep (λ t. suitable_type parse_ip t == record_type_cname) ts
  unfolding cname_targets suitable_type dns_sync.Base.str_beq
  keep-cname ts =
      keep-ext
        (λ t.
          not (type_of (parse_ip t) == record_type_a || type_of (parse_ip t) == record_type_aaaa))
        (λ t. type_of (parse_ip t) == record_type_cname) (λ t. one (parse_ip t)) ts
    where
      one :
          (o : Option Ip)
          → not (type_of o == record_type_a || type_of o == record_type_aaaa)
            ≡ (type_of o == record_type_cname)
      one none = refl
      one (some ipv4) = refl
      one (some ipv6) = refl

  -- The targets of a type, block by block
  blocks :
      (ty hostname : Str) (ts : List Str) (ttl : ℤ) (ps : List ProviderSpecificProperty)
      (id resource : Str)
      → IsShort hostname
      → targets_of ty (endpoints_for_hostname parse_ip hostname ts ttl ps id resource)
        ≡ (if record_type_a == ty
            then map (λ t. trim_suffix b'.' t) (a_targets parse_ip ts)
            else [])
          ++ ((if record_type_aaaa == ty
                then map (λ t. trim_suffix b'.' t) (aaaa_targets parse_ip ts)
                else [])
              ++ (if record_type_cname == ty
                  then map (λ t. trim_suffix b'.' t) (cname_targets parse_ip ts)
                  else []))
  unfolding endpoints_for_hostname
  blocks ty hostname ts ttl ps id resource h =
      rw
        (
          targets_of-append ty
              (endpoints_of_type parse_ip record_type_a hostname (a_targets parse_ip ts) ttl ps id
                resource)
              (endpoints_of_type parse_ip record_type_aaaa hostname (aaaa_targets parse_ip ts) ttl
                  ps id resource
                ++ endpoints_of_type parse_ip record_type_cname hostname (cname_targets parse_ip ts)
                    ttl ps id resource),
          targets_of-append ty
              (endpoints_of_type parse_ip record_type_aaaa hostname (aaaa_targets parse_ip ts) ttl
                ps id resource)
              (endpoints_of_type parse_ip record_type_cname hostname (cname_targets parse_ip ts) ttl
                ps id resource),
          block record_type_a ty hostname (a_targets parse_ip ts) ttl ps id resource h,
          block record_type_aaaa ty hostname (aaaa_targets parse_ip ts) ttl ps id resource h,
          block record_type_cname ty hostname (cname_targets parse_ip ts) ttl ps id resource h,
        )
        refl

  -- The targets that suit a type, less their trailing dots
  abbrev pub suited : Str → List Str → List Str
  suited ty ts = map (λ t. trim_suffix b'.' t) (keep (λ t. suitable_type parse_ip t == ty) ts)

  pub endpoints_for_hostname-targets :
      (hostname : Str) (ts : List Str) (ttl : ℤ) (ps : List ProviderSpecificProperty)
      (id resource : Str)
      → IsShort hostname
      → (targets_of record_type_a (endpoints_for_hostname parse_ip hostname ts ttl ps id resource)
          ≡ suited record_type_a ts)
        × (targets_of record_type_aaaa
              (endpoints_for_hostname parse_ip hostname ts ttl ps id resource)
            ≡ suited record_type_aaaa ts)
        × (targets_of record_type_cname
              (endpoints_for_hostname parse_ip hostname ts ttl ps id resource)
            ≡ suited record_type_cname ts)
  unfolding dns_sync.Base.str_beq
  endpoints_for_hostname-targets hostname ts ttl ps id resource h = (
    blocks record_type_a hostname ts ttl ps id resource h
        ∙ append-nil _
        ∙ ap (map (λ t. trim_suffix b'.' t)) (keep-a ts),
    blocks record_type_aaaa hostname ts ttl ps id resource h
        ∙ append-nil _
        ∙ ap (map (λ t. trim_suffix b'.' t)) (keep-aaaa ts),
    blocks record_type_cname hostname ts ttl ps id resource h
        ∙ ap (map (λ t. trim_suffix b'.' t)) (keep-cname ts),
  )
