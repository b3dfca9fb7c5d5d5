-- ===== src/Source/Annotations.antt =====
-- source/source.go: what a source reads from the annotations of a Kubernetes object. A map of
-- annotations is an association list, and its order the one in which Go visits it.
pub mod Bounds
use dns_sync.Base.{
  Bool, true, false, ◌&&◌, ◌||◌, not, Option, none, some, List, [], ◌∷◌, ◌++◌, ℕ, Str, codes, ◌==◌,
  str_eq, map, lookup, ℤ, pos, negsuc, ltb, split, trim_suffix, trim_prefix, remove_spaces,
  trim_space, has_prefix, if◌then◌else◌,
}
use dns_sync.Endpoint.{ProviderSpecificProperty, value_or_empty}
use dns_sync.Attempt.{Attempt, failed, returned, continue}
use dns_sync.Source.{is_empty}

abbrev pub Annotations : Type 0
Annotations = List (Str × Str)

abbrev pub controller_annotation_key : Str
controller_annotation_key = codes "external-dns.alpha.kubernetes.io/controller"

abbrev pub hostname_annotation_key : Str
hostname_annotation_key = codes "external-dns.alpha.kubernetes.io/hostname"

abbrev pub access_annotation_key : Str
access_annotation_key = codes "external-dns.alpha.kubernetes.io/access"

abbrev pub endpoints_type_annotation_key : Str
endpoints_type_annotation_key = codes "external-dns.alpha.kubernetes.io/endpoints-type"

abbrev pub target_annotation_key : Str
target_annotation_key = codes "external-dns.alpha.kubernetes.io/target"

abbrev pub ttl_annotation_key : Str
ttl_annotation_key = codes "external-dns.alpha.kubernetes.io/ttl"

abbrev pub alias_annotation_key : Str
alias_annotation_key = codes "external-dns.alpha.kubernetes.io/alias"

abbrev pub ingress_hostname_source_key : Str
ingress_hostname_source_key = codes "external-dns.alpha.kubernetes.io/ingress-hostname-source"

abbrev pub controller_annotation_value : Str
controller_annotation_value = codes "dns-controller"

abbrev pub internal_hostname_annotation_key : Str
internal_hostname_annotation_key = codes "external-dns.alpha.kubernetes.io/internal-hostname"

abbrev pub cloudflare_proxied_key : Str
cloudflare_proxied_key = codes "external-dns.alpha.kubernetes.io/cloudflare-proxied"

abbrev pub set_identifier_key : Str
set_identifier_key = codes "external-dns.alpha.kubernetes.io/set-identifier"

abbrev pub ttl_minimum : ℕ
ttl_minimum = 1

-- math.MaxInt32
abbrev pub ttl_maximum : ℕ
ttl_maximum = 2_147_483_647

-- What packages time and strconv read from a text: the seconds of a duration, without a fraction,
-- and a number of 64 bits.
pub record Numbers : Type 0 where
  pub parse_duration : Str → Option ℤ
  pub parse_int : Str → Option ℤ

-- `parseTTL`, with `none` for its error
unfoldable pub parse_ttl : Numbers → Str → Option ℤ
parse_ttl numbers s = elim (numbers.parse_duration s) [
  | some d ↦ some d
  | none ↦ numbers.parse_int s
]

-- The test on the range, and the value that is not configured
abbrev pub in_range : ℤ → Bool
in_range (pos n) = not (ltb n ttl_minimum) && not (ltb ttl_maximum n)
in_range (negsuc n) = false

abbrev pub ttl_or_zero : Option ℤ → ℤ
ttl_or_zero none = pos 0
ttl_or_zero (some v) = if in_range v then v else pos 0

abbrev pub ttl_of : Numbers → Option Str → ℤ
ttl_of numbers none = pos 0
ttl_of numbers (some v) = ttl_or_zero (parse_ttl numbers v)

-- `GetTTLFromAnnotations`
unfoldable pub get_ttl_from_annotations : Numbers → Annotations → ℤ
get_ttl_from_annotations numbers annotations =
    ttl_of numbers (lookup ttl_annotation_key annotations)

-- `splitHostnameAnnotation`
unfoldable pub split_hostname_annotation : Str → List Str
split_hostname_annotation annotation = split b',' (remove_spaces annotation)

abbrev pub split_present : Option Str → List Str
split_present none = []
split_present (some v) = split_hostname_annotation v

-- `getHostnamesFromAnnotations` and `getInternalHostnamesFromAnnotations`
unfoldable pub get_hostnames_from_annotations : Annotations → List Str
get_hostnames_from_annotations annotations =
    split_present (lookup hostname_annotation_key annotations)

unfoldable pub get_internal_hostnames_from_annotations : Annotations → List Str
get_internal_hostnames_from_annotations annotations =
    split_present (lookup internal_hostname_annotation_key annotations)

-- `GetAccessFromAnnotations` and `GetEndpointsTypeFromAnnotations`
unfoldable pub get_access_from_annotations : Annotations → Str
get_access_from_annotations annotations = value_or_empty (lookup access_annotation_key annotations)

unfoldable pub get_endpoints_type_from_annotations : Annotations → Str
get_endpoints_type_from_annotations annotations =
    value_or_empty (lookup endpoints_type_annotation_key annotations)

-- `getAliasFromAnnotations`
unfoldable pub get_alias_from_annotations : Annotations → Bool
get_alias_from_annotations annotations = elim (lookup alias_annotation_key annotations) [
  | none ↦ false
  | some v ↦ v == codes "true"
]

abbrev pub property : Str → Str → ProviderSpecificProperty
property name value = record { name = name; value = value }

-- The property of an annotation that names a provider
unfoldable pub provider_annotation : Str × Str → List ProviderSpecificProperty
provider_annotation (k, v) =
    if has_prefix k (codes "external-dns.alpha.kubernetes.io/aws-")
    then property (codes "aws/" ++ trim_prefix k (codes "external-dns.alpha.kubernetes.io/aws-")) v
      ∷ []
    else if has_prefix k (codes "external-dns.alpha.kubernetes.io/scw-")
    then property (codes "scw/" ++ trim_prefix k (codes "external-dns.alpha.kubernetes.io/scw-")) v
      ∷ []
    else if has_prefix k (codes "external-dns.alpha.kubernetes.io/ibmcloud-")
    then property
        (codes "ibmcloud-" ++ trim_prefix k (codes "external-dns.alpha.kubernetes.io/ibmcloud-")) v
      ∷ []
    else if has_prefix k (codes "external-dns.alpha.kubernetes.io/webhook-")
    then property
        (codes "webhook/" ++ trim_prefix k (codes "external-dns.alpha.kubernetes.io/webhook-")) v
      ∷ []
    else []

-- The loop of `getProviderSpecificAnnotations`, with the properties and the set identifier so far
unfoldable pub collect_annotations :
    List ProviderSpecificProperty × Str → Annotations → List ProviderSpecificProperty × Str
collect_annotations acc [] = acc
collect_annotations (properties, set_identifier) ((k, v) ∷ annotations) =
    collect_annotations
      (if k == set_identifier_key
        then (properties, v)
        else (properties ++ provider_annotation (k, v), set_identifier))
      annotations

abbrev pub cloudflare_property : Option Str → List ProviderSpecificProperty
cloudflare_property none = []
cloudflare_property (some v) = property cloudflare_proxied_key v ∷ []

-- `getProviderSpecificAnnotations`
unfoldable pub get_provider_specific_annotations : Annotations → List ProviderSpecificProperty × Str
get_provider_specific_annotations annotations =
    collect_annotations
      (
        cloudflare_property (lookup cloudflare_proxied_key annotations)
            ++ (if get_alias_from_annotations annotations
                then property (codes "alias") (codes "true") ∷ []
                else []),
        [],
      )
      annotations

abbrev pub targets_present : Option Str → List Str
targets_present none = []
targets_present (some v) =
    if is_empty v then [] else map (λ t. trim_suffix b'.' t) (split b',' (remove_spaces v))

-- `GetTargetsFromTargetAnnotation`
unfoldable pub get_targets_from_target_annotation : Annotations → List Str
get_targets_from_target_annotation annotations =
    targets_present (lookup target_annotation_key annotations)

-- Whether a source that looks at the controller annotation is responsible for an object
unfoldable pub is_responsible : Annotations → Bool
is_responsible annotations = elim (lookup controller_annotation_key annotations) [
  | none ↦ true
  | some v ↦ v == controller_annotation_value
]

-- `execTemplate`, from the text that the template writes on the object, or its error
abbrev names_of : Str → List Str
names_of text = map (λ name. trim_suffix b'.' (trim_space name)) (split b',' text)

unfoldable pub exec_template : {E : Type 0} → Attempt E Str → Attempt E (List Str)
exec_template executed = continue executed (λ text. returned (names_of text))
