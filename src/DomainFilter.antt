-- ===== src/DomainFilter.antt =====
-- endpoint/domain_filter.go: which domain names are in scope. Regular expressions are package
-- regexp's: a compiled one is its text and what it matches.
pub mod Match
pub mod Json
pub mod Restore
use dns_sync.Base.{
  ℕ, Bool, true, false, ◌&&◌, ◌||◌, not, Option, none, some, List, [], ◌∷◌, ◌++◌, Str, codes,
  length, ◌==◌, str_eq, nat_eq, to_lower, trim_suffix, trim_space, has_prefix, has_suffix, keep,
  map, if◌then◌else◌, nat_beq,
}

pub record Regex : Type 0 where
  pub text : Str
  pub match_string : Str → Bool

pub record DomainFilter : Type 0 where
  pub filters : List Str
  pub exclude : List Str
  pub regex : Option Regex
  pub regex_exclusion : Option Regex

-- `strings.ToLower(strings.TrimSuffix(domain, "."))`
unfoldable pub stripped : Str → Str
unfolding to_lower trim_suffix
stripped domain = to_lower (trim_suffix b'.' domain)

-- `strings.Count(s, ".")`
unfoldable pub count_dots : Str → ℕ
count_dots s = length (keep (λ c. nat_beq c b'.') s)

abbrev pub is_nil {ℓ} : {A : Type ℓ} → List A → Bool
is_nil [] = true
is_nil (x ∷ xs) = false

unfoldable pub prepare_filters : List Str → List Str
unfolding stripped trim_space
prepare_filters fs = keep (λ d. not (is_nil d)) (map (λ f. stripped (trim_space f)) fs)

unfoldable pub new_domain_filter_with_exclusions : List Str → List Str → DomainFilter
unfolding prepare_filters
new_domain_filter_with_exclusions domain_filters exclude_domains = record {
  filters = prepare_filters domain_filters;
  exclude = prepare_filters exclude_domains;
  regex = none;
  regex_exclusion = none;
}

pub new_domain_filter : List Str → DomainFilter
unfolding prepare_filters
new_domain_filter domain_filters = record {
  filters = prepare_filters domain_filters;
  exclude = [];
  regex = none;
  regex_exclusion = none;
}

unfoldable pub new_regex_domain_filter : Option Regex → Option Regex → DomainFilter
new_regex_domain_filter regex exclusion = record {
  filters = [];
  exclude = [];
  regex = regex;
  regex_exclusion = exclusion;
}

-- One round of the loop of `matchFilter`
unfoldable pub filter_matches : Str → Str → Bool
unfolding has_prefix has_suffix count_dots
filter_matches domain filter =
    if is_nil filter
    then false
    else if has_prefix filter (codes ".") && has_suffix domain filter
    then true
    else if count_dots domain == count_dots filter
    then domain == filter
    else has_suffix domain (codes "." ++ filter)

unfoldable pub any_matches : Str → List Str → Bool
unfolding filter_matches
any_matches domain [] = false
any_matches domain (f ∷ fs) = filter_matches domain f || any_matches domain fs

unfoldable pub match_filter : List Str → Str → Bool → Bool
unfolding stripped any_matches
match_filter filters domain emptyval =
    if is_nil filters then emptyval else any_matches (stripped domain) filters

-- `r != nil && r.String() != ""`
abbrev pub is_set : Option Regex → Bool
is_set none = false
is_set (some r) = not (is_nil r.text)

-- A nil regex is never asked: the caller has seen that one of the two is set. With a set exclusion
-- the inclusion is not consulted.
unfoldable pub match_regex : Option Regex → Option Regex → Str → Bool
unfolding stripped
match_regex regex none domain = elim regex [
  | none ↦ false
  | some r ↦ r.match_string (stripped domain)
]
match_regex regex (some n) domain =
    if is_nil n.text
    then (elim regex [ none ↦ false | some r ↦ r.match_string (stripped domain) ])
    else not (n.match_string (stripped domain))

-- `df.Match(domain)`
unfoldable pub match : DomainFilter → Str → Bool
unfolding match_filter match_regex
match df domain =
    if is_set df.regex || is_set df.regex_exclusion
    then match_regex df.regex df.regex_exclusion domain
    else match_filter df.filters domain true && not (match_filter df.exclude domain false)

-- `MatchAllDomainFilters.Match`: nil filters are passed over.
unfoldable pub match_all : List (Option DomainFilter) → Str → Bool
unfolding match
match_all [] domain = true
match_all (none ∷ fs) domain = match_all fs domain
match_all (some f ∷ fs) domain = match f domain && match_all fs domain

-- `df.IsConfigured()`
unfoldable pub is_configured : DomainFilter → Bool
is_configured df =
    is_set df.regex
    || is_set df.regex_exclusion
    || not (is_nil df.filters)
    || not (is_nil df.exclude)

unfoldable pub any_parent : Str → List Str → Bool
unfolding has_prefix has_suffix
any_parent domain [] = false
any_parent domain (f ∷ fs) =
    (not (is_nil f) && not (has_prefix f (codes ".")) && has_suffix f (codes "." ++ domain))
    || any_parent domain fs

-- `df.MatchParent(domain)`
unfoldable pub match_parent : DomainFilter → Str → Bool
unfolding match_filter any_parent stripped
match_parent df domain =
    if match_filter df.exclude domain false
    then false
    else if is_nil df.filters
    then true
    else any_parent (stripped domain) df.filters
