-- ===== src/DomainFilter/Json.antt =====
-- MarshalJSON and UnmarshalJSON of endpoint/domain_filter.go. How encoding/json writes and reads
-- the record of four fields, and how package regexp compiles a text, are parameters.
use dns_sync.Base.{
  List, [], ◌∷◌, Str, ◌&&◌, ◌||◌, not, Option, none, some, is_some, if◌then◌else◌, sort_by, str_ltb,
}
use dns_sync.Attempt.{Attempt, failed, returned, continue}
use dns_sync.DomainFilter.{
  DomainFilter, Regex, is_nil, new_domain_filter_with_exclusions, new_regex_domain_filter,
}

pub record DomainFilterSerde : Type 0 where
  pub include : List Str
  pub exclude : List Str
  pub regex_include : Str
  pub regex_exclude : Str

-- The errors of reading: json's, a list and a regular expression at once, and regexp's
pub data ReadError (E C : Type 0) : Type 0 where
  unreadable : E → ReadError E C
  both_kinds : ReadError E C
  invalid_include : C → ReadError E C
  invalid_exclude : C → ReadError E C

abbrev pub text_of : Option Regex → Str
text_of none = []
text_of (some r) = r.text

-- The filter after `sort.Strings` on its two lists
unfoldable pub sorted : DomainFilter → DomainFilter
unfolding sort_by str_ltb
sorted df = record {
  filters = sort_by str_ltb df.filters;
  exclude = sort_by str_ltb df.exclude;
  regex = df.regex;
  regex_exclusion = df.regex_exclusion;
}

-- `df.MarshalJSON()`: the text, and the filter afterwards, whose lists were sorted in place
unfoldable pub marshal_json :
    {E : Type 0} → (DomainFilterSerde → Attempt E Str) → DomainFilter → Attempt E Str × DomainFilter
unfolding sorted
marshal_json encode df =
    if is_some df.regex || is_some df.regex_exclusion
    then (
      encode (record {
        include = [];
        exclude = [];
        regex_include = text_of df.regex;
        regex_exclude = text_of df.regex_exclusion;
      }),
      df,
    )
    else (
      encode (record {
        include = (sorted df).filters;
        exclude = (sorted df).exclude;
        regex_include = [];
        regex_exclude = [];
      }),
      sorted df,
    )

-- One of the two expressions: an empty text stays nil.
unfoldable pub compiled :
    {E C : Type 0}
    → (Str → Attempt C Regex)
    → (C → ReadError E C)
    → Str
    → Attempt (ReadError E C) (Option Regex)
compiled compile wrong [] = returned none
compiled compile wrong (c ∷ text) = elim (compile (c ∷ text)) [
  | failed e ↦ failed (wrong e)
  | returned r ↦ returned (some r)
]

-- What `UnmarshalJSON` makes of the record that was read
unfoldable pub filter_of_serde :
    {E C : Type 0}
    → (Str → Attempt C Regex)
    → DomainFilterSerde
    → Attempt (ReadError E C) DomainFilter
unfolding compiled
filter_of_serde compile d =
    if is_nil d.regex_include && is_nil d.regex_exclude
    then returned (new_domain_filter_with_exclusions d.include d.exclude)
    else if not (is_nil d.include) || not (is_nil d.exclude)
    then failed ReadError.both_kinds
    else continue (compiled compile ReadError.invalid_include d.regex_include) (λ include.
      continue (compiled compile ReadError.invalid_exclude d.regex_exclude)
        (λ exclude. returned (new_regex_domain_filter include exclude)))

-- `df.UnmarshalJSON(b)`: the new filter; an error leaves the old one.
unfoldable pub unmarshal_json :
    {E C : Type 0}
    → (Str → Attempt E DomainFilterSerde)
    → (Str → Attempt C Regex)
    → Str
    → Attempt (ReadError E C) DomainFilter
unfolding filter_of_serde
unmarshal_json decode compile b = elim (decode b) [
  | failed e ↦ failed (ReadError.unreadable e)
  | returned d ↦ filter_of_serde compile d
]
