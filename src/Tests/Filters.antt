-- ===== src/Tests/Filters.antt =====
-- Domain filters on small inputs.
use dns_sync.Base.{
  ◌≡◌, ◌↔◌, ◌⊎◌, refl, true, false, some, List, [], ◌∷◌, ◌++◌, Str, codes, Memᴰ, join, split,
  has_prefix, str_beq, str_ltb, sort_by, trim_space,
}
use dns_sync.Attempt.{Attempt, failed, returned}
use dns_sync.DomainFilter.{Regex, match, match_regex, stripped}
use dns_sync.DomainFilter.Match.{Covers, IsCovered, match_iff}
use dns_sync.DomainFilter.Json.{DomainFilterSerde, marshal_json, unmarshal_json, sorted}
use dns_sync.DomainFilter.Restore.{ArePrepared, listed, written, unmarshal_json-marshal_json}

abbrev domains : List Str
domains = codes "b.org" ∷ codes ".a.org" ∷ []

abbrev excluded_domains : List Str
excluded_domains = codes "c.b.org" ∷ []

below : match (listed domains excluded_domains) (codes "D.b.org.") ≡ true
unfolding match str_beq
below = refl

beside : match (listed domains excluded_domains) (codes "db.org") ≡ false
unfolding match str_beq
beside = refl

match_iff_example : (match (listed domains excluded_domains) (codes "d.b.org") ≡ true) ↔ (
    ((domains ≡ []) ⊎ IsCovered domains (stripped (codes "d.b.org")))
    × ((f : Str) → Memᴰ f excluded_domains → Covers f (stripped (codes "d.b.org")) → ⊥))
match_iff_example = match_iff (listed domains excluded_domains) (codes "d.b.org") refl refl

-- A name that the inclusion does not match is in scope where the exclusion does not match it either.
not_included :
    match_regex
      (some (record { text = codes "^a"; match_string = λ s. has_prefix s (codes "a") }))
      (some (record { text = codes "^b"; match_string = λ s. has_prefix s (codes "b") }))
      (codes "c.org")
    ≡ true
unfolding match_regex stripped has_prefix
not_included = refl

-- A text form of the lists: the included domains, a semicolon and the excluded ones
abbrev encode : DomainFilterSerde → Attempt Str Str
encode d = returned (join (codes ",") d.include ++ (codes ";" ++ join (codes ",") d.exclude))

abbrev of_parts : List Str → Attempt Str DomainFilterSerde
of_parts (fs ∷ xs ∷ []) = returned (record {
  include = split b',' fs;
  exclude = split b',' xs;
  regex_include = [];
  regex_exclude = [];
})
of_parts _ = failed (codes "two lists expected")

abbrev decode : Str → Attempt Str DomainFilterSerde
decode text = of_parts (split b';' text)

abbrev no_regex : Str → Attempt Str Regex
no_regex text = failed text

abbrev text : Str
text = codes ".a.org,b.org;c.b.org"

domains-ArePrepared : ArePrepared domains
unfolding stripped trim_space
domains-ArePrepared f (Memᴰ.head e) = rw e (λ h. cc, refl)
domains-ArePrepared f (Memᴰ.tail (Memᴰ.head e)) = rw e (λ h. cc, refl)
domains-ArePrepared f (Memᴰ.tail (Memᴰ.tail m)) = elim m [ ]

excluded_domains-ArePrepared : ArePrepared excluded_domains
unfolding stripped trim_space
excluded_domains-ArePrepared f (Memᴰ.head e) = rw e (λ h. cc, refl)
excluded_domains-ArePrepared f (Memᴰ.tail m) = elim m [ ]

encoded : encode (written domains excluded_domains) ≡ returned text
unfolding join sort_by str_ltb
encoded = refl

decoded : decode text ≡ returned (written domains excluded_domains)
unfolding split sort_by str_ltb
decoded = refl

unmarshal_json-marshal_json_example :
    (marshal_json encode (listed domains excluded_domains)
      ≡ (returned text, sorted (listed domains excluded_domains)))
    × (unmarshal_json decode no_regex text ≡ returned (sorted (listed domains excluded_domains)))
    × ((name : Str)
        → match (sorted (listed domains excluded_domains)) name
          ≡ match (listed domains excluded_domains) name)
unmarshal_json-marshal_json_example =
    unmarshal_json-marshal_json encode decode no_regex domains excluded_domains text
      domains-ArePrepared excluded_domains-ArePrepared encoded decoded
