-- ===== src/Source/Annotations/Bounds.antt =====
-- The range of the TTL that annotations give.
use dns_sync.Base.{
  Option, none, some, Str, str_eq, lookup, ℕ, ℤ, pos, negsuc, ◌≤◌, ◌≡◌, refl, arith, Bool-cases,
  inl, inr,
}
use dns_sync.Source.Annotations.{
  Annotations, Numbers, ttl_annotation_key, ttl_maximum, parse_ttl, in_range, ttl_or_zero, ttl_of,
  get_ttl_from_annotations,
}

-- A number of seconds that a record may carry: none, or from 1 to the largest of 31 bits
abbrev pub IsTtl : ℤ → Type 0
IsTtl t = (n : ℕ) × ((t ≡ pos n) × (n ≤ ttl_maximum))

ttl_or_zero-IsTtl : (o : Option ℤ) → IsTtl (ttl_or_zero o)
ttl_or_zero-IsTtl none = (0, (refl, ground arith))
ttl_or_zero-IsTtl (some (negsuc n)) = (0, (refl, ground arith))
ttl_or_zero-IsTtl (some (pos n)) = elim (Bool-cases (in_range (pos n))) [
  | inl fits ↦ rw fits (n, (refl, ground arith))
  | inr beyond ↦ rw beyond (0, (refl, ground arith))
]

ttl_of-IsTtl : (numbers : Numbers) (o : Option Str) → IsTtl (ttl_of numbers o)
ttl_of-IsTtl numbers none = (0, (refl, ground arith))
ttl_of-IsTtl numbers (some v) = ttl_or_zero-IsTtl (parse_ttl numbers v)

-- Whatever the annotation says, and whatever the parsers of durations and numbers return, the TTL is
-- a natural number of at most 31 bits.
pub get_ttl_from_annotations-IsTtl :
    (numbers : Numbers) (annotations : Annotations)
    → IsTtl (get_ttl_from_annotations numbers annotations)
unfolding get_ttl_from_annotations
get_ttl_from_annotations-IsTtl numbers annotations =
    ttl_of-IsTtl numbers (lookup ttl_annotation_key annotations)
