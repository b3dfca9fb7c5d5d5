-- ===== src/Endpoint/Properties.antt =====
-- endpoint/endpoint.go: the provider-specific properties as a map.
use dns_sync.Base.{
  ◌≡◌, refl, none, some, List, [], ◌∷◌, Str, ◌==◌, str_eq, false, beq_refl, Bool-cases, inl, inr,
  ap, ◌∙◌, if◌then◌else◌, arith,
}
use dns_sync.Endpoint.{
  Endpoint, ProviderSpecificProperty, get_property, set_property, delete_property,
  get_provider_specific_property, set_provider_specific_property, delete_provider_specific_property,
}

get_property-set_property :
    (k j v : Str) (ps : List ProviderSpecificProperty)
    → get_property j (set_property k v ps) ≡ (if k == j then some v else get_property j ps)
unfolding get_property set_property
get_property-set_property k j v [] = refl
get_property-set_property k j v (p ∷ ps) = ground (
  arith,
  get_property-set_property k j v ps,
  str_eq.beq_iff k j,
  str_eq.beq_iff p.name k,
  str_eq.beq_iff p.name j,
)

get_property-delete_property :
    (k j v : Str) (ps : List ProviderSpecificProperty)
    → (k == j) ≡ false
    → get_property j (delete_property k ps) ≡ get_property j ps
unfolding get_property delete_property
get_property-delete_property k j v [] h = refl
get_property-delete_property k j v (p ∷ ps) h = ground (
  arith,
  h,
  get_property-delete_property k j v ps h,
  str_eq.beq_iff k j,
  str_eq.beq_iff p.name k,
  str_eq.beq_iff p.name j,
)

delete_property-set_property :
    (k v : Str) (ps : List ProviderSpecificProperty)
    → get_property k ps ≡ none
    → delete_property k (set_property k v ps) ≡ ps
unfolding get_property set_property delete_property
delete_property-set_property k v [] h = rw (beq_refl k) refl
delete_property-set_property k v (p ∷ ps) h = elim (Bool-cases (p.name == k)) [
  | inl same ↦ cc (rw same at h)
  | inr other ↦
      rw (other, other) (ap (λ l. p ∷ l) (delete_property-set_property k v ps (rw other at h)))
]

-- For a property that the endpoint lacks and another name: setting the property gives it the value
-- and leaves the one of the other name, deleting that one leaves the value, and deleting the
-- property gives the endpoint back.
pub set_provider_specific_property_lem :
    (k j v : Str) (e : Endpoint)
    → get_provider_specific_property k e ≡ none
    → (k == j) ≡ false
    → (get_provider_specific_property k (set_provider_specific_property k v e) ≡ some v)
      × (get_provider_specific_property j (set_provider_specific_property k v e)
          ≡ get_provider_specific_property j e)
      × (get_provider_specific_property k
            (delete_provider_specific_property j (set_provider_specific_property k v e))
          ≡ some v)
      × (delete_provider_specific_property k (set_provider_specific_property k v e) ≡ e)
set_provider_specific_property_lem k j v e absent differs =
    let set_k = set_property k v e.provider_specific in
    let found : get_property k set_k ≡ some v =
      get_property-set_property k k v e.provider_specific ∙ rw (beq_refl k) refl in
    (
      found,
      get_property-set_property k j v e.provider_specific ∙ rw differs refl,
      get_property-delete_property j k v set_k (swapped differs) ∙ found,
      ap (λ ps. record e { provider_specific = ps })
          (delete_property-set_property k v e.provider_specific absent),
    )
  where
    swapped : (k == j) ≡ false → (j == k) ≡ false
    swapped h = ground (arith, h, str_eq.beq_iff k j, str_eq.beq_iff j k)
