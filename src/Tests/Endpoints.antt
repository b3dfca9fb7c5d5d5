-- ===== src/Tests/Endpoints.antt =====
-- The endpoint helpers and the record filters on small inputs.
use dns_sync.Base.{refl, codes, str_beq, ◌≡◌, some, [], ◌∷◌}
use dns_sync.Endpoint.{
  Endpoint, get_property, get_provider_specific_property, set_provider_specific_property,
  delete_provider_specific_property, remove_duplicates,
}
use dns_sync.Endpoint.Owner.{IsDeduplicated, remove_duplicates-IsDeduplicated}
use dns_sync.Endpoint.Properties.{set_provider_specific_property_lem}
use dns_sync.Tests.Planner.{sample_store}

remove_duplicates-IsDeduplicated_example :
    IsDeduplicated sample_store (0 ∷ 1 ∷ 0 ∷ []) (remove_duplicates sample_store (0 ∷ 1 ∷ 0 ∷ []))
remove_duplicates-IsDeduplicated_example =
    remove_duplicates-IsDeduplicated sample_store (0 ∷ 1 ∷ 0 ∷ [])

abbrev sample : Endpoint
sample = sample_store 0

set_provider_specific_property_lem_example :
    (get_provider_specific_property
        (codes "p")
        (set_provider_specific_property (codes "p") (codes "1") sample)
      ≡ some (codes "1"))
    × (get_provider_specific_property
          (codes "q")
          (set_provider_specific_property (codes "p") (codes "1") sample)
        ≡ get_provider_specific_property (codes "q") sample)
    × (get_provider_specific_property (codes "p") (
          delete_provider_specific_property
            (codes "q")
            (set_provider_specific_property (codes "p") (codes "1") sample))
        ≡ some (codes "1"))
    × (delete_provider_specific_property
          (codes "p")
          (set_provider_specific_property (codes "p") (codes "1") sample)
        ≡ sample)
unfolding get_property str_beq
set_provider_specific_property_lem_example =
    set_provider_specific_property_lem (codes "p") (codes "q") (codes "1") sample refl refl
