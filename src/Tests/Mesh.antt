-- ===== src/Tests/Mesh.antt =====
-- The merge of the mesh's endpoints, and the text of a port.
use dns_sync.Base.{decimal, digits, ◌≡◌, refl, none, some, List, [], ◌∷◌, codes, Permᴰ, concat_map}
use dns_sync.Endpoint.{Endpoint, record_type_a}
use dns_sync.MeshService.Merge.{merge_endpoints}
use dns_sync.MeshService.Merged.{says, merge_endpoints-perm}
use dns_sync.Tests.Planner.{record_of}

decimal_example : decimal 30_080 ≡ codes "30080"
unfolding decimal digits
decimal_example = refl

abbrev three : List Endpoint
three =
    record_of (codes "b") record_type_a (codes "1.1.1.1") none
    ∷ record_of (codes "a") record_type_a (codes "2.2.2.2") none
    ∷ record_of (codes "b") record_type_a (codes "3.3.3.3") none
    ∷ []

merge_endpoints-perm_example :
    (ms : List Endpoint) × ((merge_endpoints three ≡ some ms)
      × Permᴰ (concat_map says ms) (concat_map says three))
merge_endpoints-perm_example =
    merge_endpoints-perm three
      ((codes "1.1.1.1", refl), ((codes "2.2.2.2", refl), ((codes "3.3.3.3", refl), tt)))
