-- ===== src/Registry/Ownership.antt =====
-- pkg/sources/dnsmesh/txt.go: whose updates and deletions the registry passes on.
use dns_sync.Base.{
  ◌≡◌, refl, true, List, [], ◌∷◌, ◌++◌, Str, All, All-map, All-append, ◌⊎◌, inl, inr, Memᴰ, str_eq,
  keep, mem_of_mem-keep, All-members,
}
use dns_sync.Endpoint.{Endpoint, is_owned_by, filter_endpoints_by_owner_id}
use dns_sync.Provider.Memory.{Changes}
use dns_sync.Registry.{generate_txt_record, generate_all, registry_changes}

-- An owned endpoint of the list, or the TXT record of one
abbrev pub IsOwnedFrom : Str → List Endpoint → Endpoint → Type 0
IsOwnedFrom o es x =
    (r : Endpoint) × Memᴰ r es
    × (is_owned_by r o ≡ true)
    × ((x ≡ r) ⊎ Memᴰ x (generate_txt_record r))

generate_all-All :
    (P : Endpoint → Type 0) (rs : List Endpoint)
    → All (λ r. All P (generate_txt_record r)) rs
    → All P (generate_all rs)
unfolding generate_all
generate_all-All P [] h = tt
generate_all-All P (r ∷ rs) (p, h) = All-append P _ _ p (generate_all-All P rs h)

passed_on :
    (o : Str) (es : List Endpoint)
    → All (IsOwnedFrom o es) (
        filter_endpoints_by_owner_id (λ e. e) o es
        ++ generate_all (filter_endpoints_by_owner_id (λ e. e) o es))
unfolding filter_endpoints_by_owner_id
passed_on o es =
    let kept = keep (λ e. is_owned_by e o) es in
    let members =
      All-map (λ r m. mem_of_mem-keep (λ e. is_owned_by e o) es m) kept (All-members kept) in
    All-append (IsOwnedFrom o es) kept (generate_all kept)
      (All-map (λ r q. (r, q.0, q.1, inl refl)) kept members)
      (generate_all-All (IsOwnedFrom o es) kept (
        All-map
          (λ r q.
            All-map (λ x m. (r, q.0, q.1, inr m)) (generate_txt_record r)
              (All-members (generate_txt_record r)))
          kept members))

-- The registry passes on an update or a deletion only of a record of the batch that is labelled with
-- its owner, or of the TXT record of one.
pub registry_changes_owned :
    (o : Str) (c : Changes)
    → All (IsOwnedFrom o c.delete) (registry_changes o c).delete
      × All (IsOwnedFrom o c.update_old) (registry_changes o c).update_old
      × All (IsOwnedFrom o c.update_new) (registry_changes o c).update_new
unfolding registry_changes
registry_changes_owned o c =
    (passed_on o c.delete, passed_on o c.update_old, passed_on o c.update_new)
