-- ===== src/Provider/Memory/Batch/Accepted.antt =====
-- pkg/mem/inmemory.go: a batch is accepted exactly when it is well formed.
use dns_sync.Base.{
  ◌≡◌, ◌↔◌, refl, true, none, List, [], ◌∷◌, ◌++◌, All, Memᴰ, is_some, lookup, str_eq,
}
use dns_sync.Endpoint.{Endpoint, endpoint_key_eq, key}
use dns_sync.Provider.Memory.{
  ok, ZoneRecords, Changes, Mesh, check_creates, check_updates, check_olds, check_deletes,
  validate_change_batch,
}
use dns_sync.Provider.Memory.Batch.{NotNamed, DistinctKeys, update_mesh_of_new}
use dns_sync.Provider.Memory.Batch.Sound.{
  IsPresent, IsValidBatch, validate_sound, IsPresent-check_present,
}

-- Completeness: the keys of the endpoints are new to the mesh and differ from one another.
abbrev NewTo : Mesh → List Endpoint → Type 0
NewTo m es = All (λ e. Memᴰ (key e) m → ⊥) es

grow :
    (m : Mesh) (e : Endpoint) (es : List Endpoint)
    → NewTo m es
    → NotNamed (key e) es
    → NewTo (key e ∷ m) es
grow m e [] h k = tt
grow m e (f ∷ es) (new, h) (other, k) = (fresh, grow m e es h k)
  where
    fresh : Memᴰ (key f) (key e ∷ m) → ⊥
    fresh (Memᴰ.head q) = other q
    fresh (Memᴰ.tail q) = new q

-- The keys of a list, put in front of a mesh one after the other
abbrev onto : Mesh → List Endpoint → Mesh
onto m [] = m
onto m (e ∷ es) = onto (key e ∷ m) es

-- What is checked later still has new keys.
NewTo-onto :
    (m : Mesh) (es fs : List Endpoint)
    → NewTo m (es ++ fs)
    → DistinctKeys (es ++ fs)
    → NewTo (onto m es) fs × DistinctKeys fs
NewTo-onto m [] fs h d = (h, d)
NewTo-onto m (e ∷ es) fs (new, h) (other, d) =
    NewTo-onto (key e ∷ m) es fs (grow m e (es ++ fs) h other) d

check_creates_complete :
    (zone : ZoneRecords) (m : Mesh) (es fs : List Endpoint)
    → All (λ e. lookup (key e) zone ≡ none) es
    → NewTo m (es ++ fs)
    → DistinctKeys (es ++ fs)
    → check_creates zone m es ≡ ok (onto m es)
unfolding check_creates
check_creates_complete zone m [] fs a h d = refl
check_creates_complete zone m (e ∷ es) fs (absent, a) (new, h) (other, d) =
    rw (absent, update_mesh_of_new m e new)
      (check_creates_complete zone (key e ∷ m) es fs a (grow m e (es ++ fs) h other) d)

check_updates_complete :
    (zone : ZoneRecords) (m : Mesh) (es fs : List Endpoint)
    → All (λ e. is_some (lookup (key e) zone) ≡ true) es
    → NewTo m (es ++ fs)
    → DistinctKeys (es ++ fs)
    → check_updates zone m es ≡ ok (onto m es)
unfolding check_updates
check_updates_complete zone m [] fs a h d = refl
check_updates_complete zone m (e ∷ es) fs (there, a) (new, h) (other, d) =
    rw (there, update_mesh_of_new m e new)
      (check_updates_complete zone (key e ∷ m) es fs a (grow m e (es ++ fs) h other) d)

check_olds_complete :
    (zone : ZoneRecords) (es : List Endpoint) → All (IsPresent zone) es → check_olds zone es ≡ ok tt
unfolding check_olds
check_olds_complete zone [] a = refl
check_olds_complete zone (e ∷ es) (p, a) =
    rw (IsPresent-check_present zone e p) (check_olds_complete zone es a)

check_deletes_complete :
    (zone : ZoneRecords) (m : Mesh) (es : List Endpoint)
    → All (IsPresent zone) es
    → NewTo m es
    → DistinctKeys es
    → check_deletes zone m es ≡ ok (onto m es)
unfolding check_deletes
check_deletes_complete zone m [] a h d = refl
check_deletes_complete zone m (e ∷ es) (p, a) (new, h) (other, d) =
    rw (IsPresent-check_present zone e p, update_mesh_of_new m e new)
      (check_deletes_complete zone (key e ∷ m) es a (grow m e es h other) d)

NewTo-nil : (es : List Endpoint) → NewTo [] es
NewTo-nil [] = tt
NewTo-nil (e ∷ es) = ((λ m. elim m [ ]), NewTo-nil es)

validate_complete :
    (zone : ZoneRecords) (c : Changes)
    → IsValidBatch zone c
    → (m : Mesh) × (validate_change_batch zone c ≡ ok m)
unfolding validate_change_batch
validate_complete zone c v =
    let later = c.update_new ++ c.delete in
    let (h1, d1) = NewTo-onto [] c.create later (NewTo-nil (c.create ++ later)) v.distinct in
    let (h2, d2) = NewTo-onto (onto [] c.create) c.update_new c.delete h1 d1 in
    (
      onto (onto (onto [] c.create) c.update_new) c.delete,
      rw
          (
            check_creates_complete zone [] c.create later v.absent (NewTo-nil (c.create ++ later))
                v.distinct,
            check_updates_complete zone (onto [] c.create) c.update_new c.delete v.known h1 d1,
            check_olds_complete zone c.update_old v.olds,
          )
          (check_deletes_complete zone (onto (onto [] c.create) c.update_new) c.delete v.deletable
            h2 d2),
    )

-- `validateChangeBatch` returns no error exactly for a well-formed batch.
pub validate_change_batch_iff :
    (zone : ZoneRecords) (c : Changes)
    → ((m : Mesh) × (validate_change_batch zone c ≡ ok m)) ↔ IsValidBatch zone c
validate_change_batch_iff zone c = ((λ h. validate_sound zone c h.0 h.1), validate_complete zone c)
