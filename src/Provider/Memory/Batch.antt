-- ===== src/Provider/Memory/Batch.antt =====
-- pkg/mem/inmemory.go: when a batch is accepted, and what it leaves in its zone.
pub mod Sound
pub mod Accepted
pub mod Applied
use dns_sync.Base.{
  ◌≡◌, ◌≢◌, ◌↔◌, refl, sym, ap, ◌∙◌, Bool, true, false, Option, none, some, List, [], ◌∷◌, ◌++◌,
  Str, All, All-map, All-append, Memᴰ, any, any_of_mem, any_found, is_some, lookup, insert, delete,
  lookup-insert, lookup-delete, ◌==◌, if◌then◌else◌, arith, Bool-cases, Option-cases, inl, inr,
  subst,
}
use dns_sync.Endpoint.{Endpoint, EndpointKey, endpoint_key_eq, key}
use dns_sync.Provider.Memory.{
  Error, Result, ok, err, ◌>>=◌, ZoneRecords, Changes, Mesh, update_mesh, put_all, delete_all,
}

-- No endpoint of the list has the key.
abbrev pub NotNamed : EndpointKey → List Endpoint → Type 0
NotNamed k es = All (λ e. key e ≢ k) es

-- The endpoints have keys of their own.
abbrev pub DistinctKeys : List Endpoint → Type 0
DistinctKeys [] = Unit
DistinctKeys (e ∷ es) = NotNamed (key e) es × DistinctKeys es

-- The keys named so far grow by the endpoints' keys, each of them new.
abbrev pub Extends : Mesh → List Endpoint → Mesh → Type 0
Extends mesh [] mesh' = mesh ≡ mesh'
Extends mesh (e ∷ es) mesh' = (Memᴰ (key e) mesh → ⊥) × Extends (key e ∷ mesh) es mesh'

pub update_mesh-eq-ok :
    (mesh : Mesh) (e : Endpoint) (mesh' : Mesh)
    → update_mesh mesh e ≡ ok mesh'
    → (Memᴰ (key e) mesh → ⊥) × (key e ∷ mesh ≡ mesh')
unfolding update_mesh
update_mesh-eq-ok mesh e mesh' h = elim (Bool-cases (any (λ j. j == key e) mesh)) [
  | inl found ↦ absurd (refused (rw found at h))
  | inr new ↦ (
    λ m.
        absurd_bool
          (any_of_mem (key e) (λ j. j == key e) mesh m
            ((endpoint_key_eq.beq_iff (key e) (key e)).1 refl))
          new,
    grown (rw new at h),
  )
]
  where
    refused : ◌≡◌ {A = Result Mesh} (err Error.duplicate_record) (ok mesh') → ⊥
    refused q = cc

    absurd_bool : {b : Bool} → b ≡ true → b ≡ false → ⊥
    absurd_bool p q = cc

    grown : ◌≡◌ {A = Result Mesh} (ok (key e ∷ mesh)) (ok mesh') → key e ∷ mesh ≡ mesh'
    grown q = cc

pub update_mesh_of_new :
    (mesh : Mesh) (e : Endpoint) → (Memᴰ (key e) mesh → ⊥) → update_mesh mesh e ≡ ok (key e ∷ mesh)
unfolding update_mesh
update_mesh_of_new mesh e h = elim (Bool-cases (any (λ j. j == key e) mesh)) [
  | inl found ↦
      let (j, m, q) = any_found (λ j. j == key e) mesh found in
      absurd (h (subst (λ i. Memᴰ i mesh) ((endpoint_key_eq.beq_iff j (key e)).0 q) m))
  | inr new ↦ rw new
]

-- A key that was named before is none of the new ones, and stays named.
pub Extends-avoids :
    {k : EndpointKey} (mesh : Mesh) (es : List Endpoint) (mesh' : Mesh)
    → Extends mesh es mesh'
    → Memᴰ k mesh
    → NotNamed k es × Memᴰ k mesh'
Extends-avoids {k} mesh [] mesh' h m = (tt, subst (Memᴰ k) h m)
Extends-avoids {k} mesh (e ∷ es) mesh' (new, h) m =
    let (a, b) = Extends-avoids (key e ∷ mesh) es mesh' h (Memᴰ.tail m) in
    ((λ same. new (subst (λ j. Memᴰ j mesh) (sym same) m), a), b)

pub Extends-append :
    (m : Mesh) (es fs : List Endpoint) (m' m'' : Mesh)
    → Extends m es m'
    → Extends m' fs m''
    → Extends m (es ++ fs) m''
Extends-append m [] fs m' m'' h k = subst (λ n. Extends n fs m'') (sym h) k
Extends-append m (e ∷ es) fs m' m'' (new, h) k = (new, Extends-append (key e ∷ m) es fs m' m'' h k)

pub Extends-DistinctKeys :
    (m : Mesh) (es : List Endpoint) (m' : Mesh) → Extends m es m' → DistinctKeys es
Extends-DistinctKeys m [] m' h = tt
Extends-DistinctKeys m (e ∷ es) m' (new, h) = (
  (Extends-avoids (key e ∷ m) es m' h (Memᴰ.head refl)).0,
  Extends-DistinctKeys (key e ∷ m) es m' h,
)

-- Writing endpoints leaves the other keys alone,
pub put_all_other :
    (k : EndpointKey) (zone : ZoneRecords) (es : List Endpoint)
    → NotNamed k es
    → lookup k (put_all zone es) ≡ lookup k zone
unfolding put_all
put_all_other k zone [] h = refl
put_all_other k zone (e ∷ es) (other, h) =
    put_all_other k (insert (key e) e zone) es h
    ∙ ground (arith, lookup-insert zone (key e) k e, endpoint_key_eq.beq_iff (key e) k)

pub delete_all_other :
    (k : EndpointKey) (zone : ZoneRecords) (es : List Endpoint)
    → NotNamed k es
    → lookup k (delete_all zone es) ≡ lookup k zone
unfolding delete_all
delete_all_other k zone [] h = refl
delete_all_other k zone (e ∷ es) (other, h) =
    delete_all_other k (delete (key e) zone) es h
    ∙ ground (arith, lookup-delete (key e) k zone, endpoint_key_eq.beq_iff (key e) k)

-- and distinct keys hold what was written.
pub put_all_self :
    (zone : ZoneRecords) (es : List Endpoint)
    → DistinctKeys es
    → All (λ e. lookup (key e) (put_all zone es) ≡ some e) es
unfolding put_all
put_all_self zone [] h = tt
put_all_self zone (e ∷ es) (other, h) = (
  put_all_other (key e) (insert (key e) e zone) es other
      ∙ ground
          (arith, lookup-insert zone (key e) (key e) e, endpoint_key_eq.beq_iff (key e) (key e)),
  put_all_self (insert (key e) e zone) es h,
)

-- What is missing stays missing while records are deleted.
delete_all_missing :
    (k : EndpointKey) (zone : ZoneRecords) (es : List Endpoint)
    → lookup k zone ≡ none
    → lookup k (delete_all zone es) ≡ none
unfolding delete_all
delete_all_missing k zone [] h = h
delete_all_missing k zone (e ∷ es) h =
    delete_all_missing k (delete (key e) zone) es (ground (arith, lookup-delete (key e) k zone))

pub delete_all_self :
    (zone : ZoneRecords) (es : List Endpoint)
    → All (λ e. lookup (key e) (delete_all zone es) ≡ none) es
unfolding delete_all
delete_all_self zone [] = tt
delete_all_self zone (e ∷ es) = (
  delete_all_missing (key e) (delete (key e) zone) es
      (ground (arith, lookup-delete (key e) (key e) zone, endpoint_key_eq.beq_iff (key e) (key e))),
  delete_all_self (delete (key e) zone) es,
)
