-- ===== src/Provider/Memory/Batch/Sound.antt =====
-- pkg/mem/inmemory.go: a batch that is accepted is well formed.
use dns_sync.Base.{
  ◌≡◌, refl, sym, ap, ◌∙◌, true, Option, none, some, List, [], ◌∷◌, ◌++◌, Str, All, is_some, lookup,
  str_eq, ◌==◌, if◌then◌else◌, arith, Bool-cases, Option-cases, inl, inr, subst,
}
use dns_sync.Endpoint.{Endpoint, endpoint_key_eq, key}
use dns_sync.Provider.Memory.{
  Error, Result, ok, err, ◌>>=◌, ZoneRecords, Changes, Mesh, update_mesh, check_creates,
  check_updates, check_first, check_present, check_olds, check_deletes, first_target,
  validate_change_batch,
}
use dns_sync.Provider.Memory.Batch.{
  DistinctKeys, Extends, update_mesh-eq-ok, Extends-append, Extends-DistinctKeys,
}

-- The zone has a record of the endpoint's key, and both lists of targets begin with one target.
abbrev pub IsPresent : ZoneRecords → Endpoint → Type 0
IsPresent zone e =
    (rec : Endpoint) × (t : Str) × (lookup (key e) zone ≡ some rec)
    × (first_target rec ≡ ok t)
    × (first_target e ≡ ok t)

-- Records to create are not there, records to update are, the old parts of updates and the records
-- to delete are there with their first target, and no two of the records to create, to update and
-- to delete have one key.
pub record IsValidBatch (zone : ZoneRecords) (c : Changes) : Type 0 where
  pub absent : All (λ e. lookup (key e) zone ≡ none) c.create
  pub known : All (λ e. is_some (lookup (key e) zone) ≡ true) c.update_new
  pub olds : All (IsPresent zone) c.update_old
  pub deletable : All (IsPresent zone) c.delete
  pub distinct : DistinctKeys (c.create ++ (c.update_new ++ c.delete))

pub bind-eq-ok :
    {A B : Type 0} {r : B} (next : A → Result B) (m : Result A)
    → (m >>= next) ≡ ok r
    → (a : A) × (m ≡ ok a) × (next a ≡ ok r)
bind-eq-ok next (err e) h = cc
bind-eq-ok next (ok a) h = (a, refl, h)

check_first_sound :
    (o : Option Endpoint) (e : Endpoint) (u : Unit {0})
    → check_first o e ≡ ok u
    → (rec : Endpoint) × (t : Str) × (o ≡ some rec)
      × (first_target rec ≡ ok t)
      × (first_target e ≡ ok t)
unfolding check_first
check_first_sound none e u h = cc
check_first_sound (some rec) e u h =
    let (a, p, q) = bind-eq-ok _ (first_target rec) h in
    let (b, r, t) = bind-eq-ok _ (first_target e) q in
    (rec, a, refl, p, r ∙ ap ok (sym (equal a b t)))
  where
    equal :
        (a b : Str)
        → ◌≡◌ {A = Result (Unit {0})} (if a == b then ok tt else err Error.record_not_found) (ok u)
        → a ≡ b
    equal a b t = ground (arith, str_eq.beq_iff a b)

check_present-IsPresent :
    (zone : ZoneRecords) (e : Endpoint) {u : Unit {0}}
    → check_present zone e ≡ ok u
    → IsPresent zone e
unfolding check_present
check_present-IsPresent zone e {u} h = check_first_sound (lookup (key e) zone) e u h

pub IsPresent-check_present :
    (zone : ZoneRecords) (e : Endpoint) → IsPresent zone e → check_present zone e ≡ ok tt
unfolding check_present
IsPresent-check_present zone e (rec, t, found, first, same) =
    rw found (unfold check_first in rw (first, same, (str_eq.beq_iff t t).1 refl))

check_creates_sound :
    (zone : ZoneRecords) (m : Mesh) (es : List Endpoint) (m' : Mesh)
    → check_creates zone m es ≡ ok m'
    → All (λ e. lookup (key e) zone ≡ none) es × Extends m es m'
unfolding check_creates
check_creates_sound zone m [] m' h = (tt, ground arith)
check_creates_sound zone m (e ∷ es) m' h = elim (Option-cases (lookup (key e) zone)) [
  | inl absent ↦
      let (n, p, q) = bind-eq-ok _ (update_mesh m e) (rw absent at h) in
      let (new, same) = update_mesh-eq-ok m e n p in
      let (a, b) = check_creates_sound zone n es m' q in
      ((absent, a), (new, subst (λ k. Extends k es m') (sym same) b))
  | inr (old, there) ↦ absurd (refused (rw there at h))
]
  where
    refused : ◌≡◌ {A = Result Mesh} (err Error.record_already_exists) (ok m') → ⊥
    refused q = cc

check_updates_sound :
    (zone : ZoneRecords) (m : Mesh) (es : List Endpoint) (m' : Mesh)
    → check_updates zone m es ≡ ok m'
    → All (λ e. is_some (lookup (key e) zone) ≡ true) es × Extends m es m'
unfolding check_updates
check_updates_sound zone m [] m' h = (tt, ground arith)
check_updates_sound zone m (e ∷ es) m' h = elim (Bool-cases (is_some (lookup (key e) zone))) [
  | inl there ↦
      let (n, p, q) = bind-eq-ok _ (update_mesh m e) (rw there at h) in
      let (new, same) = update_mesh-eq-ok m e n p in
      let (a, b) = check_updates_sound zone n es m' q in
      ((there, a), (new, subst (λ k. Extends k es m') (sym same) b))
  | inr absent ↦ absurd (refused (rw absent at h))
]
  where
    refused : ◌≡◌ {A = Result Mesh} (err Error.record_not_found) (ok m') → ⊥
    refused q = cc

check_olds_sound :
    (zone : ZoneRecords) (es : List Endpoint) {u : Unit {0}}
    → check_olds zone es ≡ ok u
    → All (IsPresent zone) es
unfolding check_olds
check_olds_sound zone [] h = tt
check_olds_sound zone (e ∷ es) h =
    let (v, p, q) = bind-eq-ok _ (check_present zone e) h in
    (check_present-IsPresent zone e p, check_olds_sound zone es q)

check_deletes_sound :
    (zone : ZoneRecords) (m : Mesh) (es : List Endpoint) (m' : Mesh)
    → check_deletes zone m es ≡ ok m'
    → All (IsPresent zone) es × Extends m es m'
unfolding check_deletes
check_deletes_sound zone m [] m' h = (tt, ground arith)
check_deletes_sound zone m (e ∷ es) m' h =
    let (v, there, r) = bind-eq-ok _ (check_present zone e) h in
    let (n, p, q) = bind-eq-ok _ (update_mesh m e) r in
    let (new, same) = update_mesh-eq-ok m e n p in
    let (a, b) = check_deletes_sound zone n es m' q in
    ((check_present-IsPresent zone e there, a), (new, subst (λ k. Extends k es m') (sym same) b))

pub validate_sound :
    (zone : ZoneRecords) (c : Changes) (m : Mesh)
    → validate_change_batch zone c ≡ ok m
    → IsValidBatch zone c
unfolding validate_change_batch
validate_sound zone c m h =
    let (m1, p1, h1) = bind-eq-ok _ (check_creates zone [] c.create) h in
    let (m2, p2, h2) = bind-eq-ok _ (check_updates zone m1 c.update_new) h1 in
    let (u, p3, h3) = bind-eq-ok _ (check_olds zone c.update_old) h2 in
    let (a, x) = check_creates_sound zone [] c.create m1 p1 in
    let (b, y) = check_updates_sound zone m1 c.update_new m2 p2 in
    let (d, z) = check_deletes_sound zone m2 c.delete m h3 in
    record {
      absent = a;
      known = b;
      olds = check_olds_sound zone c.update_old p3;
      deletable = d;
      distinct = Extends-DistinctKeys [] _ m (
          Extends-append [] c.create (c.update_new ++ c.delete) m1 m x
            (Extends-append m1 c.update_new c.delete m2 m y z));
    }
