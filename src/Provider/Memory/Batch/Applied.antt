-- ===== src/Provider/Memory/Batch/Applied.antt =====
-- pkg/mem/inmemory.go: what an accepted batch leaves in its zone, and that a refused one leaves
-- everything as it was.
use dns_sync.Base.{
  ◌≡◌, ◌≢◌, refl, ◌∙◌, none, some, List, [], ◌∷◌, ◌++◌, Str, All, All-map, All-mem, All-members,
  lookup, insert, lookup-insert, str_eq, arith, ◌⊎◌, ◌↔◌, inl, inr, Option-cases, ap,
}
use dns_sync.Endpoint.{Endpoint, EndpointKey, endpoint_key_eq, key}
use dns_sync.Provider.Memory.{
  Error, Result, ok, err, ZoneRecords, Zones, Changes, Mesh, validate_change_batch, put_all,
  write_batch, apply_changes_zone,
}
use dns_sync.Provider.Memory.Batch.{
  NotNamed, DistinctKeys, put_all_other, put_all_self, delete_all_other, delete_all_self,
}
use dns_sync.Provider.Memory.Batch.Sound.{IsValidBatch}
use dns_sync.Provider.Memory.Batch.Accepted.{validate_change_batch_iff}

-- The zone after a batch: what was created or updated is there, what was deleted is not, and every
-- other key has what it had.
pub record IsApplied (zone : ZoneRecords) (c : Changes) (zone' : ZoneRecords) : Type 0 where
  pub created : All (λ e. lookup (key e) zone' ≡ some e) c.create
  pub updated : All (λ e. lookup (key e) zone' ≡ some e) c.update_new
  pub deleted : All (λ e. lookup (key e) zone' ≡ none) c.delete
  pub kept :
      (k : EndpointKey)
      → NotNamed k c.create
      → NotNamed k c.update_new
      → NotNamed k c.delete
      → lookup k zone' ≡ lookup k zone

-- Of distinct keys, those of a front part are none of the rest.
front :
    (es fs : List Endpoint)
    → DistinctKeys (es ++ fs)
    → DistinctKeys es × All (λ e. NotNamed (key e) fs) es × DistinctKeys fs
front [] fs d = (tt, tt, d)
front (e ∷ es) fs (other, d) =
    let (a, b, c) = front es fs d in let (x, y) = apart es other in ((x, a), (y, b), c)
  where
    apart :
        (gs : List Endpoint)
        → NotNamed (key e) (gs ++ fs)
        → NotNamed (key e) gs × NotNamed (key e) fs
    apart [] h = (tt, h)
    apart (g ∷ gs) (p, h) = let (x, y) = apart gs h in ((p, x), y)

split_named :
    (k : EndpointKey) (es fs : List Endpoint)
    → NotNamed k (es ++ fs)
    → NotNamed k es × NotNamed k fs
split_named k [] fs h = (tt, h)
split_named k (e ∷ es) fs (p, h) = let (x, y) = split_named k es fs h in ((p, x), y)

pub write_batch-IsApplied :
    (zone : ZoneRecords) (c : Changes) → IsValidBatch zone c → IsApplied zone c (write_batch zone c)
unfolding write_batch
write_batch-IsApplied zone c v =
    let (dc, away, dl) = front c.create (c.update_new ++ c.delete) v.distinct in
    let (du, gone, dd) = front c.update_new c.delete dl in
    let z1 = put_all zone c.create in
    let z2 = put_all z1 c.update_new in
    record {
      created =
          All-map
            (λ e m.
              let (u, d) = split_named (key e) c.update_new c.delete (All-mem _ c.create away m) in
              delete_all_other (key e) z2 c.delete d
              ∙ put_all_other (key e) z1 c.update_new u
              ∙ All-mem _ c.create (put_all_self zone c.create dc) m)
            c.create (All-members c.create);
      updated =
          All-map
            (λ e m.
              delete_all_other (key e) z2 c.delete (All-mem _ c.update_new gone m)
              ∙ All-mem _ c.update_new (put_all_self z1 c.update_new du) m)
            c.update_new (All-members c.update_new);
      deleted = delete_all_self z2 c.delete;
      kept = λ k a b d.
          delete_all_other k z2 c.delete d
          ∙ put_all_other k z1 c.update_new b
          ∙ put_all_other k zone c.create a;
    }

-- What a call on one zone did: the zone holds the batch, and the other zones are untouched.
pub record IsDone (zone_id : Str) (c : Changes) (zones zones' : Zones) (zone : ZoneRecords)
    : Type 0 where
  pub after : ZoneRecords
  pub stored : lookup zone_id zones' ≡ some after
  pub applied : IsApplied zone c after
  pub elsewhere : (id : Str) → id ≢ zone_id → lookup id zones' ≡ lookup id zones

accepted_run :
    (zone_id : Str) (c : Changes) (zones : Zones) (zone : ZoneRecords) (m : Mesh)
    → lookup zone_id zones ≡ some zone
    → validate_change_batch zone c ≡ ok m
    → apply_changes_zone zone_id c zones ≡ (ok tt, insert zone_id (write_batch zone c) zones)
unfolding apply_changes_zone
accepted_run zone_id c zones zone m found accepted = ground arith

-- On a zone that is there, `ApplyChangesZone` carries out a well-formed batch and returns no error:
-- the zone then has what the batch creates and updates, lacks what it deletes and keeps the rest,
-- and the other zones do not change.
pub apply_changes_zone_ok :
    (zone_id : Str) (c : Changes) (zones : Zones) (zone : ZoneRecords)
    → lookup zone_id zones ≡ some zone
    → IsValidBatch zone c
    → ((apply_changes_zone zone_id c zones).0 ≡ ok tt)
      × IsDone zone_id c zones (apply_changes_zone zone_id c zones).1 zone
apply_changes_zone_ok zone_id c zones zone found v =
    let (m, accepted) = (validate_change_batch_iff zone c).1 v in
    rw (accepted_run zone_id c zones zone m found accepted) (
      refl,
      record {
        after = write_batch zone c;
        stored = ground (
          arith,
          lookup-insert zones zone_id zone_id (write_batch zone c),
          str_eq.beq_iff zone_id zone_id,
        );
        applied = write_batch-IsApplied zone c v;
        elsewhere = λ id other.
            ground (
              arith,
              lookup-insert zones zone_id id (write_batch zone c),
              str_eq.beq_iff zone_id id,
            );
      },
    )

-- The zone is not there, or the batch is not well formed for it.
abbrev pub IsRefused : Str → Changes → Zones → Type 0
IsRefused zone_id c zones =
    (lookup zone_id zones ≡ none)
    ⊎ ((zone : ZoneRecords) × ((lookup zone_id zones ≡ some zone) × (IsValidBatch zone c → ⊥)))

failed_run :
    (zone_id : Str) (c : Changes) (zones : Zones) (zone : ZoneRecords) (e : Error)
    → lookup zone_id zones ≡ some zone
    → validate_change_batch zone c ≡ err e
    → apply_changes_zone zone_id c zones ≡ (err e, zones)
unfolding apply_changes_zone
failed_run zone_id c zones zone e found failed = ground arith

missing_run :
    (zone_id : Str) (c : Changes) (zones : Zones)
    → lookup zone_id zones ≡ none
    → apply_changes_zone zone_id c zones ≡ (err Error.zone_not_found, zones)
unfolding apply_changes_zone
missing_run zone_id c zones missing = ground arith

Result-cases : {A : Type 0} (r : Result A) → ((e : Error) × (r ≡ err e)) ⊎ ((a : A) × (r ≡ ok a))
Result-cases (err e) = inl (e, refl)
Result-cases (ok a) = inr (a, refl)

-- `ApplyChangesZone` fails exactly where the zone is not there or the batch is not well formed for
-- it, and in exactly these cases it fails and leaves all zones as they were.
pub apply_changes_zone-IsRefused_iff :
    (zone_id : Str) (c : Changes) (zones : Zones)
    → (((e : Error) × ((apply_changes_zone zone_id c zones).0 ≡ err e)) ↔ IsRefused zone_id c zones)
      × (IsRefused zone_id c zones
          ↔ ((e : Error) × (apply_changes_zone zone_id c zones ≡ (err e, zones))))
apply_changes_zone-IsRefused_iff zone_id c zones = (
  (refused, λ r. let (e, h) = unchanged r in (e, ap (λ t. t.0) h)),
  (unchanged, λ h. refused (h.0, ap (λ t. t.0) h.1)),
)
  where
    valid_fails :
        (zone : ZoneRecords) (e : Error)
        → lookup zone_id zones ≡ some zone
        → (apply_changes_zone zone_id c zones).0 ≡ err e
        → IsValidBatch zone c
        → ⊥
    valid_fails zone e found h v =
        let done = (apply_changes_zone_ok zone_id c zones zone found v).0 in cc

    refused :
        (e : Error) × ((apply_changes_zone zone_id c zones).0 ≡ err e) → IsRefused zone_id c zones
    refused (e, h) = elim (Option-cases (lookup zone_id zones)) [
      | inl missing ↦ inl missing
      | inr (zone, found) ↦ inr (zone, (found, valid_fails zone e found h))
    ]

    unchanged :
        IsRefused zone_id c zones
        → (e : Error) × (apply_changes_zone zone_id c zones ≡ (err e, zones))
    unchanged (inl missing) = (Error.zone_not_found, missing_run zone_id c zones missing)
    unchanged (inr (zone, (found, bad))) = elim (Result-cases (validate_change_batch zone c)) [
      | inl (e, failed) ↦ (e, failed_run zone_id c zones zone e found failed)
      | inr (m, accepted) ↦ absurd (bad ((validate_change_batch_iff zone c).0 (m, accepted)))
    ]
