-- ===== src/Registry/Created.antt =====
-- pkg/sources/dnsmesh/txt.go: what becomes of the records that the registry creates.
use dns_sync.Base.{
  ◌≡◌, ◌≢◌, refl, ◌∙◌, ap, Bool, true, false, Option, none, some, List, [], ◌∷◌, ◌++◌, map, Str,
  codes, All, All-map, All-append, ◌⊎◌, inl, inr, Memᴰ, ◌==◌, str_eq, lookup, insert, lookup-insert,
  if◌then◌else◌, keep, mem_of_mem-keep, All-members,
}
use mathlib.Core.List.{map-append}
use dns_sync.Endpoint.{
  Endpoint, Labels, owner_label_key, is_owned_by, is_value, label_in, filter_endpoints_by_owner_id,
}
use dns_sync.Provider.Memory.{Changes}
use dns_sync.Registry.{
  mesh_label_key, LabelMap, made, kind, and_then, collect, collect_one, add_labels, records,
  generate_all, claim, registry_changes,
}
use dns_sync.Registry.Restore.{
  AreRestored, IsRestored, DistinctNames, collect-bare, put_names, put_names-All, AreRestored-map,
}
use dns_sync.Registry.Written.{
  bare, IsStorable, text_record, parsed, generate_txt_record-storable, kind-text,
}
use dns_sync.Labels.RoundTrip.{IsPlain}

label_in-made : (k : Str) (l : Option Labels) → label_in k l ≡ lookup k (made l)
unfolding label_in lookup
label_in-made k none = refl
label_in-made k (some m) = refl

-- A record that is written without an owner label comes back without one.
restored_not-owned :
    (o : Str) (e r : Endpoint)
    → lookup owner_label_key (made e.labels) ≡ none
    → IsRestored o e r
    → is_owned_by r o ≡ false
unfolding is_owned_by dns_sync.Base.str_beq
restored_not-owned o e r absent (same, labels) =
    ap (λ l. is_value l o)
      (label_in-made owner_label_key r.labels
        ∙ labels owner_label_key
        ∙ lookup-insert (made e.labels) mesh_label_key owner_label_key o
        ∙ absent)

none_owned :
    (o : Str) (es rs : List Endpoint)
    → All (λ e. lookup owner_label_key (made e.labels) ≡ none) es
    → AreRestored o es rs
    → filter_endpoints_by_owner_id (λ e. e) o rs ≡ []
unfolding filter_endpoints_by_owner_id
none_owned o [] [] a h = refl
none_owned o [] (r ∷ rs) a (p, h) = cc
none_owned o (e ∷ es) [] a h = cc
none_owned o (e ∷ es) (r ∷ rs) (p, a) (q, h) =
    rw (restored_not-owned o e r p q) (none_owned o es rs a h)

kind-bare : (o : Str) (r : Endpoint) → kind o (bare r) ≡ kind o r
unfolding kind
kind-bare o r = refl

-- The TXT records do their work without the labels that the provider loses.
collect-bare_texts :
    (o : Str) (eps : List Endpoint) (m : LabelMap) (es : List Endpoint)
    → IsPlain o
    → All IsStorable es
    → collect o eps m (map bare (generate_all (map (claim o) es)))
      ≡ some (eps, put_names m (map (claim o) es))
unfolding collect collect_one generate_all put_names
collect-bare_texts o eps m [] p h = refl
collect-bare_texts o eps m (e ∷ es) p (q, h) =
    ap (λ l. collect o eps m (map bare (l ++ generate_all (map (claim o) es))))
      (generate_txt_record-storable o e q)
    ∙ ap
        (λ k.
          and_then (λ t. collect o t.0 t.1 (map bare (generate_all (map (claim o) es))))
            (collect_one (bare (text_record (claim o e))) eps m k))
        (kind-bare o (text_record (claim o e)) ∙ kind-text o e p q)
    ∙ (collect-bare_texts o eps (insert (claim o e).dns_name (parsed (claim o e)) m) es p h)

-- The batches that create and that delete the records
abbrev pub creation : List Endpoint → Changes
creation es = record { create = es; update_old = []; update_new = []; delete = [] }

abbrev pub deletion : List Endpoint → Changes
deletion rs = record { create = []; update_old = []; update_new = []; delete = rs }

-- The provider's copy of what the registry creates
stored_created :
    (o : Str) (es : List Endpoint)
    → map bare (registry_changes o (creation es)).create
      ≡ map bare es ++ map bare (generate_all (map (claim o) es))
unfolding registry_changes claim
stored_created o es =
    map-append bare (map (claim o) es) (generate_all (map (claim o) es))
    ∙ ap (λ l. l ++ map bare (generate_all (map (claim o) es))) (bare-claim es)
  where
    bare-claim : (fs : List Endpoint) → map bare (map (claim o) fs) ≡ map bare fs
    bare-claim [] = refl
    bare-claim (f ∷ fs) = ap (λ l. bare f ∷ l) (bare-claim fs)

-- For an owner without separators and storable records of distinct names that have no owner label:
-- after a batch that creates them, of which the provider keeps all but the labels, Records gives them
-- back in their order, with all they had and the label mesh; and a batch that deletes what Records
-- gave reaches the provider with no deletion.
pub registry_changes-created :
    (o : Str) (es : List Endpoint)
    → IsPlain o
    → All IsStorable es
    → DistinctNames es
    → All (λ e. lookup owner_label_key (made e.labels) ≡ none) es
    → (rs : List Endpoint) × (records o (map bare (registry_changes o (creation es)).create)
        ≡ some rs)
      × AreRestored o es rs
      × ((registry_changes o (deletion rs)).delete ≡ [])
unfolding registry_changes generate_all records
registry_changes-created o es p h d a =
    let m = put_names [] (map (claim o) es) in
    let restored = AreRestored-map o m es p h (put_names-All o [] es d) in
    (
      map (add_labels m) (map bare es),
      ap (records o) (stored_created o es)
          ∙ ap (and_then (λ t. some (map (add_labels t.1) t.0))) (
              collect-bare o [] [] es (map bare (generate_all (map (claim o) es))) h
              ∙ collect-bare_texts o (map bare es) [] es p h),
      restored,
      rw (none_owned o es (map (add_labels m) (map bare es)) a restored) refl,
    )
