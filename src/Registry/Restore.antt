-- ===== src/Registry/Restore.antt =====
-- pkg/sources/dnsmesh/txt.go: what the registry writes, it reads back.
use dns_sync.Base.{
  ◌≡◌, refl, sym, ◌∙◌, ap, true, false, Option, none, some, List, [], ◌∷◌, ◌++◌, map, Str, All,
  ◌==◌, str_eq, lookup, insert, lookup-insert, if◌then◌else◌, beq_refl,
}
use mathlib.Core.List.{append-nil, append_assoc}
use dns_sync.Endpoint.{Endpoint}
use dns_sync.Labels.{txt_encryption_nonce}
use dns_sync.Labels.Text.{join-split}
use dns_sync.Labels.RoundTrip.{IsPlain}
use dns_sync.Registry.{
  kind, and_then, merged, mesh_label_key, LabelMap, collect_one, collect, made, add_labels, records,
  generate_all, claim,
}
use dns_sync.Registry.Written.{
  bare, IsStorable, text, parsed, text_record, generate_txt_record-storable, lookup-parsed,
  kind-text,
}
use dns_sync.Registry.Merge.{or_else, lookup-put_labels, new_labels_from_string_plain-IsMap}

-- The map that the TXT records of a batch leave
unfoldable pub put_names : LabelMap → List Endpoint → LabelMap
put_names m [] = m
put_names m (c ∷ cs) = put_names (insert c.dns_name (parsed c) m) cs

-- No other endpoint has the name.
abbrev pub NotNamed : Str → List Endpoint → Type 0
NotNamed n es = All (λ e. (e.dns_name == n) ≡ false) es

abbrev pub DistinctNames : List Endpoint → Type 0
DistinctNames [] = Unit
DistinctNames (e ∷ es) = NotNamed e.dns_name es × DistinctNames es

pub collect-bare :
    (o : Str) (m : LabelMap) (eps es rest : List Endpoint)
    → All IsStorable es
    → collect o eps m (map bare es ++ rest) ≡ collect o (eps ++ map bare es) m rest
unfolding collect collect_one kind
collect-bare o m eps [] rest h = ap (λ l. collect o l m rest) (sym (append-nil eps))
collect-bare o m eps (e ∷ es) rest (p, h) = rw p.not_text (
    collect-bare o m (eps ++ bare e ∷ []) es rest h
    ∙ ap (λ l. collect o l m rest) (append_assoc eps (bare e ∷ []) (map bare es)))

collect-texts :
    (o : Str) (eps : List Endpoint) (m : LabelMap) (es : List Endpoint)
    → IsPlain o
    → All IsStorable es
    → collect o eps m (generate_all (map (claim o) es)) ≡ some (eps, put_names m (map (claim o) es))
unfolding collect collect_one generate_all put_names
collect-texts o eps m [] p h = refl
collect-texts o eps m (e ∷ es) p (q, h) =
    ap (λ l. collect o eps m (l ++ generate_all (map (claim o) es)))
      (generate_txt_record-storable o e q)
    ∙ ap
        (λ k.
          and_then (λ t. collect o t.0 t.1 (generate_all (map (claim o) es)))
            (collect_one (text_record (claim o e)) eps m k))
        (kind-text o e p q)
    ∙ (collect-texts o eps (insert (claim o e).dns_name (parsed (claim o e)) m) es p h)

lookup-put_names :
    (o n : Str) (m : LabelMap) (es : List Endpoint)
    → NotNamed n es
    → lookup n (put_names m (map (claim o) es)) ≡ lookup n m
unfolding put_names claim
lookup-put_names o n m [] h = refl
lookup-put_names o n m (e ∷ es) (p, h) =
    lookup-put_names o n (insert e.dns_name (parsed (claim o e)) m) es h
    ∙ lookup-insert m e.dns_name n (parsed (claim o e))
    ∙ rw p refl

pub put_names-All :
    (o : Str) (m : LabelMap) (es : List Endpoint)
    → DistinctNames es
    → All (λ e. lookup e.dns_name (put_names m (map (claim o) es)) ≡ some (parsed (claim o e))) es
unfolding put_names claim
put_names-All o m [] d = tt
put_names-All o m (e ∷ es) (n, d) = (
  lookup-put_names o e.dns_name (insert e.dns_name (parsed (claim o e)) m) es n
      ∙ lookup-insert m e.dns_name e.dns_name (parsed (claim o e))
      ∙ rw (beq_refl e.dns_name) refl,
  put_names-All o (insert e.dns_name (parsed (claim o e)) m) es d,
)

-- The record is read back with all that it had; of its labels only the nonce is missing, and the
-- one of the mesh is there.
abbrev pub IsRestored : Str → Endpoint → Endpoint → Type 0
IsRestored o e r =
    (r ≡ record e { labels = r.labels })
    × ((k : Str)
        → lookup k (made r.labels) ≡ (
            if k == txt_encryption_nonce
            then none
            else lookup k (insert mesh_label_key o (made e.labels))))

abbrev pub AreRestored : Str → List Endpoint → List Endpoint → Type 0
AreRestored o [] [] = Unit
AreRestored o [] (r ∷ rs) = (r ≡ r) × (true ≡ false)
AreRestored o (e ∷ es) [] = true ≡ false
AreRestored o (e ∷ es) (r ∷ rs) = IsRestored o e r × AreRestored o es rs

or_else-none : {A : Type 0} (o : Option A) → or_else o none ≡ o
or_else-none none = refl
or_else-none (some a) = refl

add_labels-IsRestored :
    (o : Str) (m : LabelMap) (e : Endpoint)
    → IsPlain o
    → IsStorable e
    → lookup e.dns_name m ≡ some (parsed (claim o e))
    → IsRestored o e (add_labels m (bare e))
unfolding add_labels lookup parsed
add_labels-IsRestored o m e p h found = (
  refl,
  λ k.
      ap (λ n. lookup k (merged [] (lookup n m))) (join-split b'.' e.dns_name)
      ∙ ap (λ l. lookup k (merged [] l)) found
      ∙ lookup-put_labels k (parsed (claim o e)) []
          (new_labels_from_string_plain-IsMap (text (claim o e)))
      ∙ or_else-none (lookup k (parsed (claim o e)))
      ∙ lookup-parsed o k e p h,
)

pub AreRestored-map :
    (o : Str) (m : LabelMap) (es : List Endpoint)
    → IsPlain o
    → All IsStorable es
    → All (λ e. lookup e.dns_name m ≡ some (parsed (claim o e))) es
    → AreRestored o es (map (add_labels m) (map bare es))
AreRestored-map o m [] p h f = tt
AreRestored-map o m (e ∷ es) p (q, h) (f, fs) =
    (add_labels-IsRestored o m e p q f, AreRestored-map o m es p h fs)

-- For an owner without separators and storable records of distinct names: where the provider has the
-- records of the batch without their labels, and the TXT records that the registry adds, Records
-- gives the records back in their order, with all they had and the labels that were written.
pub records-AreRestored :
    (o : Str) (es : List Endpoint)
    → IsPlain o
    → All IsStorable es
    → DistinctNames es
    → (rs : List Endpoint) × (records o (map bare es ++ generate_all (map (claim o) es)) ≡ some rs)
      × AreRestored o es rs
unfolding records
records-AreRestored o es p h d =
    let m = put_names [] (map (claim o) es) in
    (
      map (add_labels m) (map bare es),
      ap (and_then (λ t. some (map (add_labels t.1) t.0))) (
          collect-bare o [] [] es (generate_all (map (claim o) es)) h
          ∙ collect-texts o (map bare es) [] es p h),
      AreRestored-map o m es p h (put_names-All o [] es d),
    )
