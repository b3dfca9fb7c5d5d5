-- ===== src/Source/ServiceEntry/Records.antt =====
-- The endpoints of service entries before their targets are sorted.
use dns_sync.Base.{
  ◌≢◌, subst, Bool, true, false, ◌||◌, Option, List, [], ◌++◌, Str, str_eq, concat_map, ◌≡◌, refl,
  ◌↔◌, ◌⊎◌, inl, inr, Memᴰ, mem-concat_map, mem_concat_map-elim, mem-append_left, mem-append_right,
  mem_append-elim, mem-when, mem-unless, if◌then◌else◌, arith,
}
use dns_sync.Endpoint.{Endpoint}
use dns_sync.Source.{Ip, is_empty}
use dns_sync.Source.Annotations.{Numbers}
use dns_sync.Source.Kube.{hosted}
use dns_sync.Source.ServiceEntry.{
  ServiceEntry, is_external, is_no_name, external_targets, entry_described, host_records,
  dns_records_from_service_entry, dns_records_from_ext_service_entry, external_records,
  internal_records,
}
use dns_sync.Source.ServiceEntry.Resolved.{
  IsName, External, Internal, External-iff, Internal-iff, is_no_name_iff, filled_iff,
}

module _ (parse_ip : Str → Option Ip) (numbers : Numbers) where
  -- An endpoint for a name of an entry, with targets to which the entry resolves
  abbrev pub Recorded : (ServiceEntry → List Str → Type 0) → List ServiceEntry → Endpoint → Type 0
  Recorded Resolves entries e =
      (se : ServiceEntry) × (Memᴰ se entries
        × ((ts : List Str) × (Resolves se ts
              × ((ts ≢ [])
                  × ((host : Str) × (Memᴰ host se.hosts
                        × (IsName host
                            × Memᴰ e (
                                hosted parse_ip (entry_described parse_ip numbers se ts)
                                  host))))))))

module _ (parse_ip : Str → Option Ip) (numbers : Numbers) where
  -- The same in the terms of the code
  abbrev OfEntry : (ServiceEntry → List Str) → ServiceEntry → Endpoint → Type 0
  OfEntry targets se e =
      (host : Str) × (Memᴰ host se.hosts
        × ((is_no_name host ≡ false)
            × ((is_empty (targets se) ≡ false)
                × Memᴰ e
                    (hosted parse_ip (entry_described parse_ip numbers se (targets se)) host))))

  abbrev Coded : Bool → (ServiceEntry → List Str) → List ServiceEntry → Endpoint → Type 0
  Coded external targets entries e =
      (se : ServiceEntry) × (Memᴰ se entries
        × ((is_external se.location ≡ external) × OfEntry targets se e))

  neither : (a b : Bool) → (a || b) ≡ false → (a ≡ false) × (b ≡ false)
  neither a b e = ground arith

  mem-host_records :
      (targets : ServiceEntry → List Str) (se : ServiceEntry) (e : Endpoint)
      → Memᴰ e (concat_map (host_records parse_ip numbers se (targets se)) se.hosts)
        ↔ OfEntry targets se e
  mem-host_records targets se e = (
    λ m. named (mem_concat_map-elim (host_records parse_ip numbers se (targets se)) se.hosts m),
    λ t. mem-concat_map (host_records parse_ip numbers se (targets se)) t.1.0 (
        (mem-unless (is_no_name t.0 || is_empty (targets se))).1
          (both_false t.1.1.0 t.1.1.1.0, t.1.1.1.1)),
  )
    where
      both_false : {a b : Bool} → a ≡ false → b ≡ false → (a || b) ≡ false
      both_false h k = rw (h, k) refl

      named :
          (host : Str) × (Memᴰ host se.hosts
              × Memᴰ e (host_records parse_ip numbers se (targets se) host))
          → OfEntry targets se e
      named (host, (m, n)) =
          let (fine, k) = (mem-unless (is_no_name host || is_empty (targets se))).0 n in
          let (a, b) = neither (is_no_name host) (is_empty (targets se)) fine in
          (host, (m, (a, (b, k))))

  mem-external_records :
      (http_vip : Str) (entries : List ServiceEntry) (e : Endpoint)
      → Memᴰ e (external_records parse_ip numbers http_vip entries)
        ↔ Coded true (external_targets http_vip) entries e
  unfolding external_records dns_records_from_ext_service_entry
  mem-external_records http_vip entries e = (
    λ m. recorded (mem_concat_map-elim _ entries m),
    λ t. mem-concat_map _ t.1.0 (
        (mem-when (is_external t.0.location)).1
          (t.1.1.0, (mem-host_records (external_targets http_vip) t.0 e).1 t.1.1.1)),
  )
    where
      recorded :
          (se : ServiceEntry) × (Memᴰ se entries
              × Memᴰ e (
                  if is_external se.location
                  then concat_map
                      (host_records parse_ip numbers se (external_targets http_vip se))
                      se.hosts
                  else []))
          → Coded true (external_targets http_vip) entries e
      recorded (se, (m, n)) =
          let (here, k) = (mem-when (is_external se.location)).0 n in
          (se, (m, (here, (mem-host_records (external_targets http_vip) se e).0 k)))

  mem-internal_records :
      (entries : List ServiceEntry) (e : Endpoint)
      → Memᴰ e (internal_records parse_ip numbers entries)
        ↔ Coded false (λ se. se.addresses) entries e
  unfolding internal_records dns_records_from_service_entry
  mem-internal_records entries e = (
    λ m. recorded (mem_concat_map-elim _ entries m),
    λ t. mem-concat_map _ t.1.0 (
        (mem-unless (is_external t.0.location)).1
          (t.1.1.0, (mem-host_records (λ se. se.addresses) t.0 e).1 t.1.1.1)),
  )
    where
      recorded :
          (se : ServiceEntry) × (Memᴰ se entries
              × Memᴰ e (
                  if is_external se.location
                  then []
                  else concat_map (host_records parse_ip numbers se se.addresses) se.hosts))
          → Coded false (λ se. se.addresses) entries e
      recorded (se, (m, n)) =
          let (here, k) = (mem-unless (is_external se.location)).0 n in
          (se, (m, (here, (mem-host_records (λ t. t.addresses) se e).0 k)))

  Recorded-Coded :
      (R : ServiceEntry → List Str → Type 0) (external : Bool) (targets : ServiceEntry → List Str)
      → ((se : ServiceEntry) (ts : List Str)
          → ((is_external se.location ≡ external) × (ts ≡ targets se)) ↔ R se ts)
      → (entries : List ServiceEntry) (e : Endpoint)
      → Coded external targets entries e ↔ Recorded parse_ip numbers R entries e
  Recorded-Coded R external targets r entries e = (
    λ (se, (m, (l, (host, (n, (named, (filled, k))))))). (
      se,
      (
        m,
        (
          targets se,
          (
            (r se (targets se)).0 (l, refl),
            ((filled_iff (targets se)).0 filled, (host, (n, ((is_no_name_iff host).0 named, k)))),
          ),
        ),
      ),
    ),
    λ (se, (m, (ts, (q, (filled, (host, (n, (named, k)))))))).
        let (l, same) = (r se ts).1 q in
        (
          se,
          (
            m,
            (
              l,
              (
                host,
                (
                  n,
                  (
                    (is_no_name_iff host).1 named,
                    (
                      (filled_iff (targets se)).1 (subst (λ x. x ≢ []) same filled),
                      subst
                          (λ x.
                            Memᴰ e (hosted parse_ip (entry_described parse_ip numbers se x) host))
                          same k,
                    ),
                  ),
                ),
              ),
            ),
          ),
        ),
  )

  pub service_entry_records-Recorded :
      (http_vip : Str) (external everywhere : List ServiceEntry) (e : Endpoint)
      → Memᴰ e (
          external_records parse_ip numbers http_vip external
          ++ internal_records parse_ip numbers everywhere)
        ↔ (Recorded parse_ip numbers (External http_vip) external e
            ⊎ Recorded parse_ip numbers Internal everywhere e)
  service_entry_records-Recorded http_vip external everywhere e =
      let (f, f') =
        Recorded-Coded (External http_vip) true (external_targets http_vip) (External-iff http_vip)
          external e in
      let (g, g') = Recorded-Coded Internal false (λ se. se.addresses) Internal-iff everywhere e in
      (
        mem_append-elim (external_records parse_ip numbers http_vip external)
            (internal_records parse_ip numbers everywhere)
            (λ m. inl (f ((mem-external_records http_vip external e).0 m)))
            (λ m. inr (g ((mem-internal_records everywhere e).0 m))),
        λ t. elim t [
          | inl r ↦
              mem-append_left (internal_records parse_ip numbers everywhere)
                ((mem-external_records http_vip external e).1 (f' r))
          | inr r ↦
              mem-append_right (external_records parse_ip numbers http_vip external)
                ((mem-internal_records everywhere e).1 (g' r))
        ],
      )
