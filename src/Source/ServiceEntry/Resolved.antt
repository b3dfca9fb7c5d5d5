-- ===== src/Source/ServiceEntry/Resolved.antt =====
-- What the entries of a service resolve to, in terms of their fields.
use dns_sync.Base.{
  ◌≡◌, ◌≢◌, ◌↔◌, ◌⊎◌, inl, inr, refl, sym, subst, true, false, ◌&&◌, not, List, [], ◌∷◌, Str, codes,
  Memᴰ, ◌==◌, str_eq, all, Bool-cases, arith, ◌∙◌,
}
use dns_sync.Source.{is_empty}
use dns_sync.Source.ServiceEntry.{
  Location, mesh_external, mesh_internal, ServiceEntry, is_external, is_http, is_no_name,
  external_targets,
}

-- A name, and not the one for all
abbrev pub IsName : Str → Type 0
IsName host = (host ≢ []) × (host ≢ codes "*")

abbrev pub IsHttp : Str → Type 0
IsHttp protocol = (protocol ≡ codes "http") ⊎ (protocol ≡ codes "https")

-- The entry has no addresses of its own, there is an address for HTTP, and all ports speak it.
abbrev pub UsesVip : Str → ServiceEntry → Type 0
UsesVip http_vip se =
    (se.addresses ≡ []) × ((http_vip ≢ []) × ((p : Str) → Memᴰ p se.protocols → IsHttp p))

-- What an external and an internal entry resolve to
abbrev pub External : Str → ServiceEntry → List Str → Type 0
External http_vip se ts =
    (se.location ≡ mesh_external)
    × ((UsesVip http_vip se × (ts ≡ http_vip ∷ []))
        ⊎ ((UsesVip http_vip se → ⊥) × (ts ≡ se.addresses)))

abbrev pub Internal : ServiceEntry → List Str → Type 0
Internal se ts = (se.location ≡ mesh_internal) × (ts ≡ se.addresses)

is_empty_iff : {A : Type 0} (xs : List A) → (is_empty xs ≡ true) ↔ (xs ≡ [])
is_empty_iff [] = (λ h. refl, λ h. refl)
is_empty_iff (x ∷ xs) = (λ h. cc, λ h. cc)

pub filled_iff : {A : Type 0} (xs : List A) → (is_empty xs ≡ false) ↔ (xs ≢ [])
filled_iff [] = (λ h. cc, λ h. absurd (h refl))
filled_iff (x ∷ xs) = (λ h e. cc, λ h. refl)

pub is_no_name_iff : (host : Str) → (is_no_name host ≡ false) ↔ IsName host
is_no_name_iff host = (
  λ h. (
    (filled_iff host).0 (ground arith),
    λ e. let star = (str_eq.beq_iff host (codes "*")).1 e in ground (arith, h, star),
  ),
  λ (filled, other). elim (Bool-cases (host == codes "*")) [
    | inl star ↦ absurd (other ((str_eq.beq_iff host (codes "*")).0 star))
    | inr plain ↦ ground (arith, plain, (filled_iff host).1 filled)
  ],
)

is_http_iff : (p : Str) → (is_http p ≡ true) ↔ IsHttp p
is_http_iff p = (
  λ h. elim (Bool-cases (p == codes "http")) [
    | inl plain ↦ inl ((str_eq.beq_iff p (codes "http")).0 plain)
    | inr other ↦ inr ((str_eq.beq_iff p (codes "https")).0 (ground (arith, other, h)))
  ],
  λ h. elim h [
    | inl e ↦ ground (arith, (str_eq.beq_iff p (codes "http")).1 e)
    | inr e ↦ ground (arith, (str_eq.beq_iff p (codes "https")).1 e)
  ],
)

all-IsHttp_iff : (ps : List Str) → (all is_http ps ≡ true) ↔ ((p : Str) → Memᴰ p ps → IsHttp p)
all-IsHttp_iff [] = (λ h p m. elim m [ ], λ h. refl)
all-IsHttp_iff (q ∷ ps) = (
  λ h p m. elim m [
    | Memᴰ.head e ↦ subst IsHttp (sym e) ((is_http_iff q).0 (ground arith))
    | Memᴰ.tail n ↦ (all-IsHttp_iff ps).0 (ground arith) p n
  ],
  λ h. ground (
    arith,
    (is_http_iff q).1 (h q (Memᴰ.head refl)),
    (all-IsHttp_iff ps).1 (λ p m. h p (Memᴰ.tail m)),
  ),
)

UsesVip-iff :
    (http_vip : Str) (se : ServiceEntry)
    → ((is_empty se.addresses && not (is_empty http_vip) && all is_http se.protocols) ≡ true)
      ↔ UsesVip http_vip se
UsesVip-iff http_vip se = (
  λ h. (
    (is_empty_iff se.addresses).0 (ground arith),
    ((filled_iff http_vip).0 (ground arith), (all-IsHttp_iff se.protocols).0 (ground arith)),
  ),
  λ (bare, (there, http)). ground (
    arith,
    (is_empty_iff se.addresses).1 bare,
    (filled_iff http_vip).1 there,
    (all-IsHttp_iff se.protocols).1 http,
  ),
)

vip_targets :
    (http_vip : Str) (se : ServiceEntry)
    → UsesVip http_vip se
    → external_targets http_vip se ≡ http_vip ∷ []
unfolding external_targets
vip_targets http_vip se u = rw ((UsesVip-iff http_vip se).1 u) refl

own_targets :
    (http_vip : Str) (se : ServiceEntry)
    → (UsesVip http_vip se → ⊥)
    → external_targets http_vip se ≡ se.addresses
unfolding external_targets
own_targets http_vip se u =
    elim (Bool-cases
      (is_empty se.addresses && not (is_empty http_vip) && all is_http se.protocols)) [
        | inl uses ↦ absurd (u ((UsesVip-iff http_vip se).0 uses))
        | inr own ↦ rw own refl
      ]

UsesVip-cases :
    (http_vip : Str) (se : ServiceEntry) → UsesVip http_vip se ⊎ (UsesVip http_vip se → ⊥)
UsesVip-cases http_vip se =
    elim (Bool-cases
      (is_empty se.addresses && not (is_empty http_vip) && all is_http se.protocols)) [
        | inl uses ↦ inl ((UsesVip-iff http_vip se).0 uses)
        | inr own ↦ inr (λ u. let uses = (UsesVip-iff http_vip se).1 u in cc)
      ]

located :
    (l : Location)
    → ((is_external l ≡ true) ↔ (l ≡ mesh_external))
      × ((is_external l ≡ false) ↔ (l ≡ mesh_internal))
located mesh_external = ((λ h. refl, λ h. refl), (λ h. cc, λ h. cc))
located mesh_internal = ((λ h. cc, λ h. cc), (λ h. refl, λ h. refl))

pub External-iff :
    (http_vip : Str) (se : ServiceEntry) (ts : List Str)
    → ((is_external se.location ≡ true) × (ts ≡ external_targets http_vip se))
      ↔ External http_vip se ts
External-iff http_vip se ts = (
  λ (l, e). (
    (located se.location).0.0 l,
    elim (UsesVip-cases http_vip se) [
      | inl u ↦ inl (u, e ∙ vip_targets http_vip se u)
      | inr u ↦ inr (u, e ∙ own_targets http_vip se u)
    ],
  ),
  λ (l, t). (
    (located se.location).0.1 l,
    elim t [
      | inl (u, e) ↦ e ∙ sym (vip_targets http_vip se u)
      | inr (u, e) ↦ e ∙ sym (own_targets http_vip se u)
    ],
  ),
)

pub Internal-iff :
    (se : ServiceEntry) (ts : List Str)
    → ((is_external se.location ≡ false) × (ts ≡ se.addresses)) ↔ Internal se ts
Internal-iff se ts = let (f, g) = (located se.location).1 in (λ h. (f h.0, h.1), λ h. (g h.0, h.1))
