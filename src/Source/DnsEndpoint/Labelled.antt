-- ===== src/Source/DnsEndpoint/Labelled.antt =====
-- Which endpoints of custom resources are legal, and what the label of their resource is.
use dns_sync.Base.{
  str_beq, ◌≢◌, ◌⊎◌, inl, inr, ◌||◌, ◌==◌, Str, codes, some, EndsWith, has_suffix_iff, has_suffix,
  lookup, lookup-insert, or_default, beq_refl, any, any_found, any_of_mem, Bool-cases,
  if◌then◌else◌, Bool, true, false, not, List, [], ◌∷◌, ◌++◌, str_eq, ◌≡◌, refl, ◌∙◌, ◌↔◌, Memᴰ,
  arith,
}
use dns_sync.Endpoint.{Endpoint, record_type_a, record_type_aaaa, record_type_cname}
use dns_sync.Source.{is_empty}
use dns_sync.Source.DnsEndpoint.{
  DnsEndpoint, is_illegal, lacks_targets, illegal_target, with_resource_label,
}

-- The type is one of an address or an alias, and there is no target.
abbrev pub LacksTargets : Endpoint → Type 0
LacksTargets ep =
    ((ep.record_type ≡ codes "A")
      ⊎ ((ep.record_type ≡ codes "AAAA") ⊎ (ep.record_type ≡ codes "CNAME")))
    × (ep.targets ≡ [])

-- The targets of a NAPTR record end in a dot, and no others do.
abbrev pub AreLegal : Endpoint → Type 0
AreLegal ep =
    (t : Str) → Memᴰ t ep.targets → EndsWith t (codes ".") ↔ (ep.record_type ≡ codes "NAPTR")

-- The endpoint with the name of its resource as the label resource, and all else that it had
pub record IsLabelled (crd : DnsEndpoint) (ep e : Endpoint) : Type 0 where
  pub kept : e ≡ record ep { labels = e.labels }
  pub label :
      lookup (codes "resource") (or_default [] e.labels)
      ≡ some (codes "crd/" ++ (crd.meta.namespace ++ (codes "/" ++ crd.meta.name)))
  pub others :
      (k : Str)
      → codes "resource" ≢ k
      → lookup k (or_default [] e.labels) ≡ lookup k (or_default [] ep.labels)

-- Each endpoint is the labelled form of a legal one of a resource that does not lack targets, and
-- each such one has a labelled form among the endpoints.
pub record AreListed (crds : List DnsEndpoint) (es : List Endpoint) : Type 0 where
  pub sound :
      (e : Endpoint)
      → Memᴰ e es
      → (crd : DnsEndpoint) × (Memᴰ crd crds
          × ((ep : Endpoint) × (Memᴰ ep crd.endpoints
                × ((LacksTargets ep → ⊥) × (AreLegal ep × IsLabelled crd ep e)))))
  pub complete :
      (crd : DnsEndpoint) (ep : Endpoint)
      → Memᴰ crd crds
      → Memᴰ ep crd.endpoints
      → (LacksTargets ep → ⊥)
      → AreLegal ep
      → (e : Endpoint) × (Memᴰ e es × IsLabelled crd ep e)

pub lacks_targets-LacksTargets : (ep : Endpoint) → (lacks_targets ep ≡ true) ↔ LacksTargets ep
unfolding str_beq
lacks_targets-LacksTargets ep = (
  λ h. (address_type (ground arith), no_target ep.targets (ground arith)),
  λ (t, e). rw e (elim t [ inl a ↦ rw a refl | inr (inl a) ↦ rw a refl | inr (inr a) ↦ rw a refl ]),
)
  where
    no_target : (ts : List Str) → is_empty ts ≡ true → ts ≡ []
    no_target [] h = refl
    no_target (t ∷ ts) h = cc

    address_type :
        (ep.record_type == record_type_cname
            || (ep.record_type == record_type_a || ep.record_type == record_type_aaaa))
          ≡ true
        → (ep.record_type ≡ codes "A")
          ⊎ ((ep.record_type ≡ codes "AAAA") ⊎ (ep.record_type ≡ codes "CNAME"))
    address_type h = elim (Bool-cases (ep.record_type == record_type_a)) [
      | inl a ↦ inl ((str_eq.beq_iff ep.record_type record_type_a).0 a)
      | inr na ↦ elim (Bool-cases (ep.record_type == record_type_aaaa)) [
        | inl b ↦ inr (inl ((str_eq.beq_iff ep.record_type record_type_aaaa).0 b))
        | inr nb ↦
            inr (
              inr ((str_eq.beq_iff ep.record_type record_type_cname).0 (ground (arith, na, nb, h))))
      ]
    ]

legal_when :
    (b : Bool) (t : Str)
    → ((if b then not (has_suffix t (codes ".")) else has_suffix t (codes ".")) ≡ false)
      ↔ ((has_suffix t (codes ".") ≡ true) ↔ (b ≡ true))
legal_when true t = (λ h. (λ k. refl, λ k. ground (arith, h)), λ h. ground (arith, h.1 refl))
legal_when false t = (
  λ h. (λ k. cc, λ k. cc),
  λ h. elim (Bool-cases (has_suffix t (codes "."))) [
    | inl dot ↦ let wrong = h.0 dot in cc
    | inr plain ↦ plain
  ],
)

is_illegal_iff :
    (type t : Str) → (is_illegal type t ≡ false) ↔ (EndsWith t (codes ".") ↔ (type ≡ codes "NAPTR"))
is_illegal_iff type t =
    let (f, g) = legal_when (type == codes "NAPTR") t in
    let (a, b) = has_suffix_iff t (codes ".") in
    let (c, d) = str_eq.beq_iff type (codes "NAPTR") in
    (
      λ h. (λ k. c ((f h).0 (b k)), λ k. a ((f h).1 (d k))),
      λ (k, l). g (λ x. d (k (a x)), λ x. b (l (c x))),
    )

pub illegal_target-AreLegal : (ep : Endpoint) → (illegal_target ep ≡ false) ↔ AreLegal ep
unfolding illegal_target
illegal_target-AreLegal ep = (
  λ h t m. (is_illegal_iff ep.record_type t).0 (legal_at t m h),
  λ h. elim (Bool-cases (any (is_illegal ep.record_type) ep.targets)) [
    | inl found ↦
        let (t, m, e) = any_found (is_illegal ep.record_type) ep.targets found in
        let fine = (is_illegal_iff ep.record_type t).1 (h t m) in cc
    | inr missing ↦ missing
  ],
)
  where
    legal_at :
        (t : Str)
        → Memᴰ t ep.targets
        → any (is_illegal ep.record_type) ep.targets ≡ false
        → is_illegal ep.record_type t ≡ false
    legal_at t m h = elim (Bool-cases (is_illegal ep.record_type t)) [
      | inl wrong ↦ let found = any_of_mem t (is_illegal ep.record_type) ep.targets m wrong in cc
      | inr fine ↦ fine
    ]

pub with_resource_label-IsLabelled :
    (crd : DnsEndpoint) (ep : Endpoint) → IsLabelled crd ep (with_resource_label crd ep)
with_resource_label-IsLabelled crd ep =
    let text = codes "crd/" ++ (crd.meta.namespace ++ (codes "/" ++ crd.meta.name)) in
    let at = lookup-insert (or_default [] ep.labels) (codes "resource") in
    record {
      kept = refl;
      label = ground (arith, at (codes "resource") text, beq_refl (codes "resource"));
      others = λ k h. elim (Bool-cases (codes "resource" == k)) [
        | inl same ↦ absurd (h ((str_eq.beq_iff (codes "resource") k).0 same))
        | inr differ ↦ at k text ∙ rw differ refl
      ];
    }
