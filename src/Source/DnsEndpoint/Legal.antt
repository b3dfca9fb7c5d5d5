-- ===== src/Source/DnsEndpoint/Legal.antt =====
-- Which endpoints of custom resources are passed on, and that their status settles.
use dns_sync.Base.{
  inl, inr, Bool-cases, Bool, true, false, ◌&&◌, not, List, [], ◌∷◌, ◌++◌, str_eq, map, keep,
  nat_beq_iff, ◌≡◌, refl, ap, sym, ◌∙◌, subst, ◌↔◌, Memᴰ, concat_map, mem-concat_map,
  mem_concat_map-elim, mem-map, mem_map-elim, mem_of_mem-keep, mem-keep_of_mem, arith,
}
use dns_sync.Endpoint.{Endpoint}
use dns_sync.Source.DnsEndpoint.{
  DnsEndpoint, lacks_targets, illegal_target, with_resource_label, crd_endpoints, observed,
  crd_loop,
}
use dns_sync.Source.DnsEndpoint.Labelled.{
  LacksTargets, AreLegal, IsLabelled, AreListed, lacks_targets-LacksTargets,
  illegal_target-AreLegal, with_resource_label-IsLabelled,
}

neither : (a b : Bool) → (not a && not b) ≡ true → (a ≡ false) × (b ≡ false)
neither a b e = ground arith

both_not : (a b : Bool) → a ≡ false → b ≡ false → (not a && not b) ≡ true
both_not a b h k = ground arith

crd_loop-concat_map : (crds : List DnsEndpoint) → (crd_loop crds).0 ≡ concat_map crd_endpoints crds
unfolding crd_loop
crd_loop-concat_map [] = refl
crd_loop-concat_map (crd ∷ crds) = ap (λ es. crd_endpoints crd ++ es) (crd_loop-concat_map crds)

-- A resource that has the generation observed
crd_loop-observed :
    (crds : List DnsEndpoint) → crd_loop (map observed crds) ≡ (concat_map crd_endpoints crds, [])
unfolding crd_loop crd_endpoints
crd_loop-observed [] = refl
crd_loop-observed (crd ∷ crds) =
    rw ((nat_beq_iff crd.generation crd.generation).1 refl)
      (ap (λ r. (crd_endpoints crd ++ r.0, r.1)) (crd_loop-observed crds))

mem-crd_endpoints :
    (crd : DnsEndpoint) (e : Endpoint)
    → Memᴰ e (crd_endpoints crd) ↔ (
        (ep : Endpoint) × (Memᴰ ep crd.endpoints
          × ((lacks_targets ep ≡ false)
              × ((illegal_target ep ≡ false) × (e ≡ with_resource_label crd ep)))))
unfolding crd_endpoints
mem-crd_endpoints crd e = (
  λ m. passed (mem_map-elim (with_resource_label crd) (keep legal crd.endpoints) m),
  λ t.
      subst (λ d. Memᴰ d (crd_endpoints crd)) (sym t.1.1.1.1)
        (mem-map (with_resource_label crd) (
          mem-keep_of_mem legal t.1.0
            (both_not (lacks_targets t.0) (illegal_target t.0) t.1.1.0 t.1.1.1.0))),
)
  where
    legal : Endpoint → Bool
    legal ep = not (lacks_targets ep) && not (illegal_target ep)

    passed :
        (ep : Endpoint) × (Memᴰ ep (keep legal crd.endpoints) × (e ≡ with_resource_label crd ep))
        → (ep : Endpoint) × (Memᴰ ep crd.endpoints
            × ((lacks_targets ep ≡ false)
                × ((illegal_target ep ≡ false) × (e ≡ with_resource_label crd ep))))
    passed (ep, (m, same)) =
        let (n, fits) = mem_of_mem-keep legal crd.endpoints m in
        let (a, b) = neither (lacks_targets ep) (illegal_target ep) fits in
        (ep, (n, (a, (b, same))))

-- The endpoints that the loop returns are those of the resources that do not lack targets and have
-- none that is illegal, each with the name of its resource as a label. Once the resources have the
-- generations observed that the loop saw, it returns the same endpoints and updates no status.
pub crd_loop-AreListed :
    (crds : List DnsEndpoint)
    → AreListed crds (crd_loop crds).0 × (crd_loop (map observed crds) ≡ ((crd_loop crds).0, []))
crd_loop-AreListed crds = (
  rw (crd_loop-concat_map crds) (record { sound = found; complete = given }),
  crd_loop-observed crds ∙ ap (λ es. (es, [])) (sym (crd_loop-concat_map crds)),
)
  where
    found :
        (e : Endpoint)
        → Memᴰ e (concat_map crd_endpoints crds)
        → (crd : DnsEndpoint) × (Memᴰ crd crds
            × ((ep : Endpoint) × (Memᴰ ep crd.endpoints
                  × ((LacksTargets ep → ⊥) × (AreLegal ep × IsLabelled crd ep e)))))
    found e m =
        let (crd, (n, k)) = mem_concat_map-elim crd_endpoints crds m in
        let (ep, (i, (full, (legal, same)))) = (mem-crd_endpoints crd e).0 k in
        (
          crd,
          (
            n,
            (
              ep,
              (
                i,
                (
                  λ l. let lacks = (lacks_targets-LacksTargets ep).1 l in cc,
                  (
                    (illegal_target-AreLegal ep).0 legal,
                    subst (λ x. IsLabelled crd ep x) (sym same)
                        (with_resource_label-IsLabelled crd ep),
                  ),
                ),
              ),
            ),
          ),
        )

    given :
        (crd : DnsEndpoint) (ep : Endpoint)
        → Memᴰ crd crds
        → Memᴰ ep crd.endpoints
        → (LacksTargets ep → ⊥)
        → AreLegal ep
        → (e : Endpoint) × (Memᴰ e (concat_map crd_endpoints crds) × IsLabelled crd ep e)
    given crd ep n i full legal = (
      with_resource_label crd ep,
      (
        mem-concat_map crd_endpoints n (
            (mem-crd_endpoints crd (with_resource_label crd ep)).1
              (ep, (i, (has_targets, ((illegal_target-AreLegal ep).1 legal, refl))))),
        with_resource_label-IsLabelled crd ep,
      ),
    )
      where
        has_targets : lacks_targets ep ≡ false
        has_targets = elim (Bool-cases (lacks_targets ep)) [
          | inl lacks ↦ absurd (full ((lacks_targets-LacksTargets ep).0 lacks))
          | inr fine ↦ fine
        ]
