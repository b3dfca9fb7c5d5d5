-- ===== src/Source/Istio/Hosts.antt =====
-- Which services give targets to an Istio gateway.
use dns_sync.Base.{
  Bool, true, false, ◌&&◌, Option, none, some, List, [], ◌∷◌, ◌++◌, Str, str_eq, str_beq_iff,
  lookup, All, ◌≡◌, refl, ap, subst, ◌↔◌, Bool-cases, inl, inr, Memᴰ, mem-append_left,
  mem-append_right, mem_append-elim, if◌then◌else◌, arith,
}
use mathlib.Core.Option.{some-injective}
use dns_sync.Source.{is_empty}
use dns_sync.Source.Annotations.{Annotations}
use dns_sync.Source.Kube.{first_targets}
use dns_sync.Source.Istio.{
  GatewayService, has_value, gateway_selector_matches_service_selector, service_targets,
}

-- Each label that a gateway asks for is one of a service's.
abbrev pub Selects : Annotations → Annotations → Type 0
Selects gw svc = All (λ t. lookup t.0 svc ≡ some t.1) gw

has_value_iff : (o : Option Str) (v : Str) → (has_value o v ≡ true) ↔ (o ≡ some v)
has_value_iff none v = ground arith
has_value_iff (some w) v =
    (λ e. ap some ((str_beq_iff w v).0 e), λ e. (str_beq_iff w v).1 (some-injective w v e))

both_true : (a b : Bool) → (a && b) ≡ true → (a ≡ true) × (b ≡ true)
both_true a b e = ground arith

selector-Selects :
    (gw svc : Annotations)
    → (gateway_selector_matches_service_selector gw svc ≡ true) ↔ Selects gw svc
unfolding gateway_selector_matches_service_selector
selector-Selects [] svc = (λ e. tt, λ h. refl)
selector-Selects ((k, v) ∷ gw) svc = (
  λ e.
      let (a, b) =
        both_true (has_value (lookup k svc) v) (gateway_selector_matches_service_selector gw svc)
          e in
      ((has_value_iff (lookup k svc) v).0 a, (selector-Selects gw svc).0 b),
  λ h. rw ((has_value_iff (lookup k svc) v).1 h.0, (selector-Selects gw svc).1 h.1) refl,
)

-- The targets of a service: its external addresses, or those of its load balancer
abbrev pub targets_of_service : GatewayService → List Str
targets_of_service svc =
    if is_empty svc.external_ips then first_targets svc.load_balancer else svc.external_ips

-- A service that is selected and has a target
abbrev pub Gives : Annotations → List GatewayService → Str → Type 0
Gives selector services a =
    (svc : GatewayService) × (Memᴰ svc services
      × (Selects selector svc.selector × Memᴰ a (targets_of_service svc)))

Gives-later :
    (selector : Annotations) (svc : GatewayService) (services : List GatewayService) (a : Str)
    → Gives selector services a
    → Gives selector (svc ∷ services) a
Gives-later selector svc services a (s, (m, t)) = (s, (Memᴰ.tail m, t))

-- The text is a target of a gateway just when it is one of a service of which all the labels that
-- the gateway asks for have the values that it asks for.
pub service_targets-Gives :
    (selector : Annotations) (services : List GatewayService) (a : Str)
    → Memᴰ a (service_targets selector services) ↔ Gives selector services a
unfolding service_targets
service_targets-Gives selector [] a = (λ m. elim m [ ], λ g. elim g.1.0 [ ])
service_targets-Gives selector (svc ∷ services) a =
    elim (Bool-cases (gateway_selector_matches_service_selector selector svc.selector)) [
      | inl selected ↦ rw selected (
        λ m.
            mem_append-elim (targets_of_service svc) (service_targets selector services)
              (λ n. (svc, (Memᴰ.head refl, (chosen selected, n))))
              (λ n.
                Gives-later selector svc services a
                  ((service_targets-Gives selector services a).0 n))
              m,
        λ g. given (service_targets-Gives selector services a).1 g,
      )
      | inr skipped ↦ rw skipped (
        λ m. Gives-later selector svc services a ((service_targets-Gives selector services a).0 m),
        λ g. refused skipped (service_targets-Gives selector services a).1 g,
      )
    ]
  where
    chosen :
        gateway_selector_matches_service_selector selector svc.selector ≡ true
        → Selects selector svc.selector
    chosen e = (selector-Selects selector svc.selector).0 e

    given :
        (Gives selector services a → Memᴰ a (service_targets selector services))
        → Gives selector (svc ∷ services) a
        → Memᴰ a (targets_of_service svc ++ service_targets selector services)
    given f (s, (Memᴰ.head e, (h, n))) =
        mem-append_left (service_targets selector services)
          (subst (λ t. Memᴰ a (targets_of_service t)) e n)
    given f (s, (Memᴰ.tail m, (h, n))) =
        mem-append_right (targets_of_service svc) (f (s, (m, (h, n))))

    refused :
        gateway_selector_matches_service_selector selector svc.selector ≡ false
        → (Gives selector services a → Memᴰ a (service_targets selector services))
        → Gives selector (svc ∷ services) a
        → Memᴰ a (service_targets selector services)
    refused skipped f (s, (Memᴰ.head e, (h, n))) =
        let yes_selected =
          (selector-Selects selector svc.selector).1
            (subst (λ t. Selects selector t.selector) e h) in
        cc
    refused skipped f (s, (Memᴰ.tail m, (h, n))) = f (s, (m, (h, n)))
