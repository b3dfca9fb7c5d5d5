-- ===== src/Source/Gateway/Hosts.antt =====
-- The targets that a gateway gives to a host.
use dns_sync.Base.{
  false, Option, none, some, List, [], ◌∷◌, Str, ◌==◌, str_eq, str_ltb, lookup, or_default, map,
  keep, concat_map, append_each, append_each-append, lookup-append_each, append_to, lookup-map, ◌≡◌,
  refl, ap, sym, ◌∙◌, subst, ◌↔◌, Memᴰ, mem-concat_map, mem_concat_map-elim, mem-map, mem_map-elim,
  mem-claims, StrictlyAscending, if◌then◌else◌, Bool-cases, inl, inr,
}
use mathlib.Core.Option
use dns_sync.Source.{is_empty}
use dns_sync.Source.Gateway.{
  Gateway, HostTargets, add_host, add_listener, add_listeners, gateway_addresses, resolve_gateway,
  unique_targets,
}
use dns_sync.Source.Gateway.Unique.{unique_targets-StrictlyAscending, mem-unique_targets}

-- The targets of a host
abbrev pub targets_for : Str → HostTargets → List Str
targets_for host m = or_default [] (lookup host m)

abbrev listener_claims : Gateway → Option Str → List (Str × Str)
listener_claims gw none = []
listener_claims gw (some host) =
    if is_empty host then [] else map (λ a. (host, a)) (gateway_addresses gw)

add_host-each :
    (host : Str) (addrs : List Str) (m : HostTargets)
    → add_host host addrs m ≡ append_each (map (λ a. (host, a)) addrs) m
unfolding add_host
add_host-each host [] m = refl
add_host-each host (a ∷ addrs) m = add_host-each host addrs (append_to host (a ∷ []) m)

add_listener-each :
    (gw : Gateway) (lis : Option Str) (m : HostTargets)
    → add_listener gw lis m ≡ append_each (listener_claims gw lis) m
add_listener-each gw none m = refl
add_listener-each gw (some host) m = elim (Bool-cases (is_empty host)) [
  | inl blank ↦ rw blank refl
  | inr named ↦ rw named (add_host-each host (gateway_addresses gw) m)
]

add_listeners-each :
    (gw : Gateway) (ls : List (Option Str)) (m : HostTargets)
    → add_listeners gw ls m ≡ append_each (concat_map (listener_claims gw) ls) m
unfolding add_listeners
add_listeners-each gw [] m = refl
add_listeners-each gw (l ∷ ls) m =
    add_listeners-each gw ls (add_listener gw l m)
    ∙ ap (append_each (concat_map (listener_claims gw) ls)) (add_listener-each gw l m)
    ∙ sym (append_each-append (listener_claims gw l) (concat_map (listener_claims gw) ls) m)

-- What a listener claims
mem-listener_claims :
    (gw : Gateway) (host a : Str) (l : Option Str)
    → Memᴰ (host, a) (listener_claims gw l)
    → (l ≡ some host) × ((is_empty host ≡ false) × Memᴰ a (gateway_addresses gw))
mem-listener_claims gw host a none m = elim m [ ]
mem-listener_claims gw host a (some other) m = elim (Bool-cases (is_empty other)) [
  | inl blank ↦ elim (rw blank at m) [ ]
  | inr named ↦
      claimed named (mem_map-elim (λ b. (other, b)) (gateway_addresses gw) (rw named at m))
]
  where
    claimed :
        is_empty other ≡ false
        → (b : Str) × (Memᴰ b (gateway_addresses gw) × (◌≡◌ {A = Str × Str} (host, a) (other, b)))
        → (some other ≡ some host) × ((is_empty host ≡ false) × Memᴰ a (gateway_addresses gw))
    claimed named (b, (n, e)) = (
      ap (λ c. some c.0) (sym e),
      (
        subst (λ h. is_empty h ≡ false) (ap (λ c. c.0) (sym e)) named,
        subst (λ c. Memᴰ c (gateway_addresses gw)) (ap (λ c. c.1) (sym e)) n,
      ),
    )

listener_claims-mem :
    (gw : Gateway) (host a : Str)
    → is_empty host ≡ false
    → Memᴰ a (gateway_addresses gw)
    → Memᴰ (host, a) (listener_claims gw (some host))
listener_claims-mem gw host a named m = rw named (mem-map (λ b. (host, b)) m)

abbrev claims_for : Gateway → Str → List Str
claims_for gw host =
    map (λ c. c.1) (keep (λ c. c.0 == host) (concat_map (listener_claims gw) gw.listeners))

unique_default :
    (o : Option (List Str))
    → or_default [] (Option.map unique_targets o) ≡ unique_targets (or_default [] o)
unfolding unique_targets
unique_default none = refl
unique_default (some ts) = refl

targets_for-resolve_gateway :
    (gw : Gateway) (host : Str)
    → targets_for host (resolve_gateway gw) ≡ unique_targets (claims_for gw host)
unfolding resolve_gateway lookup
targets_for-resolve_gateway gw host =
    ap (or_default []) (lookup-map unique_targets host (add_listeners gw gw.listeners []))
    ∙ unique_default (lookup host (add_listeners gw gw.listeners []))
    ∙ ap (λ m. unique_targets (targets_for host m)) (add_listeners-each gw gw.listeners [])
    ∙ ap unique_targets (lookup-append_each host (concat_map (listener_claims gw) gw.listeners) [])

mem-claims_for :
    (gw : Gateway) (host a : Str)
    → Memᴰ a (claims_for gw host)
      ↔ (Memᴰ (some host) gw.listeners × ((is_empty host ≡ false) × Memᴰ a (gateway_addresses gw)))
mem-claims_for gw host a = (
  λ m. claimed (
      mem_concat_map-elim (listener_claims gw) gw.listeners
        ((mem-claims host a (concat_map (listener_claims gw) gw.listeners)).0 m)),
  λ t.
      (mem-claims host a (concat_map (listener_claims gw) gw.listeners)).1
        (mem-concat_map (listener_claims gw) t.0 (listener_claims-mem gw host a t.1.0 t.1.1)),
)
  where
    claimed :
        (l : Option Str) × (Memᴰ l gw.listeners × Memᴰ (host, a) (listener_claims gw l))
        → Memᴰ (some host) gw.listeners × ((is_empty host ≡ false) × Memᴰ a (gateway_addresses gw))
    claimed (l, (m, n)) =
        let (e, known) = mem-listener_claims gw host a l n in
        (subst (λ k. Memᴰ k gw.listeners) e m, known)

-- The targets of a host are in the order of strings and each there once. A text is among them just
-- when the host is not empty, is that of a listener of the gateway, and the text is one of the
-- gateway's addresses: those of its specification, or those of its status where it has none.
pub resolve_gateway-targets :
    (gw : Gateway) (host : Str)
    → StrictlyAscending str_ltb (targets_for host (resolve_gateway gw))
      × ((a : Str)
          → Memᴰ a (targets_for host (resolve_gateway gw)) ↔ (
              Memᴰ (some host) gw.listeners
              × ((is_empty host ≡ false) × Memᴰ a (gateway_addresses gw))))
resolve_gateway-targets gw host = rw (targets_for-resolve_gateway gw host) (
  unique_targets-StrictlyAscending (claims_for gw host),
  λ a. (
    λ m. (mem-claims_for gw host a).0 ((mem-unique_targets a (claims_for gw host)).0 m),
    λ t. (mem-unique_targets a (claims_for gw host)).1 ((mem-claims_for gw host a).1 t),
  ),
)
