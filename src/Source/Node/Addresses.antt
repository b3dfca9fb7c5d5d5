-- ===== src/Source/Node/Addresses.antt =====
-- Which addresses of the nodes end up under which key of the map.
use dns_sync.Base.{
  true, Option, none, some, List, [], ◌∷◌, ◌++◌, Str, ◌==◌, str_eq, keep, lookup, ensure, modify,
  changed, ℤ, All, ◌≡◌, refl, ap, sym, ◌∙◌, subst, inl, inr, Bool-cases, Option-cases, is_some,
  or_default, lookup-modify, beq_refl, lookup-ensure, Entries, Entries-modify, Entries-ensure,
  if◌then◌else◌, map,
}
use mathlib.Core.List.{append_assoc, append-nil}
use dns_sync.Attempt.{Attempt, returned, continue}
use dns_sync.Endpoint.{Endpoint, EndpointKey, endpoint_key_eq}
use dns_sync.Source.{Ip}
use dns_sync.Source.Annotations.{Numbers, get_ttl_from_annotations}
use dns_sync.Source.Kube.{Node}
use dns_sync.Source.Node.{
  EndpointMap, NodeError, node_addresses, address_key, blank, add_target, add_addresses, add_nodes,
  add_node, node_endpoints, values,
}

abbrev pub targets_of : Option Endpoint → List Str
targets_of none = []
targets_of (some e) = e.targets

-- The targets under a key
abbrev pub targets_at : EndpointKey → EndpointMap → List Str
targets_at k m = targets_of (lookup k m)

-- An endpoint has the name and the type of its key.
abbrev pub Keyed : EndpointKey → Endpoint → Type 0
Keyed k e = (e.dns_name ≡ k.dns_name) × (e.record_type ≡ k.record_type)

module _ (parse_ip : Str → Option Ip) where
  -- The addresses of nodes that have the name and the type of a key
  abbrev pub addresses_at : EndpointKey → Str → List Node → List Str
  addresses_at k suffix [] = []
  addresses_at k suffix (node ∷ nodes) =
      keep (λ a. address_key parse_ip (node.meta.name ++ suffix) a == k)
        (or_default [] (node_addresses parse_ip node))
      ++ addresses_at k suffix nodes

  changed_targets :
      (addr : Str) (b : Endpoint) (o : Option Endpoint)
      → b.targets ≡ []
      → targets_of (changed (add_target parse_ip addr) (some (or_default b o)))
        ≡ targets_of o ++ addr ∷ []
  changed_targets addr b none e = ap (λ ts. ts ++ addr ∷ []) e
  changed_targets addr b (some d) e = refl

  put_same :
      (k : EndpointKey) (ttl : ℤ) (addr : Str) (m : EndpointMap)
      → targets_at k (modify k (add_target parse_ip addr) (ensure k (blank parse_ip k ttl) m))
        ≡ targets_at k m ++ addr ∷ []
  put_same k ttl addr m =
      rw
        (
          lookup-modify k k (add_target parse_ip addr) (ensure k (blank parse_ip k ttl) m),
          beq_refl k,
          lookup-ensure k k (blank parse_ip k ttl) m,
          beq_refl k,
        )
        (changed_targets addr (blank parse_ip k ttl) (lookup k m) refl)

  targets_at-put :
      (j k : EndpointKey) (ttl : ℤ) (addr : Str) (m : EndpointMap)
      → targets_at j (modify k (add_target parse_ip addr) (ensure k (blank parse_ip k ttl) m))
        ≡ targets_at j m ++ (if k == j then addr ∷ [] else [])
  targets_at-put j k ttl addr m = elim (Bool-cases (k == j)) [
    | inl same ↦ rw same (
        subst
          (λ i.
            targets_at i (modify k (add_target parse_ip addr) (ensure k (blank parse_ip k ttl) m))
            ≡ targets_at i m ++ addr ∷ [])
          ((endpoint_key_eq.beq_iff k j).0 same) (put_same k ttl addr m))
    | inr other ↦
        rw
          (
            lookup-modify k j (add_target parse_ip addr) (ensure k (blank parse_ip k ttl) m),
            other,
            lookup-ensure k j (blank parse_ip k ttl) m,
            other,
          )
          (sym (append-nil (targets_at j m)))
  ]

  Keyed-put :
      (k : EndpointKey) (ttl : ℤ) (addr : Str) (m : EndpointMap)
      → Entries Keyed m
      → Entries Keyed (modify k (add_target parse_ip addr) (ensure k (blank parse_ip k ttl) m))
  Keyed-put k ttl addr m h =
      Entries-modify Keyed k (add_target parse_ip addr) (ensure k (blank parse_ip k ttl) m)
        (λ e p. p) (Entries-ensure Keyed k (blank parse_ip k ttl) m (refl, refl) h)

  targets_at-add_addresses :
      (j : EndpointKey) (name : Str) (ttl : ℤ) (m : EndpointMap) (addrs : List Str)
      → targets_at j (add_addresses parse_ip name ttl m addrs)
        ≡ targets_at j m ++ keep (λ a. address_key parse_ip name a == j) addrs
  unfolding add_addresses
  targets_at-add_addresses j name ttl m [] = sym (append-nil (targets_at j m))
  targets_at-add_addresses j name ttl m (a ∷ addrs) =
      targets_at-add_addresses j name ttl
        (modify (address_key parse_ip name a) (add_target parse_ip a) (
          ensure (address_key parse_ip name a) (blank parse_ip (address_key parse_ip name a) ttl)
            m))
        addrs
      ∙ ap (λ ts. ts ++ keep (λ b. address_key parse_ip name b == j) addrs)
          (targets_at-put j (address_key parse_ip name a) ttl a m)
      ∙ elim (Bool-cases (address_key parse_ip name a == j)) [
        | inl same ↦ rw same (
            append_assoc (targets_at j m) (a ∷ [])
              (keep (λ b. address_key parse_ip name b == j) addrs))
        | inr other ↦ rw (other, append-nil (targets_at j m)) refl
      ]

  Keyed-add_addresses :
      (name : Str) (ttl : ℤ) (m : EndpointMap) (addrs : List Str)
      → Entries Keyed m
      → Entries Keyed (add_addresses parse_ip name ttl m addrs)
  unfolding add_addresses
  Keyed-add_addresses name ttl m [] h = h
  Keyed-add_addresses name ttl m (a ∷ addrs) h =
      Keyed-add_addresses name ttl
        (modify (address_key parse_ip name a) (add_target parse_ip a) (
          ensure (address_key parse_ip name a) (blank parse_ip (address_key parse_ip name a) ttl)
            m))
        addrs (Keyed-put (address_key parse_ip name a) ttl a m h)

  -- The map after a node with the given addresses
  abbrev next_map : Numbers → Str → EndpointMap → Node → List Str → EndpointMap
  next_map numbers suffix m node addrs =
      add_addresses parse_ip (node.meta.name ++ suffix)
        (get_ttl_from_annotations numbers node.meta.annotations) m addrs

  module _ (numbers : Numbers) {E : Type 0} where
    -- What the loop makes of a map that it starts with
    abbrev Grouped : Str → EndpointMap → List Node → Attempt (NodeError E) EndpointMap → Type 0
    Grouped suffix m nodes r =
        (n : EndpointMap) × ((r ≡ returned n)
          × (Entries Keyed n
              × ((k : EndpointKey)
                  → targets_at k n ≡ targets_at k m ++ addresses_at k suffix nodes)))

    Grouped-step :
        (suffix : Str) (m : EndpointMap) (node : Node) (nodes : List Node) (addrs : List Str)
        (r : Attempt (NodeError E) EndpointMap)
        → node_addresses parse_ip node ≡ some addrs
        → Grouped suffix
            (add_addresses parse_ip
              (node.meta.name ++ suffix)
              (get_ttl_from_annotations numbers node.meta.annotations)
              m
              addrs)
            nodes
            r
        → Grouped suffix m (node ∷ nodes) r
    Grouped-step suffix m node nodes addrs r found (n, (e, (keys, at))) = (
      n,
      (
        e,
        (
          keys,
          λ k. rw found (
              at k
              ∙ ap (λ ts. ts ++ addresses_at k suffix nodes)
                  (targets_at-add_addresses k (node.meta.name ++ suffix)
                    (get_ttl_from_annotations numbers node.meta.annotations) m addrs)
              ∙ append_assoc (targets_at k m)
                  (keep (λ a. address_key parse_ip (node.meta.name ++ suffix) a == k) addrs)
                  (addresses_at k suffix nodes)),
        ),
      ),
    )

    add_nodes_again :
        (suffix : Str) (m : EndpointMap) (node : Node) (nodes : List Node) (addrs : List Str)
        → node_addresses parse_ip node ≡ some addrs
        → add_nodes parse_ip numbers {E = E} suffix m (node ∷ nodes)
          ≡ add_nodes parse_ip numbers suffix (next_map numbers suffix m node addrs) nodes
    unfolding add_nodes
    add_nodes_again suffix m node nodes addrs found =
        ap
          (λ o.
            continue (add_node parse_ip numbers suffix m node o)
              (λ n. add_nodes parse_ip numbers suffix n nodes))
          found

    add_nodes-Grouped :
        (suffix : Str) (nodes : List Node)
        → All (λ n. is_some (node_addresses parse_ip n) ≡ true) nodes
        → (m : EndpointMap) → Entries Keyed m
        → Grouped suffix m nodes (add_nodes parse_ip numbers suffix m nodes)
    unfolding add_nodes
    add_nodes-Grouped suffix [] h m keyed =
        (m, (refl, (keyed, λ k. sym (append-nil (targets_at k m)))))
    add_nodes-Grouped suffix (node ∷ nodes) (some_address, h) m keyed =
        elim (Option-cases (node_addresses parse_ip node)) [
          | inl missing ↦ cc
          | inr (addrs, found) ↦
              subst (Grouped suffix m (node ∷ nodes))
                (sym (add_nodes_again suffix m node nodes addrs found))
                (Grouped-step suffix m node nodes addrs _ found (
                  add_nodes-Grouped suffix nodes h (next_map numbers suffix m node addrs) (
                    Keyed-add_addresses (node.meta.name ++ suffix)
                      (get_ttl_from_annotations numbers node.meta.annotations) m addrs keyed)))
        ]

    pub node_endpoints-Grouped :
        (suffix : Str) (nodes : List Node)
        → All (λ n. is_some (node_addresses parse_ip n) ≡ true) nodes
        → (m : EndpointMap) × ((node_endpoints parse_ip numbers {E = E} suffix (returned nodes)
              ≡ returned (map (λ t. t.1) m))
            × (Entries Keyed m
                × ((k : EndpointKey) → targets_at k m ≡ addresses_at k suffix nodes)))
    unfolding node_endpoints lookup
    node_endpoints-Grouped suffix nodes h =
        let (m, (e, (keys, at))) = add_nodes-Grouped suffix nodes h [] tt in
        (m, (ap (λ r. values parse_ip numbers r) e, (keys, at)))
