-- ===== src/Source/Dedup.antt =====
-- source/dedupsource.go: one endpoint for each identifier.
use dns_sync.Base.{
  ◌≡◌, refl, sym, true, false, ◌||◌, List, [], ◌∷◌, Str, ◌==◌, str_eq, any, Bool-cases, inl, inr,
  All, All-map, Memᴰ, beq_refl, subst, arith,
}
use dns_sync.Endpoint.{Endpoint}
use dns_sync.Source.{identifier, dedup_from, dedup_endpoints}

-- No two endpoints of the list have one identifier.
abbrev pub DistinctIdentifiers : List Endpoint → Type 0
DistinctIdentifiers [] = Unit
DistinctIdentifiers (e ∷ es) =
    All (λ x. (identifier e == identifier x) ≡ false) es × DistinctIdentifiers es

-- Endpoints of the list, distinct in their identifiers, with one for each identifier of the list
pub record IsDeduplicated (es result : List Endpoint) : Type 0 where
  pub distinct : DistinctIdentifiers result
  pub members : All (λ x. Memᴰ x es) result
  pub covers : All (λ e. any (λ x. identifier x == identifier e) result ≡ true) es

fresh :
    (collected : List Str) (es : List Endpoint)
    → All (λ x. any (λ i. i == identifier x) collected ≡ false) (dedup_from collected es)
unfolding dedup_from
fresh collected [] = tt
fresh collected (e ∷ es) = elim (Bool-cases (any (λ i. i == identifier e) collected)) [
  | inl again ↦ rw again (fresh collected es)
  | inr first ↦
      rw first (first, All-map (λ x h. ground (arith, h)) _ (fresh (identifier e ∷ collected) es))
]

dedup_from-DistinctIdentifiers :
    (collected : List Str) (es : List Endpoint) → DistinctIdentifiers (dedup_from collected es)
unfolding dedup_from
dedup_from-DistinctIdentifiers collected [] = tt
dedup_from-DistinctIdentifiers collected (e ∷ es) =
    elim (Bool-cases (any (λ i. i == identifier e) collected)) [
      | inl again ↦ rw again (dedup_from-DistinctIdentifiers collected es)
      | inr first ↦ rw first (
        All-map (λ x h. ground (arith, h)) _ (fresh (identifier e ∷ collected) es),
        dedup_from-DistinctIdentifiers (identifier e ∷ collected) es,
      )
    ]

dedup_from-members :
    (collected : List Str) (es : List Endpoint) → All (λ x. Memᴰ x es) (dedup_from collected es)
unfolding dedup_from
dedup_from-members collected [] = tt
dedup_from-members collected (e ∷ es) = elim (Bool-cases (any (λ i. i == identifier e) collected)) [
  | inl again ↦ rw again (All-map (λ x m. Memᴰ.tail m) _ (dedup_from-members collected es))
  | inr first ↦ rw first (
    Memᴰ.head refl,
    All-map (λ x m. Memᴰ.tail m) _ (dedup_from-members (identifier e ∷ collected) es),
  )
]

-- The identifier is collected already, or that of an endpoint in the list.
abbrev Covered : List Str → List Endpoint → Endpoint → Type 0
Covered collected l e =
    (any (λ i. i == identifier e) collected || any (λ x. identifier x == identifier e) l) ≡ true

dedup_again :
    (collected : List Str) (e : Endpoint) (es : List Endpoint)
    → any (λ i. i == identifier e) collected ≡ true
    → dedup_from collected (e ∷ es) ≡ dedup_from collected es
unfolding dedup_from
dedup_again collected e es again = rw again refl

dedup_first :
    (collected : List Str) (e : Endpoint) (es : List Endpoint)
    → any (λ i. i == identifier e) collected ≡ false
    → dedup_from collected (e ∷ es) ≡ e ∷ dedup_from (identifier e ∷ collected) es
unfolding dedup_from
dedup_first collected e es first = rw first refl

dedup_from-covers :
    (collected : List Str) (es : List Endpoint)
    → All (Covered collected (dedup_from collected es)) es
dedup_from-covers collected [] = tt
dedup_from-covers collected (e ∷ es) = elim (Bool-cases (any (λ i. i == identifier e) collected)) [
  | inl again ↦
      subst (λ l. All (Covered collected l) (e ∷ es)) (sym (dedup_again collected e es again))
        (rw again refl, dedup_from-covers collected es)
  | inr first ↦
      let rest = dedup_from (identifier e ∷ collected) es in
      subst (λ l. All (Covered collected l) (e ∷ es)) (sym (dedup_first collected e es first))
        (
          ground (arith, beq_refl (identifier e)),
          All-map (λ x h. covered_first e rest collected x h) es
              (dedup_from-covers (identifier e ∷ collected) es),
        )
]
  where
    covered_first :
        (e : Endpoint) (rest : List Endpoint) (collected : List Str) (x : Endpoint)
        → Covered (identifier e ∷ collected) rest x
        → Covered collected (e ∷ rest) x
    covered_first e rest collected x h = ground (arith, h)

-- What dedupSource returns has one endpoint of the list for each identifier in it.
pub dedup_endpoints-IsDeduplicated : (es : List Endpoint) → IsDeduplicated es (dedup_endpoints es)
unfolding dedup_endpoints
dedup_endpoints-IsDeduplicated es = record {
  distinct = dedup_from-DistinctIdentifiers [] es;
  members = dedup_from-members [] es;
  covers = dedup_from-covers [] es;
}
