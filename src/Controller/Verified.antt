-- ===== src/Controller/Verified.antt =====
-- controller/controller.go: which address records are counted as verified.
use dns_sync.Base.{
  ℕ, suc, ◌+◌, ◌↔◌, subst, str_beq, ◌≡◌, refl, ap, Bool, true, false, List, [], ◌∷◌, Str, inl, inr,
  Memᴰ, Bool-cases, any, arith, str_eq, ◌==◌, ◌&&◌, if◌then◌else◌,
}
use dns_sync.Endpoint.{record_type_a, record_type_aaaa}
use dns_sync.Store.{Ref, Store}
use dns_sync.Controller.Run.{records_map, count_matching, count_matching_address_records}

-- How many members of a list have the property
pub data Counted (P : Ref → Type 0) : List Ref → ℕ → Type 0 where
  done : Counted P [] 0
  one : {r : Ref} {rs : List Ref} {n : ℕ} → P r → Counted P rs n → Counted P (r ∷ rs) (suc n)
  other : {r : Ref} {rs : List Ref} {n : ℕ} → (P r → ⊥) → Counted P rs n → Counted P (r ∷ rs) n

-- The endpoint has the type, and a record has its name and its type.
abbrev pub IsVerified : Store → List Ref → Str → Ref → Type 0
IsVerified s records type r =
    ((s r).record_type ≡ type)
    × ((q : Ref) × (Memᴰ q records
          × (((s q).dns_name ≡ (s r).dns_name) × ((s q).record_type ≡ (s r).record_type))))

-- A record of the list with the name and the type
abbrev IsKnown : Store → List Ref → Ref → Type 0
IsKnown s records r =
    (q : Ref) × (Memᴰ q records
      × (((s q).dns_name ≡ (s r).dns_name) × ((s q).record_type ≡ (s r).record_type)))

known : Store → List Ref → Ref → Bool
known s records r =
    any (λ t. t.0 == (s r).dns_name && t.1 == (s r).record_type) (records_map s records)

known_iff :
    (s : Store) (records : List Ref) (r : Ref) → (known s records r ≡ true) ↔ IsKnown s records r
unfolding known records_map
known_iff s [] r = (λ h. cc, λ (q, (m, e)). elim m [ ])
known_iff s (q ∷ records) r = (
  λ h.
      elim (Bool-cases
        ((s q).dns_name == (s r).dns_name && (s q).record_type == (s r).record_type)) [
          | inl same ↦ (
            q,
            (
              Memᴰ.head refl,
              (
                (str_eq.beq_iff (s q).dns_name (s r).dns_name).0 (ground arith),
                (str_eq.beq_iff (s q).record_type (s r).record_type).0 (ground arith),
              ),
            ),
          )
          | inr differ ↦
              let (p, (m, e)) = (known_iff s records r).0 (rw differ at h) in (p, (Memᴰ.tail m, e))
        ],
  λ (p, (m, (n, t))). elim m [
    | Memᴰ.head e ↦ ground (
      arith,
      (str_eq.beq_iff (s q).dns_name (s r).dns_name).1
          (subst (λ x. (s x).dns_name ≡ (s r).dns_name) e n),
      (str_eq.beq_iff (s q).record_type (s r).record_type).1
          (subst (λ x. (s x).record_type ≡ (s r).record_type) e t),
    )
    | Memᴰ.tail k ↦ ground (arith, (known_iff s records r).1 (p, (k, (n, t))))
  ],
)

counted_when :
    {P : Ref → Type 0} {r : Ref} {rs : List Ref} {n : ℕ} (b : Bool)
    → (b ≡ true) ↔ P r
    → Counted P rs n
    → Counted P (r ∷ rs) (if b then suc n else n)
counted_when true h c = Counted.one (h.0 refl) c
counted_when false h c = Counted.other (λ p. let wrong = h.1 p in cc) c

-- The two tests of a round, of which one fails, as one test for each number
pair_when :
    (k a b : Bool) (x y : ℕ)
    → (a ≡ true → b ≡ false)
    → ◌≡◌ {A = ℕ × ℕ}
        (if k then (if a then (x + 1, y) else if b then (x, y + 1) else (x, y)) else (x, y))
        (if k && a then suc x else x, if k && b then suc y else y)
pair_when false a b x y h = refl
pair_when true true true x y h = let wrong = h refl in cc
pair_when true true false x y h = ap (λ n. (n, y)) (omega arith)
pair_when true false true x y h = ap (λ n. (x, n)) (omega arith)
pair_when true false false x y h = refl

not_both_types : (type : Str) → (type == record_type_a) ≡ true → (type == record_type_aaaa) ≡ false
unfolding str_beq
not_both_types type h = rw ((str_eq.beq_iff type record_type_a).0 h) refl

type_cases :
    (s : Store) (records rs : List Ref) (r : Ref)
    → count_matching s (records_map s records) (r ∷ rs) ≡ (
      if known s records r && (s r).record_type == record_type_a
          then suc (count_matching s (records_map s records) rs).0
          else (count_matching s (records_map s records) rs).0,
      if known s records r && (s r).record_type == record_type_aaaa
          then suc (count_matching s (records_map s records) rs).1
          else (count_matching s (records_map s records) rs).1,
    )
unfolding count_matching known
type_cases s records rs r = pair_when (known s records r) _ _ _ _ (not_both_types (s r).record_type)

IsVerified-iff :
    (s : Store) (records : List Ref) (type : Str) (r : Ref)
    → ((known s records r && (s r).record_type == type) ≡ true) ↔ IsVerified s records type r
IsVerified-iff s records type r = (
  λ h. (
    (str_eq.beq_iff (s r).record_type type).0 (ground arith),
    (known_iff s records r).0 (ground arith),
  ),
  λ (t, k).
      ground (arith, (str_eq.beq_iff (s r).record_type type).1 t, (known_iff s records r).1 k),
)

-- The two numbers are how many endpoints of the type A, and how many of the type AAAA, have their
-- name and type among the records.
pub count_matching_address_records-Counted :
    (s : Store) (endpoints records : List Ref)
    → let (a, aaaa) = count_matching_address_records s endpoints records in
      Counted (IsVerified s records record_type_a) endpoints a
      × Counted (IsVerified s records record_type_aaaa) endpoints aaaa
unfolding count_matching_address_records count_matching
count_matching_address_records-Counted s endpoints records = counted endpoints
  where
    counted :
        (rs : List Ref)
        → Counted
            (IsVerified s records record_type_a)
            rs
            (count_matching s (records_map s records) rs).0
          × Counted
              (IsVerified s records record_type_aaaa)
              rs
              (count_matching s (records_map s records) rs).1
    counted [] = (Counted.done, Counted.done)
    counted (r ∷ rs) =
        let (a, aaaa) = counted rs in
        rw (type_cases s records rs r) (
          counted_when _ (IsVerified-iff s records record_type_a r) a,
          counted_when _ (IsVerified-iff s records record_type_aaaa r) aaaa,
        )
