-- ===== src/Source/Filter.antt =====
-- source/targetfiltersource.go: which targets are left.
use dns_sync.Base.{
  subst, ◌≡◌, refl, sym, ap, ◌∙◌, Bool, true, false, ◌&&◌, ◌||◌, not, List, [], ◌∷◌, ◌++◌, Str,
  ◌==◌, str_eq, keep, if◌then◌else◌, Bool-cases, arith, inl, inr,
}
use mathlib.Core.List.{append-nil}
use dns_sync.Endpoint.{Endpoint, record_type_a, record_type_aaaa}
use dns_sync.Source.{is_empty, filter_targets}
use dns_sync.Source.Targets.{targets_of, targets_of-append}

-- The type of an address record
abbrev pub is_address : Str → Bool
is_address ty = ty == record_type_a || ty == record_type_aaaa

keep-append : (p : Str → Bool) (xs ys : List Str) → keep p (xs ++ ys) ≡ keep p xs ++ keep p ys
keep-append p [] ys = refl
keep-append p (x ∷ xs) ys = elim (Bool-cases (p x)) [
  | inl stays ↦ rw (stays, keep-append p xs ys) refl
  | inr goes ↦ rw (goes, keep-append p xs ys) refl
]

filter_other :
    (match : Str → Bool) (e : Endpoint) (es : List Endpoint)
    → is_address e.record_type ≡ false
    → filter_targets match (e ∷ es) ≡ e ∷ filter_targets match es
unfolding filter_targets
filter_other match e es h =
    rw (by_cases (e.record_type == record_type_a) (e.record_type == record_type_aaaa) h) refl
  where
    by_cases : (a b : Bool) → (a || b) ≡ false → (not a && not b) ≡ true
    by_cases a b h = ground (arith, h)

-- What is left of an endpoint with the targets that match
abbrev cut : Endpoint → List Str → List Endpoint
cut e [] = []
cut e (t ∷ ts) = record e { targets = t ∷ ts } ∷ []

filter_address :
    (match : Str → Bool) (e : Endpoint) (es : List Endpoint)
    → is_address e.record_type ≡ true
    → filter_targets match (e ∷ es) ≡ cut e (keep match e.targets) ++ filter_targets match es
unfolding filter_targets
filter_address match e es h =
    rw (by_cases (e.record_type == record_type_a) (e.record_type == record_type_aaaa) h)
      (of_targets (keep match e.targets))
  where
    by_cases : (a b : Bool) → (a || b) ≡ true → (not a && not b) ≡ false
    by_cases a b h = ground (arith, h)

    of_targets :
        (ts : List Str)
        → (if is_empty ts
            then filter_targets match es
            else record e { targets = ts } ∷ filter_targets match es)
          ≡ cut e ts ++ filter_targets match es
    of_targets [] = refl
    of_targets (t ∷ ts) = refl

targets_of-cut :
    (ty : Str) (e : Endpoint) (ts : List Str)
    → targets_of ty (cut e ts) ≡ (if e.record_type == ty then ts else [])
unfolding targets_of
targets_of-cut ty e [] = elim (Bool-cases (e.record_type == ty)) [
  | inl same ↦ rw same refl
  | inr other ↦ rw other refl
]
targets_of-cut ty e (t ∷ ts) = elim (Bool-cases (e.record_type == ty)) [
  | inl same ↦ rw same (append-nil (t ∷ ts))
  | inr other ↦ rw other refl
]

pub filter_targets-targets :
    (match : Str → Bool) (ty : Str) (es : List Endpoint)
    → targets_of ty (filter_targets match es)
      ≡ (if is_address ty then keep match (targets_of ty es) else targets_of ty es)
unfolding filter_targets targets_of
filter_targets-targets match ty [] = elim (Bool-cases (is_address ty)) [
  | inl address ↦ rw address refl
  | inr other ↦ rw other refl
]
filter_targets-targets match ty (e ∷ es) = elim (Bool-cases (is_address e.record_type)) [
  | inl address ↦
      ap (targets_of ty) (filter_address match e es address)
      ∙ targets_of-append ty (cut e (keep match e.targets)) (filter_targets match es)
      ∙ ap (λ l. l ++ targets_of ty (filter_targets match es))
          (targets_of-cut ty e (keep match e.targets))
      ∙ ap (λ l. (if e.record_type == ty then keep match e.targets else []) ++ l)
          (filter_targets-targets match ty es)
      ∙ at_address address
  | inr other ↦
      ap (targets_of ty) (filter_other match e es other)
      ∙ ap (λ l. if e.record_type == ty then e.targets ++ l else l)
          (filter_targets-targets match ty es)
      ∙ at_other other
]
  where
    at_address :
        is_address e.record_type ≡ true
        → (if e.record_type == ty then keep match e.targets else [])
            ++ (if is_address ty then keep match (targets_of ty es) else targets_of ty es)
          ≡ (if is_address ty then keep match (targets_of ty (e ∷ es)) else targets_of ty (e ∷ es))
    at_address h = elim (Bool-cases (e.record_type == ty)) [
      | inl same ↦
          let of_ty : is_address ty ≡ true =
            subst (λ t. is_address t ≡ true) ((str_eq.beq_iff e.record_type ty).0 same) h in
          rw (same, of_ty) (sym (keep-append match e.targets (targets_of ty es)))
      | inr differs ↦ rw differs refl
    ]

    at_other :
        is_address e.record_type ≡ false
        → (if e.record_type == ty
            then e.targets
              ++ (if is_address ty then keep match (targets_of ty es) else targets_of ty es)
            else (if is_address ty then keep match (targets_of ty es) else targets_of ty es))
          ≡ (if is_address ty then keep match (targets_of ty (e ∷ es)) else targets_of ty (e ∷ es))
    at_other h = elim (Bool-cases (e.record_type == ty)) [
      | inl same ↦
          let of_ty : is_address ty ≡ false =
            subst (λ t. is_address t ≡ false) ((str_eq.beq_iff e.record_type ty).0 same) h in
          rw (same, of_ty) refl
      | inr differs ↦ rw differs refl
    ]
