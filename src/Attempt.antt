-- ===== src/Attempt.antt =====
-- A call that may fail: Go's pair of a value and an error.
use dns_sync.Base.{List, [], ◌∷◌, ◌++◌}

pub data Attempt {ℓ} (E : Type 0) (A : Type ℓ) : Type ℓ where
  failed : E → Attempt E A
  returned : A → Attempt E A

-- `if err != nil { return err }`, and what comes after it
abbrev pub continue {ℓ κ} :
    {E : Type 0} {A : Type ℓ} {B : Type κ} → Attempt E A → (A → Attempt E B) → Attempt E B
continue (failed e) f = failed e
continue (returned a) f = f a

-- A loop that returns the first error, and appends what the steps give
abbrev pub gather {ℓ κ} :
    {E : Type 0} {A : Type ℓ} {B : Type κ} → (A → Attempt E (List B)) → List A → Attempt E (List B)
gather f [] = returned []
gather f (x ∷ xs) = continue (f x) (λ ys. continue (gather f xs) (λ zs. returned (ys ++ zs)))
