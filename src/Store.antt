-- ===== src/Store.antt =====
-- The endpoints that pointers reach. The program shares *Endpoint values between its lists and
-- changes them in place, so a list holds references and the endpoints stand in a store.
pub mod Ensures
use dns_sync.Base.{
  ℕ, ◌≡◌, Bool, true, false, List, Str, ltb, length, ◌==◌, nat_eq, not, if◌then◌else◌,
}
use dns_sync.Endpoint.{Endpoint}
use dns_sync.Targets.{NetIp, sort_targets, same_sorted, is_less_sorted}

abbrev pub Ref : Type 0
Ref = ℕ

abbrev pub Store : Type 0
Store = Ref → Endpoint

-- An action reads and changes the store.
abbrev pub St {ℓ} : Type ℓ → Type ℓ
St A = Store → A × Store

infixl 5 ◌>>=◌ ◌>>◌
unfoldable pub ◌>>=◌ {ℓ κ} : {A : Type ℓ} {B : Type κ} → St A → (A → St B) → St B
◌>>=◌ m f s = let (a, s') = m s in f a s'

unfoldable pub ◌>>◌ {ℓ κ} : {A : Type ℓ} {B : Type κ} → St A → St B → St B
m >> k = m >>= λ _. k

unfoldable pub pure {ℓ} : {A : Type ℓ} → A → St A
pure a s = (a, s)

unfoldable pub read : Ref → St Endpoint
read r s = (s r, s)

unfoldable pub change : Ref → (Endpoint → Endpoint) → St (Unit {0})
change r f s = (tt, λ q. if q == r then f (s q) else s q)

module _ (net : NetIp) where
  -- sort.Sort(e.Targets), in place
  unfoldable pub sort_in_place : Ref → St (Unit {0})
  sort_in_place r = change r (λ e. record e { targets = sort_targets net e.targets })

  -- Both target lists sorted in place, then a test on them: the part that `Same` and `IsLess` share
  unfoldable pub sort_both : Ref → Ref → (List Str → List Str → Bool) → St Bool
  sort_both x y test = do
    sort_in_place x
    sort_in_place y
    a ← read x
    b ← read y
    pure (test a.targets b.targets)

  -- `x.Targets.Same(y.Targets)`
  unfoldable pub same : Ref → Ref → St Bool
  same x y = do
    a ← read x
    b ← read y
    if not (length a.targets == length b.targets)
        then pure false
        else sort_both x y (same_sorted net)

  -- `x.Targets.IsLess(y.Targets)`
  unfoldable pub is_less : Ref → Ref → St Bool
  is_less x y = do
    a ← read x
    b ← read y
    if ltb (length a.targets) (length b.targets)
        then pure true
        else if ltb (length b.targets) (length a.targets)
        then pure false
        else sort_both x y (is_less_sorted net)
