-- ===== src/Plan/Policy/Cuts.antt =====
-- What a list of policies takes away.
use dns_sync.Base.{◌≡◌, refl, List, [], ◌∷◌, Memᴰ, subst}
use dns_sync.Plan.Policy.{
  Changes, Policy, sync_policy, upsert_only_policy, create_only_policy, apply, apply_all,
}

pub apply_all-create : (ps : List Policy) (c : Changes) → (apply_all ps c).create ≡ c.create
unfolding apply_all apply
apply_all-create [] c = refl
apply_all-create (sync_policy ∷ ps) c = apply_all-create ps (apply sync_policy c)
apply_all-create (upsert_only_policy ∷ ps) c = apply_all-create ps (apply upsert_only_policy c)
apply_all-create (create_only_policy ∷ ps) c = apply_all-create ps (apply create_only_policy c)

-- Nothing is deleted
abbrev pub KeepsAll : Changes → Type 0
KeepsAll c = c.delete ≡ []

-- Nothing is deleted or updated
abbrev pub OnlyCreates : Changes → Type 0
OnlyCreates c = (c.delete ≡ []) × (c.update_old ≡ []) × (c.update_new ≡ [])

apply_all-KeepsAll : (ps : List Policy) (c : Changes) → KeepsAll c → KeepsAll (apply_all ps c)
unfolding apply_all apply
apply_all-KeepsAll [] c h = h
apply_all-KeepsAll (sync_policy ∷ ps) c h = apply_all-KeepsAll ps c h
apply_all-KeepsAll (upsert_only_policy ∷ ps) c h =
    apply_all-KeepsAll ps (apply upsert_only_policy c) refl
apply_all-KeepsAll (create_only_policy ∷ ps) c h =
    apply_all-KeepsAll ps (apply create_only_policy c) refl

apply_all-OnlyCreates :
    (ps : List Policy) (c : Changes) → OnlyCreates c → OnlyCreates (apply_all ps c)
unfolding apply_all apply
apply_all-OnlyCreates [] c h = h
apply_all-OnlyCreates (sync_policy ∷ ps) c h = apply_all-OnlyCreates ps c h
apply_all-OnlyCreates (upsert_only_policy ∷ ps) c (d, o, n) =
    apply_all-OnlyCreates ps (apply upsert_only_policy c) (refl, o, n)
apply_all-OnlyCreates (create_only_policy ∷ ps) c h =
    apply_all-OnlyCreates ps (apply create_only_policy c) (refl, refl, refl)

pub upsert_only-KeepsAll :
    (ps : List Policy) (c : Changes) → Memᴰ upsert_only_policy ps → KeepsAll (apply_all ps c)
unfolding apply_all
upsert_only-KeepsAll [] c m = elim m [ ]
upsert_only-KeepsAll (q ∷ ps) c (Memᴰ.head e) =
    apply_all-KeepsAll ps (apply q c) (subst (λ r. KeepsAll (apply r c)) e (unfold apply in refl))
upsert_only-KeepsAll (q ∷ ps) c (Memᴰ.tail m) = upsert_only-KeepsAll ps (apply q c) m

pub create_only-OnlyCreates :
    (ps : List Policy) (c : Changes) → Memᴰ create_only_policy ps → OnlyCreates (apply_all ps c)
unfolding apply_all
create_only-OnlyCreates [] c m = elim m [ ]
create_only-OnlyCreates (q ∷ ps) c (Memᴰ.head e) =
    apply_all-OnlyCreates ps (apply q c)
      (subst (λ r. OnlyCreates (apply r c)) e (unfold apply in (refl, refl, refl)))
create_only-OnlyCreates (q ∷ ps) c (Memᴰ.tail m) = create_only-OnlyCreates ps (apply q c) m
