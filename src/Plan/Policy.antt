-- ===== src/Plan/Policy.antt =====
-- plan/policy.go: which kinds of changes are let through.
pub mod Cuts
use dns_sync.Base.{List, [], ◌∷◌}
use dns_sync.Store.{Ref}

-- `endpoint.Changes`, with references for its endpoints
pub record Changes : Type 0 where
  pub create : List Ref
  pub update_old : List Ref
  pub update_new : List Ref
  pub delete : List Ref

abbrev pub no_changes : Changes
no_changes = record { create = []; update_old = []; update_new = []; delete = [] }

-- The implementations of the Policy interface
pub data Policy : Type 0 where
  sync_policy upsert_only_policy create_only_policy : Policy

-- `pol.Apply(changes)`
unfoldable pub apply : Policy → Changes → Changes
apply sync_policy c = c
apply upsert_only_policy c = record c { delete = [] }
apply create_only_policy c = record {
  create = c.create;
  update_old = [];
  update_new = [];
  delete = [];
}

-- The loop over `p.Policies`
unfoldable pub apply_all : List Policy → Changes → Changes
unfolding apply
apply_all [] c = c
apply_all (p ∷ ps) c = apply_all ps (apply p c)
