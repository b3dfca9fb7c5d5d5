-- ===== src/Plan/Conflict/Choice.antt =====
-- What the resolver picks stands among the candidates.
use dns_sync.Base.{
  true, false, Option, none, some, List, [], ◌∷◌, reverse, Str, All, OptAll, All-reverse, ◌==◌,
  str_eq,
}
use dns_sync.Targets.{NetIp}
use dns_sync.Store.{Ref, Store, read, sort_in_place, is_less}
use dns_sync.Store.Ensures.{
  Ensures, Ensures-pure, Ensures-if, Ensures-bind, Ensures-read, Ensures-is_less,
}
use dns_sync.Plan.Conflict.{
  min_from, resolve_create, or_create, insert_candidate, sort_candidates, find_resource,
  resolve_update, resource,
}

module _ {I : Store → Type 0} (net : NetIp)
    (sorts : (r : Ref) (s : Store) → I s → I (sort_in_place net r s).1) (P : Ref → Type 0) where
  min_from-Ensures :
      (min : Ref) (eps : List Ref) → P min → All P eps → Ensures I P (min_from net min eps)
  unfolding min_from
  min_from-Ensures min [] p h = Ensures-pure min p
  min_from-Ensures min (ep ∷ eps) p (q, h) =
      Ensures-bind (is_less net ep min) _ (Ensures-is_less net sorts ep min) (elim [
        | true ↦ λ _. min_from-Ensures ep eps q h
        | false ↦ λ _. min_from-Ensures min eps p h
      ])

  pub resolve_create-Ensures :
      (eps : List Ref) → All P eps → Ensures I (OptAll P) (resolve_create net eps)
  unfolding resolve_create
  resolve_create-Ensures [] h = Ensures-pure none tt
  resolve_create-Ensures (ep ∷ eps) (p, h) =
      Ensures-bind (min_from net ep eps) _ (min_from-Ensures ep eps p h)
        λ m q. Ensures-pure (some m) q

  insert_candidate-Ensures :
      (c : Ref) (ps : List Ref) → P c → All P ps → Ensures I (All P) (insert_candidate net c ps)
  unfolding insert_candidate
  insert_candidate-Ensures c [] p h = Ensures-pure (c ∷ []) (p, tt)
  insert_candidate-Ensures c (d ∷ ps) p (q, h) =
      Ensures-bind (is_less net c d) _ (Ensures-is_less net sorts c d) λ smaller _.
        Ensures-if smaller _ _
          (λ _.
            Ensures-bind (insert_candidate net c ps) _ (insert_candidate-Ensures c ps p h)
              λ rest k. Ensures-pure (d ∷ rest) (q, k))
          (λ _. Ensures-pure (c ∷ d ∷ ps) (p, (q, h)))

  sort_candidates-Ensures :
      (sorted cs : List Ref)
      → All P sorted
      → All P cs
      → Ensures I (All P) (sort_candidates net sorted cs)
  unfolding sort_candidates
  sort_candidates-Ensures sorted [] h k = Ensures-pure (reverse sorted) (All-reverse P sorted h)
  sort_candidates-Ensures sorted (c ∷ cs) h (p, k) =
      Ensures-bind (insert_candidate net c sorted) _ (insert_candidate-Ensures c sorted p h)
        λ more l. sort_candidates-Ensures more cs l k

  find_resource-Ensures :
      (name : Str) (eps : List Ref) → All P eps → Ensures I (OptAll P) (find_resource net name eps)
  unfolding find_resource
  find_resource-Ensures name [] h = Ensures-pure none tt
  find_resource-Ensures name (ep ∷ eps) (p, h) = Ensures-bind (read ep) _ (Ensures-read ep) λ e _.
      Ensures-if (resource e == name) _ _ (λ _. Ensures-pure (some ep) p)
        (λ _. find_resource-Ensures name eps h)

  or_create-Ensures :
      (sorted : List Ref) (found : Option Ref)
      → All P sorted
      → OptAll P found
      → Ensures I (OptAll P) (or_create net sorted found)
  unfolding or_create
  or_create-Ensures sorted none h k = resolve_create-Ensures sorted h
  or_create-Ensures sorted (some ep) h k = Ensures-pure (some ep) k

  pub resolve_update-Ensures :
      (current : Ref) (eps : List Ref)
      → All P eps
      → Ensures I (OptAll P) (resolve_update net current eps)
  unfolding resolve_update
  resolve_update-Ensures current eps h = Ensures-bind (read current) _ (Ensures-read current) λ c _.
      Ensures-bind (sort_candidates net [] eps) _ (sort_candidates-Ensures [] eps tt h) λ sorted k.
        Ensures-bind (find_resource net (resource c) sorted) _
          (find_resource-Ensures (resource c) sorted k)
          λ found l. or_create-Ensures sorted found k l
