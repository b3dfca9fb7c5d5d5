-- ===== src/Controller/Reports.antt =====
-- controller/controller.go: which batches a reconciliation sends, and which errors it returns.
use dns_sync.Base.{
  ◌≡◌, ◌≢◌, ◌≤◌, ◌↔◌, refl, sym, ap, ◌∙◌, subst, true, false, none, some, List, [], ◌∷◌, ◌⊎◌, inl,
  inr, Memᴰ, Bool-cases, arith, length, ltb,
}
use dns_sync.Attempt.{Attempt, failed, returned}
use dns_sync.Targets.{NetIp}
use dns_sync.Store.{Ref, Store}
use dns_sync.Plan.Policy.{Changes}
use dns_sync.Plan.Calculate.{Plan, MapOrder, calculate}
use dns_sync.Controller.Run.{
  Controller, World, Outcome, has_changes, send, stopped, run_adjusted, run_endpoints, run_records,
  run_once, plan_of,
}

-- The first of the three calls that fails does so with the error.
abbrev pub Fails : {E : Type 0} → World E → E → Type 0
Fails w e =
    (w.records ≡ failed e)
    ⊎ ((rs : List Ref) × ((w.records ≡ returned rs)
          × ((w.endpoints rs ≡ failed e)
              ⊎ ((es : List Ref) × ((w.endpoints rs ≡ returned es)
                    × (w.adjust_endpoints es ≡ failed e))))))

-- The three calls return: these records, and these endpoints in the end.
abbrev pub Answers : {E : Type 0} → World E → List Ref → List Ref → Type 0
Answers w rs adjusted =
    (w.records ≡ returned rs)
    × ((es : List Ref) × ((w.endpoints rs ≡ returned es)
          × (w.adjust_endpoints es ≡ returned adjusted)))

-- A batch that creates or deletes something, or whose updates are not equal
abbrev pub HasChanges : {E : Type 0} → World E → Store → Changes → Type 0
HasChanges w s c =
    (c.create ≢ []) ⊎ ((c.delete ≢ []) ⊎ (w.equal s c.update_new c.update_old ≡ false))

-- The plan with the settings of the controller, for the filters of the controller and the registry
abbrev pub intended : {E : Type 0} → Controller → World E → List Ref → List Ref → Plan
intended c w rs adjusted = record {
  current = rs;
  desired = adjusted;
  policies = c.policy ∷ [];
  domain_filter = some c.domain_filter ∷ some w.get_domain_filter ∷ [];
  managed_records = c.managed_record_types;
  exclude_records = c.exclude_record_types;
  owner_id = c.owner;
}

filled_iff : (rs : List Ref) → (ltb 0 (length rs) ≡ true) ↔ (rs ≢ [])
filled_iff [] = (λ h. cc, λ h. absurd (h refl))
filled_iff (r ∷ rs) = (λ h e. cc, λ h. ground arith)

has_changes_iff :
    {E : Type 0} (w : World E) (s : Store) (c : Changes)
    → (has_changes w.equal s c ≡ true) ↔ HasChanges w s c
unfolding has_changes
has_changes_iff w s c = (
  λ h. elim (Bool-cases (ltb 0 (length c.create))) [
    | inl created ↦ inl ((filled_iff c.create).0 created)
    | inr none_created ↦ elim (Bool-cases (ltb 0 (length c.delete))) [
      | inl deleted ↦ inr (inl ((filled_iff c.delete).0 deleted))
      | inr none_deleted ↦ inr (inr (ground (arith, none_created, none_deleted, h)))
    ]
  ],
  λ h. elim h [
    | inl created ↦ ground (arith, (filled_iff c.create).1 created)
    | inr (inl deleted) ↦ ground (arith, (filled_iff c.delete).1 deleted)
    | inr (inr differ) ↦ ground (arith, differ)
  ],
)

not_both :
    {E : Type 0} (w : World E) (e : E) (rs adjusted : List Ref)
    → Fails w e
    → Answers w rs adjusted
    → ⊥
not_both w e rs adjusted (inl f) (p, (es, (q, r))) = cc
not_both w e rs adjusted (inr (rs', (f, inl g))) (p, (es, (q, r))) = cc
not_both w e rs adjusted (inr (rs', (f, inr (es', (g, h))))) (p, (es, (q, r))) = cc

one_answer :
    {E : Type 0} (w : World E) (rs rs' adjusted adjusted' : List Ref)
    → Answers w rs adjusted
    → Answers w rs' adjusted'
    → (rs ≡ rs') × (adjusted ≡ adjusted')
one_answer w rs rs' adjusted adjusted' (p, (es, (q, r))) (p', (es', (q', r'))) = (cc, cc)

one_error : {E : Type 0} (w : World E) (e e' : E) → Fails w e → Fails w e' → e ≡ e'
one_error w e e' (inl f) (inl f') = cc
one_error w e e' (inl f) (inr (rs', (f', g'))) = cc
one_error w e e' (inr (rs, (f, g))) (inl f') = cc
one_error w e e' (inr (rs, (f, inl g))) (inr (rs', (f', inl g'))) = cc
one_error w e e' (inr (rs, (f, inl g))) (inr (rs', (f', inr (es', (g', h'))))) = cc
one_error w e e' (inr (rs, (f, inr (es, (g, h))))) (inr (rs', (f', inl g'))) = cc
one_error w e e' (inr (rs, (f, inr (es, (g, h))))) (inr (rs', (f', inr (es', (g', h'))))) = cc

module _ (net : NetIp) (order : MapOrder) {E : Type 0} (w : World E) (c : Controller)
    (s : Store) where
  abbrev Stops : Outcome E → Type 0
  Stops o = (e : E) × (Fails w e × (o ≡ stopped net order w e s))

  abbrev Goes : Outcome E → Type 0
  Goes o =
      (rs : List Ref) × ((adjusted : List Ref) × (Answers w rs adjusted
          × (o ≡ send net order w (calculate net order (intended c w rs adjusted) s))))

  -- How a run went
  run_once-cases : Stops (run_once net order w c s) ⊎ Goes (run_once net order w c s)
  unfolding run_once run_records run_endpoints run_adjusted plan_of
  run_once-cases = at_records w.records refl
    where
      at_adjusted :
          (rs es : List Ref) (a : Attempt E (List Ref))
          → w.records ≡ returned rs
          → w.endpoints rs ≡ returned es
          → w.adjust_endpoints es ≡ a
          → Stops (run_adjusted net order w c rs a s) ⊎ Goes (run_adjusted net order w c rs a s)
      at_adjusted rs es (failed e) p q r = inl (e, (inr (rs, (p, inr (es, (q, r)))), refl))
      at_adjusted rs es (returned adjusted) p q r = inr (rs, (adjusted, ((p, (es, (q, r))), refl)))

      at_endpoints :
          (rs : List Ref) (a : Attempt E (List Ref))
          → w.records ≡ returned rs
          → w.endpoints rs ≡ a
          → Stops (run_endpoints net order w c rs a s) ⊎ Goes (run_endpoints net order w c rs a s)
      at_endpoints rs (failed e) p q = inl (e, (inr (rs, (p, inl q)), refl))
      at_endpoints rs (returned es) p q = at_adjusted rs es (w.adjust_endpoints es) p q refl

      at_records :
          (a : Attempt E (List Ref))
          → w.records ≡ a
          → Stops (run_records net order w c a s) ⊎ Goes (run_records net order w c a s)
      at_records (failed e) p = inl (e, (inl p, refl))
      at_records (returned rs) p = at_endpoints rs (w.endpoints rs) p refl

  abbrev pub planned : List Ref → List Ref → Changes × Store
  planned rs adjusted = calculate net order (intended c w rs adjusted) s

  -- What a run leaves: a batch was sent just when the three calls returned and the plan of what they
  -- gave is that batch and has changes; there is an error just when one of the calls failed with it,
  -- or ApplyChanges did on the batch that was sent; at most one batch was sent; and after a failed
  -- call the endpoints are as they were.
  pub record IsReported (o : Outcome E) : Type 0 where
    pub sends :
        (b : Changes)
        → Memᴰ b o.sent ↔ (
            (rs : List Ref) × ((adjusted : List Ref) × (Answers w rs adjusted
                × (((planned rs adjusted).0 ≡ b) × HasChanges w (planned rs adjusted).1 b))))
    pub errors :
        (e : E)
        → (o.error ≡ some e)
          ↔ (Fails w e ⊎ ((b : Changes) × (Memᴰ b o.sent × (w.apply_changes b o.store ≡ some e))))
    pub once : length o.sent ≤ 1
    pub untouched : (e : E) → Fails w e → o.store ≡ s

  stopped-IsReported : (e : E) → Fails w e → IsReported (stopped net order w e s)
  stopped-IsReported e f = record {
    sends = λ b. (λ m. elim m [ ], λ t. absurd (not_both w e t.0 t.1.0 f t.1.1.0));
    errors = λ e'. (
      λ h. inl (let same : e ≡ e' = cc in subst (λ x. Fails w x) same f),
      λ t. elim t [ inl f' ↦ ap some (one_error w e e' f f') | inr (b, (m, a)) ↦ elim m [ ] ],
    );
    once = omega arith;
    untouched = λ e' f'. refl;
  }

  same_plan :
      (rs rs' adjusted adjusted' : List Ref)
      → Answers w rs adjusted
      → Answers w rs' adjusted'
      → planned rs adjusted ≡ planned rs' adjusted'
  same_plan rs rs' adjusted adjusted' a a' =
      let (p, q) = one_answer w rs rs' adjusted adjusted' a a' in
      ap (λ l. planned l adjusted) p ∙ ap (λ l. planned rs' l) q

  sent-IsReported :
      (rs adjusted : List Ref)
      → Answers w rs adjusted
      → HasChanges w (planned rs adjusted).1 (planned rs adjusted).0
      → IsReported (record {
        error = w.apply_changes (planned rs adjusted).0 (planned rs adjusted).1;
        sent = (planned rs adjusted).0 ∷ [];
        store = (planned rs adjusted).1;
      })
  sent-IsReported rs adjusted a h = record {
    sends = λ b. (
      λ m. elim m [
        | Memᴰ.head e ↦ (
          rs,
          (adjusted, (a, (sym e, subst (λ x. HasChanges w (planned rs adjusted).1 x) (sym e) h))),
        )
        | Memᴰ.tail n ↦ elim n [ ]
      ],
      λ (rs', (adjusted', (a', (e, h')))).
          Memᴰ.head (sym e ∙ ap (λ t. t.0) (same_plan rs' rs adjusted' adjusted a' a)),
    );
    errors = λ e. (
      λ g. inr ((planned rs adjusted).0, (Memᴰ.head refl, g)),
      λ t. elim t [
        | inl f ↦ absurd (not_both w e rs adjusted f a)
        | inr (b, (m, g)) ↦ elim m [
          | Memᴰ.head d ↦ subst (λ x. w.apply_changes x (planned rs adjusted).1 ≡ some e) d g
          | Memᴰ.tail n ↦ elim n [ ]
        ]
      ],
    );
    once = omega arith;
    untouched = λ e f. absurd (not_both w e rs adjusted f a);
  }

  idle-IsReported :
      (rs adjusted : List Ref)
      → Answers w rs adjusted
      → (HasChanges w (planned rs adjusted).1 (planned rs adjusted).0 → ⊥)
      → IsReported (record { error = none; sent = []; store = (planned rs adjusted).1 })
  idle-IsReported rs adjusted a h = record {
    sends = λ b. (
      λ m. elim m [ ],
      λ (rs', (adjusted', (a', (e, h')))).
          let same = same_plan rs' rs adjusted' adjusted a' a in
          absurd (
            h (
              subst (λ t. HasChanges w t.1 t.0) same
                (subst (λ x. HasChanges w (planned rs' adjusted').1 x) (sym e) h'))),
    );
    errors = λ e. (
      λ g. cc,
      λ t. elim t [ inl f ↦ absurd (not_both w e rs adjusted f a) | inr (b, (m, g)) ↦ elim m [ ] ],
    );
    once = omega arith;
    untouched = λ e f. absurd (not_both w e rs adjusted f a);
  }

  send-IsReported :
      (rs adjusted : List Ref)
      → Answers w rs adjusted
      → IsReported (send net order w (planned rs adjusted))
  unfolding send
  send-IsReported rs adjusted a =
      let (b, t) = planned rs adjusted in
      elim (Bool-cases (has_changes w.equal t b)) [
        | inl changed ↦
            rw changed (sent-IsReported rs adjusted a ((has_changes_iff w t b).0 changed))
        | inr same ↦
            rw same
              (idle-IsReported rs adjusted a (λ h. let changed = (has_changes_iff w t b).1 h in cc))
      ]

  -- A run sends a batch just when the records, the endpoints and the adjusted endpoints are all
  -- returned, and it is the batch of the plan that the settings of the controller make of them, and
  -- has changes. It returns an error just when one of these calls fails with it, or ApplyChanges on
  -- the batch that was sent. It sends at most one batch, and after a failed call the endpoints are as
  -- they were.
  pub run_once-IsReported : IsReported (run_once net order w c s)
  run_once-IsReported = elim run_once-cases [
    | inl (e, (f, same)) ↦ subst IsReported (sym same) (stopped-IsReported e f)
    | inr (rs, (adjusted, (a, same))) ↦ subst IsReported (sym same) (send-IsReported rs adjusted a)
  ]
