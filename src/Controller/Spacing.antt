-- ===== src/Controller/Spacing.antt =====
-- controller/controller.go: how far apart runs are, and that an event leads to one.
use dns_sync.Base.{
  ℕ, ◌≡◌, false, List, [], ◌∷◌, ◌++◌, ◌+◌, ◌≤◌, Memᴰ, ltb, arith, Bool-cases, inl, inr, refl,
}
use dns_sync.Controller.Schedule.{
  Times, should_run_once, schedule_run_once, Event, tick, event, run,
}

abbrev pub time : Event → ℕ
time (tick t) = t
time (event t) = t

-- The times do not go back, and none is before the bound.
abbrev pub IsOrdered : ℕ → List Event → Type 0
IsOrdered t [] = Unit
IsOrdered t (e ∷ es) = t ≤ time e × IsOrdered (time e) es

-- Each run is at least the gap after the one before, the first no earlier than the bound.
abbrev pub IsSpaced : ℕ → ℕ → List ℕ → Type 0
IsSpaced gap bound [] = Unit
IsSpaced gap bound (r ∷ rs) = bound ≤ r × IsSpaced gap (r + gap) rs

IsSpaced-le : (gap : ℕ) {a b : ℕ} → a ≤ b → (rs : List ℕ) → IsSpaced gap b rs → IsSpaced gap a rs
IsSpaced-le gap l [] h = tt
IsSpaced-le gap l (r ∷ rs) (p, h) = (omega (arith, l, p), h)

-- The next run is due no earlier than the gap after the last one, and stays so.
run_from :
    (c : Times) (gap last now next : ℕ) (es : List Event)
    → gap ≤ c.interval
    → gap ≤ c.min_event_sync_interval
    → last ≤ now
    → last + gap ≤ next
    → IsOrdered now es
    → IsSpaced gap (last + gap) (run c next es)
unfolding run schedule_run_once should_run_once
run_from c gap last now next [] i m l d o = tt
run_from c gap last now next (tick t ∷ es) i m l d (p, o) = elim (Bool-cases (ltb t next)) [
  | inl early ↦ rw early (run_from c gap last t next es i m (omega (arith, l, p)) d o)
  | inr due ↦ rw due (
    ground (arith, due, d),
    run_from c gap t t (t + c.interval) es i m (omega arith) (omega (arith, i)) o,
  )
]
run_from c gap last now next (event t ∷ es) i m l d (p, o) =
    run_from c gap last t (schedule_run_once c t next) es i m (omega (arith, l, p)) later o
  where
    later : last + gap ≤ schedule_run_once c t next
    later = ground (arith, d, l, p, m)

-- However often events and ticks come, two runs are at least the gap apart, where the gap is at most
-- the interval and at most the window for events; the times do not go back.
pub run-IsSpaced :
    (c : Times) (gap now next : ℕ) (es : List Event)
    → gap ≤ c.interval
    → gap ≤ c.min_event_sync_interval
    → IsOrdered now es
    → IsSpaced gap now (run c next es)
unfolding run should_run_once
run-IsSpaced c gap now next [] i m o = tt
run-IsSpaced c gap now next (tick t ∷ es) i m (p, o) = elim (Bool-cases (ltb t next)) [
  | inl early ↦ rw early (IsSpaced-le gap p _ (run-IsSpaced c gap t next es i m o))
  | inr due ↦
      rw due (p, run_from c gap t t (t + c.interval) es i m (omega arith) (omega (arith, i)) o)
]
run-IsSpaced c gap now next (event t ∷ es) i m (p, o) =
    IsSpaced-le gap p _ (run-IsSpaced c gap t (schedule_run_once c t next) es i m o)

schedule_run_once-le : (c : Times) (t next : ℕ) → schedule_run_once c t next ≤ next
unfolding schedule_run_once
schedule_run_once-le c t next = ground arith

schedule_run_once-window :
    (c : Times) (t next : ℕ) → schedule_run_once c t next ≤ t + c.min_event_sync_interval
unfolding schedule_run_once
schedule_run_once-window c t next = ground arith

last_time : (t t' : ℕ) (es fs : List Event) → IsOrdered t (es ++ tick t' ∷ fs) → t ≤ t'
last_time t t' [] fs o = o.0
last_time t t' (e ∷ es) fs (p, o) = omega (arith, p, last_time (time e) t' es fs o)

not_early : (next t : ℕ) → next ≤ t → ltb t next ≡ false
not_early next t w = ground arith

-- A tick at or after the due time means that a run has taken place by then.
run_reached :
    (c : Times) (now next t' : ℕ) (es fs : List Event)
    → next ≤ t'
    → IsOrdered now (es ++ tick t' ∷ fs)
    → (r : ℕ) × Memᴰ r (run c next (es ++ tick t' ∷ fs)) × (now ≤ r) × (r ≤ t')
unfolding run should_run_once
run_reached c now next t' [] fs w (p, o) =
    rw (not_early next t' w) (t', Memᴰ.head refl, p, omega arith)
run_reached c now next t' (tick t ∷ es) fs w (p, o) = elim (Bool-cases (ltb t next)) [
  | inl early ↦
      let (r, m, l, u) = run_reached c t next t' es fs w o in
      rw early (r, m, omega (arith, p, l), u)
  | inr due ↦ rw due (t, Memᴰ.head refl, p, last_time t t' es fs o)
]
run_reached c now next t' (event t ∷ es) fs w (p, o) =
    let (r, m, l, u) =
      run_reached c t (schedule_run_once c t next) t' es fs
        (omega (arith, w, schedule_run_once-le c t next)) o in
    (r, m, omega (arith, p, l), u)

-- In times that do not go back, between an event and a tick that is later by the window for events or
-- more there is a run, whatever else comes between them and after.
pub run-event :
    (c : Times) (next t t' : ℕ) (es fs : List Event)
    → t + c.min_event_sync_interval ≤ t'
    → IsOrdered t (es ++ tick t' ∷ fs)
    → (r : ℕ) × Memᴰ r (run c next (event t ∷ (es ++ tick t' ∷ fs))) × (t ≤ r) × (r ≤ t')
unfolding run
run-event c next t t' es fs w o =
    run_reached c t (schedule_run_once c t next) t' es fs
      (omega (arith, w, schedule_run_once-window c t next)) o
