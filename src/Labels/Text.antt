-- ===== src/Labels/Text.antt =====
-- Splitting, joining and trimming undo one another where the separator is missing.
use dns_sync.Base.{
  ℕ, ◌≡◌, refl, ap, ◌∙◌, false, List, [], ◌∷◌, ◌++◌, reverse, Str, All, All-reverse, split, join,
  trim, Bool-cases, inl, inr, trim_left, trim_suffix, nat_beq, nat_beq_iff,
}
use mathlib.Core.List.{reverse-append, reverse-reverse}

-- The byte does not occur in the text.
abbrev pub Lacks : ℕ → Str → Type 0
Lacks c s = All (λ d. nat_beq d c ≡ false) s

-- A text without the separator is one piece, up to where the separator stands.
pub split-append : (sep : ℕ) (w s : Str) → Lacks sep w → split sep (w ++ sep ∷ s) ≡ w ∷ split sep s
unfolding split
split-append sep [] s h = rw ((nat_beq_iff sep sep).1 refl)
split-append sep (c ∷ w) s (p, h) = rw (p, split-append sep w s h)

pub split_one : (sep : ℕ) (w : Str) → Lacks sep w → split sep w ≡ w ∷ []
unfolding split
split_one sep [] h = refl
split_one sep (c ∷ w) (p, h) = rw (p, split_one sep w h)

pub split-join :
    (sep : ℕ) (w : Str) (ws : List Str)
    → Lacks sep w
    → All (Lacks sep) ws
    → split sep (join (sep ∷ []) (w ∷ ws)) ≡ w ∷ ws
unfolding join
split-join sep w [] h k = split_one sep w h
split-join sep w (v ∷ ws) h (p, k) =
    split-append sep w (join (sep ∷ []) (v ∷ ws)) h ∙ ap (λ l. w ∷ l) (split-join sep v ws p k)

-- Trimming a byte that does not occur changes nothing, and takes the quotes off.
trim_left_none : (c : ℕ) (s : Str) → Lacks c s → trim_left (λ d. nat_beq d c) s ≡ s
unfolding trim_left
trim_left_none c [] h = refl
trim_left_none c (d ∷ s) (p, h) = rw p

trim_left_snoc :
    (c : ℕ) (s : Str) → Lacks c s → trim_left (λ d. nat_beq d c) (c ∷ reverse s) ≡ reverse s
unfolding trim_left
trim_left_snoc c s h =
    rw ((nat_beq_iff c c).1 refl) (trim_left_none c (reverse s) (All-reverse _ s h))

pub trim_none : (c : ℕ) (s : Str) → Lacks c s → trim (λ d. nat_beq d c) s ≡ s
unfolding trim
trim_none c s h =
    rw (trim_left_none c s h, trim_left_none c (reverse s) (All-reverse _ s h)) (reverse-reverse s)

-- Nothing where the text is empty.
abbrev if_empty : Str → Str → Str
if_empty [] t = []
if_empty (c ∷ s) t = t

trim_left_opened :
    (c : ℕ) (s : Str)
    → Lacks c s
    → trim_left (λ d. nat_beq d c) (c ∷ (s ++ c ∷ [])) ≡ if_empty s (s ++ c ∷ [])
unfolding trim_left
trim_left_opened c [] h = rw ((nat_beq_iff c c).1 refl) refl
trim_left_opened c (d ∷ s) (p, h) = rw ((nat_beq_iff c c).1 refl, p) refl

pub trim_quoted : (c : ℕ) (s : Str) → Lacks c s → trim (λ d. nat_beq d c) (c ∷ (s ++ c ∷ [])) ≡ s
unfolding trim
trim_quoted c [] h = rw (trim_left_opened c [] h) refl
trim_quoted c (d ∷ s) h =
    rw (trim_left_opened c (d ∷ s) h, reverse-append (d ∷ s) (c ∷ []), trim_left_snoc c (d ∷ s) h)
      (reverse-reverse (d ∷ s))

join-head :
    (sep c : ℕ) (w : Str) (ws : List Str)
    → join (sep ∷ []) ((c ∷ w) ∷ ws) ≡ c ∷ join (sep ∷ []) (w ∷ ws)
unfolding join
join-head sep c w [] = refl
join-head sep c w (v ∷ ws) = refl

-- The first piece and the others, with what they are joined to
split_cons :
    (sep : ℕ) (s : Str)
    → (w : Str) × (ws : List Str) × (split sep s ≡ w ∷ ws) × (join (sep ∷ []) (w ∷ ws) ≡ s)
unfolding split join
split_cons sep [] = ([], [], refl, refl)
split_cons sep (c ∷ s) =
    let (w, ws, e, j) = split_cons sep s in
    elim (Bool-cases (nat_beq c sep)) [
      | inl same ↦ rw (same, e) ([], w ∷ ws, refl, rw ((nat_beq_iff c sep).0 same, j) refl)
      | inr other ↦ rw (other, e) (c ∷ w, ws, refl, join-head sep c w ws ∙ rw j refl)
    ]

-- Joining undoes splitting.
pub join-split : (sep : ℕ) (s : Str) → join (sep ∷ []) (split sep s) ≡ s
join-split sep s = let (w, ws, e, j) = split_cons sep s in rw e j

pub trim_suffix-snoc :
    (c d : ℕ) (s : Str) → nat_beq d c ≡ false → trim_suffix c (s ++ d ∷ []) ≡ s ++ d ∷ []
unfolding trim_suffix
trim_suffix-snoc c d [] h = rw h
trim_suffix-snoc c d (e ∷ []) h = rw h refl
trim_suffix-snoc c d (e ∷ f ∷ s) h = ap (λ t. e ∷ t) (trim_suffix-snoc c d (f ∷ s) h)
