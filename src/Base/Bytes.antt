-- ===== src/Base/Bytes.antt =====
-- Go's strings: sequences of bytes, and what the program uses of package strings. Case mapping and
-- white space are those of ASCII, the alphabet of DNS names.
use Prim.Native.Nat.{ℕ, ◌+◌}
use Prim.Native.Char.{code}
use Prim.Native.String.{String}
use mathlib.Core.Path.{◌≡◌}
use mathlib.Core.Logic.{◌↔◌}
use mathlib.Core.Bool.{Bool, true, false, ◌&&◌, ◌||◌}
use mathlib.Core.List.{List, [], ◌∷◌, ◌++◌, map, reverse}
use native.Mathlib.Omega.{arith}
use dns_sync.Base.Tests.{ltb, leb, nat_beq, if◌then◌else◌}

abbrev pub Str : Type 0
Str = List ℕ

-- A literal's code points: its bytes, since the literals are ASCII.
abbrev pub codes : String → Str
codes String.[] = []
codes (String.◌∷◌ c s) = code c ∷ codes s

-- `==` on strings
unfoldable pub str_beq : Str → Str → Bool
str_beq [] [] = true
str_beq (a ∷ s) (b ∷ t) = nat_beq a b && str_beq s t
str_beq _ _ = false

pub str_beq_iff : (s t : Str) → (str_beq s t ≡ true) ↔ (s ≡ t)
unfolding str_beq
str_beq_iff [] [] = ground arith
str_beq_iff (a ∷ s) (b ∷ t) = ground (arith, str_beq_iff s t)
str_beq_iff _ _ = ground arith

-- `<` on strings: the order of bytes, a proper prefix first
unfoldable pub str_ltb : Str → Str → Bool
str_ltb s [] = false
str_ltb [] (b ∷ t) = true
str_ltb (a ∷ s) (b ∷ t) = ltb a b || (nat_beq a b && str_ltb s t)

-- strings.HasPrefix
unfoldable pub has_prefix : Str → Str → Bool
has_prefix s [] = true
has_prefix [] (b ∷ t) = false
has_prefix (a ∷ s) (b ∷ t) = nat_beq a b && has_prefix s t

-- strings.HasSuffix
unfoldable pub has_suffix : Str → Str → Bool
unfolding has_prefix
has_suffix s t = has_prefix (reverse s) (reverse t)

abbrev pub lower : ℕ → ℕ
lower c = if leb b'A' c && leb c b'Z' then c + 32 else c

-- strings.ToLower
unfoldable pub to_lower : Str → Str
to_lower s = map lower s

unfoldable pub is_space : ℕ → Bool
is_space c = nat_beq c b' ' || (leb 9 c && leb c 13)

unfoldable pub trim_left : (ℕ → Bool) → Str → Str
trim_left p [] = []
trim_left p (c ∷ s) = let rest = trim_left p s in if p c then rest else c ∷ s

unfoldable pub trim : (ℕ → Bool) → Str → Str
unfolding trim_left
trim p s = reverse (trim_left p (reverse (trim_left p s)))

-- strings.TrimSpace
unfoldable pub trim_space : Str → Str
unfolding trim is_space
trim_space s = trim is_space s

-- strings.TrimSuffix, for a suffix of one byte
unfoldable pub trim_suffix : ℕ → Str → Str
trim_suffix c [] = []
trim_suffix c (d ∷ []) = if nat_beq d c then [] else d ∷ []
trim_suffix c (d ∷ s) = d ∷ trim_suffix c s

abbrev add_to_head : ℕ → List Str → List Str
add_to_head c [] = (c ∷ []) ∷ []
add_to_head c (w ∷ ws) = (c ∷ w) ∷ ws

-- strings.Split, for a separator of one byte
unfoldable pub split : ℕ → Str → List Str
split sep [] = [] ∷ []
split sep (c ∷ s) =
    let rest = split sep s in if nat_beq c sep then [] ∷ rest else add_to_head c rest

-- strings.Join
unfoldable pub join : Str → List Str → Str
join sep [] = []
join sep (w ∷ []) = w
join sep (w ∷ ws) = w ++ (sep ++ join sep ws)

-- strings.TrimPrefix
unfoldable pub trim_prefix : Str → Str → Str
trim_prefix s [] = s
trim_prefix [] (b ∷ t) = []
trim_prefix (a ∷ s) (b ∷ t) = if has_prefix (a ∷ s) (b ∷ t) then drop_prefix s t else a ∷ s
  where
    drop_prefix : Str → Str → Str
    drop_prefix s [] = s
    drop_prefix [] (b ∷ t) = []
    drop_prefix (a ∷ s) (b ∷ t) = drop_prefix s t

-- `strings.Replace(s, " ", "", -1)`
unfoldable pub remove_spaces : Str → Str
remove_spaces [] = []
remove_spaces (c ∷ s) = let rest = remove_spaces s in if nat_beq c b' ' then rest else c ∷ rest
