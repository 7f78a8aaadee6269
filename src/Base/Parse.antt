-- ===== src/Base/Parse.antt =====
-- The parts of Go's strings and strconv packages that read numbers and lists out of a text.
use Prim.Native.Nat.{ℕ, zero, suc, ◌+◌, ◌-◌, ◌*◌, ◌^◌}
use mathlib.Core.Path.{◌≡◌, refl}
use mathlib.Core.Bool.{Bool, true, false, ◌&&◌}
use mathlib.Core.Option.{Option, none, some}
use mathlib.Core.List.{List, [], ◌∷◌, ◌++◌}
use native.Mathlib.Omega.{arith}
use bonghos.Base.Tests.{if◌then◌else◌, leb, eqb, ltb}
use bonghos.Base.Int.{ℤ, pos, negsuc}
use bonghos.Base.Lists.{All}
use bonghos.Base.Text.{Text, is_space, keep_right, trim_left, trim_right, trim_space}

abbrev pub push_rune : ℕ → List Text → List Text
push_rune c [] = (c ∷ []) ∷ []
push_rune c (w ∷ ws) = (c ∷ w) ∷ ws

-- strings.Split, at one character
unfoldable pub split_on : ℕ → Text → List Text
split_on sep [] = [] ∷ []
split_on sep (c ∷ t) =
    let rest = split_on sep t in if eqb c sep then [] ∷ rest else push_rune c rest

-- strings.Cut, at one character
unfoldable pub cut_at : ℕ → Text → Option (Text × Text)
cut_at sep [] = none
cut_at sep (c ∷ t) = let rest = cut_at sep t in if eqb c sep then some ([], t) else before c rest
  where
    before : ℕ → Option (Text × Text) → Option (Text × Text)
    before c none = none
    before c (some p) = some (c ∷ p.0, p.1)

-- strings.Fields
abbrev pub add_field : Text → List Text → List Text
add_field [] fields = fields
add_field (c ∷ w) fields = (c ∷ w) ∷ fields

-- The first word, which may be empty, and the fields behind it.
unfoldable pub words : Text → Text × List Text
words [] = ([], [])
words (c ∷ t) =
    let rest = words t in if is_space c then ([], add_field rest.0 rest.1) else (c ∷ rest.0, rest.1)

unfoldable pub fields_of : Text → List Text
unfolding words is_space
fields_of t = add_field (words t).0 (words t).1

unfoldable pub digits : ℕ → Text → Option ℕ
digits n [] = some n
digits n (c ∷ t) =
    let rest = digits (10 * n + (c - b'0')) t in if leb b'0' c && leb c b'9' then rest else none

abbrev pub signed : Bool → Option ℕ → Option ℤ
signed negative none = none
signed true (some zero) = some (pos 0)
signed true (some (suc n)) = if ltb n (2 ^ 63) then some (negsuc n) else none
signed false (some n) = if ltb n (2 ^ 63) then some (pos n) else none

abbrev pub magnitude : Text → Option ℕ
magnitude [] = none
magnitude (c ∷ t) = digits 0 (c ∷ t)

-- strconv.Atoi
unfoldable pub atoi : Text → Option ℤ
unfolding digits
atoi [] = none
atoi (c ∷ t) =
    if eqb c b'-'
    then signed true (magnitude t)
    else if eqb c b'+'
    then signed false (magnitude t)
    else signed false (magnitude (c ∷ t))

abbrev pub NotSpace : ℕ → Type 0
NotSpace c = is_space c ≡ false

trim_right-NotSpace : (t : Text) → All NotSpace t → trim_right t ≡ t
unfolding trim_right
trim_right-NotSpace [] h = refl
trim_right-NotSpace (c ∷ t) h = rw (trim_right-NotSpace t h.1) (kept t)
  where
    kept : (u : Text) → keep_right c u ≡ c ∷ u
    kept [] = unfold keep_right in rw (h.0) refl
    kept (x ∷ u) = unfold keep_right in refl

pub trim_space-NotSpace : (t : Text) → All NotSpace t → trim_space t ≡ t
unfolding trim_space
trim_space-NotSpace t h = rw (trim_right-NotSpace t h) (left t h)
  where
    left : (u : Text) → All NotSpace u → trim_left u ≡ u
    left [] k = unfold trim_left in refl
    left (c ∷ u) k = unfold trim_left in rw (k.0) refl

abbrev pub Differs : ℕ → ℕ → Type 0
Differs sep c = eqb c sep ≡ false

pub split_on-append :
    (sep : ℕ) (w t : Text) → All (Differs sep) w → split_on sep (w ++ sep ∷ t) ≡ w ∷ split_on sep t
unfolding split_on
split_on-append sep [] t h = let e : eqb sep sep ≡ true = ground arith in rw e refl
split_on-append sep (c ∷ w) t h = rw (h.0, split_on-append sep w t h.1) refl

pub split_on-word : (sep : ℕ) (w : Text) → All (Differs sep) w → split_on sep w ≡ w ∷ []
unfolding split_on
split_on-word sep [] h = refl
split_on-word sep (c ∷ w) h = rw (h.0, split_on-word sep w h.1) refl
