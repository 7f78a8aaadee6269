-- ===== src/Base/Text.antt =====
-- Text as a list of code points, for the code that walks it; Go's `len` counts bytes of UTF-8.
use Prim.Native.Nat.{ℕ, ◌+◌}
use Prim.Native.Char.{code}
use Prim.Native.String.{String}
use mathlib.Core.Path.{◌≡◌, refl, ap}
use mathlib.Core.Logic.{◌↔◌}
use mathlib.Core.Bool.{Bool, true, false, ◌&&◌, ◌||◌}
use mathlib.Core.List.{List, [], ◌∷◌}
use native.Mathlib.Omega.{arith}
use bonghos.Base.Tests.{if◌then◌else◌, leb, eqb, ltb}

abbrev pub Text : Type 0
Text = List ℕ

abbrev pub codes : String → Text
codes String.[] = []
codes (String.◌∷◌ c s) = code c ∷ codes s

unfoldable pub text_eq : Text → Text → Bool
text_eq [] [] = true
text_eq [] (y ∷ ys) = false
text_eq (x ∷ xs) [] = false
text_eq (x ∷ xs) (y ∷ ys) = eqb x y && text_eq xs ys

pub text_eq_refl : (t : Text) → text_eq t t ≡ true
unfolding text_eq
text_eq_refl [] = refl
text_eq_refl (x ∷ xs) = ground (arith, text_eq_refl xs)

pub text_eq→eq : (s t : Text) → text_eq s t ≡ true → s ≡ t
unfolding text_eq
text_eq→eq [] [] h = refl
text_eq→eq [] (y ∷ ys) h = cc
text_eq→eq (x ∷ xs) [] h = cc
text_eq→eq (x ∷ xs) (y ∷ ys) h = ground (arith, text_eq→eq xs ys)

pub text_eq_iff : (s t : Text) → (text_eq s t ≡ true) ↔ (s ≡ t)
text_eq_iff s t = (text_eq→eq s t, λ e. ground (arith, text_eq_refl s, ap (text_eq s) e))

-- The bytes of one code point in UTF-8.
abbrev pub rune_length : ℕ → ℕ
rune_length r = if ltb r 0x80 then 1 else if ltb r 0x800 then 2 else if ltb r 0x10000 then 3 else 4

-- `len` of a string.
unfoldable pub byte_length : Text → ℕ
byte_length [] = 0
byte_length (r ∷ rs) = rune_length r + byte_length rs

-- unicode.IsSpace
unfoldable pub is_space : ℕ → Bool
is_space r =
    (leb 9 r && leb r 13)
    || (eqb r 0x20
        || (eqb r 0x85
            || (eqb r 0xa0
                || (eqb r 0x1680
                    || ((leb 0x2000 r && leb r 0x200a)
                        || (eqb r 0x2028
                            || (eqb r 0x2029
                                || (eqb r 0x202f || (eqb r 0x205f || eqb r 0x3000)))))))))

unfoldable pub trim_left : Text → Text
unfolding is_space
trim_left [] = []
trim_left (r ∷ rs) = if is_space r then trim_left rs else r ∷ rs

-- The right end is trimmed as the text is rebuilt: a space with nothing kept behind it goes.
unfoldable pub keep_right : ℕ → Text → Text
unfolding is_space
keep_right r [] = if is_space r then [] else r ∷ []
keep_right r (x ∷ xs) = r ∷ x ∷ xs

unfoldable pub trim_right : Text → Text
unfolding keep_right
trim_right [] = []
trim_right (r ∷ rs) = keep_right r (trim_right rs)

-- strings.TrimSpace
unfoldable pub trim_space : Text → Text
unfolding trim_left trim_right
trim_space t = trim_left (trim_right t)

-- strings.ToLower; what it does outside ASCII is the Unicode table's, given as `beyond`.
abbrev pub lower_rune : (ℕ → ℕ) → ℕ → ℕ
lower_rune beyond r =
    if leb b'A' r && leb r b'Z' then r + 32 else if ltb r 0x80 then r else beyond r

unfoldable pub to_lower : (ℕ → ℕ) → Text → Text
to_lower beyond [] = []
to_lower beyond (r ∷ rs) = lower_rune beyond r ∷ to_lower beyond rs
