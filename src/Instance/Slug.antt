-- ===== src/Instance/Slug.antt =====
-- Directory names: GenerateSlug, ValidateSlug, RelativeDirFor and BackupDirFor of
-- source/internal/instance/instance.go.
use bonghos.Base.{
  ℕ, Bool, false, ◌&&◌, ◌||◌, [], ◌∷◌, if◌then◌else◌, eqb, ltb, leb, all, any, filter, take,
}
use bonghos.Base.Text.{Text, text_eq, codes, byte_length, trim_space, to_lower}
use bonghos.Paths.Clean.{join}

abbrev pub is_slug_char : ℕ → Bool
is_slug_char c = (leb b'a' c && leb c b'z') || (leb b'0' c && leb c b'9')

abbrev pub is_hyphen : ℕ → Bool
is_hyphen c = eqb c b'-'

-- `[\s-]` of the regexp package
abbrev pub is_break : ℕ → Bool
is_break c = is_hyphen c || (eqb c 9 || (eqb c 10 || (eqb c 12 || (eqb c 13 || eqb c 32))))

abbrev pub put_hyphen : Text → Text
put_hyphen [] = b'-' ∷ []
put_hyphen (c ∷ t) = if is_hyphen c then c ∷ t else b'-' ∷ c ∷ t

-- slugHyphens: every run of breaks becomes one hyphen.
unfoldable pub collapse : Text → Text
collapse [] = []
collapse (c ∷ t) = let rest = collapse t in if is_break c then put_hyphen rest else c ∷ rest

abbrev pub keep_last : ℕ → Text → Text
keep_last c [] = if is_hyphen c then [] else c ∷ []
keep_last c (d ∷ t) = c ∷ d ∷ t

unfoldable pub drop_right : Text → Text
drop_right [] = []
drop_right (c ∷ t) = keep_last c (drop_right t)

unfoldable pub drop_left : Text → Text
drop_left [] = []
drop_left (c ∷ t) = if is_hyphen c then drop_left t else c ∷ t

-- `strings.Trim(s, "-")`
abbrev pub trim_hyphens : Text → Text
trim_hyphens t = drop_left (drop_right t)

abbrev pub shorten : Text → Text
shorten s = if ltb 64 (byte_length s) then trim_hyphens (take 64 s) else s

-- GenerateSlug
unfoldable pub generate_slug : (ℕ → ℕ) → Text → Text
generate_slug beyond name = shorten (
    trim_hyphens
      (collapse (filter (λ c. is_slug_char c || is_break c) (to_lower beyond (trim_space name)))))

abbrev pub starts_well : Text → Bool
starts_well [] = false
starts_well (c ∷ t) = is_slug_char c

unfoldable pub ends_well : Text → Bool
ends_well [] = false
ends_well (c ∷ []) = is_slug_char c
ends_well (c ∷ d ∷ t) = ends_well (d ∷ t)

abbrev pub is_slug_rune : ℕ → Bool
is_slug_rune c = is_slug_char c || is_hyphen c

-- slugValidRE
abbrev pub matches_slug : Text → Bool
matches_slug s = all is_slug_rune s && (starts_well s && ends_well s)

abbrev pub starts_with_dot : Text → Bool
starts_with_dot [] = false
starts_with_dot (c ∷ t) = eqb c b'.'

-- ValidateSlug
unfoldable pub validate_slug : Text → Bool
validate_slug s =
    if text_eq s [] || (text_eq s (codes ".") || text_eq s (codes ".."))
    then false
    else if ltb 64 (byte_length s)
    then false
    else if any (λ c. eqb c 0x2f || eqb c 0x5c) s || starts_with_dot s
    then false
    else matches_slug s

unfoldable pub relative_dir_for : Text → Text
relative_dir_for slug = join (codes "servers/minecraft-java/modded" ∷ slug ∷ [])

unfoldable pub backup_dir_for : Text → Text
backup_dir_for slug = join (codes "backups/minecraft-java/modded" ∷ slug ∷ [])
