-- ===== src/Instance/SlugLaws.antt =====
-- A directory name that GenerateSlug of source/internal/instance/instance.go makes is valid.
use bonghos.Base.{
  ℕ, zero, suc, ◌≤◌, ◌≡◌, refl, ◌⊎◌, inl, inr, true, false, ◌||◌, [], ◌∷◌, if-elim, eqb, ltb, all,
  any, filter, length, take, All, arith,
}
use bonghos.Base.Text.{Text, text_eq, codes, byte_length, trim_space, to_lower}
use bonghos.Instance.Slug.{
  is_slug_char, is_hyphen, is_break, put_hyphen, collapse, keep_last, drop_right, drop_left,
  trim_hyphens, shorten, generate_slug, starts_well, ends_well, is_slug_rune, validate_slug,
}

abbrev pub IsSlugRune : ℕ → Type 0
IsSlugRune c = is_slug_rune c ≡ true

abbrev AllRunes : Text → Type 0
AllRunes = All IsSlugRune

abbrev IsAllowed : ℕ → Type 0
IsAllowed c = is_slug_char c || is_break c ≡ true

filter-IsAllowed : (t : Text) → All IsAllowed (filter (λ c. is_slug_char c || is_break c) t)
filter-IsAllowed [] = tt
filter-IsAllowed (c ∷ t) =
    if-elim (All IsAllowed) (is_slug_char c || is_break c) _ _ (λ e. (e, filter-IsAllowed t))
      (λ e. filter-IsAllowed t)

collapse-runes : (t : Text) → All IsAllowed t → AllRunes (collapse t)
unfolding collapse
collapse-runes [] h = tt
collapse-runes (c ∷ t) h =
    if-elim AllRunes (is_break c) _ _ (λ e. hyphened (collapse t) (collapse-runes t h.1))
      (λ e. (let a = h.0 in ground arith, collapse-runes t h.1))
  where
    hyphened : (u : Text) → AllRunes u → AllRunes (put_hyphen u)
    hyphened [] k = (refl, tt)
    hyphened (d ∷ u) k = if-elim AllRunes (is_hyphen d) _ _ (λ _. k) (λ _. (refl, k))

drop_right-runes : (t : Text) → AllRunes t → AllRunes (drop_right t)
unfolding drop_right
drop_right-runes [] h = tt
drop_right-runes (c ∷ t) h = kept (drop_right t) (drop_right-runes t h.1)
  where
    kept : (u : Text) → AllRunes u → AllRunes (keep_last c u)
    kept [] k = if-elim AllRunes (is_hyphen c) _ _ (λ _. tt) (λ _. (h.0, tt))
    kept (d ∷ u) k = (h.0, k)

drop_left-runes : (t : Text) → AllRunes t → AllRunes (drop_left t)
unfolding drop_left
drop_left-runes [] h = tt
drop_left-runes (c ∷ t) h = if-elim AllRunes (is_hyphen c) _ _ (λ _. drop_left-runes t h.1) (λ _. h)

take-runes : (n : ℕ) (t : Text) → AllRunes t → AllRunes (take n t)
take-runes zero t h = tt
take-runes (suc n) [] h = tt
take-runes (suc n) (c ∷ t) h = (h.0, take-runes n t h.1)

-- The last character is none of the hyphens that were dropped.
abbrev EndsWell : Text → Type 0
EndsWell t = (t ≡ []) ⊎ (ends_well t ≡ true)

drop_right-EndsWell : (t : Text) → AllRunes t → EndsWell (drop_right t)
unfolding drop_right ends_well
drop_right-EndsWell [] h = inl refl
drop_right-EndsWell (c ∷ t) h = kept (drop_right t) (drop_right-EndsWell t h.1)
  where
    kept : (u : Text) → EndsWell u → EndsWell (keep_last c u)
    kept [] k =
        if-elim EndsWell (is_hyphen c) _ _ (λ _. inl refl) (λ e. inr (let a = h.0 in ground arith))
    kept (d ∷ u) (inl e) = cc e
    kept (d ∷ u) (inr e) = inr e

drop_left-EndsWell : (t : Text) → EndsWell t → EndsWell (drop_left t)
unfolding drop_left ends_well
drop_left-EndsWell [] h = inl refl
drop_left-EndsWell (c ∷ t) (inl e) = cc e
drop_left-EndsWell (c ∷ []) (inr e) =
    if-elim EndsWell (is_hyphen c) _ _ (λ _. inl refl) (λ _. inr e)
drop_left-EndsWell (c ∷ d ∷ t) (inr e) =
    if-elim EndsWell (is_hyphen c) _ _ (λ _. drop_left-EndsWell (d ∷ t) (inr e)) (λ _. inr e)

drop_left-starts_well :
    (t : Text) → AllRunes t → (drop_left t ≡ []) ⊎ (starts_well (drop_left t) ≡ true)
unfolding drop_left
drop_left-starts_well [] h = inl refl
drop_left-starts_well (c ∷ t) h =
    if-elim (λ u. (u ≡ []) ⊎ (starts_well u ≡ true)) (is_hyphen c) _ _
      (λ _. drop_left-starts_well t h.1) (λ e. inr (let a = h.0 in ground arith))

-- What the name is before and after it is shortened.
record IsSlug (s : Text) : Type 0 where
  runes : AllRunes s
  starts : (s ≡ []) ⊎ (starts_well s ≡ true)
  ends : EndsWell s

trim_hyphens-IsSlug : (t : Text) → AllRunes t → IsSlug (trim_hyphens t)
trim_hyphens-IsSlug t h =
    let r = drop_right-runes t h in
    record {
      runes = drop_left-runes (drop_right t) r;
      starts = drop_left-starts_well (drop_right t) r;
      ends = drop_left-EndsWell (drop_right t) (drop_right-EndsWell t h);
    }

byte_length-runes : (t : Text) → AllRunes t → byte_length t ≡ length t
unfolding byte_length
byte_length-runes [] h = refl
byte_length-runes (c ∷ t) h = let a = h.0 in let b = byte_length-runes t h.1 in ground arith

length-take : (n : ℕ) (t : Text) → length (take n t) ≤ n
length-take zero t = omega arith
length-take (suc n) [] = omega arith
length-take (suc n) (c ∷ t) = omega (arith, length-take n t)

length-drop_left : (t : Text) → length (drop_left t) ≤ length t
unfolding drop_left
length-drop_left [] = omega arith
length-drop_left (c ∷ t) =
    if-elim (λ (u : Text). length u ≤ suc (length t)) (is_hyphen c) _ _
      (λ _. omega (arith, length-drop_left t)) (λ _. omega arith)

length-drop_right : (t : Text) → length (drop_right t) ≤ length t
unfolding drop_right
length-drop_right [] = omega arith
length-drop_right (c ∷ t) = kept (drop_right t) (length-drop_right t)
  where
    kept : (u : Text) → length u ≤ length t → length (keep_last c u) ≤ suc (length t)
    kept [] k =
        if-elim (λ (u : Text). length u ≤ suc (length t)) (is_hyphen c) _ _ (λ _. omega arith)
          (λ _. omega arith)
    kept (d ∷ u) k = omega arith

shorten-IsSlug : (s : Text) → IsSlug s → IsSlug (shorten s)
shorten-IsSlug s h =
    if-elim IsSlug (ltb 64 (byte_length s)) _ _
      (λ _. trim_hyphens-IsSlug (take 64 s) (take-runes 64 s h.runes)) (λ _. h)

length-shorten : (s : Text) → AllRunes s → length (shorten s) ≤ 64
length-shorten s h =
    if-elim (λ (u : Text). length u ≤ 64) (ltb 64 (byte_length s)) _ _
      (λ _.
        let a = length-take 64 s in
        let b = length-drop_right (take 64 s) in
        let c = length-drop_left (drop_right (take 64 s)) in omega arith)
      (λ e. let b = byte_length-runes s h in ground arith)

all-runes : (s : Text) → AllRunes s → all is_slug_rune s ≡ true
all-runes [] h = refl
all-runes (c ∷ s) h = rw (h.0, all-runes s h.1) refl

no_separators : (s : Text) → AllRunes s → any (λ c. eqb c 0x2f || eqb c 0x5c) s ≡ false
no_separators [] h = refl
no_separators (c ∷ s) h = let a = h.0 in let b = no_separators s h.1 in ground arith

-- A name of the right characters, ends and length is accepted.
slug-accepted : (s : Text) → IsSlug s → length s ≤ 64 → (s ≡ []) ⊎ (validate_slug s ≡ true)
unfolding validate_slug
slug-accepted [] h l = inl refl
slug-accepted (c ∷ s) h l = inr (ends h.starts h.ends)
  where
    ends :
        ((c ∷ s ≡ []) ⊎ (is_slug_char c ≡ true)) → EndsWell (c ∷ s) → validate_slug (c ∷ s) ≡ true
    ends (inl e) k = cc e
    ends (inr a) (inl e) = cc e
    ends (inr a) (inr b) =
        let dot : text_eq (c ∷ s) (codes ".") ≡ false = unfold text_eq in ground arith in
        let dots : text_eq (c ∷ s) (codes "..") ≡ false = unfold text_eq in ground arith in
        let some_char : text_eq (c ∷ s) [] ≡ false = unfold text_eq in refl in
        let long : ltb 64 (byte_length (c ∷ s)) ≡ false =
          let q = byte_length-runes (c ∷ s) h.runes in ground arith in
        let first : eqb c b'.' ≡ false = ground arith in
        unfold validate_slug in
        rw
          (
            some_char,
            dot,
            dots,
            long,
            no_separators (c ∷ s) h.runes,
            first,
            all-runes (c ∷ s) h.runes,
            a,
            b,
          )
          refl

-- Whatever the display name, the directory name made of it is empty or valid.
pub generate_slug-valid :
    (beyond : ℕ → ℕ) (name : Text)
    → (generate_slug beyond name ≡ []) ⊎ (validate_slug (generate_slug beyond name) ≡ true)
unfolding generate_slug
generate_slug-valid beyond name =
    let s =
      trim_hyphens (
        collapse
          (filter (λ c. is_slug_char c || is_break c) (to_lower beyond (trim_space name)))) in
    let h : IsSlug s =
      trim_hyphens-IsSlug _
        (collapse-runes _ (filter-IsAllowed (to_lower beyond (trim_space name)))) in
    slug-accepted (shorten s) (shorten-IsSlug s h) (length-shorten s h.runes)
