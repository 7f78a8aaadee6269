-- ===== src/Instance/Tests.antt =====
-- Tests of the directory names.
use bonghos.Base.{◌≡◌, refl, ◌⊎◌, true, false, []}
use bonghos.Base.Text.{text_eq, trim_space, to_lower, byte_length, codes}
use bonghos.Instance.Slug.{ends_well, collapse, drop_right, drop_left, generate_slug, validate_slug}
use bonghos.Instance.SlugLaws.{generate_slug-valid}

slug_test : generate_slug (λ c. c) (codes " All the -- Mods: 9! ") ≡ codes "all-the-mods-9"
unfolding generate_slug byte_length drop_left drop_right collapse to_lower trim_space
slug_test = refl

no_slug : generate_slug (λ c. c) (codes "!?") ≡ []
unfolding generate_slug byte_length drop_left drop_right collapse to_lower trim_space
no_slug = refl

dots_refused : validate_slug (codes "..") ≡ false
unfolding validate_slug text_eq
dots_refused = refl

hyphen_refused : validate_slug (codes "a-") ≡ false
unfolding validate_slug text_eq byte_length ends_well
hyphen_refused = refl

generate_slug-valid_example :
    (generate_slug (λ c. c) (codes "../My Pack") ≡ [])
    ⊎ (validate_slug (generate_slug (λ c. c) (codes "../My Pack")) ≡ true)
generate_slug-valid_example = generate_slug-valid (λ c. c) (codes "../My Pack")
