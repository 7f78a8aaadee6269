-- ===== src/Auth/NameLaws.antt =====
-- Which names count as the name of one account: ValidateUsername and CreateUser of store.go.
use bonghos.Base.{
  suc, inr, inl, ◌≡◌, ◌≢◌, refl, ap, true, false, [], ◌∷◌, map, length, arith, Bool-cases,
}
use bonghos.Base.Text.{
  Text, text_eq, text_eq→eq, trim_space, trim_left, trim_right, keep_right, is_space,
}
use bonghos.Auth.Login.{same_username, fold_case}
use bonghos.Auth.Invitations.{valid_username}

differ_in_length : (xs ys : Text) → length xs ≢ length ys → text_eq xs ys ≡ false
differ_in_length xs ys n = elim (Bool-cases (text_eq xs ys)) [
  | inl e ↦ absurd (n (ap length (text_eq→eq xs ys e)))
  | inr e ↦ e
]

length-fold : (n : Text) → length (map fold_case n) ≡ length n
length-fold [] = refl
length-fold (x ∷ n) = ap suc (length-fold n)

trim-space_before : (n : Text) → trim_space (0x20 ∷ n) ≡ trim_space n
unfolding trim_space trim_left trim_right keep_right is_space
trim-space_before n = before (trim_right n)
  where
    before : (m : Text) → trim_left (keep_right 0x20 m) ≡ trim_left m
    before [] = refl
    before (x ∷ m) = refl

-- For each name that ValidateUsername accepts it accepts the name behind a space too, and the
-- column that is to be unique holds the two names to be different.
pub padded_name_is_another :
    (n : Text)
    → valid_username n ≡ true
    → (valid_username (0x20 ∷ n) ≡ true) × (same_username (0x20 ∷ n) n ≡ false)
unfolding valid_username same_username
padded_name_is_another n v = (
  rw (trim-space_before n) v,
  differ_in_length (map fold_case (0x20 ∷ n)) (map fold_case n)
      (λ e. omega (arith, e, length-fold n)),
)
