-- ===== src/Auth/Totp.antt =====
-- TOTPCode and VerifyTOTP of source/internal/auth/crypto.go. The keyed hash and the base32 decoder
-- are parameters; what the code does with their results is written out.
use bonghos.Base.{
  ℕ, zero, suc, ◌+◌, ◌-◌, ◌*◌, ◌/◌, ◌%◌, ◌^◌, ◌≤◌, ◌<◌, ◌≡◌, ◌⊎◌, inl, inr, ◌↔◌, Bool, true, false,
  ◌||◌, not, List, [], ◌∷◌, Option, none, some, eqb, if◌then◌else◌, length, All, arith, String, ap,
  sym, ◌∙◌,
}
use bonghos.Base.Text.{Text, text_eq, text_eq_iff, trim_space, byte_length, rune_length}

-- `hmac.New(sha1.New, key)` over a message, and `totpEncoding.DecodeString` of the trimmed, upper
-- case secret.
pub record Mac : Type 0 where
  pub key : String → Option String
  pub sum : String → List ℕ → List ℕ

-- Eight bytes, the most significant one first.
unfoldable pub big_endian : ℕ → ℕ → List ℕ
big_endian zero n = []
big_endian (suc k) n = (n / 256 ^ k % 256) ∷ big_endian k n

-- `sum[i]`; the code never reads out of bounds, since the sum has 20 bytes.
byte_at : ℕ → List ℕ → ℕ
byte_at i [] = 0
byte_at zero (b ∷ bs) = b
byte_at (suc i) (b ∷ bs) = byte_at i bs

-- `binary.BigEndian.Uint32(sum[offset:offset+4])`
uint32_at : ℕ → List ℕ → ℕ
unfolding byte_at
uint32_at i bs =
    byte_at i bs * 2 ^ 24
    + byte_at (i + 1) bs * 2 ^ 16
    + byte_at (i + 2) bs * 2 ^ 8
    + byte_at (i + 3) bs

-- `(… & 0x7fffffff) % 1000000`
unfoldable pub truncate : List ℕ → ℕ
unfolding uint32_at byte_at
truncate sum =
    let offset = byte_at (length sum - 1) sum % 16 in uint32_at offset sum % 2 ^ 31 % 1000000

-- `%06d` of a number below 1000000.
unfoldable pub six_digits : ℕ → Text
six_digits n =
    (48 + n / 100000 % 10)
    ∷ (48 + n / 10000 % 10)
    ∷ (48 + n / 1000 % 10)
    ∷ (48 + n / 100 % 10)
    ∷ (48 + n / 10 % 10)
    ∷ (48 + n % 10)
    ∷ []

-- The code of one 30 second step.
unfoldable pub step_code : Mac → String → ℕ → Text
step_code mac key counter = six_digits (truncate (mac.sum key (big_endian 8 counter)))

unfoldable pub totp_code : Mac → String → ℕ → Option Text
totp_code mac secret at = elim (mac.key secret) [
  | none ↦ none
  | some key ↦ some (step_code mac key (at / 30))
]

unfoldable pub code_matches : Text → Option Text → Bool
code_matches code none = false
code_matches code (some want) = text_eq want code

-- VerifyTOTP; whether the secret decodes does not depend on the time, so an error at one skew is an
-- error at all three.
unfoldable pub verify_totp : Mac → String → Text → ℕ → Bool
verify_totp mac secret raw at =
    let code = trim_space raw in
    if not (eqb (byte_length code) 6)
    then false
    else code_matches code (totp_code mac secret at)
      || (code_matches code (totp_code mac secret (at - 30))
          || code_matches code (totp_code mac secret (at + 30)))

abbrev pub IsDigit : ℕ → Type 0
IsDigit c = (48 ≤ c) × (c ≤ 57)

digits_of : (n : ℕ) → (length (six_digits n) ≡ 6) × All IsDigit (six_digits n)
unfolding six_digits
digits_of n = omega arith

one_byte : (d : ℕ) → d < 10 → rune_length (48 + d) ≡ 1
one_byte d h = ground arith

bytes_of : (n : ℕ) → byte_length (six_digits n) ≡ 6
unfolding six_digits byte_length
bytes_of n = omega (
  arith,
  one_byte (n / 100000 % 10),
  one_byte (n / 10000 % 10),
  one_byte (n / 1000 % 10),
  one_byte (n / 100 % 10),
  one_byte (n / 10 % 10),
  one_byte (n % 10),
)

-- Every code consists of six decimal digits.
pub step_code-digits :
    (mac : Mac) (key : String) (counter : ℕ)
    → (length (step_code mac key counter) ≡ 6) × All IsDigit (step_code mac key counter)
unfolding step_code
step_code-digits mac key counter = digits_of (truncate (mac.sum key (big_endian 8 counter)))

step_code-bytes :
    (mac : Mac) (key : String) (counter : ℕ) → byte_length (step_code mac key counter) ≡ 6
unfolding step_code
step_code-bytes mac key counter = bytes_of (truncate (mac.sum key (big_endian 8 counter)))

totp_code-step :
    (mac : Mac) (secret key code : String) (t : Text) (at : ℕ)
    → mac.key secret ≡ some key
    → code_matches t (totp_code mac secret at) ≡ text_eq (step_code mac key (at / 30)) t
unfolding totp_code code_matches
totp_code-step mac secret key code t at k = rw (code_matches, totp_code, k)

module _ (mac : Mac) (secret key : String) (t : Text) (at : ℕ) (k : mac.key secret ≡ some key)
    (late : 30 ≤ at) where
  abbrev accepts : Bool
  accepts =
      code_matches t (totp_code mac secret at)
      || (code_matches t (totp_code mac secret (at - 30))
          || code_matches t (totp_code mac secret (at + 30)))

  accepts_lem : accepts ≡ (
      text_eq (step_code mac key (at / 30)) t
      || (text_eq (step_code mac key (at / 30 - 1)) t
          || text_eq (step_code mac key (at / 30 + 1)) t))
  accepts_lem =
      let before : (at - 30) / 30 ≡ at / 30 - 1 = omega arith in
      let after : (at + 30) / 30 ≡ at / 30 + 1 = omega arith in
      rw (
        totp_code-step mac secret key secret t at k,
        totp_code-step mac secret key secret t (at - 30) k,
        totp_code-step mac secret key secret t (at + 30) k,
        before,
        after,
      )

  abbrev NearStep : Type 0
  NearStep =
      (t ≡ step_code mac key (at / 30))
      ⊎ ((t ≡ step_code mac key (at / 30 - 1)) ⊎ (t ≡ step_code mac key (at / 30 + 1)))

  near-accepts : NearStep → accepts ≡ true
  near-accepts n = accepts_lem ∙ near n
    where
      near :
          NearStep
          → (text_eq (step_code mac key (at / 30)) t
              || (text_eq (step_code mac key (at / 30 - 1)) t
                  || text_eq (step_code mac key (at / 30 + 1)) t))
            ≡ true
      near (inl e) = ground (arith, (text_eq_iff (step_code mac key (at / 30)) t).1 (sym e))
      near (inr (inl e)) =
          ground (arith, (text_eq_iff (step_code mac key (at / 30 - 1)) t).1 (sym e))
      near (inr (inr e)) =
          ground (arith, (text_eq_iff (step_code mac key (at / 30 + 1)) t).1 (sym e))

  accepts-near : accepts ≡ true → NearStep
  accepts-near a =
      let e = sym accepts_lem ∙ a in
      ground (
        arith,
        e,
        (text_eq_iff (step_code mac key (at / 30)) t).0,
        (text_eq_iff (step_code mac key (at / 30 - 1)) t).0,
        (text_eq_iff (step_code mac key (at / 30 + 1)) t).0,
      )

  near-bytes : NearStep → byte_length t ≡ 6
  near-bytes (inl e) = ap byte_length e ∙ step_code-bytes mac key (at / 30)
  near-bytes (inr (inl e)) = ap byte_length e ∙ step_code-bytes mac key (at / 30 - 1)
  near-bytes (inr (inr e)) = ap byte_length e ∙ step_code-bytes mac key (at / 30 + 1)

-- With a secret that decodes, from the second step of the epoch on, the texts that VerifyTOTP accepts
-- are, once trimmed, exactly the codes of the current 30 second step, of the one before and of the one
-- after.
pub verify_totp_iff :
    (mac : Mac) (secret key : String) (raw : Text) (at : ℕ)
    → mac.key secret ≡ some key
    → 30 ≤ at
    → (verify_totp mac secret raw at ≡ true)
      ↔ (trim_space raw ≡ step_code mac key (at / 30))
        ⊎ ((trim_space raw ≡ step_code mac key (at / 30 - 1))
            ⊎ (trim_space raw ≡ step_code mac key (at / 30 + 1)))
unfolding verify_totp
verify_totp_iff mac secret key raw at k h = (
  λ v. accepts-near mac secret key (trim_space raw) at k h (ground arith),
  λ n. ground (
    arith,
    near-accepts mac secret key (trim_space raw) at k h n,
    near-bytes mac secret key (trim_space raw) at k h n,
  ),
)
