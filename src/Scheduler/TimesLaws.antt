-- ===== src/Scheduler/TimesLaws.antt =====
-- What parseHMS and parseHourly of source/internal/scheduler/scheduler.go accept.
use bonghos.Base.{
  ℕ, ◌+◌, ◌/◌, ◌%◌, ◌≤◌, ◌≡◌, refl, ap, subst, ◌∙◌, List, [], ◌∷◌, ◌++◌, Option, none, some, ℤ, pos,
  negsuc, All, arith,
}
use bonghos.Base.Text.{Text, trim_space, is_space}
use bonghos.Base.Parse.{
  split_on, digits, atoi, NotSpace, Differs, trim_space-NotSpace, split_on-append, split_on-word,
}
use bonghos.Scheduler.Times.{
  TimeOfDay, upto, time_of, time_of_parts, parse_hms, minute_of, minute_of_parts, parse_hourly,
}

-- The time is one of a day.
pub record IsTime (t : TimeOfDay) : Type 0 where
  pub hour : t.hour ≤ 23
  pub minute : t.minute ≤ 59
  pub second : t.second ≤ 59

upto_bound : (high n : ℕ) (o : Option ℤ) → upto high o ≡ some n → n ≤ high
upto_bound high n (some (pos m)) h = ground (arith, h)
upto_bound high n (some (negsuc m)) h = cc h
upto_bound high n none h = cc h

time_of-IsTime :
    (h m s : Option ℕ) (t : TimeOfDay)
    → ((n : ℕ) → h ≡ some n → n ≤ 23)
    → ((n : ℕ) → m ≡ some n → n ≤ 59)
    → ((n : ℕ) → s ≡ some n → n ≤ 59)
    → time_of h m s ≡ some t
    → IsTime t
time_of-IsTime (some h) (some m) (some s) t b c d q =
    subst (λ (o : Option TimeOfDay). elim o [ none ↦ Unit | some u ↦ IsTime u ]) q
      (record { hour = b h refl; minute = c m refl; second = d s refl })
time_of-IsTime (some h) (some m) none t b c d q = cc q
time_of-IsTime (some h) none s t b c d q = cc q
time_of-IsTime none m s t b c d q = cc q

time_of_parts-IsTime : (parts : List Text) (t : TimeOfDay) → time_of_parts parts ≡ some t → IsTime t
time_of_parts-IsTime [] t q = cc q
time_of_parts-IsTime (h ∷ []) t q = cc q
time_of_parts-IsTime (h ∷ m ∷ []) t q =
    time_of-IsTime _ _ (some 0) t (λ n. upto_bound 23 n (atoi h)) (λ n. upto_bound 59 n (atoi m))
      (λ n e. ground (arith, e)) q
time_of_parts-IsTime (h ∷ m ∷ s ∷ []) t q =
    time_of-IsTime _ _ _ t (λ n. upto_bound 23 n (atoi h)) (λ n. upto_bound 59 n (atoi m))
      (λ n. upto_bound 59 n (atoi s)) q
time_of_parts-IsTime (h ∷ m ∷ s ∷ x ∷ more) t q = cc q

-- A time that parseHMS accepts is a time of a day.
pub parse_hms-IsTime : (value : Text) (t : TimeOfDay) → parse_hms value ≡ some t → IsTime t
unfolding parse_hms
parse_hms-IsTime value t h = time_of_parts-IsTime (split_on b':' (trim_space value)) t h

-- A number below a hundred in two digits.
abbrev pub two_digits : ℕ → Text
two_digits n = (b'0' + n / 10) ∷ (b'0' + n % 10) ∷ []

abbrev pub show_hms : TimeOfDay → Text
show_hms t = two_digits t.hour ++ b':' ∷ two_digits t.minute ++ b':' ∷ two_digits t.second

atoi-two_digits : (n : ℕ) → n ≤ 99 → atoi (two_digits n) ≡ some (pos n)
unfolding atoi digits
atoi-two_digits n h = ground arith

-- Two digits: no space and no colon among them.
digits-NotSpace : (n : ℕ) → n ≤ 99 → All NotSpace (two_digits n)
unfolding is_space
digits-NotSpace n h = (ground arith, (ground arith, tt))

digits-Differs : (n : ℕ) → n ≤ 99 → All (Differs b':') (two_digits n)
digits-Differs n h = (ground arith, (ground arith, tt))

upto-two_digits : (high n : ℕ) → n ≤ high → high ≤ 99 → upto high (atoi (two_digits n)) ≡ some n
upto-two_digits high n h k = let e : n ≤ 99 = omega arith in rw (atoi-two_digits n e) (ground arith)

split-show_hms :
    (t : TimeOfDay)
    → IsTime t
    → split_on b':' (show_hms t)
      ≡ two_digits t.hour ∷ two_digits t.minute ∷ two_digits t.second ∷ []
split-show_hms t h =
    split_on-append b':' (two_digits t.hour) _
      (digits-Differs t.hour (let b = h.hour in omega arith))
    ∙ ap (λ l. two_digits t.hour ∷ l)
        (split_on-append b':' (two_digits t.minute) _
            (digits-Differs t.minute (let b = h.minute in omega arith))
          ∙ ap (λ l. two_digits t.minute ∷ l)
              (split_on-word b':' (two_digits t.second)
                (digits-Differs t.second (let b = h.second in omega arith))))

All-append : (P : ℕ → Type 0) (xs ys : Text) → All P xs → All P ys → All P (xs ++ ys)
All-append P [] ys h k = k
All-append P (x ∷ xs) ys h k = (h.0, All-append P xs ys h.1 k)

show_hms-NotSpace : (t : TimeOfDay) → IsTime t → All NotSpace (show_hms t)
show_hms-NotSpace t h =
    All-append NotSpace (two_digits t.hour)
      (b':' ∷ two_digits t.minute ++ b':' ∷ two_digits t.second)
      (digits-NotSpace t.hour (let b = h.hour in omega arith))
      (
        colon,
        All-append NotSpace (two_digits t.minute) (b':' ∷ two_digits t.second)
            (digits-NotSpace t.minute (let b = h.minute in omega arith))
            (colon, digits-NotSpace t.second (let b = h.second in omega arith)),
      )
  where
    colon : NotSpace b':'
    colon = unfold is_space in refl

-- A time of a day that is written HH:MM:SS is read back.
pub parse_hms-show_hms : (t : TimeOfDay) → IsTime t → parse_hms (show_hms t) ≡ some t
unfolding parse_hms
parse_hms-show_hms t h =
    rw
      (
        trim_space-NotSpace (show_hms t) (show_hms-NotSpace t h),
        split-show_hms t h,
        upto-two_digits 23 t.hour h.hour (omega arith),
        upto-two_digits 59 t.minute h.minute (omega arith),
        upto-two_digits 59 t.second h.second (omega arith),
      )
      refl

minute_of_parts_bound :
    (parts : List Text) (m s : ℕ) → minute_of_parts parts ≡ some (m, s) → (m ≤ 59) × (s ≤ 59)
minute_of_parts_bound [] m s q = cc q
minute_of_parts_bound (a ∷ []) m s q = single (upto 59 (atoi a)) (λ n. upto_bound 59 n (atoi a)) q
  where
    single :
        (o : Option ℕ)
        → ((n : ℕ) → o ≡ some n → n ≤ 59)
        → minute_of o (some 0) ≡ some (m, s)
        → (m ≤ 59) × (s ≤ 59)
    single none b q = cc q
    single (some k) b q = let c = b k refl in ground (arith, q)
minute_of_parts_bound (a ∷ b ∷ []) m s q =
    both (upto 59 (atoi a)) (upto 59 (atoi b)) (λ n. upto_bound 59 n (atoi a))
      (λ n. upto_bound 59 n (atoi b)) q
  where
    both :
        (o p : Option ℕ)
        → ((n : ℕ) → o ≡ some n → n ≤ 59)
        → ((n : ℕ) → p ≡ some n → n ≤ 59)
        → minute_of o p ≡ some (m, s)
        → (m ≤ 59) × (s ≤ 59)
    both none p b d q = cc q
    both (some k) none b d q = cc q
    both (some k) (some l) b d q = let c = b k refl in let e = d l refl in ground (arith, q)
minute_of_parts_bound (a ∷ b ∷ c ∷ more) m s q = cc q

-- A minute and second that parseHourly accepts are those of an hour.
pub parse_hourly_bound :
    (value : Text) (m s : ℕ) → parse_hourly value ≡ some (m, s) → (m ≤ 59) × (s ≤ 59)
unfolding parse_hourly
parse_hourly_bound value m s h = minute_of_parts_bound (split_on b':' (trim_space value)) m s h
