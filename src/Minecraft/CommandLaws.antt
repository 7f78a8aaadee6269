-- ===== src/Minecraft/CommandLaws.antt =====
-- What reaches the console through PlayerCommand of source/internal/minecraft/players.go.
use bonghos.Base.{
  ℕ, zero, suc, ◌-◌, ◌≤◌, ◌≡◌, refl, not, [], ◌∷◌, if◌then◌else◌, if-elim, ltb, leb, filter, length,
  All, arith,
}
use bonghos.Base.Text.{
  Text, rune_length, byte_length, is_space, keep_right, trim_left, trim_right, trim_space,
}
use bonghos.Minecraft.Commands.{pieces, cut_bytes, sanitize_reason}

-- No control character, and no line break among them.
abbrev pub IsPrintable : ℕ → Type 0
IsPrintable r = 0x20 ≤ r

abbrev pub AllPrintable : Text → Type 0
AllPrintable = All IsPrintable

filter-Printable : (t : Text) → AllPrintable (filter (λ r. not (ltb r 0x20)) t)
filter-Printable [] = tt
filter-Printable (r ∷ rs) =
    if-elim AllPrintable (not (ltb r 0x20)) _ _ (λ e. (ground arith, filter-Printable rs))
      (λ e. filter-Printable rs)

pieces-Printable : (n : ℕ) → AllPrintable (pieces n)
pieces-Printable zero = tt
pieces-Printable (suc n) = (omega arith, pieces-Printable n)

cut_bytes-Printable : (n : ℕ) (t : Text) → AllPrintable t → AllPrintable (cut_bytes n t)
unfolding cut_bytes
cut_bytes-Printable n [] h = tt
cut_bytes-Printable n (r ∷ rs) h =
    if-elim AllPrintable (leb (rune_length r) n) _ _
      (λ e. (h.0, cut_bytes-Printable (n - rune_length r) rs h.1)) (λ e. pieces-Printable n)

trim_right-Printable : (t : Text) → AllPrintable t → AllPrintable (trim_right t)
unfolding trim_right keep_right
trim_right-Printable [] h = tt
trim_right-Printable (r ∷ rs) h = kept (trim_right rs) (trim_right-Printable rs h.1)
  where
    kept : (u : Text) → AllPrintable u → AllPrintable (keep_right r u)
    kept [] k = if-elim AllPrintable (is_space r) _ _ (λ _. tt) (λ _. (h.0, tt))
    kept (x ∷ u) k = (h.0, k)

trim_left-Printable : (t : Text) → AllPrintable t → AllPrintable (trim_left t)
unfolding trim_left
trim_left-Printable [] h = tt
trim_left-Printable (r ∷ rs) h =
    if-elim AllPrintable (is_space r) _ _ (λ _. trim_left-Printable rs h.1) (λ _. h)

pub sanitize_reason-Printable : (t : Text) → AllPrintable (sanitize_reason t)
unfolding sanitize_reason
sanitize_reason-Printable t =
    let kept = filter (λ r. not (ltb r 0x20)) t in
    let cut : AllPrintable (if ltb 200 (byte_length kept) then cut_bytes 200 kept else kept) =
      if-elim AllPrintable (ltb 200 (byte_length kept)) (cut_bytes 200 kept) kept
        (λ _. cut_bytes-Printable 200 kept (filter-Printable t)) (λ _. filter-Printable t) in
    unfold trim_space in trim_left-Printable _ (trim_right-Printable _ cut)

-- How long the reason can be, in runes.
pieces-length : (n : ℕ) → length (pieces n) ≡ n
pieces-length zero = refl
pieces-length (suc n) = omega (arith, pieces-length n)

rune_length_positive : (r : ℕ) → 1 ≤ rune_length r
rune_length_positive r = ground arith

length-cut_bytes : (n : ℕ) (t : Text) → length (cut_bytes n t) ≤ n
unfolding cut_bytes
length-cut_bytes n [] = omega arith
length-cut_bytes n (r ∷ rs) =
    if-elim (λ (u : Text). length u ≤ n) (leb (rune_length r) n) _ _
      (λ e.
        let k : rune_length r ≤ n = ground (arith, e) in
        let p = rune_length_positive r in
        let q = length-cut_bytes (n - rune_length r) rs in omega arith)
      (λ e. let q = pieces-length n in omega arith)

length-byte_length : (t : Text) → length t ≤ byte_length t
unfolding byte_length
length-byte_length [] = omega arith
length-byte_length (r ∷ rs) =
    let p = rune_length_positive r in let q = length-byte_length rs in omega arith

length-trim_right : (t : Text) → length (trim_right t) ≤ length t
unfolding trim_right keep_right
length-trim_right [] = omega arith
length-trim_right (r ∷ rs) = kept (trim_right rs) (length-trim_right rs)
  where
    kept : (u : Text) → length u ≤ length rs → length (keep_right r u) ≤ suc (length rs)
    kept [] k =
        if-elim (λ (u : Text). length u ≤ suc (length rs)) (is_space r) _ _ (λ _. omega arith)
          (λ _. omega arith)
    kept (x ∷ u) k = omega arith

pub length-trim_left : (t : Text) → length (trim_left t) ≤ length t
unfolding trim_left
length-trim_left [] = omega arith
length-trim_left (r ∷ rs) =
    if-elim (λ (u : Text). length u ≤ suc (length rs)) (is_space r) _ _
      (λ _. let q = length-trim_left rs in omega arith) (λ _. omega arith)

pub length-sanitize_reason : (t : Text) → length (sanitize_reason t) ≤ 200
unfolding sanitize_reason
length-sanitize_reason t =
    let kept = filter (λ r. not (ltb r 0x20)) t in
    let cut : length (if ltb 200 (byte_length kept) then cut_bytes 200 kept else kept) ≤ 200 =
      if-elim (λ (u : Text). length u ≤ 200) (ltb 200 (byte_length kept)) (cut_bytes 200 kept) kept
        (λ _. length-cut_bytes 200 kept) (λ e. let q = length-byte_length kept in ground arith) in
    unfold trim_space in
    let p =
      length-trim_left
        (trim_right (if ltb 200 (byte_length kept) then cut_bytes 200 kept else kept)) in
    let q = length-trim_right (if ltb 200 (byte_length kept) then cut_bytes 200 kept else kept) in
    omega arith
