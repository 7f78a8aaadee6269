-- ===== src/Minecraft/PropertyLaws.antt =====
-- WriteProperty of source/internal/minecraft/players.go sets one property and leaves the others.
use bonghos.Base.{
  ℕ, suc, ◌≡◌, refl, ap, inl, inr, false, [], ◌∷◌, ◌++◌, some, length, All, Bool-cases, arith,
}
use bonghos.Base.Text.{Text, text_eq, is_space, keep_right, trim_left, trim_right, trim_space}
use bonghos.Base.Parse.{cut_at, Differs}
use bonghos.Minecraft.CommandLaws.{length-trim_left}
use bonghos.Minecraft.Properties.{newline, is_comment, read_line, assignment}

-- No space at either end.
pub record IsTrimmed (t : Text) : Type 0 where
  pub left : trim_left t ≡ t
  pub right : trim_right t ≡ t

-- A key that a line can hold.
pub record IsKey (key : Text) : Type 0 where
  pub trimmed : IsTrimmed key
  pub no_equals : All (Differs b'=') key
  pub no_break : All (Differs newline) key
  pub no_comment : is_comment key ≡ false

-- A value that a line can hold.
pub record IsValue (value : Text) : Type 0 where
  pub trimmed : IsTrimmed value
  pub no_break : All (Differs newline) value

trim_space-IsTrimmed : (t : Text) → IsTrimmed t → trim_space t ≡ t
unfolding trim_space
trim_space-IsTrimmed t h = rw (h.right) (h.left)

-- Behind a character that is no space only the right end counts, before it only the left one.
right_end :
    (w : Text) (c : ℕ) (u : Text)
    → is_space c ≡ false
    → trim_right u ≡ u
    → trim_right (w ++ c ∷ u) ≡ w ++ c ∷ u
unfolding trim_right keep_right
right_end [] c [] h k = rw h refl
right_end [] c (x ∷ u) h k = rw k refl
right_end (r ∷ w) c u h k = rw (right_end w c u h k) (kept w)
  where
    kept : (v : Text) → keep_right r (v ++ c ∷ u) ≡ r ∷ (v ++ c ∷ u)
    kept [] = refl
    kept (x ∷ v) = refl

left_end :
    (w : Text) (c : ℕ) (u : Text)
    → is_space c ≡ false
    → trim_left w ≡ w
    → trim_left (w ++ c ∷ u) ≡ w ++ c ∷ u
unfolding trim_left
left_end [] c u h k = rw h refl
left_end (r ∷ w) c u h k = elim (Bool-cases (is_space r)) [
  | inr e ↦ rw e refl
  | inl e ↦
      let q : trim_left w ≡ r ∷ w = rw e at k in
      let l = length-trim_left w in
      let m : length (trim_left w) ≡ suc (length w) = ap length q in absurd (omega arith)
]

trim_assignment :
    (key value : Text)
    → IsKey key
    → IsValue value
    → trim_space (assignment key value) ≡ assignment key value
unfolding trim_space
trim_assignment key value k v =
    let space : is_space b'=' ≡ false = unfold is_space in refl in
    rw (right_end key b'=' value space v.trimmed.right)
      (left_end key b'=' value space k.trimmed.left)

cut_at-append : (w t : Text) → All (Differs b'=') w → cut_at b'=' (w ++ b'=' ∷ t) ≡ some (w, t)
unfolding cut_at
cut_at-append [] t h = refl
cut_at-append (c ∷ w) t h = rw (h.0, cut_at-append w t h.1) refl

-- The line that WriteProperty writes is read as it was meant.
pub read_assignment :
    (key value : Text)
    → IsKey key
    → IsValue value
    → read_line (assignment key value) ≡ some (key, value)
unfolding read_line
read_assignment key value k v =
    rw
      (
        trim_assignment key value k v,
        nonempty key,
        comment key k.no_comment,
        cut_at-append key value k.no_equals,
        trim_space-IsTrimmed key k.trimmed,
        trim_space-IsTrimmed value v.trimmed,
      )
      refl
  where
    nonempty : (w : Text) → text_eq (w ++ b'=' ∷ value) [] ≡ false
    nonempty [] = unfold text_eq in refl
    nonempty (c ∷ w) = unfold text_eq in refl

    comment : (w : Text) → is_comment w ≡ false → is_comment (w ++ b'=' ∷ value) ≡ false
    comment [] h = refl
    comment (c ∷ w) h = h
