-- ===== src/ConsolePages/TailLaws.antt =====
-- Reading from the end gives the same lines as reading everything: tailLines of
-- source/internal/app/console_history.go.
use bonghos.Base.{
  ℕ, zero, suc, ◌+◌, ◌-◌, ◌≤◌, ◌<◌, min, ◌≡◌, refl, sym, ap, ◌∙◌, ◌⊎◌, inl, inr, false, ◌&&◌, List,
  [], ◌∷◌, ◌++◌, Option, some, map, if◌then◌else◌, if-elim, eqb, ltb, leb, length, length-append,
  drop, take, Bool-cases, arith,
}
use bonghos.Base.Text.{Text, text_eq}
use bonghos.Base.Parse.{split_on, push_rune}
use bonghos.ConsolePages.Tail.{
  line_feed, return, breaks, next_is_break, join_breaks, break_of, drop_last_empty, lines_of,
  last_of, read_back, lines_from, tail_lines,
}

-- The normalised text.
abbrev normal : Text → Text
normal t = map break_of (join_breaks t)

-- What stands before a line break does not change what stands behind it.
join_breaks-break :
    (w y : Text) → (v : Text) × (join_breaks (w ++ line_feed ∷ y) ≡ v ++ line_feed ∷ join_breaks y)
unfolding join_breaks
join_breaks-break [] y = ([], refl)
join_breaks-break (c ∷ w) y =
    let (v, e) = join_breaks-break w y in
    if-elim (λ (u : Text). (v : Text) × (u ≡ v ++ line_feed ∷ join_breaks y))
      (eqb c return && next_is_break (w ++ line_feed ∷ y)) _ _ (λ _. (v, e))
      (λ _. (c ∷ v, ap (λ u. c ∷ u) e))

map-append : (f : ℕ → ℕ) (xs ys : Text) → map f (xs ++ ys) ≡ map f xs ++ map f ys
map-append f [] ys = refl
map-append f (x ∷ xs) ys = ap (λ l. f x ∷ l) (map-append f xs ys)

normal-break : (w y : Text) → (v : Text) × (normal (w ++ line_feed ∷ y) ≡ v ++ line_feed ∷ normal y)
normal-break w y =
    let b = join_breaks-break w y in
    (map break_of b.0, ap (map break_of) b.1 ∙ map-append break_of b.0 (line_feed ∷ join_breaks y))

split-some : (t : Text) → (w : Text) × ((ws : List Text) × (split_on line_feed t ≡ w ∷ ws))
unfolding split_on
split-some [] = ([], ([], refl))
split-some (c ∷ t) =
    let (w, (ws, e)) = split-some t in
    if-elim (λ (l : List Text). (w : Text) × ((ws : List Text) × (l ≡ w ∷ ws))) (eqb c line_feed) _
      _ (λ _. ([], (split_on line_feed t, refl))) (λ _. (c ∷ w, (ws, ap (push_rune c) e)))

split-break :
    (v y : Text)
    → split_on line_feed (v ++ line_feed ∷ y) ≡ split_on line_feed v ++ split_on line_feed y
unfolding split_on
split-break [] y = refl
split-break (c ∷ v) y =
    let ih = split-break v y in
    let s = split-some v in
    if-elim
      (λ (l : List Text).
        l
        ≡ (if eqb c line_feed
            then [] ∷ split_on line_feed v
            else push_rune c (split_on line_feed v))
          ++ split_on line_feed y)
      (eqb c line_feed) _ _ (λ e. rw (e) (ap (λ l. [] ∷ l) ih)) (λ e. rw (e, ih, s.1.1) refl)

drop_last_empty-append :
    (xs : List Text) (w : Text) (ws : List Text)
    → drop_last_empty (xs ++ w ∷ ws) ≡ xs ++ drop_last_empty (w ∷ ws)
unfolding drop_last_empty
drop_last_empty-append [] w ws = refl
drop_last_empty-append (x ∷ []) w ws = refl
drop_last_empty-append (x ∷ z ∷ xs) w ws = ap (λ l. x ∷ l) (drop_last_empty-append (z ∷ xs) w ws)

-- The lines behind a line break are the last lines.
lines_of-break :
    (w y : Text) → (front : List Text) × (lines_of (w ++ line_feed ∷ y) ≡ front ++ lines_of y)
unfolding lines_of
lines_of-break w y =
    let n = normal-break w y in
    let s = split-some (normal y) in
    (
      split_on line_feed n.0,
      ap (λ t. drop_last_empty (split_on line_feed t)) n.1
          ∙ (ap drop_last_empty (split-break n.0 (normal y))
              ∙ (ap (λ l. drop_last_empty (split_on line_feed n.0 ++ l)) s.1.1
                  ∙ (drop_last_empty-append (split_on line_feed n.0) s.0 s.1.0
                      ∙ ap (λ l. split_on line_feed n.0 ++ drop_last_empty l) (sym s.1.1)))),
    )

drop-append : (xs ys : List Text) (k : ℕ) → drop (length xs + k) (xs ++ ys) ≡ drop k ys
drop-append [] ys k = let e : 0 + k ≡ k = omega arith in rw e refl
drop-append (x ∷ xs) ys k =
    let e : suc (length xs) + k ≡ suc (length xs + k) = omega arith in rw e (drop-append xs ys k)

last_of-append :
    (limit : ℕ) (front lines : List Text)
    → limit ≤ length lines
    → last_of limit (front ++ lines) ≡ last_of limit lines
last_of-append limit front lines h =
    let e : length (front ++ lines) - limit ≡ length front + (length lines - limit) =
      omega (arith, h, length-append front lines) in
    rw e (drop-append front lines (length lines - limit))

-- There are at least as many lines as line breaks.
breaks-join_breaks : (t : Text) → breaks t ≤ breaks (normal t)
unfolding join_breaks
breaks-join_breaks [] = omega arith
breaks-join_breaks (c ∷ t) =
    let ih = breaks-join_breaks t in
    if-elim (λ (u : Text). breaks (c ∷ t) ≤ breaks (map break_of u))
      (eqb c return && next_is_break t) _ _ (λ e. ground arith) (λ e. ground arith)

length-split_on : (t : Text) → length (split_on line_feed t) ≡ breaks t + 1
unfolding split_on
length-split_on [] = refl
length-split_on (c ∷ t) =
    let ih = length-split_on t in
    let s = split-some t in
    if-elim (λ (l : List Text). length l ≡ breaks (c ∷ t) + 1) (eqb c line_feed) _ _
      (λ e. ground arith) (λ e. pushed (split_on line_feed t) s ih e)
  where
    pushed :
        (l : List Text)
        → ((w : Text) × ((ws : List Text) × (l ≡ w ∷ ws)))
        → length l ≡ breaks t + 1
        → eqb c line_feed ≡ false
        → length (push_rune c l) ≡ breaks (c ∷ t) + 1
    pushed [] (w, (ws, e)) h f = cc e
    pushed (w ∷ ws) s h f = ground arith

length-drop_last_empty : (ws : List Text) → length ws ≤ length (drop_last_empty ws) + 1
unfolding drop_last_empty
length-drop_last_empty [] = omega arith
length-drop_last_empty (w ∷ []) =
    if-elim (λ (l : List Text). 1 ≤ length l + 1) (text_eq w []) _ _ (λ _. omega arith)
      (λ _. omega arith)
length-drop_last_empty (w ∷ v ∷ ws) = omega (arith, length-drop_last_empty (v ∷ ws))

breaks-lines_of : (t : Text) → breaks t ≤ length (lines_of t)
unfolding lines_of
breaks-lines_of t = omega (
  arith,
  breaks-join_breaks t,
  length-split_on (normal t),
  length-drop_last_empty (split_on line_feed (normal t)),
)

-- The first line break of a text that has one.
first_break :
    (t : Text)
    → 1 ≤ breaks t
    → (w : Text) × ((y : Text) × ((t ≡ w ++ line_feed ∷ y) × (breaks t ≡ breaks y + 1)))
first_break [] h = absurd (omega arith)
first_break (c ∷ t) h = elim (Bool-cases (eqb c line_feed)) [
  | inl e ↦
      let f : c ≡ line_feed = ground (arith, e) in
      ([], (t, (ap (λ x. x ∷ t) f, rw e (omega arith))))
  | inr e ↦
      let r = first_break t (ground (arith, h, e)) in
      (c ∷ r.0, (r.1.0, (ap (λ u. c ∷ u) r.1.1.0, rw e (omega (arith, r.1.1.1)))))
]

append_assoc : (xs ys zs : Text) → (xs ++ ys) ++ zs ≡ xs ++ (ys ++ zs)
append_assoc [] ys zs = refl
append_assoc (x ∷ xs) ys zs = ap (λ l. x ∷ l) (append_assoc xs ys zs)

take-drop : (n : ℕ) (t : Text) → take n t ++ drop n t ≡ t
take-drop zero t = refl
take-drop (suc n) [] = refl
take-drop (suc n) (c ∷ t) = ap (λ l. c ∷ l) (take-drop n t)

-- A suffix with more line breaks than the limit has the last lines.
last_lines :
    (limit : ℕ) (p d : Text)
    → limit < breaks d
    → last_of limit (lines_of (p ++ d)) ≡ last_of limit (lines_of d)
last_lines limit p d h =
    let (w, (y, (e, b))) = first_break d (omega arith) in
    let enough : limit ≤ length (lines_of y) = let q = breaks-lines_of y in omega arith in
    let long = lines_of-break (p ++ w) y in
    let short = lines_of-break w y in
    rw e (
      ap (λ t. last_of limit (lines_of t)) (sym (append_assoc p w (line_feed ∷ y)))
      ∙ (ap (last_of limit) long.1 ∙ last_of-append limit long.0 (lines_of y) enough)
      ∙ sym (ap (last_of limit) short.1 ∙ last_of-append limit short.0 (lines_of y) enough))

breaks-append : (xs ys : Text) → breaks (xs ++ ys) ≡ breaks xs + breaks ys
breaks-append [] ys = omega arith
breaks-append (x ∷ xs) ys = omega (arith, breaks-append xs ys)

drop_nil : (n : ℕ) → ◌≡◌ {A = Text} (drop n []) []
drop_nil zero = refl
drop_nil (suc n) = refl

drop-drop : (m n : ℕ) (t : Text) → drop m (drop n t) ≡ drop (n + m) t
drop-drop m zero t = let e : 0 + m ≡ m = omega arith in rw e refl
drop-drop m (suc n) [] = drop_nil m ∙ sym (drop_nil (suc n + m))
drop-drop m (suc n) (c ∷ t) =
    let e : suc n + m ≡ suc (n + m) = omega arith in rw e (drop-drop m n t)

-- One chunk more.
breaks-chunk :
    (offset n : ℕ) (content : Text)
    → n ≤ offset
    → breaks (drop (offset - n) content)
      ≡ breaks (drop offset content) + breaks (take n (drop (offset - n) content))
breaks-chunk offset n content h =
    let e : offset - n + n ≡ offset = omega arith in
    let a =
      breaks-append (take n (drop (offset - n) content)) (drop n (drop (offset - n) content)) in
    let b : breaks (drop (offset - n) content)
        ≡ breaks (take n (drop (offset - n) content))
          + breaks (drop n (drop (offset - n) content)) =
      ap breaks (sym (take-drop n (drop (offset - n) content))) ∙ a in
    let c : breaks (drop n (drop (offset - n) content)) ≡ breaks (drop offset content) =
      ap breaks (drop-drop n (offset - n) content) ∙ ap (λ k. breaks (drop k content)) e in
    omega arith

-- Where the loop stops there is nothing before, or enough behind.
abbrev StopsAt : ℕ → Text → Option ℕ → Type 0
StopsAt limit content o = (k : ℕ) × ((o ≡ some k) × ((k ≡ 0) ⊎ (limit < breaks (drop k content))))

module _ (chunk limit : ℕ) (content : Text) (positive : 1 ≤ chunk) where
  read_back-StopsAt :
      (fuel offset newlines : ℕ)
      → newlines ≡ breaks (drop offset content)
      → offset < fuel
      → StopsAt limit content (read_back fuel chunk limit content offset newlines)
  unfolding read_back
  read_back-StopsAt zero offset newlines h f = absurd (omega arith)
  read_back-StopsAt (suc fuel) offset newlines h f =
      if-elim (StopsAt limit content) (ltb 0 offset && leb newlines limit) _ _
        (λ e.
          let pos : 1 ≤ offset = ground (arith, e) in
          let b = breaks-chunk offset (min chunk offset) content (omega arith) in
          read_back-StopsAt fuel (offset - min chunk offset) _ (omega arith) (omega arith))
        (λ e. (offset, (refl, stopped e)))
    where
      stopped :
          ltb 0 offset && leb newlines limit ≡ false
          → (offset ≡ 0) ⊎ (limit < breaks (drop offset content))
      stopped e = elim (Bool-cases (ltb 0 offset)) [
        | inr z ↦ inl (ground (arith, z))
        | inl z ↦ inr (ground (arith, z, e, h))
      ]

  lines_from-StopsAt :
      (o : Option ℕ)
      → StopsAt limit content o
      → lines_from limit content o ≡ some (last_of limit (lines_of content))
  lines_from-StopsAt o (k, (e, inl z)) = rw (e, z) refl
  lines_from-StopsAt o (k, (e, inr b)) = rw e (
      ap (λ l. some l)
        (sym (last_lines limit (take k content) (drop k content) b)
          ∙ ap (λ t. last_of limit (lines_of t)) (take-drop k content)))

drop-length : (t : Text) → drop (length t) t ≡ []
drop-length [] = refl
drop-length (c ∷ t) = drop-length t

-- Whatever the size of the chunks, if it is not zero, the loop over them ends, and for a limit that is not zero
-- the lines are the last ones of the whole file, although only its end is read.
pub tail_lines_lem :
    (chunk limit : ℕ) (content : Text)
    → 1 ≤ chunk
    → 1 ≤ limit
    → tail_lines chunk limit content ≡ some (last_of limit (lines_of content))
unfolding tail_lines
tail_lines_lem chunk limit [] c l =
    let e : eqb limit 0 ≡ false = ground (arith, l) in
    unfold lines_of split_on join_breaks drop_last_empty text_eq in
    rw e (let f : 0 - limit ≡ 0 = omega arith in rw f refl)
tail_lines_lem chunk limit (x ∷ content) c l =
    let e : eqb limit 0 ≡ false = ground (arith, l) in
    let n : eqb (length (x ∷ content)) 0 ≡ false = ground arith in
    let z : 0 ≡ breaks (drop (length (x ∷ content)) (x ∷ content)) =
      rw (drop-length content) refl in
    rw (e, n)
      (lines_from-StopsAt chunk limit (x ∷ content) c _ (
        read_back-StopsAt chunk limit (x ∷ content) c (length (x ∷ content) + 1)
          (length (x ∷ content)) 0 z (omega arith)))
