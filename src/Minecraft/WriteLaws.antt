-- ===== src/Minecraft/WriteLaws.antt =====
-- What a server.properties that WriteProperty of source/internal/minecraft/players.go has written holds.
use bonghos.Base.{
  ◌≡◌, ◌≢◌, refl, sym, ap, ◌∙◌, inl, inr, true, false, ◌&&◌, ◌||◌, not, List, [], ◌∷◌, ◌++◌, Option,
  none, some, map, if◌then◌else◌, if-elim, eqb, any, All, Bool-cases, arith,
}
use bonghos.Base.Text.{Text, text_eq, text_eq_refl, text_eq→eq, trim_space}
use bonghos.Base.Parse.{split_on, cut_at, push_rune, Differs, split_on-append, split_on-word}
use bonghos.Minecraft.Properties.{
  newline, is_comment, trimmed_pair, read_line, add_assignment, read_lines, read_properties, lookup,
  has_key, assigns, assignment, write_line, write_lines, join_lines, write_property,
}
use bonghos.Minecraft.PropertyLaws.{IsKey, IsValue, read_assignment}

text_eq_apart : (s t : Text) → s ≢ t → text_eq s t ≡ false
text_eq_apart s t h = elim (Bool-cases (text_eq s t)) [
  | inl e ↦ absurd (h (text_eq→eq s t e))
  | inr e ↦ e
]

lookup-same :
    (key value : Text) (ps : List (Text × Text))
    → lookup key ps ≡ none
    → lookup key ((key, value) ∷ ps) ≡ some value
unfolding lookup
lookup-same key value ps h = rw (h, text_eq_refl key) refl

lookup-other :
    (key other value : Text) (ps : List (Text × Text))
    → text_eq key other ≡ false
    → lookup other ((key, value) ∷ ps) ≡ lookup other ps
unfolding lookup
lookup-other key other value ps h = kept (lookup other ps) refl
  where
    kept : (o : Option Text) → lookup other ps ≡ o → lookup other ((key, value) ∷ ps) ≡ o
    kept none e = rw (e, h) refl
    kept (some v) e = rw e refl

lookup-later :
    (key value : Text) (o : Option (Text × Text)) (ps : List (Text × Text))
    → lookup key ps ≡ some value
    → lookup key (add_assignment o ps) ≡ some value
lookup-later key value none ps h = h
lookup-later key value (some p) ps h = unfold lookup in rw h refl

-- A line that is not replaced assigns nothing to the key.
lookup-unassigned :
    (key : Text) (line : Text) (ps : List (Text × Text))
    → assigns key line ≡ false
    → lookup key (add_assignment (read_line line) ps) ≡ lookup key ps
unfolding assigns read_line
lookup-unassigned key line ps h =
    elim (Bool-cases (text_eq (trim_space line) [] || is_comment (trim_space line))) [
      | inl e ↦ rw e refl
      | inr e ↦ rw e (cut (cut_at b'=' (trim_space line)) (ground (arith, h, e)))
    ]
  where
    cut :
        (o : Option (Text × Text))
        → has_key key o ≡ false
        → lookup key (add_assignment (trimmed_pair o) ps) ≡ lookup key ps
    cut none k = refl
    cut (some p) k = lookup-other (trim_space p.0) key (trim_space p.1) ps k

-- A line that is replaced does.
read_line-assigns :
    (key line : Text) → assigns key line ≡ true → (v : Text) × (read_line line ≡ some (key, v))
unfolding assigns read_line
read_line-assigns key line h = cut (trim_space line) h
  where
    taken :
        (o : Option (Text × Text))
        → has_key key o ≡ true
        → (v : Text) × (trimmed_pair o ≡ some (key, v))
    taken none k = cc k
    taken (some p) k =
        (trim_space p.1, ap (λ a. some (a, trim_space p.1)) (text_eq→eq (trim_space p.0) key k))

    cut :
        (t : Text)
        → not (is_comment t) && has_key key (cut_at b'=' t) ≡ true
        → (v : Text) × ((if text_eq t [] || is_comment t
              then none
              else trimmed_pair (cut_at b'=' t))
            ≡ some (key, v))
    cut [] k = let b : false ≡ true = unfold cut_at in k in cc b
    cut (c ∷ t) k =
        let q : is_comment (c ∷ t) ≡ false = ground (arith, k) in
        let r : text_eq (c ∷ t) [] ≡ false = unfold text_eq in refl in
        rw (r, q) (taken (cut_at b'=' (c ∷ t)) (ground (arith, k)))

lookup-append :
    (key : Text) (ps : List (Text × Text)) (value : Text)
    → lookup key (ps ++ (key, value) ∷ []) ≡ some value
unfolding lookup
lookup-append key [] value = rw (text_eq_refl key) refl
lookup-append key (p ∷ ps) value = rw (lookup-append key ps value) refl

lookup-append-other :
    (key other : Text) (ps : List (Text × Text)) (value : Text)
    → text_eq key other ≡ false
    → lookup other (ps ++ (key, value) ∷ []) ≡ lookup other ps
unfolding lookup
lookup-append-other key other [] value h = rw h refl
lookup-append-other key other (p ∷ ps) value h = rw (lookup-append-other key other ps value h) refl

read_lines-append :
    (lines : List Text) (line : Text)
    → read_lines (lines ++ line ∷ []) ≡ read_lines lines ++ add_assignment (read_line line) []
unfolding read_lines
read_lines-append [] line = refl
read_lines-append (l ∷ lines) line = rw (read_lines-append lines line) (added (read_line l))
  where
    added :
        (o : Option (Text × Text))
        → add_assignment o (read_lines lines ++ add_assignment (read_line line) [])
          ≡ add_assignment o (read_lines lines) ++ add_assignment (read_line line) []
    added none = refl
    added (some p) = refl

module _ (key value : Text) (k : IsKey key) (v : IsValue value) where
  abbrev rewritten : List Text → List Text
  rewritten lines = map (write_line key value) lines

  lookup-untouched :
      (lines : List Text)
      → any (assigns key) lines ≡ false
      → lookup key (read_lines (rewritten lines)) ≡ none
  unfolding read_lines
  lookup-untouched [] h = unfold lookup in refl
  lookup-untouched (l ∷ lines) h =
      let a : assigns key l ≡ false = ground (arith, h) in
      rw a (
        lookup-unassigned key l (read_lines (rewritten lines)) a
        ∙ lookup-untouched lines (ground (arith, h)))

  lookup-rewritten :
      (lines : List Text)
      → any (assigns key) lines ≡ true
      → lookup key (read_lines (rewritten lines)) ≡ some value
  unfolding read_lines
  lookup-rewritten [] h = cc h
  lookup-rewritten (l ∷ lines) h = elim (Bool-cases (any (assigns key) lines)) [
    | inl a ↦
        lookup-later key value (read_line (write_line key value l)) _ (lookup-rewritten lines a)
    | inr a ↦
        let b : assigns key l ≡ true = ground (arith, h, a) in
        rw (b, read_assignment key value k v)
          (lookup-same key value (read_lines (rewritten lines)) (lookup-untouched lines a))
  ]

  lookup-appended :
      (lines : List Text)
      → lookup key (read_lines (lines ++ assignment key value ∷ [])) ≡ some value
  lookup-appended lines =
      rw (read_lines-append lines (assignment key value), read_assignment key value k v)
        (lookup-append key (read_lines lines) value)

  lookup-write_lines :
      (lines : List Text) → lookup key (read_lines (write_lines key value lines)) ≡ some value
  unfolding write_lines
  lookup-write_lines lines =
      if-elim (λ ls. lookup key (read_lines ls) ≡ some value) (any (assigns key) lines) _ _
        (λ e. lookup-rewritten lines e) (λ e. lookup-appended (rewritten lines))

  module _ (other : Text) (apart : text_eq key other ≡ false) where
    same_head :
        (o : Option (Text × Text)) (xs ys : List (Text × Text))
        → lookup other xs ≡ lookup other ys
        → lookup other (add_assignment o xs) ≡ lookup other (add_assignment o ys)
    same_head none xs ys h = h
    same_head (some p) xs ys h = unfold lookup in rw h refl

    line_other :
        (l : Text) (xs ys : List (Text × Text))
        → lookup other xs ≡ lookup other ys
        → lookup other (add_assignment (read_line (write_line key value l)) xs)
          ≡ lookup other (add_assignment (read_line l) ys)
    line_other l xs ys h = elim (Bool-cases (assigns key l)) [
      | inr a ↦ rw a (same_head (read_line l) xs ys h)
      | inl a ↦
          let r = read_line-assigns key l a in
          rw (a, read_assignment key value k v, r.1)
            (lookup-other key other value xs apart
              ∙ (h ∙ sym (lookup-other key other r.0 ys apart)))
    ]

    lookup-rewritten-other :
        (lines : List Text)
        → lookup other (read_lines (rewritten lines)) ≡ lookup other (read_lines lines)
    unfolding read_lines
    lookup-rewritten-other [] = refl
    lookup-rewritten-other (l ∷ lines) =
        line_other l (read_lines (rewritten lines)) (read_lines lines)
          (lookup-rewritten-other lines)

    lookup-appended-other :
        (lines : List Text)
        → lookup other (read_lines (lines ++ assignment key value ∷ []))
          ≡ lookup other (read_lines lines)
    lookup-appended-other lines =
        rw (read_lines-append lines (assignment key value), read_assignment key value k v)
          (lookup-append-other key other (read_lines lines) value apart)

    lookup-write_lines-other :
        (lines : List Text)
        → lookup other (read_lines (write_lines key value lines)) ≡ lookup other (read_lines lines)
    unfolding write_lines
    lookup-write_lines-other lines =
        if-elim (λ ls. lookup other (read_lines ls) ≡ lookup other (read_lines lines))
          (any (assigns key) lines) _ _ (λ e. lookup-rewritten-other lines)
          (λ e. lookup-appended-other (rewritten lines) ∙ lookup-rewritten-other lines)

-- Lines without a line break are written and split again.
abbrev NoBreak : Text → Type 0
NoBreak = All (Differs newline)

split-join_lines :
    (w : Text) (ws : List Text)
    → NoBreak w
    → All NoBreak ws
    → split_on newline (join_lines (w ∷ ws)) ≡ w ∷ ws
unfolding join_lines
split-join_lines w [] h k = split_on-word newline w h
split-join_lines w (x ∷ ws) h k =
    split_on-append newline w (join_lines (x ∷ ws)) h
    ∙ ap (λ l. w ∷ l) (split-join_lines x ws k.0 k.1)

split_on-NoBreak : (t : Text) → All NoBreak (split_on newline t)
unfolding split_on
split_on-NoBreak [] = (tt, tt)
split_on-NoBreak (c ∷ t) =
    if-elim (All NoBreak) (eqb c newline) _ _ (λ e. (tt, split_on-NoBreak t))
      (λ e. pushed e (split_on newline t) (split_on-NoBreak t))
  where
    pushed :
        eqb c newline ≡ false → (ws : List Text) → All NoBreak ws → All NoBreak (push_rune c ws)
    pushed e [] h = ((e, tt), tt)
    pushed e (w ∷ ws) h = ((e, h.0), h.1)

All-snoc : (ws : List Text) (w : Text) → All NoBreak ws → NoBreak w → All NoBreak (ws ++ w ∷ [])
All-snoc [] w h k = (k, tt)
All-snoc (x ∷ ws) w h k = (h.0, All-snoc ws w h.1 k)

assignment-NoBreak :
    (key value : Text) → NoBreak key → NoBreak value → NoBreak (assignment key value)
assignment-NoBreak [] value h k = (refl, k)
assignment-NoBreak (c ∷ key) value h k = (h.0, assignment-NoBreak key value h.1 k)

module _ (key value : Text) (k : IsKey key) (v : IsValue value) where
  rewritten-NoBreak :
      (lines : List Text) → All NoBreak lines → All NoBreak (map (write_line key value) lines)
  rewritten-NoBreak [] h = tt
  rewritten-NoBreak (l ∷ lines) h = (
    if-elim NoBreak (assigns key l) _ _ (λ _. assignment-NoBreak key value k.no_break v.no_break)
        (λ _. h.0),
    rewritten-NoBreak lines h.1,
  )

  write_lines-NoBreak :
      (lines : List Text) → All NoBreak lines → All NoBreak (write_lines key value lines)
  unfolding write_lines
  write_lines-NoBreak lines h =
      if-elim (All NoBreak) (any (assigns key) lines) _ _ (λ _. rewritten-NoBreak lines h)
        (λ _.
          All-snoc _ (assignment key value) (rewritten-NoBreak lines h)
            (assignment-NoBreak key value k.no_break v.no_break))

  split-write_property :
      (content : Text)
      → split_on newline (write_property key value content)
        ≡ write_lines key value (split_on newline content)
  unfolding write_property
  split-write_property content =
      joined (write_lines key value (split_on newline content)) some_line
        (write_lines-NoBreak _ (split_on-NoBreak content))
    where
      joined : (ls : List Text) → ls ≢ [] → All NoBreak ls → split_on newline (join_lines ls) ≡ ls
      joined [] n h = absurd (n refl)
      joined (w ∷ ws) n h = split-join_lines w ws h.0 h.1

      some_line : write_lines key value (split_on newline content) ≢ []
      some_line e =
          let q : lookup key (read_lines (write_lines key value (split_on newline content)))
              ≡ some value =
            lookup-write_lines key value k v (split_on newline content) in
          let r : lookup key (read_lines []) ≡ some value = rw e at q in
          let s : none ≡ some value = unfold read_lines lookup in r in cc s

-- After WriteProperty the property has the value, and every other property is as it was, whatever the file
-- was, comments and repeated keys included; the key and the value are trimmed and without line breaks, the
-- key without `=` and no comment.
pub lookup-write_property :
    (key value other content : Text)
    → IsKey key
    → IsValue value
    → key ≢ other
    → (lookup key (read_properties (write_property key value content)) ≡ some value)
      × (lookup other (read_properties (write_property key value content))
          ≡ lookup other (read_properties content))
unfolding read_properties
lookup-write_property key value other content k v h =
    let e = split-write_property key value k v content in
    (
      ap (λ l. lookup key (read_lines l)) e
          ∙ lookup-write_lines key value k v (split_on newline content),
      ap (λ l. lookup other (read_lines l)) e
          ∙ lookup-write_lines-other key value k v other (text_eq_apart key other h)
              (split_on newline content),
    )
