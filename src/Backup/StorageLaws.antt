-- ===== src/Backup/StorageLaws.antt =====
-- Where the archives of source/internal/backup lie, and which storage directories it takes.
use bonghos.Base.{
  ◌≡◌, refl, sym, ap, subst, ◌∙◌, inl, inr, true, false, List, [], ◌∷◌, ◌++◌, Option, none, some,
  All, Bool-cases, arith,
}
use bonghos.Base.Text.{Text, text_eq, text_eq_refl, text_eq→eq}
use bonghos.Paths.Clean.{is_abs, CleanPath, clean, render, rel, rel_parts}
use bonghos.Paths.CleanLaws.{clean-rooted, clean-render}
use bonghos.Paths.RootLaws.{IsBelow, NotUp, rooted-NotUp, rel-absolute, safe_join-IsBelow}
use bonghos.Backup.Storage.{
  logical_storage_path, joined, archive_full_path, leads_below, within_path, validate_storage_root,
}

-- An archive's file lies in the storage directory, which is absolute, whatever its recorded path.
pub archive_full_path-IsBelow :
    (root path out : Text)
    → is_abs root ≡ true
    → archive_full_path root path ≡ some out
    → (is_abs out ≡ true) × IsBelow (clean root).parts (clean out).parts
unfolding archive_full_path
archive_full_path-IsBelow root path out a h = inside (logical_storage_path path) h
  where
    inside :
        (o : Option Text)
        → joined root o ≡ some out
        → (is_abs out ≡ true) × IsBelow (clean root).parts (clean out).parts
    inside none h = cc h
    inside (some p) h = safe_join-IsBelow root out (p ∷ []) a h

rel_parts-append : (b rest : List Text) → rel_parts b (b ++ rest) ≡ some rest
unfolding rel_parts
rel_parts-append [] rest = refl
rel_parts-append (w ∷ b) rest = rw (text_eq_refl w) (rel_parts-append b rest)

render-abs : (t : Text) → is_abs (render (clean t)) ≡ is_abs t
render-abs t =
    sym (clean-rooted (render (clean t)))
    ∙ (ap (λ (p : CleanPath). p.rooted) (clean-render t) ∙ clean-rooted t)

-- Elements behind an absolute path that are no climb.
below-leads :
    (b : List Text) (w : Text) (ws : List Text)
    → All NotUp (b ++ w ∷ ws)
    → leads_below (rel_parts b (b ++ w ∷ ws)) ≡ true
below-leads b w ws h = rw (rel_parts-append b (w ∷ ws)) (last b h)
  where
    last : (b : List Text) → All NotUp (b ++ w ∷ ws) → leads_below (some (w ∷ ws)) ≡ true
    last [] h = rw h.0 refl
    last (x ∷ b) h = last b h.1

same_path : (p q : CleanPath) → p.rooted ≡ q.rooted → p.parts ≡ q.parts → p ≡ q
same_path p q e f = cc

append_nil : (xs : List Text) → xs ++ [] ≡ xs
append_nil [] = refl
append_nil (x ∷ xs) = ap (λ l. x ∷ l) (append_nil xs)

-- One path below another that is neither the same nor found below it: there is none.
not_below :
    (c t : Text)
    → is_abs c ≡ true
    → is_abs t ≡ true
    → text_eq (render (clean c)) (render (clean t)) ≡ false
    → within_path (render (clean c)) (render (clean t)) ≡ false
    → IsBelow (clean c).parts (clean t).parts
    → ⊥
unfolding within_path
not_below c t a b n w ([], e) =
    let same : clean c ≡ clean t =
      same_path (clean c) (clean t) (clean-rooted c ∙ (a ∙ (sym b ∙ sym (clean-rooted t))))
        (sym (append_nil (clean c).parts) ∙ sym e) in
    let f : true ≡ false =
      sym (text_eq_refl (render (clean t)))
      ∙ (ap (λ p. text_eq (render p) (render (clean t))) (sym same) ∙ n) in
    cc f
not_below c t a b n w (x ∷ xs, e) =
    let r : rel (render (clean c)) (render (clean t)) ≡ rel_parts (clean c).parts (clean t).parts =
      rel-absolute (render (clean c)) (render (clean t)) (render-abs c ∙ a)
      ∙ rw (render-abs t, b, clean-render c, clean-render t) refl in
    let up : All NotUp ((clean c).parts ++ x ∷ xs) = subst (All NotUp) e (rooted-NotUp t b) in
    let l : leads_below (rel_parts (clean c).parts ((clean c).parts ++ x ∷ xs)) ≡ true =
      below-leads (clean c).parts x xs up in
    let f : true ≡ false =
      sym l
      ∙ (ap (λ q. leads_below (rel_parts (clean c).parts q)) (sym e)
          ∙ (ap leads_below (sym r) ∙ w)) in
    cc f

-- Storage directories that ValidateStorageRoot takes are absolute, and neither is the other nor lies in it.
pub validate_storage_root_lem :
    (current target : Text)
    → validate_storage_root current target ≡ none
    → (is_abs current ≡ true)
      × ((is_abs target ≡ true)
          × ((IsBelow (clean current).parts (clean target).parts → ⊥)
              × (IsBelow (clean target).parts (clean current).parts → ⊥)))
unfolding validate_storage_root
validate_storage_root_lem current target h =
    let a : is_abs (render (clean current)) ≡ true = ground (arith, h) in
    let b : is_abs (render (clean target)) ≡ true = ground (arith, h) in
    let n : text_eq (render (clean current)) (render (clean target)) ≡ false = ground (arith, h) in
    let w : within_path (render (clean current)) (render (clean target)) ≡ false =
      ground (arith, h) in
    let v : within_path (render (clean target)) (render (clean current)) ≡ false =
      ground (arith, h) in
    let c = sym (render-abs current) ∙ a in
    let t = sym (render-abs target) ∙ b in
    (c, (t, (not_below current target c t n w, not_below target current t c (apart _ _ n) v)))
  where
    apart : (s t : Text) → text_eq s t ≡ false → text_eq t s ≡ false
    apart s t n = elim (Bool-cases (text_eq t s)) [
      | inl e ↦
          let f : true ≡ false =
            sym (text_eq_refl t) ∙ (ap (λ u. text_eq u t) (text_eq→eq t s e) ∙ n) in
          cc f
      | inr e ↦ e
    ]
