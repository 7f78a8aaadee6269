-- ===== src/Archive/Laws.antt =====
-- What an extraction of source/internal/files/archive.go can touch.
use bonghos.Base.{
  ◌+◌, min, ◌&&◌, ◌-◌, eqb, ltb, take, inr, inl, ℕ, ◌≡◌, refl, sym, ap, subst, ◌∙◌, Bool, true,
  false, List, [], ◌∷◌, ◌++◌, Option, none, some, if◌then◌else◌, if-elim, All, map, ◌||◌,
  Bool-cases, arith,
}
use bonghos.Base.Text.{Text, text_eq}
use bonghos.Paths.Clean.{is_abs, clean, join, rel, rel_parts, dir, render, is_climbing}
use bonghos.Paths.Root.{stays}
use bonghos.Paths.RootLaws.{IsBelow, rel_parts-IsBelow, rel-absolute}
use bonghos.Archive.Entries.{
  io_error, ArchiveError, traversal, absolute, normal_slash, has_drive, copy_limited, open_and_copy,
  Placed, placed, refused, place_below, safe_entry_path, safe_symlink, Fault, sound, no_parents,
  barred, broken, Effect, make_dir, make_parents, remove, write_file, link_symbolic, link_hard,
  Written, write_limited,
}
use bonghos.Archive.Extract.{
  read_link, Limits, TarKind, tar_dir, tar_other, tar_symlink, tar_link, tar_file, ZipKind, zip_dir,
  zip_symlink, zip_file, Entry, with_parents, make, make_symlink, make_link, tar_entry, zip_entry,
  Extracted, go_on, at_place, extract, extract_tar, extract_zip,
}

-- The path lies in the directory, or is it.
abbrev pub IsInside : Text → Text → Type 0
IsInside dest t = (is_abs t ≡ true) × IsBelow (clean dest).parts (clean t).parts

-- All that the effect creates, removes or links to lies in the directory; the target of a symbolic link
-- is read from the link's own directory.
abbrev pub IsConfined : Text → Effect → Type 0
IsConfined dest (make_dir p) = IsInside dest p
IsConfined dest (make_parents p) = IsInside dest p
IsConfined dest (remove p) = IsInside dest p
IsConfined dest (write_file p size) = IsInside dest p
IsConfined dest (link_symbolic p target) =
    IsInside dest p × ((is_abs target ≡ false) × IsInside dest (join (dir p ∷ target ∷ [])))
IsConfined dest (link_hard p target) = IsInside dest p × IsInside dest target

stays-IsInside : (dest t : Text) → is_abs dest ≡ true → stays (rel dest t) ≡ true → IsInside dest t
stays-IsInside dest t a h = decided (is_abs t) (ap stays (sym (rel-absolute dest t a)) ∙ h)
  where
    decided :
        (b : Bool)
        → stays (if b then rel_parts (clean dest).parts (clean t).parts else none) ≡ true
        → (b ≡ true) × IsBelow (clean dest).parts (clean t).parts
    decided true h = (refl, rel_parts-IsBelow (clean dest).parts (clean t).parts h)
    decided false h = cc h

place_below-IsInside :
    (dest t out : Text) → is_abs dest ≡ true → place_below dest t ≡ placed out → IsInside dest out
place_below-IsInside dest t out a h = elim (Bool-cases (stays (rel dest t))) [
  | inl s ↦
      let e : t ≡ out = ground (arith, h, s) in subst (IsInside dest) e (stays-IsInside dest t a s)
  | inr s ↦ absurd (ground (arith, h, s))
]

-- An entry that is placed is placed in the destination.
pub safe_entry_path-IsInside :
    (dest raw out : Text)
    → is_abs dest ≡ true
    → safe_entry_path dest raw ≡ placed out
    → IsInside dest out
unfolding safe_entry_path
safe_entry_path-IsInside dest raw out a h =
    let name = map normal_slash raw in
    let below =
      past (is_climbing (clean name).parts) traversal
        (place_below dest (join (dest ∷ render (clean name) ∷ [])))
        (past (is_abs name || has_drive name) absolute _ (past (text_eq name []) traversal _ h)) in
    place_below-IsInside dest (join (dest ∷ render (clean name) ∷ [])) out a below
  where
    past :
        (b : Bool) (e : ArchiveError) (p : Placed)
        → (if b then refused e else p) ≡ placed out
        → p ≡ placed out
    past true e p h = cc h
    past false e p h = h

safe_symlink-IsInside :
    (dest link target : Text)
    → is_abs dest ≡ true
    → safe_symlink dest link target ≡ none
    → (is_abs target ≡ false) × IsInside dest (join (dir link ∷ target ∷ []))
unfolding safe_symlink
safe_symlink-IsInside dest link target a h =
    (ground (arith, h), stays-IsInside dest (join (dir link ∷ target ∷ [])) a (ground (arith, h)))

All-append : (P : Effect → Type 0) (xs ys : List Effect) → All P xs → All P ys → All P (xs ++ ys)
All-append P [] ys h k = k
All-append P (x ∷ xs) ys h k = (h.0, All-append P xs ys h.1 k)

module _ (dest : Text) where
  -- All effects are confined.
  abbrev AreConfined : List Effect → Type 0
  AreConfined = All (IsConfined dest)

  make-confined :
      (fault : Fault) (before : List Effect) (e : Effect)
      → AreConfined before
      → IsConfined dest e
      → AreConfined (make fault before e).effects
  make-confined sound before e b c = All-append (IsConfined dest) before (e ∷ []) b (c, tt)
  make-confined no_parents before e b c = b
  make-confined barred before e b c = b
  make-confined broken before e b c = b

  parents-confined :
      (fault : Fault) (out : Text) (w : Written)
      → IsInside dest out
      → AreConfined w.effects
      → AreConfined (with_parents fault out w).effects
  parents-confined no_parents out w i h = tt
  parents-confined sound out w i h = (i, h)
  parents-confined barred out w i h = (i, h)
  parents-confined broken out w i h = (i, h)

  copy_limited-confined :
      (end : Option ArchiveError) (out : Text) (size remaining : ℕ)
      → IsInside dest out
      → AreConfined (copy_limited end out size remaining).effects
  unfolding copy_limited
  copy_limited-confined end out size remaining i =
      if-elim (λ (w : Written). AreConfined w.effects) (ltb remaining (min size (remaining + 1))) _
        _ (λ _. (i, (i, tt))) (λ _. (i, tt))

  open_and_copy-confined :
      (fault : Fault) (out : Text) (size remaining : ℕ)
      → IsInside dest out
      → AreConfined (open_and_copy fault out size remaining).effects
  open_and_copy-confined barred out size remaining i = tt
  open_and_copy-confined sound out size remaining i =
      copy_limited-confined none out size remaining i
  open_and_copy-confined no_parents out size remaining i =
      copy_limited-confined none out size remaining i
  open_and_copy-confined broken out size remaining i =
      copy_limited-confined (some io_error) out size remaining i

  write_limited-confined :
      (fault : Fault) (out : Text) (size remaining : ℕ)
      → IsInside dest out
      → AreConfined (write_limited fault out size remaining).effects
  unfolding write_limited
  write_limited-confined fault out size remaining i =
      if-elim (λ (w : Written). AreConfined w.effects) (eqb remaining 0) _ _ (λ _. tt)
        (λ _. open_and_copy-confined fault out size remaining i)

  module _ (a : is_abs dest ≡ true) where
    symlink-confined :
        (fault : Fault) (out target : Text) (checked : Option ArchiveError)
        → safe_symlink dest out target ≡ checked
        → IsInside dest out
        → AreConfined (make_symlink fault out target checked).effects
    symlink-confined fault out target (some e) c i = tt
    symlink-confined fault out target none c i =
        parents-confined fault out (make fault (remove out ∷ []) (link_symbolic out target)) i (
          make-confined fault (remove out ∷ []) (link_symbolic out target) (i, tt)
            (i, safe_symlink-IsInside dest out target a c))

    link-confined :
        (fault : Fault) (out target : Text) (p : Placed)
        → safe_entry_path dest target ≡ p
        → IsInside dest out
        → AreConfined (make_link fault out p).effects
    link-confined fault out target (refused e) c i = tt
    link-confined fault out target (placed source) c i =
        parents-confined fault out (make fault [] (link_hard out source)) i (
          make-confined fault [] (link_hard out source) tt
            (i, safe_entry_path-IsInside dest target source a c))

    tar_entry-confined :
        (remaining : ℕ) (fault : Fault) (out : Text) (kind : TarKind)
        → IsInside dest out
        → AreConfined (tar_entry dest remaining fault out kind).effects
    unfolding tar_entry
    tar_entry-confined remaining fault out tar_dir i = make-confined fault [] (make_dir out) tt i
    tar_entry-confined remaining fault out tar_other i = tt
    tar_entry-confined remaining fault out (tar_symlink target) i =
        symlink-confined fault out target _ refl i
    tar_entry-confined remaining fault out (tar_link target) i =
        link-confined fault out target _ refl i
    tar_entry-confined remaining fault out (tar_file size) i =
        parents-confined fault out (write_limited fault out size remaining) i
          (write_limited-confined fault out size remaining i)

    read_link-confined :
        (fault : Fault) (w : Written)
        → AreConfined w.effects
        → AreConfined (read_link fault w).effects
    read_link-confined broken w h = tt
    read_link-confined sound w h = h
    read_link-confined no_parents w h = h
    read_link-confined barred w h = h

    zip_entry-confined :
        (remaining : ℕ) (fault : Fault) (out : Text) (kind : ZipKind)
        → IsInside dest out
        → AreConfined (zip_entry dest remaining fault out kind).effects
    unfolding zip_entry
    zip_entry-confined remaining fault out zip_dir i = make-confined fault [] (make_dir out) tt i
    zip_entry-confined remaining fault out (zip_symlink target) i =
        read_link-confined fault _ (symlink-confined fault out (take 4096 target) _ refl i)
    zip_entry-confined remaining fault out (zip_file size) i =
        parents-confined fault out (write_limited fault out size remaining) i
          (write_limited-confined fault out size remaining i)

    module _ {Kind : Type 0} (lim : Limits) (entry : ℕ → Fault → Text → Kind → Written)
        (confined : (remaining : ℕ) (fault : Fault) (out : Text) (kind : Kind)
          → IsInside dest out
          → AreConfined (entry remaining fault out kind).effects)
        (ending : Option ArchiveError) where
      go_on-confined :
          (w : Written) (error : Option ArchiveError) (rest : Extracted)
          → AreConfined w.effects
          → AreConfined rest.effects
          → AreConfined (go_on w error rest).effects
      go_on-confined w none rest h k = All-append (IsConfined dest) w.effects rest.effects h k
      go_on-confined w (some e) rest h k = h

      at_place-confined :
          (e : Entry Kind) (total : ℕ) (p : Placed) (rest : ℕ → Extracted)
          → safe_entry_path dest e.name ≡ p
          → ((t : ℕ) → AreConfined (rest t).effects)
          → AreConfined (at_place dest lim entry e total p rest).effects
      at_place-confined e total (refused x) rest q k = tt
      at_place-confined e total (placed out) rest q k =
          let w = entry (lim.max_bytes - total) e.fault out e.kind in
          go_on-confined w w.error (rest (total + w.bytes))
            (confined (lim.max_bytes - total) e.fault out e.kind
              (safe_entry_path-IsInside dest e.name out a q))
            (k (total + w.bytes))

      extract-confined :
          (count total : ℕ) (es : List (Entry Kind))
          → AreConfined (extract dest lim entry ending count total es).effects
      unfolding extract
      extract-confined count total [] = tt
      extract-confined count total (e ∷ es) =
          if-elim (λ (x : Extracted). AreConfined x.effects)
            (ltb 0 lim.max_files && ltb lim.max_files (count + 1)) _ _ (λ _. tt)
            λ _.
              at_place-confined e total (safe_entry_path dest e.name) _ refl
                (λ t. extract-confined (count + 1) t es)

-- With an absolute destination, whatever a tar or a zip archive holds and wherever its extraction stops, all
-- that is created, removed or linked to lies, by its cleaned name, in the destination.
pub extract-IsConfined :
    (dest : Text) (lim : Limits) (ending : Option ArchiveError) (tar_entries : List (Entry TarKind))
    (zip_entries : List (Entry ZipKind))
    → is_abs dest ≡ true
    → All (IsConfined dest) (extract_tar dest lim ending tar_entries).effects
      × All (IsConfined dest) (extract_zip dest lim zip_entries).effects
unfolding extract_tar extract_zip
extract-IsConfined dest lim ending tar_entries zip_entries a = (
  extract-confined dest a lim (tar_entry dest) (tar_entry-confined dest a) ending 0 0 tar_entries,
  extract-confined dest a lim (zip_entry dest) (zip_entry-confined dest a) none 0 0 zip_entries,
)
