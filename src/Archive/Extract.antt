-- ===== src/Archive/Extract.antt =====
-- The loops of source/internal/files/archive.go: extractZip and extractTarStream. An archive is the
-- list of its entries, each with what goes wrong on it.
use bonghos.Base.{
  ℕ, ◌+◌, ◌-◌, ◌&&◌, List, [], ◌∷◌, ◌++◌, Option, none, some, if◌then◌else◌, ltb, take,
}
use bonghos.Base.Text.{Text}
use bonghos.Archive.Entries.{
  remove, is_sound, Fault, ArchiveError, too_many, io_error, Placed, placed, refused,
  safe_entry_path, safe_symlink, Fault, no_parents, broken, is_sound, Effect, make_dir,
  make_parents, link_symbolic, link_hard, Written, write_limited,
}

pub record Limits : Type 0 where
  pub max_bytes : ℕ
  pub max_files : ℕ

pub data TarKind : Type 0 where
  tar_dir tar_other : TarKind
  tar_symlink tar_link : Text → TarKind
  tar_file : ℕ → TarKind

pub data ZipKind : Type 0 where
  zip_dir : ZipKind
  zip_symlink : Text → ZipKind
  zip_file : ℕ → ZipKind

pub record Entry (Kind : Type 0) : Type 0 where
  pub name : Text
  pub kind : Kind
  pub fault : Fault

abbrev pub stopped : ArchiveError → Written
stopped e = record { effects = []; bytes = 0; error = some e }

abbrev pub failed : List Effect → Written
failed effects = record { effects = effects; bytes = 0; error = some io_error }

abbrev pub done : List Effect → Written
done effects = record { effects = effects; bytes = 0; error = none }

-- The directories above `out`, and then the rest.
abbrev pub with_parents : Fault → Text → Written → Written
with_parents no_parents out w = stopped io_error
with_parents fault out w = record w { effects = make_parents out ∷ w.effects }

abbrev pub make : Fault → List Effect → Effect → Written
make fault before e = if is_sound fault then done (before ++ e ∷ []) else failed before

abbrev pub make_symlink : Fault → Text → Text → Option ArchiveError → Written
make_symlink fault out target (some e) = stopped e
make_symlink fault out target none =
    with_parents fault out (make fault (remove out ∷ []) (link_symbolic out target))

abbrev pub make_link : Fault → Text → Placed → Written
make_link fault out (refused e) = stopped e
make_link fault out (placed target) = with_parents fault out (make fault [] (link_hard out target))

-- One entry of a tar stream, once its place is known.
unfoldable pub tar_entry : Text → ℕ → Fault → Text → TarKind → Written
tar_entry dest remaining fault out tar_dir = make fault [] (make_dir out)
tar_entry dest remaining fault out tar_other = done []
tar_entry dest remaining fault out (tar_symlink target) =
    make_symlink fault out target (safe_symlink dest out target)
tar_entry dest remaining fault out (tar_link target) =
    make_link fault out (safe_entry_path dest target)
tar_entry dest remaining fault out (tar_file size) =
    with_parents fault out (write_limited fault out size remaining)

abbrev pub read_link : Fault → Written → Written
read_link broken w = stopped io_error
read_link fault w = w

-- One entry of a zip file; at most 4096 bytes of a link's target are read.
unfoldable pub zip_entry : Text → ℕ → Fault → Text → ZipKind → Written
zip_entry dest remaining fault out zip_dir = make fault [] (make_dir out)
zip_entry dest remaining fault out (zip_symlink target) =
    read_link fault
      (make_symlink fault out (take 4096 target) (safe_symlink dest out (take 4096 target)))
zip_entry dest remaining fault out (zip_file size) =
    with_parents fault out (write_limited fault out size remaining)

pub record Extracted : Type 0 where
  pub effects : List Effect
  pub error : Option ArchiveError

abbrev pub refused_with : Option ArchiveError → Extracted
refused_with e = record { effects = []; error = e }

abbrev pub go_on : Written → Option ArchiveError → Extracted → Extracted
go_on w none rest = record { effects = w.effects ++ rest.effects; error = rest.error }
go_on w (some e) rest = record { effects = w.effects; error = some e }

module _ {Kind : Type 0} (dest : Text) (lim : Limits)
    (entry : ℕ → Fault → Text → Kind → Written) where
  abbrev pub at_place : Entry Kind → ℕ → Placed → (ℕ → Extracted) → Extracted
  at_place e total (refused x) rest = refused_with (some x)
  at_place e total (placed out) rest =
      let w = entry (lim.max_bytes - total) e.fault out e.kind in
      go_on w w.error (rest (total + w.bytes))

  -- The loop; `count` entries were seen and `total` bytes written before, and `ending` is how the
  -- archive's list of entries ends.
  unfoldable pub extract : Option ArchiveError → ℕ → ℕ → List (Entry Kind) → Extracted
  extract ending count total [] = refused_with ending
  extract ending count total (e ∷ es) =
      if ltb 0 lim.max_files && ltb lim.max_files (count + 1)
      then refused_with (some too_many)
      else at_place e total (safe_entry_path dest e.name) (λ t. extract ending (count + 1) t es)

-- extractTarStream
unfoldable pub extract_tar : Text → Limits → Option ArchiveError → List (Entry TarKind) → Extracted
extract_tar dest lim ending entries = extract dest lim (tar_entry dest) ending 0 0 entries

-- extractZip
unfoldable pub extract_zip : Text → Limits → List (Entry ZipKind) → Extracted
extract_zip dest lim entries = extract dest lim (zip_entry dest) none 0 0 entries
