-- ===== src/Archive/Entries.antt =====
-- Where an entry of an archive may go: safeEntryPath, safeSymlink and writeLimited of
-- source/internal/files/archive.go.
use bonghos.Base.{
  ℕ, ◌+◌, Bool, true, false, ◌||◌, List, [], ◌∷◌, Option, none, some, map, if◌then◌else◌, eqb, ltb,
  min,
}
use bonghos.Base.Text.{Text, text_eq}
use bonghos.Paths.Clean.{slash, is_abs, clean, render, join, rel, is_climbing, dir}
use bonghos.Paths.Root.{stays}

pub data ArchiveError : Type 0 where
  traversal absolute unsafe_link too_large too_many io_error : ArchiveError

pub data Placed : Type 0 where
  placed : Text → Placed
  refused : ArchiveError → Placed

-- `strings.ReplaceAll(name, "\\", "/")`
abbrev pub normal_slash : ℕ → ℕ
normal_slash c = if eqb c 0x5c then slash else c

-- `len(name) >= 2 && name[1] == ':'`
abbrev pub has_drive : Text → Bool
has_drive (a ∷ b ∷ rest) = eqb b 0x3a
has_drive _ = false

abbrev pub place_below : Text → Text → Placed
place_below dest out = if stays (rel dest out) then placed out else refused traversal

unfoldable pub safe_entry_path : Text → Text → Placed
safe_entry_path dest raw =
    let name = map normal_slash raw in
    if text_eq name []
    then refused traversal
    else if is_abs name || has_drive name
    then refused absolute
    else if is_climbing (clean name).parts
    then refused traversal
    else place_below dest (join (dest ∷ render (clean name) ∷ []))

-- safeSymlink, up to the point where it has checked the link.
unfoldable pub safe_symlink : Text → Text → Text → Option ArchiveError
safe_symlink dest link target =
    if is_abs target
    then some unsafe_link
    else if stays (rel dest (join (dir link ∷ target ∷ [])))
    then none
    else some unsafe_link

-- What is done to the file system. `make_parents p` creates the directories above `p`.
pub data Effect : Type 0 where
  make_dir make_parents remove : Text → Effect
  write_file : Text → ℕ → Effect
  link_symbolic link_hard : Text → Text → Effect

pub record Written : Type 0 where
  pub effects : List Effect
  pub bytes : ℕ
  pub error : Option ArchiveError

-- What goes wrong on an entry: the directories above it cannot be made, the file or link itself cannot,
-- or its content breaks off with an error.
pub data Fault : Type 0 where
  sound no_parents barred broken : Fault

abbrev pub is_sound : Fault → Bool
is_sound sound = true
is_sound _ = false

abbrev copied : Fault → Option ArchiveError
copied broken = some io_error
copied _ = none

-- writeLimited once the file is open; the reader yields `size` bytes, of which at most one too many is
-- read, and then `end`.
unfoldable pub copy_limited : Option ArchiveError → Text → ℕ → ℕ → Written
copy_limited end path size remaining =
    if ltb remaining (min size (remaining + 1))
    then record {
      effects = write_file path (remaining + 1) ∷ remove path ∷ [];
      bytes = remaining + 1;
      error = some too_large;
    }
    else record { effects = write_file path size ∷ []; bytes = size; error = end }

abbrev pub open_and_copy : Fault → Text → ℕ → ℕ → Written
open_and_copy barred path size remaining = record { effects = []; bytes = 0; error = some io_error }
open_and_copy fault path size remaining = copy_limited (copied fault) path size remaining

-- writeLimited
unfoldable pub write_limited : Fault → Text → ℕ → ℕ → Written
write_limited fault path size remaining =
    if eqb remaining 0
    then record { effects = []; bytes = 0; error = some too_large }
    else open_and_copy fault path size remaining
