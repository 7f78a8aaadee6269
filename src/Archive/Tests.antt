-- ===== src/Archive/Tests.antt =====
-- Tests of the extraction of archives.
use bonghos.Paths.Clean.{dir, join_parts, render, join, rel, keep_part, clean}
use bonghos.Base.{◌≡◌, refl, List, [], ◌∷◌, none, some, All}
use bonghos.Base.Text.{text_eq, Text, codes}
use bonghos.Archive.Entries.{
  safe_symlink, copy_limited, write_limited, too_large, too_many, traversal, absolute, unsafe_link,
  refused, placed, safe_entry_path, sound, make_parents, remove, write_file,
}
use bonghos.Archive.Extract.{
  tar_entry, zip_entry, extract, Limits, TarKind, tar_symlink, tar_file, ZipKind, zip_file, zip_dir,
  Entry, extract_tar, extract_zip,
}
use bonghos.Archive.Laws.{IsConfined, extract-IsConfined}
use bonghos.Archive.Budget.{WritesWithin, extract-WritesWithin}

abbrev dest : Text
dest = codes "/d"

abbrev small : Limits
small = record { max_bytes = 10; max_files = 2 }

abbrev roomy : Limits
roomy = record { max_bytes = 100; max_files = 0 }

abbrev tar_of : Text → TarKind → Entry TarKind
tar_of name kind = record { name = name; kind = kind; fault = sound }

abbrev zip_of : Text → ZipKind → Entry ZipKind
zip_of name kind = record { name = name; kind = kind; fault = sound }

windows_path : safe_entry_path dest (codes "..\\x") ≡ refused traversal
unfolding safe_entry_path text_eq clean keep_part
windows_path = refl

drive : safe_entry_path dest (codes "C:x") ≡ refused absolute
unfolding safe_entry_path text_eq
drive = refl

inner_dots : safe_entry_path dest (codes "a/../b") ≡ placed (codes "/d/b")
unfolding safe_entry_path text_eq clean keep_part rel join render join_parts
inner_dots = refl

abbrev bomb : List (Entry ZipKind)
bomb = zip_of (codes "a") (zip_file 8) ∷ zip_of (codes "b") (zip_file 8) ∷ []

bomb_stopped : (extract_zip dest small bomb).error ≡ some too_large
unfolding extract_zip extract safe_entry_path text_eq clean keep_part rel join render join_parts
    zip_entry write_limited copy_limited
bomb_stopped = refl

bomb_removed :
    (extract_zip dest small bomb).effects
    ≡ make_parents (codes "/d/a")
      ∷ write_file (codes "/d/a") 8
      ∷ make_parents (codes "/d/b")
      ∷ write_file (codes "/d/b") 3
      ∷ remove (codes "/d/b")
      ∷ []
unfolding extract_zip extract safe_entry_path text_eq clean keep_part rel join render join_parts
    zip_entry write_limited copy_limited
bomb_removed = refl

third_entry :
    (extract_zip dest small (
      zip_of (codes "a") zip_dir
      ∷ zip_of (codes "b") zip_dir
      ∷ zip_of (codes "c") zip_dir
      ∷ [])).error
    ≡ some too_many
unfolding extract_zip extract safe_entry_path text_eq clean keep_part rel join render join_parts
    zip_entry
third_entry = refl

link_out :
    (extract_tar dest roomy none (tar_of (codes "l") (tar_symlink (codes "../etc")) ∷ [])).error
    ≡ some unsafe_link
unfolding extract_tar extract safe_entry_path text_eq clean keep_part rel join render join_parts
    tar_entry safe_symlink dir
link_out = refl

-- The second link goes through the first one, which leads to the destination itself: its name stays inside,
-- but what it leads to is the directory above the destination, and the third entry is written through it.
abbrev through_links : List (Entry TarKind)
through_links =
    tar_of (codes "p/q") (tar_symlink (codes ".."))
    ∷ tar_of (codes "p/r") (tar_symlink (codes "q/.."))
    ∷ tar_of (codes "p/r/evil") (tar_file 1)
    ∷ []

through_links_accepted : (extract_tar dest roomy none through_links).error ≡ none
unfolding extract_tar extract safe_entry_path text_eq clean keep_part rel join render join_parts
    tar_entry safe_symlink dir write_limited copy_limited
through_links_accepted = refl

extract-IsConfined_example :
    All (IsConfined dest) (extract_tar dest roomy none through_links).effects
    × All (IsConfined dest) (extract_zip dest roomy bomb).effects
extract-IsConfined_example = extract-IsConfined dest roomy none through_links bomb refl

extract-WritesWithin_example :
    WritesWithin small (extract_tar dest small none through_links)
    × WritesWithin small (extract_zip dest small bomb)
extract-WritesWithin_example = extract-WritesWithin dest small none through_links bomb
