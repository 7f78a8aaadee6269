-- ===== src/Archive/Budget.antt =====
-- How many bytes and files an extraction of source/internal/files/archive.go writes.
use bonghos.Base.{
  ℕ, ◌+◌, ◌-◌, ◌≤◌, min, ltb, eqb, ◌≡◌, refl, sym, ◌&&◌, List, [], ◌∷◌, ◌++◌, Option, none, some,
  if-elim, take, arith,
}
use bonghos.Base.Text.{Text}
use bonghos.Archive.Entries.{
  ArchiveError, too_large, too_many, io_error, Placed, placed, refused, safe_entry_path,
  safe_symlink, Fault, sound, no_parents, barred, broken, copy_limited, open_and_copy, Effect,
  make_dir, make_parents, remove, write_file, link_symbolic, link_hard, Written, write_limited,
}
use bonghos.Archive.Extract.{
  Limits, TarKind, tar_dir, tar_other, tar_symlink, tar_link, tar_file, ZipKind, zip_dir,
  zip_symlink, zip_file, Entry, with_parents, make, make_symlink, make_link, read_link, tar_entry,
  zip_entry, Extracted, go_on, at_place, extract, extract_tar, extract_zip,
}

abbrev size_of : Effect → ℕ
size_of (write_file p size) = size
size_of _ = 0

abbrev file_of : Effect → ℕ
file_of (write_file p size) = 1
file_of _ = 0

module _ (measure : Effect → ℕ) where
  unfoldable pub total_of : List Effect → ℕ
  total_of [] = 0
  total_of (e ∷ es) = measure e + total_of es

  total_of-append : (xs ys : List Effect) → total_of (xs ++ ys) ≡ total_of xs + total_of ys
  unfolding total_of
  total_of-append [] ys = omega arith
  total_of-append (x ∷ xs) ys = let ih = total_of-append xs ys in ground arith

-- The bytes written to files, removed again or not.
abbrev pub written_bytes : List Effect → ℕ
written_bytes es = total_of size_of es

-- The files opened for writing and written.
abbrev pub written_files : List Effect → ℕ
written_files es = total_of file_of es

-- An entry counts what it writes, writes at most one file and at most one byte too many, and none too many
-- without an error.
record InBudget (remaining : ℕ) (w : Written) : Type 0 where
  counted : w.bytes ≡ written_bytes w.effects
  single : written_files w.effects ≤ 1
  near : w.bytes ≤ remaining + 1
  within : w.error ≡ none → w.bytes ≤ remaining

nothing_written :
    (remaining : ℕ) (es : List Effect) (error : Option ArchiveError)
    → written_bytes es ≡ 0
    → written_files es ≡ 0
    → InBudget remaining (record { effects = es; bytes = 0; error = error })
nothing_written remaining es error b f = record {
  counted = sym b;
  single = ground arith;
  near = ground arith;
  within = λ _. ground arith;
}

make-InBudget :
    (remaining : ℕ) (fault : Fault) (before : List Effect) (e : Effect)
    → written_bytes (before ++ e ∷ []) ≡ 0
    → written_files (before ++ e ∷ []) ≡ 0
    → written_bytes before ≡ 0
    → written_files before ≡ 0
    → InBudget remaining (make fault before e)
make-InBudget remaining sound before e b f c g =
    nothing_written remaining (before ++ e ∷ []) none b f
make-InBudget remaining no_parents before e b f c g =
    nothing_written remaining before (some io_error) c g
make-InBudget remaining barred before e b f c g =
    nothing_written remaining before (some io_error) c g
make-InBudget remaining broken before e b f c g =
    nothing_written remaining before (some io_error) c g

above_InBudget :
    (remaining : ℕ) (out : Text) (w : Written)
    → InBudget remaining w
    → InBudget remaining (record w { effects = make_parents out ∷ w.effects })
unfolding total_of
above_InBudget remaining out w h =
    let c = h.counted in
    let s = h.single in
    record { counted = omega arith; single = omega arith; near = h.near; within = h.within }

parents-InBudget :
    (remaining : ℕ) (fault : Fault) (out : Text) (w : Written)
    → InBudget remaining w
    → InBudget remaining (with_parents fault out w)
unfolding total_of
parents-InBudget remaining no_parents out w h =
    nothing_written remaining [] (some io_error) refl refl
parents-InBudget remaining sound out w h = above_InBudget remaining out w h
parents-InBudget remaining barred out w h = above_InBudget remaining out w h
parents-InBudget remaining broken out w h = above_InBudget remaining out w h

copy_limited-InBudget :
    (end : Option ArchiveError) (out : Text) (size remaining : ℕ)
    → InBudget remaining (copy_limited end out size remaining)
unfolding copy_limited total_of
copy_limited-InBudget end out size remaining =
    if-elim (InBudget remaining) (ltb remaining (min size (remaining + 1))) _ _
      (λ e. record {
        counted = ground arith;
        single = ground arith;
        near = ground arith;
        within = λ n. cc n;
      })
      (λ e. record {
        counted = ground arith;
        single = ground arith;
        near = ground arith;
        within = λ n. ground arith;
      })

open_and_copy-InBudget :
    (fault : Fault) (out : Text) (size remaining : ℕ)
    → InBudget remaining (open_and_copy fault out size remaining)
unfolding total_of
open_and_copy-InBudget barred out size remaining =
    nothing_written remaining [] (some io_error) refl refl
open_and_copy-InBudget sound out size remaining = copy_limited-InBudget none out size remaining
open_and_copy-InBudget no_parents out size remaining = copy_limited-InBudget none out size remaining
open_and_copy-InBudget broken out size remaining =
    copy_limited-InBudget (some io_error) out size remaining

write_limited-InBudget :
    (fault : Fault) (out : Text) (size remaining : ℕ)
    → InBudget remaining (write_limited fault out size remaining)
unfolding write_limited total_of
write_limited-InBudget fault out size remaining =
    if-elim (InBudget remaining) (eqb remaining 0) _ _
      (λ _. nothing_written remaining [] (some too_large) refl refl)
      (λ _. open_and_copy-InBudget fault out size remaining)

symlink-InBudget :
    (remaining : ℕ) (fault : Fault) (out target : Text) (checked : Option ArchiveError)
    → InBudget remaining (make_symlink fault out target checked)
unfolding total_of
symlink-InBudget remaining fault out target (some e) =
    nothing_written remaining [] (some e) refl refl
symlink-InBudget remaining fault out target none =
    parents-InBudget remaining fault out _ (
      make-InBudget remaining fault (remove out ∷ []) (link_symbolic out target) refl refl refl
        refl)

link-InBudget :
    (remaining : ℕ) (fault : Fault) (out : Text) (p : Placed)
    → InBudget remaining (make_link fault out p)
unfolding total_of
link-InBudget remaining fault out (refused e) = nothing_written remaining [] (some e) refl refl
link-InBudget remaining fault out (placed source) =
    parents-InBudget remaining fault out _
      (make-InBudget remaining fault [] (link_hard out source) refl refl refl refl)

tar_entry-InBudget :
    (dest : Text) (remaining : ℕ) (fault : Fault) (out : Text) (kind : TarKind)
    → InBudget remaining (tar_entry dest remaining fault out kind)
unfolding tar_entry total_of
tar_entry-InBudget dest remaining fault out tar_dir =
    make-InBudget remaining fault [] (make_dir out) refl refl refl refl
tar_entry-InBudget dest remaining fault out tar_other = nothing_written remaining [] none refl refl
tar_entry-InBudget dest remaining fault out (tar_symlink target) =
    symlink-InBudget remaining fault out target (safe_symlink dest out target)
tar_entry-InBudget dest remaining fault out (tar_link target) =
    link-InBudget remaining fault out (safe_entry_path dest target)
tar_entry-InBudget dest remaining fault out (tar_file size) =
    parents-InBudget remaining fault out _ (write_limited-InBudget fault out size remaining)

read_link-InBudget :
    (remaining : ℕ) (fault : Fault) (w : Written)
    → InBudget remaining w
    → InBudget remaining (read_link fault w)
unfolding total_of
read_link-InBudget remaining broken w h = nothing_written remaining [] (some io_error) refl refl
read_link-InBudget remaining sound w h = h
read_link-InBudget remaining no_parents w h = h
read_link-InBudget remaining barred w h = h

zip_entry-InBudget :
    (dest : Text) (remaining : ℕ) (fault : Fault) (out : Text) (kind : ZipKind)
    → InBudget remaining (zip_entry dest remaining fault out kind)
unfolding zip_entry total_of
zip_entry-InBudget dest remaining fault out zip_dir =
    make-InBudget remaining fault [] (make_dir out) refl refl refl refl
zip_entry-InBudget dest remaining fault out (zip_symlink target) =
    read_link-InBudget remaining fault _ (
      symlink-InBudget remaining fault out (take 4096 target)
        (safe_symlink dest out (take 4096 target)))
zip_entry-InBudget dest remaining fault out (zip_file size) =
    parents-InBudget remaining fault out _ (write_limited-InBudget fault out size remaining)

-- With `count` files and `total` bytes before it, what an extraction writes is within the limits.
record IsLimited (lim : Limits) (count total : ℕ) (x : Extracted) : Type 0 where
  pub bytes : total + written_bytes x.effects ≤ lim.max_bytes + 1
  pub all_bytes : x.error ≡ none → total + written_bytes x.effects ≤ lim.max_bytes
  pub files : 1 ≤ lim.max_files → count + written_files x.effects ≤ lim.max_files

from_start :
    {lim : Limits} {x : Extracted}
    → IsLimited lim 0 0 x
    → (written_bytes x.effects ≤ lim.max_bytes + 1)
      × ((x.error ≡ none → written_bytes x.effects ≤ lim.max_bytes)
          × (1 ≤ lim.max_files → written_files x.effects ≤ lim.max_files))
from_start h =
    let b = h.bytes in
    (
      omega arith,
      (λ e. let a = h.all_bytes e in omega arith, λ f. let g = h.files f in omega arith),
    )

module _ {Kind : Type 0} (dest : Text) (lim : Limits) (entry : ℕ → Fault → Text → Kind → Written)
    (in_budget : (remaining : ℕ) (fault : Fault) (out : Text) (kind : Kind)
      → InBudget remaining (entry remaining fault out kind)) where
  stop-IsLimited :
      (count total : ℕ) (error : Option ArchiveError)
      → total ≤ lim.max_bytes
      → (1 ≤ lim.max_files → count ≤ lim.max_files)
      → IsLimited lim count total (record { effects = []; error = error })
  unfolding total_of
  stop-IsLimited count total error t c = record {
    bytes = ground arith;
    all_bytes = λ _. ground arith;
    files = λ f. let g = c f in ground arith;
  }

  go_on-IsLimited :
      (count total : ℕ) (w : Written) (error : Option ArchiveError) (rest : Extracted)
      → w.error ≡ error
      → InBudget (lim.max_bytes - total) w
      → total ≤ lim.max_bytes
      → (1 ≤ lim.max_files → count + 1 ≤ lim.max_files)
      → (total + w.bytes ≤ lim.max_bytes → IsLimited lim (count + 1) (total + w.bytes) rest)
      → IsLimited lim count total (go_on w error rest)
  go_on-IsLimited count total w none rest q b t c k =
      let n = b.within q in
      let m = b.counted in
      let r = k (omega arith) in
      let s = b.single in
      record {
        bytes =
            let i = r.bytes in
            let j = total_of-append size_of w.effects rest.effects in omega arith;
        all_bytes = λ e.
            let i = r.all_bytes e in
            let j = total_of-append size_of w.effects rest.effects in omega arith;
        files = λ f.
            let i = r.files f in
            let j = total_of-append file_of w.effects rest.effects in omega arith;
      }
  go_on-IsLimited count total w (some e) rest q b t c k =
      let n = b.near in
      let m = b.counted in
      record {
        bytes = omega arith;
        all_bytes = λ x. cc x;
        files = λ f. let g = c f in let s = b.single in omega arith;
      }

  at_place-IsLimited :
      (e : Entry Kind) (count total : ℕ) (p : Placed) (rest : ℕ → Extracted)
      → total ≤ lim.max_bytes
      → (1 ≤ lim.max_files → count + 1 ≤ lim.max_files)
      → ((t : ℕ) → t ≤ lim.max_bytes → IsLimited lim (count + 1) t (rest t))
      → IsLimited lim count total (at_place dest lim entry e total p rest)
  at_place-IsLimited e count total (refused x) rest t c k =
      stop-IsLimited count total (some x) t (λ f. let g = c f in omega arith)
  at_place-IsLimited e count total (placed out) rest t c k =
      let w = entry (lim.max_bytes - total) e.fault out e.kind in
      go_on-IsLimited count total w w.error (rest (total + w.bytes)) refl
        (in_budget (lim.max_bytes - total) e.fault out e.kind) t c (k (total + w.bytes))

  extract-IsLimited :
      (ending : Option ArchiveError) (count total : ℕ) (es : List (Entry Kind))
      → total ≤ lim.max_bytes
      → (1 ≤ lim.max_files → count ≤ lim.max_files)
      → IsLimited lim count total (extract dest lim entry ending count total es)
  unfolding extract
  extract-IsLimited ending count total [] t c = stop-IsLimited count total ending t c
  extract-IsLimited ending count total (e ∷ es) t c =
      if-elim (IsLimited lim count total) (ltb 0 lim.max_files && ltb lim.max_files (count + 1)) _ _
        (λ _. stop-IsLimited count total (some too_many) t c)
        λ n.
          at_place-IsLimited e count total (safe_entry_path dest e.name) _ t (λ f. ground arith)
            λ u h. extract-IsLimited ending (count + 1) u es h (λ f. ground arith)

-- What an extraction writes is within the limits.
abbrev pub WritesWithin : Limits → Extracted → Type 0
WritesWithin lim x =
    (written_bytes x.effects ≤ lim.max_bytes + 1)
    × ((x.error ≡ none → written_bytes x.effects ≤ lim.max_bytes)
        × (1 ≤ lim.max_files → written_files x.effects ≤ lim.max_files))

-- Whatever a tar or a zip archive holds and wherever its extraction stops, it writes at most one byte more
-- than the limit, and within the limit when it succeeds; with a limit on the files it writes at most that
-- many.
pub extract-WritesWithin :
    (dest : Text) (lim : Limits) (ending : Option ArchiveError) (tar_entries : List (Entry TarKind))
    (zip_entries : List (Entry ZipKind))
    → WritesWithin lim (extract_tar dest lim ending tar_entries)
      × WritesWithin lim (extract_zip dest lim zip_entries)
unfolding extract_tar extract_zip
extract-WritesWithin dest lim ending tar_entries zip_entries = (
  from_start (
      extract-IsLimited dest lim (tar_entry dest) (tar_entry-InBudget dest) ending 0 0 tar_entries
        (omega arith) (λ f. omega arith)),
  from_start (
      extract-IsLimited dest lim (zip_entry dest) (zip_entry-InBudget dest) none 0 0 zip_entries
        (omega arith) (λ f. omega arith)),
)
