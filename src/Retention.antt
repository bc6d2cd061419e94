-- ===== src/Retention.antt =====
-- The retention sweeper: crates/dotagent-telemetry/src/retention.rs. A folder is a table of its
-- files; the list of a folder is taken before anything in it is removed.
pub mod Names
pub mod Windows
pub mod Logs
use dotagent.Common.{
  ℕ, suc, ◌+◌, ◌-◌, ◌/◌, Bool, true, false, not, ◌&&◌, ◌||◌, Option, none, some, List, [], ◌∷◌,
  ◌++◌, ltb, ◌==◌, if◌then◌else◌, is_some, is_some_and, u32,
}
use dotagent.Common.Text.{Text, codes, text_eq}
use dotagent.Common.Text.Digits.{has}
use dotagent.Common.Text.Lines.{is_empty, rsplit_once}
use dotagent.Common.Table.{Table, get, insert, remove}

-- an entry of a folder: when it was written, in seconds, and whether a writer holds its lock
pub record Entry : Type 0 where
  pub is_file : Bool
  pub mtime : ℕ
  pub held : Bool
  pub bytes : List ℕ

abbrev pub Folder : Type 0
Folder = Table Entry

-- what the disk lets the sweeper do with a path: remove it, open it for its lock, write it; and gzip
pub record Disk : Type 0 where
  pub removes : Text → Bool
  pub opens : Text → Bool
  pub writes : Text → Bool
  pub gzip : List ℕ → List ℕ

pub record SweepStats : Type 0 where
  pub compressed : ℕ
  pub deleted : ℕ
  pub scanned : ℕ
  pub windows_scanned : ℕ
  pub windows_deleted : ℕ

-- `Path::extension` and `Path::with_extension`, of a file name
abbrev extension_of : Option (Text × Text) → Option Text
extension_of none = none
extension_of (some (before, after)) = if is_empty before then none else some after

unfoldable pub extension : Text → Option Text
unfolding rsplit_once
extension name = if text_eq name (codes "..") then none else extension_of (rsplit_once b'.' name)

abbrev stem_of : Text → Option (Text × Text) → Text
stem_of name none = name
stem_of name (some (before, after)) = if is_empty before then name else before

unfoldable pub file_stem : Text → Text
unfolding rsplit_once
file_stem name = if text_eq name (codes "..") then name else stem_of name (rsplit_once b'.' name)

unfoldable pub with_extension : Text → Text → Text
unfolding file_stem
with_extension name ext = file_stem name ++ (b'.' ∷ ext)

abbrev pub has_extension : Text → Text → Bool
has_extension name ext = is_some_and (extension name) (λ e. text_eq e ext)

abbrev pub window_for_sidecar : Text → Text
window_for_sidecar name = with_extension name (codes "json")

-- of a `u64` of seconds; the cast to `u32` wraps
abbrev pub age_in_days : ℕ → ℕ → ℕ
age_in_days now at = (now - at) / 86400

-- a file that cannot be read is not aged out
unfoldable pub is_aged_out : Folder → Text → ℕ → ℕ → Bool
is_aged_out folder name retention_days now =
    is_some_and (get folder name) (λ f. ltb retention_days (u32 (age_in_days now f.mtime)))

-- `remove`: whether the file is gone, and what is left
unfoldable pub remove_file : Disk → Folder → Text → Bool × Folder
remove_file disk folder name =
    if disk.removes name && is_some (get folder name)
    then (true, remove folder name)
    else (false, folder)

-- `try_hold`: the lock can be had
unfoldable pub try_hold : Disk → Folder → Text → Bool
try_hold disk folder name = disk.opens name && is_some_and (get folder name) (λ f. not f.held)

abbrev with_lock_gone : Disk → Text → Bool × Folder → Bool × Folder
with_lock_gone disk lock (removed, folder) =
    if removed then (true, (remove_file disk folder lock).1) else (false, folder)

unfoldable pub delete_window : Disk → Folder → Text → Bool × Folder
delete_window disk folder json =
    let lock = with_extension json (codes "lock") in
    if is_some (get folder lock)
    then (if try_hold disk folder lock
        then with_lock_gone disk lock (remove_file disk folder json)
        else (false, folder))
    else remove_file disk folder json

unfoldable pub delete_orphan_lock : Disk → Folder → Text → Bool × Folder
delete_orphan_lock disk folder lock =
    if try_hold disk folder lock then remove_file disk folder lock else (false, folder)

-- a folder and the counters, as the passes change them
abbrev pub Swept : Type 0
Swept = Folder × SweepStats

abbrev count_window : SweepStats → Bool × Folder → Swept
count_window stats (gone, folder) =
    (folder, if gone then record stats { windows_deleted = stats.windows_deleted + 1 } else stats)

-- a file that is no window
unfoldable pub sweep_sidecar : Disk → ℕ → ℕ → Text → Swept → Swept
sweep_sidecar disk retention_days now name (folder, stats) =
    if is_some (get folder (window_for_sidecar name))
    then (folder, stats)
    else (if is_aged_out folder name retention_days now
        then count_window stats (
            if has_extension name (codes "lock")
            then delete_orphan_lock disk folder name
            else remove_file disk folder name)
        else (folder, stats))

unfoldable pub sweep_window : Disk → ℕ → ℕ → Text → Swept → Swept
sweep_window disk retention_days now name (folder, stats) =
    let seen : SweepStats = record stats { windows_scanned = stats.windows_scanned + 1 } in
    if is_aged_out folder name retention_days now
    then count_window seen (delete_window disk folder name)
    else (folder, seen)

unfoldable pub sweep_one : Disk → ℕ → ℕ → Text → Swept → Swept
sweep_one disk retention_days now name swept =
    if has_extension name (codes "json")
    then sweep_window disk retention_days now name swept
    else sweep_sidecar disk retention_days now name swept

unfoldable pub sweep_files : Disk → ℕ → ℕ → List Text → Swept → Swept
sweep_files disk retention_days now [] swept = swept
sweep_files disk retention_days now (name ∷ names) swept =
    sweep_files disk retention_days now names (sweep_one disk retention_days now name swept)

-- the names of the files
unfoldable pub files_of : Folder → List Text
files_of [] = []
files_of ((name, e) ∷ folder) =
    let rest = files_of folder in if e.is_file then name ∷ rest else rest

unfoldable pub sweep_windows_dir : Disk → ℕ → ℕ → Swept → Swept
unfolding sweep_files files_of
sweep_windows_dir disk retention_days now (folder, stats) =
    if retention_days == 0
    then (folder, stats)
    else sweep_files disk retention_days now (files_of folder) (folder, stats)

-- Logs. The file that is being written has no date: no dot in its name, or `log` after the last one.
abbrev ends_in_log : Option (Text × Text) → Bool
ends_in_log none = false
ends_in_log (some (before, after)) = text_eq after (codes "log")

unfoldable pub is_active : Text → Bool
is_active name = not (has b'.' name) || ends_in_log (rsplit_once b'.' name)

-- `gzip_file`: the new file is written first, and then the old one removed
abbrev pub gz_name : Text → Text
gz_name name = name ++ codes ".gz"

abbrev gzipped : Disk → ℕ → Entry → Entry
gzipped disk now e = record { is_file = true; mtime = now; held = false; bytes = disk.gzip e.bytes }

unfoldable pub gzip_file : Disk → ℕ → Text → Entry → Folder → Bool × Folder
gzip_file disk now name e folder =
    if disk.writes (gz_name name)
    then remove_file disk (insert folder (gz_name name) (gzipped disk now e)) name
    else (false, folder)

abbrev count_deleted : SweepStats → Bool × Folder → Swept
count_deleted stats (gone, folder) =
    (folder, if gone then record stats { deleted = stats.deleted + 1 } else stats)

abbrev count_compressed : SweepStats → Bool × Folder → Swept
count_compressed stats (gone, folder) =
    (folder, if gone then record stats { compressed = stats.compressed + 1 } else stats)

unfoldable pub sweep_log : Disk → ℕ → ℕ → ℕ → Text → Entry → Swept → Swept
sweep_log disk compress_after retention_days now name e (folder, stats) =
    let seen : SweepStats = record stats { scanned = stats.scanned + 1 } in
    let age = u32 (age_in_days now e.mtime) in
    if not (is_active name) && ltb retention_days age
    then count_deleted seen (remove_file disk folder name)
    else (if not (has_extension name (codes "gz")) && not (is_active name) && ltb compress_after age
        then count_compressed seen (gzip_file disk now name e folder)
        else (folder, seen))

-- what the name is when its turn comes
abbrev sweep_entry : Disk → ℕ → ℕ → ℕ → Text → Option Entry → Swept → Swept
sweep_entry disk compress_after retention_days now name none swept = swept
sweep_entry disk compress_after retention_days now name (some e) swept =
    if e.is_file then sweep_log disk compress_after retention_days now name e swept else swept

unfoldable pub sweep_logs : Disk → ℕ → ℕ → ℕ → List Text → Swept → Swept
sweep_logs disk compress_after retention_days now [] swept = swept
sweep_logs disk compress_after retention_days now (name ∷ names) swept =
    sweep_logs disk compress_after retention_days now names
      (sweep_entry disk compress_after retention_days now name (get swept.0 name) swept)

unfoldable pub sweep_dir : Disk → ℕ → ℕ → ℕ → Swept → Swept
unfolding sweep_logs files_of
sweep_dir disk compress_after retention_days now (folder, stats) =
    sweep_logs disk compress_after retention_days now (files_of folder) (folder, stats)
