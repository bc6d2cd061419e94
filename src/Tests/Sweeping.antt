-- ===== src/Tests/Sweeping.antt =====
-- The retention sweeper on a concrete folder.
use dotagent.Common.{ℕ, ◌≡◌, refl, inr, Bool, true, false, [], ◌∷◌}
use dotagent.Common.Text.{codes}
use dotagent.Common.Text.Lines.{rsplit_once}
use dotagent.Common.Table.{get, remove}
use dotagent.Retention.{
  Entry, Folder, Disk, SweepStats, extension, with_extension, window_for_sidecar, is_aged_out,
  remove_file, try_hold, delete_window, delete_orphan_lock, sweep_sidecar, sweep_window, sweep_one,
  sweep_windows_dir, is_active, sweep_dir,
}
use dotagent.Retention.Names.{window_for_sidecar-tmp}
use dotagent.Retention.Windows.{sweep_windows_dir-keeps}
use dotagent.Retention.Logs.{sweep_dir-active}

abbrev disk : Disk
disk = record {
  removes = λ name. true;
  opens = λ name. true;
  writes = λ name. true;
  gzip = λ bytes. 31 ∷ bytes;
}

abbrev entry : Bool → ℕ → Entry
entry held mtime = record { is_file = true; mtime = mtime; held = held; bytes = [] }

-- on day 100: a window whose writer is busy, one that is idle, and a fresh one
abbrev windows : Folder
windows =
    (codes "a.json", entry false 0)
    ∷ (codes "a.lock", entry true 0)
    ∷ (codes "b.json", entry false 0)
    ∷ (codes "b.lock", entry false 0)
    ∷ (codes "c.json", entry false 8640000)
    ∷ []

abbrev no_stats : SweepStats
no_stats = record {
  compressed = 0;
  deleted = 0;
  scanned = 0;
  windows_scanned = 0;
  windows_deleted = 0;
}

window_for_sidecar-tmp_example :
    window_for_sidecar (with_extension (codes "a.json") (codes "json.tmp")) ≡ codes "a.json.json"
unfolding extension
window_for_sidecar-tmp_example = window_for_sidecar-tmp (codes "a.json") refl

sweep_windows_dir-keeps_example :
    (get (sweep_windows_dir disk 30 8640000 (windows, no_stats)).0 (codes "a.json")
      ≡ get windows (codes "a.json"))
    × (get
          (sweep_windows_dir disk 30 8640000 (windows, no_stats)).0
          (with_extension (codes "a.json") (codes "lock"))
        ≡ get windows (with_extension (codes "a.json") (codes "lock")))
unfolding extension get with_extension
sweep_windows_dir-keeps_example =
    sweep_windows_dir-keeps disk 30 8640000 windows no_stats (codes "a.json") refl refl
      (inr (entry true 0, refl, refl))

-- the idle window goes, with its lock
idle_goes :
    (sweep_windows_dir disk 30 8640000 (windows, no_stats)).0
    ≡ (codes "a.json", entry false 0)
      ∷ (codes "a.lock", entry true 0)
      ∷ (codes "c.json", entry false 8640000)
      ∷ []
unfolding sweep_windows_dir sweep_one sweep_window sweep_sidecar delete_window delete_orphan_lock
    remove_file try_hold is_aged_out extension with_extension get remove
idle_goes = refl

abbrev logs : Folder
logs =
    (codes "daemon.2026-01-01", entry false 0)
    ∷ (codes "run.avelino.dotagent-error.log", entry false 0)
    ∷ []

sweep_dir-active_example :
    get (sweep_dir disk 1 30 8640000 (logs, no_stats)).0 (codes "run.avelino.dotagent-error.log")
    ≡ get logs (codes "run.avelino.dotagent-error.log")
unfolding is_active rsplit_once
sweep_dir-active_example =
    sweep_dir-active disk 1 30 8640000 logs no_stats (codes "run.avelino.dotagent-error.log") refl
