-- ===== src/Retention/Logs.antt =====
-- The log that is being written survives the sweep of its folder.
use dotagent.Common.{
  ℕ, ◌≡◌, refl, ◌∙◌, inl, inr, true, false, Option, none, some, List, [], ◌∷◌, arith, ltb, u32,
  Bool-cases,
}
use dotagent.Common.Text.{Text, codes, text_eq, text_eq_iff, text_eq_comm}
use dotagent.Common.Text.Digits.{has}
use dotagent.Common.Table.{get, insert, get-insert}
use dotagent.Retention.{
  Entry, Folder, Disk, SweepStats, has_extension, age_in_days, is_active, gz_name, gzipped,
  gzip_file, sweep_log, sweep_entry, sweep_logs, files_of, sweep_dir,
}
use dotagent.Retention.Names.{rsplit_once-append}
use dotagent.Retention.Windows.{get-remove_file}

has-gz : (name : Text) → has b'.' (gz_name name) ≡ true
has-gz [] = refl
has-gz (c ∷ name) = ground (arith, has-gz name)

-- a compressed log is not being written
is_active-gz_name : (name : Text) → is_active (gz_name name) ≡ false
unfolding is_active
is_active-gz_name name = rw (has-gz name, rsplit_once-append b'.' name (codes "gz") refl) refl

apart : (a b : Text) → is_active a ≡ true → is_active b ≡ false → text_eq a b ≡ false
apart a b p q = elim (Bool-cases (text_eq a b)) [
  | inr e ↦ e
  | inl e ↦ let same = (text_eq_iff a b).0 e in absurd (cc (p, same, q))
]

module _ (disk : Disk) (compress_after retention_days now : ℕ) (log : Text)
    (active : is_active log ≡ true) where
  get-gzip_file :
      (name : Text) (e : Entry) (folder : Folder)
      → is_active name ≡ false
      → get (gzip_file disk now name e folder).1 log ≡ get folder log
  unfolding gzip_file
  get-gzip_file name e folder idle = elim (Bool-cases (disk.writes (gz_name name))) [
    | inr b ↦ rw b refl
    | inl b ↦
        let new = gzipped disk now e in
        let other =
          text_eq_comm (gz_name name) log
          ∙ apart log (gz_name name) active (is_active-gz_name name) in
        rw b (
          get-remove_file disk (insert folder (gz_name name) new) name log
            (apart log name active idle)
          ∙ rw (get-insert folder (gz_name name) log new, other) refl)
  ]

  get-sweep_log :
      (name : Text) (e : Entry) (folder : Folder) (stats : SweepStats)
      → get (sweep_log disk compress_after retention_days now name e (folder, stats)).0 log
        ≡ get folder log
  unfolding sweep_log
  get-sweep_log name e folder stats =
      let age = u32 (age_in_days now e.mtime) in
      elim (Bool-cases (is_active name)) [
        | inl a ↦ elim (Bool-cases (has_extension name (codes "gz"))) [
          | inl g ↦ rw (a, g) refl
          | inr g ↦ rw (a, g) refl
        ]
        | inr idle ↦ elim (Bool-cases (ltb retention_days age)) [
          | inl b ↦ rw (idle, b) (get-remove_file disk folder name log (apart log name active idle))
          | inr b ↦ elim (Bool-cases (has_extension name (codes "gz"))) [
            | inl g ↦ rw (idle, b, g) refl
            | inr g ↦ elim (Bool-cases (ltb compress_after age)) [
              | inl d ↦ rw (idle, b, g, d) (get-gzip_file name e folder idle)
              | inr d ↦ rw (idle, b, g, d) refl
            ]
          ]
        ]
      ]

  get-sweep_entry :
      (name : Text) (o : Option Entry) (folder : Folder) (stats : SweepStats)
      → get (sweep_entry disk compress_after retention_days now name o (folder, stats)).0 log
        ≡ get folder log
  get-sweep_entry name none folder stats = refl
  get-sweep_entry name (some e) folder stats = elim (Bool-cases e.is_file) [
    | inl b ↦ simp b (get-sweep_log name e folder stats)
    | inr b ↦ simp b refl
  ]

  get-sweep_logs :
      (names : List Text) (folder : Folder) (stats : SweepStats)
      → get (sweep_logs disk compress_after retention_days now names (folder, stats)).0 log
        ≡ get folder log
  unfolding sweep_logs
  get-sweep_logs [] folder stats = refl
  get-sweep_logs (name ∷ names) folder stats =
      get-sweep_logs names _ _ ∙ get-sweep_entry name (get folder name) folder stats

-- The sweep of a log folder neither deletes nor compresses nor overwrites a log that has no date in
-- its name, however old it is and whatever the limits are.
pub sweep_dir-active :
    (disk : Disk) (compress_after retention_days now : ℕ) (folder : Folder) (stats : SweepStats)
    (log : Text)
    → is_active log ≡ true
    → get (sweep_dir disk compress_after retention_days now (folder, stats)).0 log ≡ get folder log
unfolding sweep_dir
sweep_dir-active disk compress_after retention_days now folder stats log active =
    get-sweep_logs disk compress_after retention_days now log active (files_of folder) folder stats
