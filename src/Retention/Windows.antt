-- ===== src/Retention/Windows.antt =====
-- What the sweep of the window files leaves alone.
use dotagent.Common.{
  ℕ, ◌≡◌, refl, sym, ap, subst, ◌∙◌, ◌⊎◌, inl, inr, true, false, ◌&&◌, some, List, [], ◌∷◌, arith,
  ◌==◌, is_some, Bool-cases,
}
use dotagent.Common.Text.{Text, codes, text_eq, text_eq_iff, text_eq_comm}
use dotagent.Common.Table.{get, get-remove}
use dotagent.Retention.{
  Entry, Folder, Disk, SweepStats, with_extension, has_extension, window_for_sidecar, is_aged_out,
  remove_file, try_hold, delete_window, delete_orphan_lock, sweep_sidecar, sweep_window, sweep_one,
  sweep_files, files_of, sweep_windows_dir,
}
use dotagent.Retention.Names.{window_for_sidecar-lock}

abbrev lock_name : Text → Text
lock_name name = with_extension name (codes "lock")

pub get-remove_file :
    (disk : Disk) (folder : Folder) (name j : Text)
    → text_eq j name ≡ false
    → get (remove_file disk folder name).1 j ≡ get folder j
unfolding remove_file
get-remove_file disk folder name j other =
    elim (Bool-cases (disk.removes name && is_some (get folder name))) [
      | inl b ↦ rw (b, get-remove folder name j, other) refl
      | inr b ↦ rw b refl
    ]

-- a window and its lock, as they were
record Intact (was folder : Folder) (window : Text) : Type 0 where
  same_window : get folder window ≡ get was window
  same_lock : get folder (lock_name window) ≡ get was (lock_name window)

lock-ne-window :
    (a b : Text)
    → has_extension a (codes "json") ≡ true
    → has_extension b (codes "json") ≡ true
    → text_eq (lock_name a) b ≡ false
lock-ne-window a b p q = elim (Bool-cases (text_eq (lock_name a) b)) [
  | inr e ↦ e
  | inl e ↦
      let same = (text_eq_iff (lock_name a) b).0 e in
      absurd (cc ((window_for_sidecar-lock a p).1, same, q))
]

lock-ne-lock :
    (a b : Text)
    → has_extension a (codes "json") ≡ true
    → has_extension b (codes "json") ≡ true
    → text_eq a b ≡ false
    → text_eq (lock_name a) (lock_name b) ≡ false
lock-ne-lock a b p q other = elim (Bool-cases (text_eq (lock_name a) (lock_name b))) [
  | inr e ↦ e
  | inl e ↦
      let same =
        sym (window_for_sidecar-lock a p).0
        ∙ ap window_for_sidecar ((text_eq_iff (lock_name a) (lock_name b)).0 e)
        ∙ (window_for_sidecar-lock b q).0 in
      absurd (cc ((text_eq_iff a b).1 same, other))
]

held_refuses :
    (disk : Disk) (folder : Folder) (lock : Text) (e : Entry)
    → get folder lock ≡ some e
    → e.held ≡ true
    → try_hold disk folder lock ≡ false
unfolding try_hold
held_refuses disk folder lock e here held = ground (arith, here, held)

-- why a window is left alone: it is not old enough, or a writer holds its lock
abbrev pub IsKept : Folder → Text → ℕ → ℕ → Type 0
IsKept folder window retention_days now =
    (is_aged_out folder window retention_days now ≡ false)
    ⊎ ((e : Entry) × (get folder (lock_name window) ≡ some e) × (e.held ≡ true))

module _ (disk : Disk) (retention_days now : ℕ) (was : Folder) (window : Text)
    (json : has_extension window (codes "json") ≡ true) (there : is_some (get was window) ≡ true)
    (kept : IsKept was window retention_days now) where
  -- to remove what is neither
  Intact-remove_file :
      (folder : Folder) (name : Text)
      → text_eq window name ≡ false
      → text_eq (lock_name window) name ≡ false
      → Intact was folder window
      → Intact was (remove_file disk folder name).1 window
  Intact-remove_file folder name other other_lock i = record {
    same_window = get-remove_file disk folder name window other ∙ i.same_window;
    same_lock = get-remove_file disk folder name (lock_name window) other_lock ∙ i.same_lock;
  }

  -- another window is deleted with a lock of its own
  Intact-delete_window :
      (folder : Folder) (name : Text)
      → has_extension name (codes "json") ≡ true
      → text_eq window name ≡ false
      → Intact was folder window
      → Intact was (delete_window disk folder name).1 window
  unfolding delete_window
  Intact-delete_window folder name is_json other i =
      let lock_other = lock-ne-window window name json is_json in
      let first = Intact-remove_file folder name other lock_other i in
      elim (Bool-cases (is_some (get folder (lock_name name)))) [
        | inr a ↦ rw a first
        | inl a ↦ elim (Bool-cases (try_hold disk folder (lock_name name))) [
          | inr b ↦ rw (a, b) i
          | inl b ↦ elim (Bool-cases (remove_file disk folder name).0) [
            | inr c ↦ rw (a, b, c) first
            | inl c ↦
                rw (a, b, c)
                  (Intact-remove_file (remove_file disk folder name).1 (lock_name name)
                    (text_eq_comm window (lock_name name) ∙ lock-ne-window name window is_json json)
                    (lock-ne-lock window name json is_json other) first)
          ]
        ]
      ]

  aged_as_before :
      (folder : Folder)
      → Intact was folder window
      → is_aged_out folder window retention_days now ≡ is_aged_out was window retention_days now
  unfolding is_aged_out
  aged_as_before folder i = rw i.same_window refl

  -- the window itself: it is old only if its lock is held
  kept_stays :
      (folder : Folder)
      → is_aged_out folder window retention_days now ≡ true
      → Intact was folder window
      → Intact was (delete_window disk folder window).1 window
  unfolding delete_window
  kept_stays folder old i = elim kept [
    | inl young ↦ absurd (cc (aged_as_before folder i, old, young))
    | inr (e, locked, held) ↦
        let lock_here : get folder (lock_name window) ≡ some e = i.same_lock ∙ locked in
        let refused : try_hold disk folder (lock_name window) ≡ false =
          held_refuses disk folder (lock_name window) e lock_here held in
        rw (lock_here, refused) i
  ]

  -- a window's turn
  Intact-sweep_window :
      (name : Text) (folder : Folder) (stats : SweepStats)
      → has_extension name (codes "json") ≡ true
      → Intact was folder window
      → Intact was (sweep_window disk retention_days now name (folder, stats)).0 window
  unfolding sweep_window
  Intact-sweep_window name folder stats is_json i =
      elim (Bool-cases (is_aged_out folder name retention_days now)) [
        | inr b ↦ rw b i
        | inl b ↦ rw b (elim (Bool-cases (text_eq window name)) [
          | inr other ↦ Intact-delete_window folder name is_json other i
          | inl same ↦
              let window_is = (text_eq_iff window name).0 same in
              subst (λ (n : Text). Intact was (delete_window disk folder n).1 window) window_is
                (kept_stays folder (rw (sym window_is) at b) i)
        ])
      ]

  no_window :
      (name : Text) → has_extension name (codes "json") ≡ false → text_eq window name ≡ false
  no_window name no_json = elim (Bool-cases (text_eq window name)) [
    | inr e ↦ e
    | inl e ↦
        let same = (text_eq_iff window name).0 e in
        absurd (cc (json, ap (λ (n : Text). has_extension n (codes "json")) same, no_json))
  ]

  no_lock :
      (folder : Folder) (name : Text)
      → is_some (get folder (window_for_sidecar name)) ≡ false
      → Intact was folder window
      → text_eq (lock_name window) name ≡ false
  no_lock folder name orphan i = elim (Bool-cases (text_eq (lock_name window) name)) [
    | inr e ↦ e
    | inl e ↦
        let same = (text_eq_iff (lock_name window) name).0 e in
        let back = sym (ap window_for_sidecar same) ∙ (window_for_sidecar-lock window json).0 in
        let gone : is_some (get was window) ≡ false = rw i.same_window at (rw back at orphan) in
        absurd (cc (there, gone))
  ]

  Intact-sweep_sidecar :
      (name : Text) (folder : Folder) (stats : SweepStats)
      → has_extension name (codes "json") ≡ false
      → Intact was folder window
      → Intact was (sweep_sidecar disk retention_days now name (folder, stats)).0 window
  unfolding sweep_sidecar delete_orphan_lock
  Intact-sweep_sidecar name folder stats no_json i =
      elim (Bool-cases (is_some (get folder (window_for_sidecar name)))) [
        | inl a ↦ rw a i
        | inr a ↦ elim (Bool-cases (is_aged_out folder name retention_days now)) [
          | inr b ↦ rw (a, b) i
          | inl b ↦
              let gone =
                Intact-remove_file folder name (no_window name no_json) (no_lock folder name a i)
                  i in
              elim (Bool-cases (has_extension name (codes "lock"))) [
                | inr c ↦ rw (a, b, c) gone
                | inl c ↦ elim (Bool-cases (try_hold disk folder name)) [
                  | inl d ↦ rw (a, b, c, d) gone
                  | inr d ↦ rw (a, b, c, d) i
                ]
              ]
        ]
      ]

  Intact-sweep_one :
      (name : Text) (folder : Folder) (stats : SweepStats)
      → Intact was folder window
      → Intact was (sweep_one disk retention_days now name (folder, stats)).0 window
  unfolding sweep_one
  Intact-sweep_one name folder stats i = elim (Bool-cases (has_extension name (codes "json"))) [
    | inl b ↦ rw b (Intact-sweep_window name folder stats b i)
    | inr b ↦ rw b (Intact-sweep_sidecar name folder stats b i)
  ]

  Intact-sweep_files :
      (names : List Text) (folder : Folder) (stats : SweepStats)
      → Intact was folder window
      → Intact was (sweep_files disk retention_days now names (folder, stats)).0 window
  unfolding sweep_files
  Intact-sweep_files [] folder stats i = i
  Intact-sweep_files (name ∷ names) folder stats i =
      Intact-sweep_files names _ _ (Intact-sweep_one name folder stats i)

-- A sweep of the window files leaves a window and its lock as they are if the window is not older
-- than the horizon, or if a writer holds its lock, whatever else it removes.
pub sweep_windows_dir-keeps :
    (disk : Disk) (retention_days now : ℕ) (folder : Folder) (stats : SweepStats) (window : Text)
    → has_extension window (codes "json") ≡ true
    → is_some (get folder window) ≡ true
    → IsKept folder window retention_days now
    → let after = (sweep_windows_dir disk retention_days now (folder, stats)).0 in
      (get after window ≡ get folder window)
      × (get after (with_extension window (codes "lock"))
          ≡ get folder (with_extension window (codes "lock")))
unfolding sweep_windows_dir
sweep_windows_dir-keeps disk retention_days now folder stats window json there kept =
    elim (Bool-cases (retention_days == 0)) [
      | inl b ↦ rw b (refl, refl)
      | inr b ↦
          let i =
            Intact-sweep_files disk retention_days now folder window json there kept
              (files_of folder) folder stats (record { same_window = refl; same_lock = refl }) in
          rw b (i.same_window, i.same_lock)
    ]
