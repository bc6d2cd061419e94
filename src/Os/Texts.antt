-- ===== src/Os/Texts.antt =====
-- The texts of the answers: crates/dotagent/src/os_exec.rs and crates/dotagent/src/commands/mcp.rs.
pub mod Shared
use dotagent.Common.{ℕ, zero, Bool, true, false, Option, List, [], ◌∷◌, ◌++◌, leb, if◌then◌else◌}
use dotagent.Common.Int.{ℤ, pos, negsuc}
use dotagent.Common.Text.{Text, codes, decimal, show_ℤ, byte_len}
use dotagent.Common.Text.Lines.{is_empty, join_with, join_lines, split_whitespace}
use dotagent.Notify.Limits.{slice_to, walk_back}
use dotagent.Os.Policy.{OsConfig, is_active, is_wildcard}

-- text between grave accents
abbrev ticked : Text → Text
ticked s = 96 ∷ (s ++ (96 ∷ []))

-- the arguments, each after a blank
abbrev pub spaced : List Text → Text
spaced [] = []
spaced args = 32 ∷ join_with (codes " ") args

abbrev pub confirmation_prompt : Text → List Text → ℕ → Text
confirmation_prompt bin args ttl_seconds =
    codes "This will run:"
    ++ (10
        ∷ 10
        ∷ (codes "    "
            ++ (bin
                ++ (spaced args
                    ++ (10
                        ∷ 10
                        ∷ (codes "Send `!!` to confirm. It expires in "
                            ++ (decimal ttl_seconds ++ codes "s.")))))))

abbrev pub refusal : Text → Text
refusal bin =
    ticked bin
    ++ (codes " is not allowed here. Call os-list for what is, and tell whoever asked "
        ++ codes "that it is the machine's config that says no — not you.")

abbrev pub refusal_typed : Text → Text
refusal_typed bin =
    ticked bin ++ codes " is not allowed. Add it to `[os] allow` in config.toml to change that."

abbrev pub nothing_waits : Text
nothing_waits = codes "Nothing is waiting for confirmation here (or it expired)."

abbrev pub output_max_bytes : ℕ
output_max_bytes = 8000

unfoldable pub cap : Text → ℕ → Text
cap s max_bytes =
    if leb (byte_len s) max_bytes
    then s
    else slice_to s (walk_back s max_bytes)
      ++ (10 ∷ (codes "… truncated at " ++ (decimal max_bytes ++ codes " bytes.")))

-- what a process that exited leaves, and whether it is an error
abbrev pub exited_text : Text → ℤ → Text → Text → Text × Bool
exited_text bin (pos zero) out err = (
  if is_empty out
      then ticked bin ++ codes " exited 0 and printed nothing."
      else cap out output_max_bytes,
  false,
)
exited_text bin code out err = (
  ticked bin
      ++ (codes " exited "
          ++ (show_ℤ code ++ (46 ∷ 10 ∷ cap (if is_empty err then out else err) output_max_bytes))),
  true,
)

abbrev pub not_started_text : Text → Text → Text
not_started_text bin e = codes "Could not start " ++ (ticked bin ++ (codes ": " ++ e))

abbrev pub timed_out_text : Text → ℕ → Text
timed_out_text bin elapsed =
    ticked bin
    ++ (codes " was still running after " ++ (decimal elapsed ++ codes "s and was killed."))

abbrev pub failed_text : Text → Text → Text
failed_text bin e = ticked bin ++ (codes " could not run: " ++ e)

-- the refusal of a tool whose command has to be confirmed; `shown` are the arguments to type
abbrev pub needs_person : Text → Text → Text
needs_person bin shown =
    ticked bin
    ++ (codes " needs a person to confirm it. Tell whoever asked to send `!"
        ++ (bin ++ (shown ++ codes "` themselves — you cannot confirm on their behalf.")))

abbrev listed : List Text → List Text
listed [] = []
listed (bin ∷ []) = (bin ++ codes " (any subcommand)") ∷ []
listed (bin ∷ scope) = (bin ++ (32 ∷ (join_with (codes " ") scope ++ codes " (only)"))) ∷ []

abbrev list_entries : List Text → List Text
list_entries [] = []
list_entries (entry ∷ allow) = listed (split_whitespace entry) ++ list_entries allow

-- the answer of `os-list`, and whether it is an error
unfoldable pub os_list : OsConfig → Text × Bool
os_list cfg =
    if is_active cfg
    then (if is_wildcard cfg
        then (
          codes "Every installed binary is allowed. Resolution goes through PATH, and a path is "
              ++ codes "still refused where a name belongs.",
          false,
        )
        else (join_lines (list_entries cfg.allow), false))
    else (codes "No binaries are allowed on this machine.", true)
