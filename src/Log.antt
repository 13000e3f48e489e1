-- ===== src/Log.antt =====
-- gear/log.c: one file for each day of the week, which is emptied when that day comes again. A day
-- is a number, in place of a year, a month and a day of the month, and its remainder by 7 is the day
-- of the week. The lock makes a call one step.
pub mod Week
use sawang.Posix.{sprintf}
use sawang.Prelude.{
  ◌%◌, ℕ, Bool, true, false, not, ◌||◌, Option, none, some, List, [], ◌∷◌, ◌++◌, CString, codes,
  length, ltb, ◌==◌, if◌then◌else◌,
}

-- what `stat` says of a file: that there is none, that it fails otherwise, or the day of its time
pub data Stat : Type 0 where
  no_entry fails : Stat
  changed : ℕ → Stat

-- the flags of `open`: none, O_CREAT | O_APPEND, O_APPEND, or O_TRUNC | O_APPEND
pub data Flags : Type 0 where
  no_flags create append truncate : Flags

unfoldable pub log_flags : ℕ → Stat → Flags
log_flags today no_entry = create
log_flags today fails = no_flags
log_flags today (changed day) = if day == today then append else truncate

-- the buffer of 100 bytes; `none` is a write past its end
unfoldable pub log_filepath : CString → CString → CString → Option CString
unfolding sprintf
log_filepath log_path proxy_name weekday =
    sprintf 100
      (log_path ++ (codes "/" ++ (proxy_name ++ (codes "-" ++ (weekday ++ codes ".log")))))

-- the bytes of a call: the time, the process, the level and the text, if it has one
unfoldable pub log_line : CString → CString → CString → CString → CString
log_line time pid level text =
    if ltb 0 (length text)
    then time
      ++ (codes " [" ++ (pid ++ (codes "] " ++ (level ++ (codes ": " ++ (text ++ codes "\n"))))))
    else []

-- a file by its day and its bytes
pub record LogFile : Type 0 where
  pub day : ℕ
  pub content : CString

-- the files of the seven days
abbrev pub Files : Type 0
Files = ℕ → Option LogFile

-- whether `stat` can tell of the file, and whether `open` succeeds; `malloc` is taken to
pub record Access : Type 0 where
  pub stats : Bool
  pub opens : Bool

abbrev pub stat_of : Access → Option LogFile → Stat
stat_of a none = if a.stats then no_entry else fails
stat_of a (some f) = if a.stats then changed f.day else fails

abbrev pub old_content : Flags → Option LogFile → CString
old_content append (some f) = f.content
old_content _ _ = []

abbrev pub is_no_flags : Flags → Bool
is_no_flags no_flags = true
is_no_flags _ = false

-- what `open` and the writes leave of a file
unfoldable pub write_log : Access → ℕ → CString → Option LogFile → Option LogFile
unfolding log_flags
write_log a today line file =
    let flags = log_flags today (stat_of a file) in
    if is_no_flags flags || not a.opens
    then file
    else some (record { day = today; content = old_content flags file ++ line })

unfoldable pub proxy_log : Access → ℕ → CString → Files → Files
unfolding write_log
proxy_log a today line files weekday =
    if weekday == today % 7 then write_log a today line (files weekday) else files weekday

abbrev pub granted : Access
granted = record { stats = true; opens = true }

-- the calls of a program that can write its files, the latest first
unfoldable pub log_all : Files → List (ℕ × CString) → Files
unfolding proxy_log
log_all files [] = files
log_all files ((day, line) ∷ rest) = proxy_log granted day line (log_all files rest)
