-- ===== src/Log/Week.antt =====
-- gear/log.c: what the files hold after any number of calls, and the buffer of a file's name.
use sawang.Prelude.{
  ==_iff, ◌%◌, ◌↔◌, length-append, ℕ, ◌+◌, ◌≤◌, ◌<◌, ◌≡◌, refl, ap, true, Option, none, some, List,
  [], ◌∷◌, ◌++◌, CString, codes, length, ◌==◌, if◌then◌else◌, is_some, arith, Bool-cases, inl, inr,
}
use sawang.Log.{granted, write_log, proxy_log, log_filepath, log_all, LogFile, Files}

-- The name of a log file fits its buffer of 100 bytes exactly if the directory and the proxy's name
-- have at most 90 bytes together, for a day of the week in three letters. Otherwise the name is
-- written past the end of the buffer.
pub filepath-fits :
    (log_path proxy_name weekday : CString)
    → length weekday ≡ 3
    → (is_some (log_filepath log_path proxy_name weekday) ≡ true)
      ↔ (length log_path + length proxy_name ≤ 90)
unfolding log_filepath
filepath-fits log_path proxy_name weekday h = ground (
  arith,
  h,
  length-append log_path (codes "/" ++ (proxy_name ++ (codes "-" ++ (weekday ++ codes ".log")))),
  length-append proxy_name (codes "-" ++ (weekday ++ codes ".log")),
  length-append weekday (codes ".log"),
)

-- the lines of a day, the oldest first
abbrev pub lines_of : ℕ → List (ℕ × CString) → CString
lines_of day [] = []
lines_of day ((d, line) ∷ rest) = if d == day then lines_of day rest ++ line else lines_of day rest

-- no call is of a later day than this one
abbrev pub NoneAfter : ℕ → List (ℕ × CString) → Type 0
NoneAfter day [] = Unit
NoneAfter day ((d, line) ∷ rest) = (d ≤ day) × NoneAfter day rest

-- each call is of the same day as those before it, or of a later one
abbrev pub IsInOrder : List (ℕ × CString) → Type 0
IsInOrder [] = Unit
IsInOrder ((d, line) ∷ rest) = NoneAfter d rest × IsInOrder rest

abbrev pub no_files : Files
no_files weekday = none

-- the bytes of a day's file, which are no other day's
abbrev pub recorded : ℕ → Option LogFile → CString
recorded day none = []
recorded day (some f) = if f.day == day then f.content else []

lines_later :
    (day : ℕ) (d : ℕ) (calls : List (ℕ × CString))
    → NoneAfter d calls
    → d < day
    → lines_of day calls ≡ []
lines_later day d [] h l = refl
lines_later day d ((x, line) ∷ rest) (h, k) l = ground (arith, h, l, lines_later day d rest k l)

write-recorded :
    (d day : ℕ) (line : CString) (file : Option LogFile)
    → recorded day (write_log granted d line file)
      ≡ (if d == day then recorded day file ++ line else [])
unfolding write_log
write-recorded d day line none = ground arith
write-recorded d day line (some f) = ground arith

-- For any calls in the order of their days, from no files on, the file of a day of the week holds
-- exactly the lines of any day that no call is later than, one after the other, if it is that day's
-- file. If it is not, no call is of that day.
pub log_all-lines_of :
    (calls : List (ℕ × CString)) (day : ℕ)
    → IsInOrder calls
    → NoneAfter day calls
    → recorded day (log_all no_files calls (day % 7)) ≡ lines_of day calls
unfolding log_all proxy_log
log_all-lines_of [] day o n = refl
log_all-lines_of ((d, line) ∷ rest) day (o, p) (n, m) =
    let files = log_all no_files rest in
    let before = log_all-lines_of rest day p m in
    let now = write-recorded d day line (files (day % 7)) in
    elim (Bool-cases (d == day)) [
      | inl b ↦ ground (arith, b, before, now, ap (λ x. x % 7) ((==_iff d day).0 b))
      | inr b ↦ ground (arith, b, before, now, n, lines_later day d rest o)
    ]
