-- ===== src/Posix/Paths.antt =====
-- The buffers that paths are printed to.
use sawang.Posix.{sprintf}
use sawang.Prelude.{ℕ, ◌+◌, ◌≤◌, ◌≡◌, Option, none, some, ◌++◌, CString, codes, length, arith}

-- a text and its terminating zero fill a buffer of one byte more
pub sprintf_fits :
    (size : ℕ) (text : CString) → length text + 1 ≡ size → sprintf size text ≡ some text
unfolding sprintf
sprintf_fits size text h = ground arith

-- the path of the memory of a payload, an answer or Gonggo's activation
unfoldable pub slash_path : CString → Option CString
unfolding sprintf
slash_path name = sprintf (length name + 2) (codes "/" ++ name)

-- a buffer without room for the zero is written past its end
pub sprintf_overflows : (size : ℕ) (text : CString) → size ≤ length text → sprintf size text ≡ none
unfolding sprintf
sprintf_overflows size text h = ground arith
