-- ===== src/Posix/Opening.antt =====
-- How shared memory is opened, or created where there is none.
use sawang.Prelude.{ℕ, ◌≡◌, Bool, true, false, not, ◌&&◌, ◌∷◌, CString, if◌then◌else◌, arith}
use sawang.Posix.{truncated, opened, shm_open_or_create, Calls, Posix}
use sawang.Posix.Counts.{reopens}

module _ (p : Posix) where
  -- a description that the code is compared with: the object if there is one, else a new one
  unfoldable pub opened_or_made : CString → ℕ → Calls → Bool × Calls
  opened_or_made path size h =
      let found = p.opens h path false in
      let h = opened path false found ∷ h in
      if not found && p.no_entry h
      then (let made = p.opens h path true in
          (
            made,
            if made then truncated size ∷ opened path true made ∷ h else opened path true made ∷ h,
          ))
      else (found, h)

  -- Opening an object that is there and creating one where there is none, in a test of errno alone,
  -- is the same as in a test of the descriptor and of errno, where an open object does not find errno
  -- at ENOENT from an earlier call.
  pub open_or_create-opened_or_made :
      (path : CString) (size : ℕ) (h : Calls)
      → reopens p path h ≡ false
      → shm_open_or_create p path size h ≡ opened_or_made path size h
  unfolding shm_open_or_create opened_or_made
  open_or_create-opened_or_made path size h n = ground (arith, n)
