-- ===== src/AliveMutex.antt =====
-- gear/alivemutex.c: the life sign of the proxy, a lock in shared memory that the proxy holds as
-- long as it serves. `asprintf` is taken to find memory for the path.
use sawang.Prelude.{
  ℕ, Bool, true, false, Option, none, some, ◌∷◌, ◌++◌, CString, codes, if◌then◌else◌,
}
use sawang.Posix.{
  freed, closed, shared_mutex_init, alive_shm, alive_lock, unmapped, unlocked, mmap, locked,
  shm_open_or_create, Calls, path_destroy, ShmContext, Posix,
}

pub record AliveMutexShm : Type 0 where
  pub alive : Bool

abbrev pub alive_path : CString → CString
alive_path name = codes "/" ++ (name ++ codes "_alive")

module _ (p : Posix) (size : ℕ) where
  unfoldable pub alive_mutex_create :
      CString → Bool → ShmContext AliveMutexShm → Calls → Bool × ShmContext AliveMutexShm × Calls
  unfolding shm_open_or_create mmap shared_mutex_init
  alive_mutex_create proxy_name alive c h =
      let (opened, h) = shm_open_or_create p (alive_path proxy_name) size h in
      if opened
      then (let (ok, h) = mmap p alive_shm h in
          let h = closed ∷ h in
          if ok
          then (
            true,
            record c { path = some (alive_path proxy_name); shm = some (record { alive = alive }) },
            shared_mutex_init p alive_lock h,
          )
          else (false, record c { path = none; shm = none }, h))
      else (false, record c { path = none }, h)

  -- `none` is an access through a null pointer
  unfoldable pub alive_mutex_lock : ShmContext AliveMutexShm → Calls → Option Calls
  alive_mutex_lock c h = elim c.shm [
    | none ↦ none
    | some shm ↦ some (locked alive_lock (p.lock_status h alive_lock) ∷ h)
  ]

unfoldable pub alive_mutex_die :
    ShmContext AliveMutexShm → Calls → Option (ShmContext AliveMutexShm × Calls)
alive_mutex_die c h = elim c.shm [
  | none ↦ none
  | some shm ↦
      some (record c { shm = some (record shm { alive = false }) }, unlocked alive_lock ∷ h)
]

-- the pointer keeps its value
unfoldable pub alive_mutex_destroy :
    ShmContext AliveMutexShm → Calls → ShmContext AliveMutexShm × Calls
unfolding path_destroy
alive_mutex_destroy c h =
    path_destroy c (elim c.shm [ none ↦ h | some shm ↦ unmapped alive_shm ∷ freed alive_lock ∷ h ])
