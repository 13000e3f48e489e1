-- ===== src/Posix.antt =====
-- The system calls and the calls of pthread that the program makes. The system is a parameter: what
-- each call returns is any function of the calls so far. A list of calls has the latest one first.
pub mod Counts
pub mod Answer
pub mod Opening
pub mod Owned
pub mod Paths
use sawang.Prelude.{
  ℕ, Bool, true, false, Option, none, some, List, ◌∷◌, ◌++◌, length, ltb, CString, if◌then◌else◌,
}

-- The memory that the program maps: that of its channel, of its subscription, of its own and of
-- Gonggo's life sign, and of a payload or an answer.
pub data Region : Type 0 where
  channel_shm subscribe_shm alive_shm gonggo_shm buffer : Region

-- The locks and conditions, in that memory and of the process.
pub data Sync : Type 0 where
  channel_lock channel_dispatcher_wakeup channel_proxy_wakeup channel_idle : Sync
  subscribe_shm_lock subscribe_dispatcher_wakeup subscribe_proxy_wakeup : Sync
  subscribe_lock subscribe_wakeup comm_lock comm_wakeup : Sync
  alive_lock gonggo_lock log_lock uuid_lock : Sync

pub data LockStatus : Type 0 where
  locked_ok owner_dead busy not_recoverable : LockStatus
  lock_fails : ℕ → LockStatus

abbrev pub is_ok : LockStatus → Bool
is_ok locked_ok = true
is_ok _ = false

abbrev pub is_owner_dead : LockStatus → Bool
is_owner_dead owner_dead = true
is_owner_dead _ = false

abbrev pub is_busy : LockStatus → Bool
is_busy busy = true
is_busy _ = false

pub data Thread : Type 0 where
  channel_thread subscribe_thread gonggo_thread comm_thread : Thread

-- A call with its result, where the program reads it.
pub data Call : Type 0 where
  -- shm_open, with the flag O_CREAT or without
  opened : CString → Bool → Bool → Call
  truncated : ℕ → Call
  closed : Call
  mapped : Region → Bool → Call
  unmapped : Region → Call
  unlinked : CString → Call
  -- strcpy to mapped memory
  copied : CString → Call
  inited freed consistent unlocked : Sync → Call
  locked tried : Sync → LockStatus → Call
  signalled : Sync → Call
  slept : Call
  killed : Call
  handles_term : Bool → Call
  thread_created : Thread → Bool → Call
  joined cancelled : Thread → Call
  paused : Call

abbrev pub Calls : Type 0
Calls = List Call

pub record Posix : Type 0 where
  pub opens : Calls → CString → Bool → Bool
  -- errno == ENOENT
  pub no_entry : Calls → Bool
  pub maps : Calls → Region → Bool
  -- pthread_mutex_init returns EBUSY, and pthread_mutex_consistent returns 0
  pub init_busy : Calls → Sync → Bool
  pub consistent_ok : Calls → Sync → Bool
  pub lock_status : Calls → Sync → LockStatus
  pub creates_thread : Calls → Thread → Bool
  -- sigaction does not return -1
  pub handles : Calls → Bool
  -- the field `alive` in Gonggo's memory
  pub gonggo_is_alive : Calls → Bool

-- sprintf to a buffer of a size; `none` is a write past its end
unfoldable pub sprintf : ℕ → CString → Option CString
sprintf size text = if ltb (length text) size then some text else none

-- The variables of a file that keeps shared memory: its path and its pointer, which may be null, and
-- whether to unlink it.
pub record ShmContext {ℓ} (S : Type ℓ) : Type ℓ where
  pub path : Option CString
  pub shm : Option S
  pub shm_unlink : Bool

-- before the context is initialised
abbrev pub no_context {ℓ} : {S : Type ℓ} → ShmContext S
no_context = record { path = none; shm = none; shm_unlink = false }

module _ {ℓ} {S : Type ℓ} where
  unfoldable pub shm_unlink_enable : ShmContext S → ShmContext S
  shm_unlink_enable c = record c { shm_unlink = true }

  -- the path is unlinked where that is enabled, and freed
  unfoldable pub path_destroy : ShmContext S → Calls → ShmContext S × Calls
  path_destroy c h = elim c.path [
    | none ↦ (c, h)
    | some path ↦ (record c { path = none }, if c.shm_unlink then unlinked path ∷ h else h)
  ]

  -- the locks and conditions are destroyed where unlinking is enabled, and the memory is unmapped
  unfoldable pub shm_destroy : Region → Calls → ShmContext S → Calls → ShmContext S × Calls
  shm_destroy r syncs c h = elim c.shm [
    | none ↦ (c, h)
    | some shm ↦ (record c { shm = none }, unmapped r ∷ (if c.shm_unlink then syncs ++ h else h))
  ]

module _ (p : Posix) where
  unfoldable pub shm_open : CString → Bool → Calls → Bool × Calls
  shm_open path create h = let ok = p.opens h path create in (ok, opened path create ok ∷ h)

  -- An object that is opened, or created where errno says that there is none. The size is that of
  -- the structure in the memory.
  unfoldable pub shm_open_or_create : CString → ℕ → Calls → Bool × Calls
  unfolding shm_open
  shm_open_or_create path size h =
      let (found, h) = shm_open path false h in
      if p.no_entry h
      then (let (made, h) = shm_open path true h in (made, if made then truncated size ∷ h else h))
      else (found, h)

  unfoldable pub mmap : Region → Calls → Bool × Calls
  mmap r h = let ok = p.maps h r in (ok, mapped r ok ∷ h)

  -- pthread_mutex_init of a lock in shared memory, which is taken over from a dead owner
  unfoldable pub shared_mutex_init : Sync → Calls → Calls
  shared_mutex_init lock h =
      let h' = inited lock ∷ h in
      if p.init_busy h lock
      then (if p.consistent_ok h' lock
          then unlocked lock ∷ consistent lock ∷ h'
          else consistent lock ∷ h')
      else h'

  -- pthread_mutex_lock, which takes the lock over from an owner that has died
  unfoldable pub robust_lock : Sync → Calls → Calls
  robust_lock lock h =
      let status = p.lock_status h lock in
      if is_owner_dead status
      then consistent lock ∷ locked lock status ∷ h
      else locked lock status ∷ h
