-- ===== src/GonggoAlive.antt =====
-- gear/gonggoalive.c: the thread that waits for Gonggo's death, by the lock that Gonggo holds as long
-- as it lives.
pub mod Ends
pub mod Lost
use sawang.Prelude.{
  ℕ, zero, suc, Bool, true, false, ◌&&◌, ◌||◌, not, Option, none, some, ◌∷◌, CString, if◌then◌else◌,
}
use sawang.Posix.{
  is_busy, is_owner_dead, is_ok, slept, closed, killed, tried, mmap, locked, gonggo_thread,
  gonggo_shm, unmapped, unlocked, shm_open, gonggo_lock, cancelled, shm_unlink_enable, ShmContext,
  Posix, LockStatus, Calls,
}
use sawang.AliveMutex.{alive_path, AliveMutexShm}
use sawang.Shm.{ProxyChannelShm, ProxySubscribeShm}

-- What the thread reads and writes: its own variables, whether Gonggo's memory is mapped, the flag
-- that ends the program, and the contexts whose memory it marks to be unlinked.
pub record Watch : Type 0 where
  pub gonggo_alive_started : Bool
  pub gonggo_dead : Bool
  pub gonggo_alive_shm : Bool
  pub proxy_exit : Bool
  pub channel : ShmContext ProxyChannelShm
  pub subscribe : ShmContext ProxySubscribeShm
  pub alive : ShmContext AliveMutexShm

unfoldable pub gonggo_alive_context_destroy : Watch → Calls → Watch × Calls
gonggo_alive_context_destroy w h =
    if w.gonggo_alive_shm
    then (record w { gonggo_alive_shm = false }, unmapped gonggo_shm ∷ h)
    else (w, h)

-- pthread_cancel, unless the thread ends by itself
unfoldable pub gonggo_alive_stop : Watch → Calls → Calls
gonggo_alive_stop w h = if w.gonggo_dead then h else cancelled gonggo_thread ∷ h

abbrev pub gonggo_alive_cleanup : Calls → Calls
gonggo_alive_cleanup h = unlocked gonggo_lock ∷ h

-- Gonggo died without a word
unfoldable pub unlink_all : Watch → Watch
unfolding shm_unlink_enable
unlink_all w = record w {
  channel = shm_unlink_enable w.channel;
  subscribe = shm_unlink_enable w.subscribe;
  alive = shm_unlink_enable w.alive;
}

module _ (p : Posix) where
  -- is Gonggo there, by the lock that it holds
  unfoldable pub check_alive : Calls → Bool × Calls
  check_alive h =
      let status = p.lock_status h gonggo_lock in
      let h = tried gonggo_lock status ∷ h in
      if is_ok status
      then (true, unlocked gonggo_lock ∷ h)
      else if not (is_busy status) || not (p.gonggo_is_alive h)
      then (false, unmapped gonggo_shm ∷ h)
      else (true, h)

  -- `none` is a lock at a null pointer
  unfoldable pub gonggo_alive_create_shm : CString → Calls → Option (Bool × Calls)
  unfolding shm_open mmap check_alive
  gonggo_alive_create_shm gonggo_name h =
      let (opened, h) = shm_open p (alive_path gonggo_name) false h in
      if opened
      then (let (ok, h) = mmap p gonggo_shm h in
          let h = closed ∷ h in if ok then some (check_alive h) else none)
      else none

  unfoldable pub gonggo_alive_context_init : CString → Watch → Calls → Option (Bool × Watch × Calls)
  unfolding gonggo_alive_create_shm
  gonggo_alive_context_init gonggo_name w h = elim (gonggo_alive_create_shm gonggo_name h) [
    | none ↦ none
    | some (ok, h') ↦ some (ok, record w { gonggo_alive_shm = ok }, h')
  ]

  -- does a look at Gonggo's lock find it dead: the status of the lock, and the calls with it
  unfoldable pub finds_dead : LockStatus → Calls → Bool
  finds_dead status h = is_owner_dead status || (is_ok status && not (p.gonggo_is_alive h))

  unfoldable pub mark_dead : Watch → Calls → Watch
  unfolding unlink_all
  mark_dead w h = record (if p.gonggo_is_alive h then unlink_all w else w) {
    gonggo_dead = true;
    proxy_exit = true;
  }

  -- the body of the loop
  unfoldable pub gonggo_look : Watch → Calls → Watch × Calls
  unfolding finds_dead mark_dead
  gonggo_look w h =
      let status = p.lock_status h gonggo_lock in
      let h = locked gonggo_lock status ∷ h in
      if finds_dead status h
      then (mark_dead w h, if is_ok status then unlocked gonggo_lock ∷ killed ∷ h else killed ∷ h)
      else (w, if is_ok status then slept ∷ unlocked gonggo_lock ∷ h else h)

  -- the loop, for a number of rounds
  unfoldable pub gonggo_loop : ℕ → Watch → Calls → Watch × Calls
  unfolding gonggo_look
  gonggo_loop zero w h = (w, h)
  gonggo_loop (suc n) w h =
      let (w', h') = gonggo_look w h in
      let rest = gonggo_loop n w' h' in if w.gonggo_dead then (w, h) else rest

  -- the thread: true if it has left its loop within a number of rounds
  unfoldable pub gonggo_alive : ℕ → Watch → Calls → Watch × Calls × Bool
  unfolding gonggo_loop
  gonggo_alive n w h =
      let (w, h) = gonggo_loop n (record w { gonggo_alive_started = true }) h in
      (w, if w.gonggo_dead then gonggo_alive_cleanup h else h, w.gonggo_dead)
