-- ===== src/Work/Ledger.antt =====
-- What the whole program holds: threads, locks of its own, and whether memory is only ever given back
-- while no thread runs.
use sawang.Prelude.{
  ℕ, zero, suc, ◌≡◌, refl, ◌∙◌, Bool, true, false, ◌&&◌, ◌||◌, not, Option, [], ◌∷◌, CString,
  if◌then◌else◌, arith,
}
use sawang.AliveMutex.{AliveMutexShm}
use sawang.Shm.{ProxySubscribeShm, ProxyChannelShm}
use sawang.Posix.{
  uuid_lock, log_lock, gonggo_shm, comm_wakeup, alive_shm, subscribe_shm, comm_lock,
  subscribe_wakeup, joined, freed, channel_shm, unmapped, thread_created, subscribe_lock, inited,
  Thread, channel_thread, subscribe_thread, gonggo_thread, comm_thread, Sync, Posix, Calls,
}
use sawang.Posix.Counts.{held}
use sawang.GonggoAlive.{Watch, gonggo_loop, gonggo_look}

abbrev is_private : Sync → Bool
is_private subscribe_lock = true
is_private subscribe_wakeup = true
is_private comm_lock = true
is_private comm_wakeup = true
is_private log_lock = true
is_private uuid_lock = true
is_private _ = false

abbrev same_thread : Thread → Thread → Bool
same_thread channel_thread channel_thread = true
same_thread subscribe_thread subscribe_thread = true
same_thread gonggo_thread gonggo_thread = true
same_thread comm_thread comm_thread = true
same_thread _ _ = false

abbrev same_sync : Sync → Sync → Bool
same_sync subscribe_lock subscribe_lock = true
same_sync subscribe_wakeup subscribe_wakeup = true
same_sync comm_lock comm_lock = true
same_sync comm_wakeup comm_wakeup = true
same_sync log_lock log_lock = true
same_sync uuid_lock uuid_lock = true
same_sync _ _ = false

-- a thread that has been created and not joined
unfoldable pub runs : Thread → Calls → Bool
runs t [] = false
runs t (thread_created u true ∷ h) = same_thread t u || runs t h
runs t (joined u ∷ h) = not (same_thread t u) && runs t h
runs t (_ ∷ h) = runs t h

abbrev pub idle : Calls → Bool
idle h = not (
    runs channel_thread h
    || (runs subscribe_thread h || (runs gonggo_thread h || runs comm_thread h)))

-- a lock or condition of the process that has been made and not destroyed
unfoldable pub made : Sync → Calls → Bool
made s [] = false
made s (inited u ∷ h) = same_sync s u || made s h
made s (freed u ∷ h) = not (same_sync s u) && made s h
made s (_ ∷ h) = made s h

-- Memory has only been unmapped, and locks destroyed, while no thread ran; a lock of the process has
-- only been destroyed where it was made, and a thread joined where it ran.
unfoldable pub safe : Calls → Bool
unfolding runs made
safe [] = true
safe (unmapped r ∷ h) = idle h && safe h
safe (freed s ∷ h) = idle h && ((not (is_private s) || made s h) && safe h)
safe (joined t ∷ h) = runs t h && safe h
safe (_ ∷ h) = safe h

-- The measures of a process.
pub record Ledger : Type 0 where
  pub channel_held : ℕ
  pub subscribe_held : ℕ
  pub alive_held : ℕ
  pub gonggo_held : ℕ
  pub channel_runs : Bool
  pub subscribe_runs : Bool
  pub gonggo_runs : Bool
  pub comm_runs : Bool
  pub made_subscribe_lock : Bool
  pub made_subscribe_wakeup : Bool
  pub made_comm_lock : Bool
  pub made_comm_wakeup : Bool
  pub made_log_lock : Bool
  pub made_uuid_lock : Bool
  pub is_safe : Bool

abbrev pub ledger : Calls → Ledger
ledger h = record {
  channel_held = held channel_shm h;
  subscribe_held = held subscribe_shm h;
  alive_held = held alive_shm h;
  gonggo_held = held gonggo_shm h;
  channel_runs = runs channel_thread h;
  subscribe_runs = runs subscribe_thread h;
  gonggo_runs = runs gonggo_thread h;
  comm_runs = runs comm_thread h;
  made_subscribe_lock = made subscribe_lock h;
  made_subscribe_wakeup = made subscribe_wakeup h;
  made_comm_lock = made comm_lock h;
  made_comm_wakeup = made comm_wakeup h;
  made_log_lock = made log_lock h;
  made_uuid_lock = made uuid_lock h;
  is_safe = safe h;
}

-- calls that change no measure
module _ (p : Posix) where
  pub look-ledger : (w : Watch) (h : Calls) → ledger (gonggo_look p w h).1 ≡ ledger h
  unfolding gonggo_look held runs made safe
  look-ledger w h = ground arith

  either_same :
      (b : Bool) (h : Calls) (w : Watch) (out : Watch × Calls)
      → ledger out.1 ≡ ledger h
      → ledger (if b then (w, h) else out).1 ≡ ledger h
  either_same true h w out e = refl
  either_same false h w out e = e

  pub loop-ledger : (n : ℕ) (w : Watch) (h : Calls) → ledger (gonggo_loop p n w h).1 ≡ ledger h
  unfolding gonggo_loop
  loop-ledger zero w h = refl
  loop-ledger (suc n) w h =
      let rest = loop-ledger n (gonggo_look p w h).0 (gonggo_look p w h).1 ∙ look-ledger w h in
      either_same w.gonggo_dead h w (gonggo_loop p n (gonggo_look p w h).0 (gonggo_look p w h).1)
        rest

-- What the looks at Gonggo leave alone: what is mapped, and that the thread has started.
pub record Kept : Type 0 where
  pub channel_path : Option CString
  pub channel_shm : Option ProxyChannelShm
  pub subscribe_path : Option CString
  pub subscribe_shm : Option ProxySubscribeShm
  pub alive_path : Option CString
  pub alive_shm : Option AliveMutexShm
  pub gonggo_shm : Bool
  pub gonggo_started : Bool

abbrev pub kept : Watch → Kept
kept w = record {
  channel_path = w.channel.path;
  channel_shm = w.channel.shm;
  subscribe_path = w.subscribe.path;
  subscribe_shm = w.subscribe.shm;
  alive_path = w.alive.path;
  alive_shm = w.alive.shm;
  gonggo_shm = w.gonggo_alive_shm;
  gonggo_started = w.gonggo_alive_started;
}

module _ (p : Posix) where
  look-kept : (w : Watch) (h : Calls) → kept (gonggo_look p w h).0 ≡ kept w
  unfolding gonggo_look
  look-kept w h = ground arith

  either_kept :
      (b : Bool) (h : Calls) (w : Watch) (out : Watch × Calls)
      → kept out.0 ≡ kept w
      → kept (if b then (w, h) else out).0 ≡ kept w
  either_kept true h w out e = refl
  either_kept false h w out e = e

  pub loop-kept : (n : ℕ) (w : Watch) (h : Calls) → kept (gonggo_loop p n w h).0 ≡ kept w
  unfolding gonggo_loop
  loop-kept zero w h = refl
  loop-kept (suc n) w h =
      let (v, g) = gonggo_look p w h in
      either_kept w.gonggo_dead h w (gonggo_loop p n v g) (loop-kept n v g ∙ look-kept w h)
