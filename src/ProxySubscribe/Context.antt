-- ===== src/ProxySubscribe/Context.antt =====
-- gear/proxysubscribe.c: the shared memory of the subscription and the thread's own lock, which are
-- there before the thread and after it.
use sawang.Prelude.{
  ℕ, ◌+◌, Bool, true, false, Option, none, some, [], ◌∷◌, ◌++◌, CString, codes, if◌then◌else◌,
  length,
}
use sawang.Posix.{
  locked, signalled, unlocked, robust_lock, subscribe_shm_lock, subscribe_lock, closed,
  subscribe_wakeup, subscribe_dispatcher_wakeup, shared_mutex_init, subscribe_shm,
  subscribe_proxy_wakeup, mmap, inited, shm_open_or_create, path_destroy, freed, ShmContext,
  sprintf, shm_destroy, Posix, Calls,
}
use sawang.Shm.{ProxySubscribeState, ProxySubscribeShm}

abbrev pub subscribe_suffix : CString
subscribe_suffix = codes "_subscribe"

unfoldable pub proxy_subscribe_path_create : CString → Option CString
unfolding sprintf
proxy_subscribe_path_create proxy_name =
    sprintf (length proxy_name + length subscribe_suffix + 2)
      (codes "/" ++ (proxy_name ++ subscribe_suffix))

abbrev pub subscribe_freed : Calls
subscribe_freed =
    freed subscribe_proxy_wakeup ∷ freed subscribe_dispatcher_wakeup ∷ freed subscribe_shm_lock ∷ []

unfoldable pub proxy_subscribe_context_destroy :
    ShmContext ProxySubscribeShm → Calls → ShmContext ProxySubscribeShm × Calls
unfolding shm_destroy path_destroy
proxy_subscribe_context_destroy c h =
    let (c, h) = shm_destroy subscribe_shm subscribe_freed c h in
    let (c, h) = path_destroy c h in (c, freed subscribe_wakeup ∷ freed subscribe_lock ∷ h)

-- the size of the structure, and what the memory holds when it is mapped
module _ (p : Posix) (size : ℕ) (found : ProxySubscribeShm) where
  -- `none` is a write to memory that could not be mapped
  unfoldable pub proxy_subscribe_shm_create :
      CString
      → ShmContext ProxySubscribeShm
      → Calls
      → Option (Bool × ShmContext ProxySubscribeShm × Calls)
  unfolding shm_open_or_create mmap shared_mutex_init
  proxy_subscribe_shm_create path c h =
      let (opened, h) = shm_open_or_create p path size h in
      if opened
      then (let (ok, h) = mmap p subscribe_shm h in
          let h = closed ∷ h in
          if ok
          then (let h = shared_mutex_init p subscribe_shm_lock h in
              some (
                true,
                record c {
                  shm = some (record found {
                    state = ProxySubscribeState.init;
                    aid = [];
                    payload_buff_length = 0;
                    remove_request = false;
                  });
                },
                inited subscribe_proxy_wakeup ∷ inited subscribe_dispatcher_wakeup ∷ h,
              ))
          else none)
      else some (false, c, h)

  -- the thread's own lock and condition are made where the shared memory is there
  unfoldable pub proxy_subscribe_context_init :
      CString
      → ShmContext ProxySubscribeShm
      → Calls
      → Option (Bool × ShmContext ProxySubscribeShm × Calls)
  unfolding proxy_subscribe_path_create proxy_subscribe_shm_create
  proxy_subscribe_context_init proxy_name c h = elim (proxy_subscribe_path_create proxy_name) [
    | none ↦ none
    | some path ↦ elim (proxy_subscribe_shm_create path c h) [
      | none ↦ none
      | some (ok, c', h') ↦ some (
        ok,
        record c' { path = if ok then some path else none },
        if ok then inited subscribe_wakeup ∷ inited subscribe_lock ∷ h' else h',
      )
    ]
  ]

-- `proxy_subscribe_stop` on the memory and the locks. `none` is an access through a null pointer.
unfoldable pub proxy_subscribe_shm_stop :
    Posix → ShmContext ProxySubscribeShm → Calls → Option (ShmContext ProxySubscribeShm × Calls)
unfolding robust_lock
proxy_subscribe_shm_stop p c h = elim c.shm [
  | none ↦ none
  | some shm ↦
      let h =
        unlocked subscribe_shm_lock
        ∷ signalled subscribe_proxy_wakeup
        ∷ robust_lock p subscribe_shm_lock h in
      some (
        record c { shm = some (record shm { state = ProxySubscribeState.termination }) },
        unlocked subscribe_lock
            ∷ signalled subscribe_wakeup
            ∷ locked subscribe_lock (p.lock_status h subscribe_lock)
            ∷ h,
      )
]
