-- ===== src/ProxyChannel/Context.antt =====
-- gear/proxychannel.c: the shared memory of the channel, which is there before its thread and after
-- it. The callbacks that `proxy_channel_context_init` keeps are arguments of what calls them.
use sawang.Prelude.{
  ℕ, ◌+◌, Bool, true, false, Option, none, some, [], ◌∷◌, ◌++◌, CString, codes, if◌then◌else◌,
  length,
}
use sawang.Posix.{
  signalled, unlocked, robust_lock, inited, channel_lock, closed, channel_dispatcher_wakeup,
  shared_mutex_init, channel_proxy_wakeup, mmap, channel_shm, channel_idle, shm_open_or_create,
  path_destroy, freed, ShmContext, sprintf, shm_destroy, Posix, Calls,
}
use sawang.Shm.{ProxyChannelState, ProxyChannelShm}

abbrev pub channel_suffix : CString
channel_suffix = codes "_channel"

-- the text that is printed to the buffer of `malloc`, "/" first
unfoldable pub proxy_channel_path_create : CString → Option CString
unfolding sprintf
proxy_channel_path_create proxy_name =
    sprintf (length proxy_name + length channel_suffix + 2)
      (codes "/" ++ (proxy_name ++ channel_suffix))

-- the locks and conditions that are destroyed with the memory, the latest first
abbrev pub channel_freed : Calls
channel_freed =
    freed channel_idle
    ∷ freed channel_proxy_wakeup
    ∷ freed channel_dispatcher_wakeup
    ∷ freed channel_lock
    ∷ []

unfoldable pub proxy_channel_context_destroy :
    ShmContext ProxyChannelShm → Calls → ShmContext ProxyChannelShm × Calls
unfolding shm_destroy path_destroy
proxy_channel_context_destroy c h =
    let (c, h) = shm_destroy channel_shm channel_freed c h in path_destroy c h

-- the size of the structure, and what the memory holds when it is mapped
module _ (p : Posix) (size : ℕ) (found : ProxyChannelShm) where
  -- `none` is a write to memory that could not be mapped
  unfoldable pub proxy_channel_shm_create :
      CString
      → ShmContext ProxyChannelShm
      → Calls
      → Option (Bool × ShmContext ProxyChannelShm × Calls)
  unfolding shm_open_or_create mmap shared_mutex_init
  proxy_channel_shm_create path c h =
      let (opened, h) = shm_open_or_create p path size h in
      if opened
      then (let (ok, h) = mmap p channel_shm h in
          let h = closed ∷ h in
          if ok
          then (let h = shared_mutex_init p channel_lock h in
              some (
                true,
                record c {
                  shm = some (record found {
                    state = ProxyChannelState.init;
                    rid = [];
                    payload_buff_length = 0;
                  });
                },
                inited channel_idle
                    ∷ inited channel_proxy_wakeup
                    ∷ inited channel_dispatcher_wakeup
                    ∷ h,
              ))
          else none)
      else some (false, c, h)

  unfoldable pub proxy_channel_context_init :
      CString
      → ShmContext ProxyChannelShm
      → Calls
      → Option (Bool × ShmContext ProxyChannelShm × Calls)
  unfolding proxy_channel_path_create proxy_channel_shm_create
  proxy_channel_context_init proxy_name c h = elim (proxy_channel_path_create proxy_name) [
    | none ↦ none
    | some path ↦ elim (proxy_channel_shm_create path c h) [
      | none ↦ none
      | some (ok, c', h') ↦ some (ok, record c' { path = if ok then some path else none }, h')
    ]
  ]

-- `proxy_channel_stop` on the memory and the lock. `none` is an access through a null pointer.
unfoldable pub proxy_channel_shm_stop :
    Posix → ShmContext ProxyChannelShm → Calls → Option (ShmContext ProxyChannelShm × Calls)
unfolding robust_lock
proxy_channel_shm_stop p c h = elim c.shm [
  | none ↦ none
  | some shm ↦ some (
    record c { shm = some (record shm { state = ProxyChannelState.termination }) },
    unlocked channel_lock ∷ signalled channel_proxy_wakeup ∷ robust_lock p channel_lock h,
  )
]
