-- ===== src/ProxyChannel/Owned.antt =====
-- gear/proxychannel.c: what the process holds once the context is initialised or destroyed.
use sawang.Prelude.{
  OnSome, length-append, ℕ, ◌≡◌, Bool, ◌&&◌, none, some, ◌++◌, CString, codes, arith,
}
use sawang.Posix.{
  shared_mutex_init, mmap, shm_open_or_create, channel_shm, Calls, ShmContext, Posix,
}
use sawang.ProxyChannel.Context.{
  proxy_channel_shm_create, proxy_channel_context_init, proxy_channel_path_create,
  proxy_channel_context_destroy, channel_suffix,
}
use sawang.Posix.Owned.{InitGives, init-Released, Released, Destroyed}
use sawang.Posix.Paths.{sprintf_fits}
use sawang.Posix.Counts.{unlinks, fds, held}
use sawang.Shm.{ProxyChannelShm}

abbrev pub channel_path : CString → CString
channel_path name = codes "/" ++ (name ++ channel_suffix)

pub destroy-channel :
    (p : Posix) (path : CString) (c : ShmContext ProxyChannelShm) (h : Calls)
    → Destroyed p channel_shm path c h (proxy_channel_context_destroy c h)
unfolding proxy_channel_context_destroy held fds unlinks
destroy-channel p path c h = ground arith

module _ (p : Posix) (size : ℕ) (found : ProxyChannelShm) where
  pub channel_path_create-some :
      (name : CString) → proxy_channel_path_create name ≡ some (channel_path name)
  unfolding proxy_channel_path_create
  channel_path_create-some name =
      sprintf_fits _ (codes "/" ++ (name ++ channel_suffix))
        (omega (arith, length-append name channel_suffix))

  pub init-channel :
      (name : CString) (c : ShmContext ProxyChannelShm) (h : Calls)
      → c.shm ≡ none
      → InitGives p channel_shm
          (channel_path name)
          c
          h
          (proxy_channel_context_init p size found name c h)
  unfolding proxy_channel_context_init proxy_channel_shm_create shm_open_or_create mmap
      shared_mutex_init held fds unlinks
  init-channel name c h n = ground (arith, n, channel_path_create-some name)

  -- Whatever the system answers, if initialising the channel context does not fault, then destroying
  -- it, whether unlinking has been enabled or not, leaves no path, no pointer and as much memory
  -- mapped as before. The path has been unlinked once, where initialising succeeded and unlinking was
  -- enabled, and nothing else has. As many descriptors are open as before, with one more where the
  -- object could be opened and errno still was ENOENT from an earlier call.
  pub init-destroy-channel :
      (unlink : Bool) (name : CString) (c : ShmContext ProxyChannelShm) (h : Calls)
      → c.shm ≡ none
      → OnSome
          (λ (b, d, g).
            Released p channel_shm
              (channel_path name)
              (b && unlink)
              h
              (proxy_channel_context_destroy (record d { shm_unlink = unlink }) g))
          (proxy_channel_context_init p size found name c h)
  init-destroy-channel unlink name c h n =
      init-Released p channel_shm (channel_path name) unlink proxy_channel_context_destroy c h
        (proxy_channel_context_init p size found name c h) (destroy-channel p (channel_path name))
        (init-channel name c h n)
