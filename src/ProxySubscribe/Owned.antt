-- ===== src/ProxySubscribe/Owned.antt =====
-- gear/proxysubscribe.c: what the process holds once the context is initialised or destroyed.
use sawang.Prelude.{
  OnSome, length-append, ℕ, ◌≡◌, Bool, ◌&&◌, none, some, ◌++◌, CString, codes, arith,
}
use sawang.Posix.{
  shared_mutex_init, mmap, shm_open_or_create, subscribe_shm, Calls, ShmContext, Posix,
}
use sawang.ProxySubscribe.Context.{
  proxy_subscribe_shm_create, proxy_subscribe_context_init, proxy_subscribe_path_create,
  subscribe_suffix, proxy_subscribe_context_destroy,
}
use sawang.Posix.Owned.{InitGives, init-Released, Released, Destroyed}
use sawang.Posix.Paths.{sprintf_fits}
use sawang.Posix.Counts.{unlinks, fds, held}
use sawang.Shm.{ProxySubscribeShm}

abbrev pub subscribe_path : CString → CString
subscribe_path name = codes "/" ++ (name ++ subscribe_suffix)

pub destroy-subscribe :
    (p : Posix) (path : CString) (c : ShmContext ProxySubscribeShm) (h : Calls)
    → Destroyed p subscribe_shm path c h (proxy_subscribe_context_destroy c h)
unfolding proxy_subscribe_context_destroy held fds unlinks
destroy-subscribe p path c h = ground arith

module _ (p : Posix) (size : ℕ) (found : ProxySubscribeShm) where
  pub subscribe_path_create-some :
      (name : CString) → proxy_subscribe_path_create name ≡ some (subscribe_path name)
  unfolding proxy_subscribe_path_create
  subscribe_path_create-some name =
      sprintf_fits _ (codes "/" ++ (name ++ subscribe_suffix))
        (omega (arith, length-append name subscribe_suffix))

  pub init-subscribe :
      (name : CString) (c : ShmContext ProxySubscribeShm) (h : Calls)
      → c.shm ≡ none
      → InitGives p subscribe_shm
          (subscribe_path name)
          c
          h
          (proxy_subscribe_context_init p size found name c h)
  unfolding proxy_subscribe_context_init proxy_subscribe_shm_create shm_open_or_create mmap
      shared_mutex_init held fds unlinks
  init-subscribe name c h n = ground (arith, n, subscribe_path_create-some name)

  -- Whatever the system answers, if initialising the subscribe context does not fault, then destroying
  -- it, whether unlinking has been enabled or not, leaves no path, no pointer and as much memory
  -- mapped as before. The path has been unlinked once, where initialising succeeded and unlinking was
  -- enabled, and nothing else has. As many descriptors are open as before, with one more where the
  -- object could be opened and errno still was ENOENT from an earlier call.
  pub init-destroy-subscribe :
      (unlink : Bool) (name : CString) (c : ShmContext ProxySubscribeShm) (h : Calls)
      → c.shm ≡ none
      → OnSome
          (λ (b, d, g).
            Released p subscribe_shm
              (subscribe_path name)
              (b && unlink)
              h
              (proxy_subscribe_context_destroy (record d { shm_unlink = unlink }) g))
          (proxy_subscribe_context_init p size found name c h)
  init-destroy-subscribe unlink name c h n =
      init-Released p subscribe_shm (subscribe_path name) unlink proxy_subscribe_context_destroy c h
        (proxy_subscribe_context_init p size found name c h)
        (destroy-subscribe p (subscribe_path name)) (init-subscribe name c h n)
