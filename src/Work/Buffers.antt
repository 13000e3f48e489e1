-- ===== src/Work/Buffers.antt =====
-- The buffers that the program prints the paths of shared memory to.
use sawang.Prelude.{length-append, ◌+◌, ◌≡◌, none, some, ◌++◌, CString, codes, length, arith}
use sawang.Posix.Paths.{sprintf_overflows, sprintf_fits, slash_path}
use sawang.ProxySubscribe.Context.{subscribe_suffix, proxy_subscribe_path_create}
use sawang.ProxyChannel.Context.{channel_suffix, proxy_channel_path_create}
use sawang.Posix.{sprintf}
use sawang.ProxySubscribe.Owned.{subscribe_path}
use sawang.ProxyChannel.Owned.{channel_path}

-- The path of the channel, that of the subscription, and that of a payload, an answer or an
-- activation fit the buffers that are allocated for them, for any name: nothing is written past
-- their ends. One byte less would not do.
pub paths-fit :
    (name : CString)
    → (proxy_channel_path_create name ≡ some (channel_path name))
      × (proxy_subscribe_path_create name ≡ some (subscribe_path name))
      × (slash_path name ≡ some (codes "/" ++ name))
      × (sprintf (length name + length channel_suffix + 1) (channel_path name) ≡ none)
      × (sprintf (length name + length subscribe_suffix + 1) (subscribe_path name) ≡ none)
      × (sprintf (length name + 1) (codes "/" ++ name) ≡ none)
unfolding proxy_channel_path_create proxy_subscribe_path_create slash_path
paths-fit name = (
  sprintf_fits _ (channel_path name) (omega (arith, length-append name channel_suffix)),
  sprintf_fits _ (subscribe_path name) (omega (arith, length-append name subscribe_suffix)),
  sprintf_fits _ (codes "/" ++ name) (omega arith),
  sprintf_overflows _ (channel_path name) (omega (arith, length-append name channel_suffix)),
  sprintf_overflows _ (subscribe_path name) (omega (arith, length-append name subscribe_suffix)),
  sprintf_overflows _ (codes "/" ++ name) (omega arith),
)
