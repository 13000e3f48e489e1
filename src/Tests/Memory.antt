-- ===== src/Tests/Memory.antt =====
-- The theorems on shared memory, paths and the log at concrete values.
use sawang.Prelude.{
  ◌↔◌, OnSome, ℕ, ◌+◌, ◌≤◌, ◌≡◌, refl, true, false, ◌&&◌, none, some, List, [], ◌∷◌, CString, codes,
  length, is_some, arith,
}
use sawang.Posix.Answer.{write-IsBalanced, read_payload, IsBalanced, write_answer}
use sawang.ProxySubscribe.{owner_dies, Attempt, proxy_subscribe_create_answer}
use sawang.Tests.Systems.{kind_posix, found_channel, program}
use sawang.Work.Buffers.{paths-fit}
use sawang.Log.Week.{log_all-lines_of, lines_of, no_files, filepath-fits, recorded}
use sawang.Posix.{sprintf, no_context, channel_shm}
use sawang.Posix.Paths.{slash_path}
use sawang.ProxySubscribe.Context.{proxy_subscribe_path_create}
use sawang.Log.{log_all, log_filepath}
use sawang.Tests.{rid_3, rid_2, rid_1}
use sawang.ProxyChannel.Context.{
  proxy_channel_path_create, proxy_channel_context_init, proxy_channel_context_destroy,
}
use sawang.Posix.Counts.{unlinks}
use sawang.ProxyChannel.Owned.{init-destroy-channel, channel_path}
use sawang.Posix.Owned.{Released}

init-destroy-channel_example :
    OnSome
      (λ (b, d, g).
        Released kind_posix channel_shm
          (channel_path program.proxy_name)
          (b && true)
          []
          (proxy_channel_context_destroy (record d { shm_unlink = true }) g))
      (proxy_channel_context_init kind_posix 256 found_channel program.proxy_name no_context [])
init-destroy-channel_example =
    init-destroy-channel kind_posix 256 found_channel true program.proxy_name no_context [] refl

-- an attempt with memory for its answer
abbrev attempt : Attempt
attempt = record {
  owner_dead = false;
  uuid_generate = rid_1;
  answer_shm = true;
  wakeup = owner_dies;
  meanwhile = [];
}

write-IsBalanced_example :
    (let (n, g) = write_answer kind_posix rid_1 rid_2 [] in
      (n ≡ proxy_subscribe_create_answer attempt rid_2)
      × IsBalanced kind_posix [] g
      × (unlinks g ≡ [])
      × IsBalanced kind_posix [] (read_payload kind_posix rid_1 []).1
      × (unlinks (read_payload kind_posix rid_1 []).1 ≡ []))
unfolding unlinks
write-IsBalanced_example = write-IsBalanced kind_posix attempt rid_1 rid_2 [] refl

paths-fit_example :
    (proxy_channel_path_create program.proxy_name ≡ some (codes "/clockproxy_channel"))
    × (proxy_subscribe_path_create program.proxy_name ≡ some (codes "/clockproxy_subscribe"))
    × (slash_path program.proxy_name ≡ some (codes "/clockproxy"))
    × (sprintf 19 (codes "/clockproxy_channel") ≡ none)
    × (sprintf 21 (codes "/clockproxy_subscribe") ≡ none)
    × (sprintf 11 (codes "/clockproxy") ≡ none)
paths-fit_example = paths-fit program.proxy_name

filepath-fits_example :
    (is_some (log_filepath (codes "/var/log") program.proxy_name (codes "Mon")) ≡ true)
    ↔ (length (codes "/var/log") + length program.proxy_name ≤ 90)
filepath-fits_example = filepath-fits (codes "/var/log") program.proxy_name (codes "Mon") refl

-- two lines of one day, and one of the same day of the week before
abbrev logged : List (ℕ × CString)
logged = (17, rid_3) ∷ (17, rid_2) ∷ (10, rid_1) ∷ []

log_all-lines_of_example : recorded 17 (log_all no_files logged 3) ≡ lines_of 17 logged
log_all-lines_of_example =
    log_all-lines_of logged 17 ((omega arith, (omega arith, tt)), ((omega arith, tt), (tt, tt)))
      (omega arith, (omega arith, (omega arith, tt)))
