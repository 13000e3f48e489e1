-- ===== src/Tests/Main.antt =====
-- The theorems on gear/work.c at a concrete system.
use sawang.Prelude.{OnSome, ℕ, ◌≡◌, refl, true, false, Option, none, some, List, [], ◌∷◌}
use sawang.Tests.Systems.{program, new_world}
use sawang.Work.Main.{work}
use sawang.GonggoAlive.{gonggo_alive_context_init, gonggo_loop}
use sawang.Work.{
  proxy_comm_context_init, proxy_log_context_init, proxy_uuid_init, waits, Outcome, watches,
  returns, signal, Pause,
}
use sawang.Work.Released.{work-EndsGiven, EndsGiven}
use sawang.AliveMutex.{alive_mutex_create, alive_mutex_lock, alive_mutex_die}
use sawang.ProxyChannel.Context.{proxy_channel_shm_stop, proxy_channel_context_init}
use sawang.ProxySubscribe.Context.{proxy_subscribe_shm_stop, proxy_subscribe_context_init}
use sawang.Tests.{env}

-- another signal, then SIGTERM
abbrev terminated : List Pause
terminated = signal false ∷ watches 2 ∷ signal true ∷ []

work-EndsGiven_example : OnSome (EndsGiven env program true) (work env program terminated new_world)
work-EndsGiven_example =
    work-EndsGiven env program terminated new_world
      (refl, (refl, refl, refl, refl), refl, refl, refl, refl, refl, refl)

abbrev code_of : Option (Outcome env) → Option ℕ
code_of none = none
code_of (some (returns code w)) = some code
code_of (some (waits w)) = none

terminated_code : code_of (work env program terminated new_world) ≡ some 0
unfolding work alive_mutex_create proxy_channel_context_init proxy_subscribe_context_init
    gonggo_alive_context_init alive_mutex_lock gonggo_loop proxy_comm_context_init
    proxy_log_context_init proxy_uuid_init alive_mutex_die proxy_channel_shm_stop
    proxy_subscribe_shm_stop
terminated_code = refl

waiting_code : code_of (work env program [] new_world) ≡ none
unfolding work alive_mutex_create proxy_channel_context_init proxy_subscribe_context_init
    gonggo_alive_context_init gonggo_loop proxy_comm_context_init proxy_log_context_init
    proxy_uuid_init alive_mutex_lock
waiting_code = refl
