-- ===== src/Tests/Activator.antt =====
-- The theorems on gear/proxyactivator.c at concrete runs.
use sawang.Prelude.{refl, true, false, [], codes}
use sawang.Shm.{ProxyActivationState, ProxyActivationShm}
use sawang.ProxyActivator.{
  Gonggo, Activation, locks, times_out, woken, proxy_activation_get_map, proxy_activate,
}
use sawang.ProxyActivator.Outcome.{Activated, activate-Activated}
use sawang.ProxyActivator.Idle.{IsSearched, get_map-locked}

abbrev shm_in : ProxyActivationState → ProxyActivationShm
shm_in state = record { proxy_name = []; pid = 0; state = state }

-- Gonggo serves another proxy at first, and then accepts.
abbrev gonggo : Gonggo
gonggo = record {
  maps = true;
  first_lock = locks (shm_in ProxyActivationState.request);
  idle_wait = λ ttl. woken (shm_in ProxyActivationState.idle);
  second_lock = locks (shm_in ProxyActivationState.request);
  respond_wait = woken (shm_in ProxyActivationState.success);
}

-- Gonggo serves another proxy all the time.
abbrev busy_gonggo : Gonggo
busy_gonggo = record gonggo { idle_wait = λ ttl. times_out (shm_in ProxyActivationState.request) }

abbrev before : Activation
before = record {
  shm = shm_in ProxyActivationState.init;
  mapped = false;
  locked = false;
  sent = [];
}

get_map-locked_example : IsSearched busy_gonggo before (proxy_activation_get_map busy_gonggo before)
get_map-locked_example = get_map-locked busy_gonggo before refl refl

activate-Activated_example :
    Activated gonggo (codes "clock") before (proxy_activate gonggo (codes "clock") 7 before)
activate-Activated_example = activate-Activated gonggo (codes "clock") 7 before refl refl
