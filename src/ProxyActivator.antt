-- ===== src/ProxyActivator.antt =====
-- gear/proxyactivator.c: a proxy announces itself to Gonggo over Gonggo's shared memory.
pub mod Idle
pub mod Outcome
use sawang.Prelude.{
  ℕ, zero, suc, Bool, true, false, not, Option, none, some, List, [], ◌∷◌, ◌++◌, CString,
  if◌then◌else◌, length, ltb,
}
use sawang.Shm.{ProxyActivationState, ProxyActivationShm}

-- state == ACTIVATION_IDLE, and so on
abbrev pub is_idle : ProxyActivationState → Bool
is_idle ProxyActivationState.idle = true
is_idle _ = false

abbrev pub is_request : ProxyActivationState → Bool
is_request ProxyActivationState.request = true
is_request _ = false

abbrev pub is_refusal : ProxyActivationState → Bool
is_refusal ProxyActivationState.proxy_dying = true
is_refusal ProxyActivationState.failed = true
is_refusal _ = false

abbrev pub is_success : ProxyActivationState → Bool
is_success ProxyActivationState.success = true
is_success _ = false

-- pthread_mutex_lock, and what then stands in the shared memory: the owner is dead, the lock is
-- taken, or it is not taken for another error, after which the code goes on as if it were
pub data Lock : Type 0 where
  owner_dead : Lock
  locks not_locked : ProxyActivationShm → Lock

-- pthread_cond_timedwait, and what stands in the shared memory after it; `fails` is another error
pub data Wait : Type 0 where
  owner_dies : Wait
  times_out fails woken : ProxyActivationShm → Wait

-- What Gonggo and the other proxies do: whether the shared memory can be opened and mapped, what the
-- two locks find, and how each wait ends, a wait for the idle state by the rounds left after it.
pub record Gonggo : Type 0 where
  pub maps : Bool
  pub first_lock : Lock
  pub idle_wait : ℕ → Wait
  pub second_lock : Lock
  pub respond_wait : Wait

pub record Activation : Type 0 where
  pub shm : ProxyActivationShm
  pub mapped : Bool
  pub locked : Bool
  -- the state at each signal to the dispatcher, the first one first
  pub sent : List ProxyActivationState

abbrev pub munmap : Activation → Activation
munmap s = record s { mapped = false }

abbrev pub unlock : Activation → Activation
unlock s = record s { locked = false }

-- after the loop; `status` is true if the last wait returned 0. `none` is a call of
-- pthread_mutex_unlock on the memory that has just been unmapped.
unfoldable pub check_idle : Bool → Activation → Option (Activation × Bool)
check_idle status s =
    if is_idle s.shm.state then some (s, true) else if status then none else some (munmap s, false)

-- the loop that waits for the idle state, with the rounds left
unfoldable pub idle_loop : Gonggo → ℕ → Bool → Activation → Option (Activation × Bool)
unfolding check_idle
idle_loop g zero status s = check_idle status s
idle_loop g (suc ttl) status s =
    let next : Option (Activation × Bool) = elim (g.idle_wait ttl) [
      | owner_dies ↦ some (munmap s, false)
      | times_out shm ↦
          let rest = idle_loop g ttl false (record s { shm = shm }) in
          if ltb ttl 1 then some (munmap (record s { shm = shm }), false) else rest
      | fails shm ↦ idle_loop g ttl false (record s { shm = shm })
      | woken shm ↦ idle_loop g ttl true (record s { shm = shm })
    ] in
    if is_idle s.shm.state then check_idle status s else next

unfoldable pub proxy_activation_get_map : Gonggo → Activation → Option (Activation × Bool)
unfolding idle_loop
proxy_activation_get_map g s =
    if g.maps
    then elim g.first_lock [
      | owner_dead ↦ some (munmap (record s { mapped = true; locked = true }), false)
      | locks shm ↦ idle_loop g 5 true (record s { mapped = true; locked = true; shm = shm })
      | not_locked shm ↦ idle_loop g 5 true (record s { mapped = true; shm = shm })
    ]
    else some (s, false)

-- what follows Gonggo's answer
unfoldable pub take_answer : Activation → Activation × Bool
take_answer s =
    if is_refusal s.shm.state
    then (munmap (unlock s), false)
    else if not (is_success s.shm.state)
    then (munmap (unlock s), false)
    else (
      munmap (
          unlock (record s {
            shm = record s.shm { state = ProxyActivationState.done };
            sent = s.sent ++ (ProxyActivationState.done ∷ []);
          })),
      true,
    )

-- from the second lock on, with what stands in the shared memory
unfoldable pub await_locked : Gonggo → Activation → Activation × Bool
unfolding take_answer
await_locked g t =
    if is_request t.shm.state
    then elim g.respond_wait [
      | owner_dies ↦ (munmap t, false)
      | times_out shm ↦ take_answer (record t { shm = shm })
      | fails shm ↦ take_answer (record t { shm = shm })
      | woken shm ↦ take_answer (record t { shm = shm })
    ]
    else take_answer t

-- the second lock, and the wait for an answer if there is none yet
unfoldable pub await_answer : Gonggo → Activation → Activation × Bool
unfolding await_locked
await_answer g s = elim g.second_lock [
  | owner_dead ↦ (munmap (record s { locked = true }), false)
  | locks shm ↦ await_locked g (record s { locked = true; shm = shm })
  | not_locked shm ↦ await_locked g (record s { shm = shm })
]

unfoldable pub proxy_activate : Gonggo → CString → ℕ → Activation → Option (Activation × Bool)
unfolding proxy_activation_get_map await_answer
proxy_activate g proxy_name pid s =
    if ltb 50 (length proxy_name) then some (s, false) else elim (proxy_activation_get_map g s) [
      | none ↦ none
      | some (t, idle) ↦
          if idle
          then some (
              await_answer g (
                unlock (record t {
                  shm = record {
                    proxy_name = proxy_name;
                    pid = pid;
                    state = ProxyActivationState.request;
                  };
                  sent = t.sent ++ (ProxyActivationState.request ∷ []);
                })))
          else some (t, false)
    ]
