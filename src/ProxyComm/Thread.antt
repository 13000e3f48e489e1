-- ===== src/ProxyComm/Thread.antt =====
-- gear/proxycomm.c: the life of the communication thread, with its lock and its condition. The lock
-- is held from one wait to the next, so a pass of the outer loop is one step.
pub mod Runs
pub mod Life
pub mod Stop
use sawang.Prelude.{
  suc, ◌+◌, Bool, true, false, Option, none, some, List, [], ◌∷◌, ◌++◌, CString, if◌then◌else◌,
  length,
}
use sawang.RespondTable.{RespondTableType}
use sawang.ParseQueue.{parse_queue_append}
use sawang.Proxy.{Env, Proxy, started, stopped, Callbacks}
use sawang.ProxyComm.Loop.{comm_drain}
use sawang.ProxyComm.Queue.{parse_tasks}

-- Where the thread is: not begun, before its first lock, in pthread_cond_wait without a signal,
-- signalled there, or past its loop.
pub data CommPhase : Type 0 where
  created entering waiting signalled ended : CommPhase

abbrev pub is_waiting : CommPhase → Bool
is_waiting waiting = true
is_waiting _ = false

-- a signal wakes a thread that waits, and is lost on one that does not
unfoldable pub signal : CommPhase → CommPhase
signal waiting = signalled
signal phase = phase

-- can the thread take the lock and go on
abbrev pub is_running : CommPhase → Bool
is_running created = false
is_running ended = false
is_running _ = true

-- What the threads do to the communication thread: it begins, it takes the lock and goes on, which
-- a wait may do without a signal; the others append a task, awake it, or stop it.
pub data CommEvent : Type 0 where
  begins resumes awakes stops : CommEvent
  appends : CString → Option CString → Option CString → RespondTableType → CommEvent

module _ (e : Env) where
  pub record CommThread : Type 0 where
    pub phase : CommPhase
    pub proxy_comm_started : Bool
    pub proxy_comm_end : Bool
    pub proxy : Proxy e

  -- before the threads are created
  abbrev pub comm_created : Proxy e → CommThread
  comm_created s = record {
    phase = created;
    proxy_comm_started = false;
    proxy_comm_end = false;
    proxy = s;
  }

  unfoldable pub proxy_comm_awake : CommThread → CommThread
  unfolding signal
  proxy_comm_awake t = record t {
    phase = signal t.phase;
    proxy = record t.proxy { comm_signals = t.proxy.comm_signals + 1 };
  }

  unfoldable pub proxy_comm_stop : CommThread → CommThread
  unfolding signal
  proxy_comm_stop t = record t {
    phase = signal t.phase;
    proxy_comm_end = true;
    proxy = record t.proxy { comm_signals = t.proxy.comm_signals + 1 };
  }

  module _ (cb : Callbacks e) where
    -- proxy_comm, up to its first lock
    unfoldable pub comm_begin : CommThread → CommThread
    comm_begin t = record t {
      phase = entering;
      proxy_comm_started = true;
      proxy =
          if cb.has_start
          then record t.proxy { called = t.proxy.called ++ (started ∷ []) }
          else t.proxy;
    }

    -- past the outer loop
    unfoldable pub comm_finish : CommThread → CommThread
    comm_finish t = record t {
      phase = ended;
      proxy =
          if cb.has_stop
          then record t.proxy { called = t.proxy.called ++ (stopped ∷ []) }
          else t.proxy;
    }

    -- The outer loop from its test to the next wait. The fuel is one more than the tasks there are.
    unfoldable pub comm_pass : CommThread → Option CommThread
    unfolding comm_finish
    comm_pass t =
        if t.proxy_comm_end
        then some (comm_finish t)
        else elim (comm_drain e cb (suc (length (parse_tasks e t.proxy.parse_queue))) t.proxy) [
          | none ↦ none
          | some s ↦ some (record t { phase = waiting; proxy = s })
        ]

    abbrev pub append_task :
        CommThread → CString → Option CString → Option CString → RespondTableType → CommThread
    append_task t task_key unsubscribe_task_key unsubscribe_uuid type = record t {
      proxy = record t.proxy {
        parse_queue =
            parse_queue_append e.parse t.proxy.parse_queue task_key unsubscribe_task_key
              unsubscribe_uuid type;
      };
    }

    -- the phase before `begins` is that of a thread that is not there yet
    unfoldable pub comm_begins : CommPhase → CommThread → CommThread
    unfolding comm_begin
    comm_begins created t = comm_begin t
    comm_begins _ t = t

    unfoldable pub comm_step : CommThread → CommEvent → Option CommThread
    unfolding comm_begins comm_pass proxy_comm_awake proxy_comm_stop
    comm_step t begins = some (comm_begins t.phase t)
    comm_step t resumes = if is_running t.phase then comm_pass t else some t
    comm_step t awakes = some (proxy_comm_awake t)
    comm_step t stops = some (proxy_comm_stop t)
    comm_step t (appends task_key unsubscribe_task_key unsubscribe_uuid type) =
        some (append_task t task_key unsubscribe_task_key unsubscribe_uuid type)

    unfoldable pub comm_events : CommThread → List CommEvent → Option CommThread
    unfolding comm_step
    comm_events t [] = some t
    comm_events t (x ∷ xs) = elim (comm_step t x) [ none ↦ none | some u ↦ comm_events u xs ]
