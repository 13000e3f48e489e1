-- ===== src/Threads/Owed.antt =====
-- The programs of calls and the signals that they owe: whoever puts something on a queue signals the
-- thread that takes it off, before its program is over.
pub mod Exchanges
use sawang.Prelude.{ℕ, Bool, Option, List, CString}
use sawang.Threads.Closed.Tasks.{task_calls-Ok, IsTaskClosed}
use sawang.Threads.Closed.{reply_calls-Ok, IsClosed}
use sawang.Proxy.{Callback, ProxyReplyArg, Callbacks, Env}
use sawang.Threads.Comm.{task_calls, reply_calls}
use sawang.ParseQueue.{ParseQueueTask}
use sawang.Threads.Calls.{
  over, awakes_subscribe, awakes_comm, appends_reply, appends_task, dups_task_key, calls_back,
  fault, dups_requests, drops, sets, Script,
}

module _ (e : Env) where
  open e.json use {Json}
  open e.glib use {PtrArray}

  -- The program signals the communication thread, whatever its calls return.
  abbrev pub OwesComm : Script e → Type 0
  OwesComm over = ⊥
  OwesComm fault = ⊥
  OwesComm (sets w key uuid k) = (b : Bool) → OwesComm (k b)
  OwesComm (drops w key uuid k) = (b : Bool) (n : Option ℕ) → OwesComm (k b n)
  OwesComm (dups_requests w key k) = (o : Option PtrArray) → OwesComm (k o)
  OwesComm (dups_task_key w uuid k) = (o : Option CString) → OwesComm (k o)
  OwesComm (appends_task key task uuid w k) = OwesComm k
  OwesComm (appends_reply rid headers payload multi k) = OwesComm k
  OwesComm (awakes_comm k) = Unit
  OwesComm (awakes_subscribe k) = OwesComm k
  OwesComm (calls_back c k) = (before : List (Callback e)) → OwesComm (k before)

  -- The program signals the subscribe thread, whatever its calls return.
  abbrev pub OwesSubscribe : Script e → Type 0
  OwesSubscribe over = ⊥
  OwesSubscribe fault = ⊥
  OwesSubscribe (sets w key uuid k) = (b : Bool) → OwesSubscribe (k b)
  OwesSubscribe (drops w key uuid k) = (b : Bool) (n : Option ℕ) → OwesSubscribe (k b n)
  OwesSubscribe (dups_requests w key k) = (o : Option PtrArray) → OwesSubscribe (k o)
  OwesSubscribe (dups_task_key w uuid k) = (o : Option CString) → OwesSubscribe (k o)
  OwesSubscribe (appends_task key task uuid w k) = OwesSubscribe k
  OwesSubscribe (appends_reply rid headers payload multi k) = OwesSubscribe k
  OwesSubscribe (awakes_comm k) = OwesSubscribe k
  OwesSubscribe (awakes_subscribe k) = Unit
  OwesSubscribe (calls_back c k) = (before : List (Callback e)) → OwesSubscribe (k before)

  -- Each call that appends to a queue is followed by the signal for it.
  abbrev pub IsPaying : Script e → Type 0
  IsPaying over = Unit
  IsPaying fault = Unit
  IsPaying (sets w key uuid k) = (b : Bool) → IsPaying (k b)
  IsPaying (drops w key uuid k) = (b : Bool) (n : Option ℕ) → IsPaying (k b n)
  IsPaying (dups_requests w key k) = (o : Option PtrArray) → IsPaying (k o)
  IsPaying (dups_task_key w uuid k) = (o : Option CString) → IsPaying (k o)
  IsPaying (appends_task key task uuid w k) = OwesComm k × IsPaying k
  IsPaying (appends_reply rid headers payload multi k) = OwesSubscribe k × IsPaying k
  IsPaying (awakes_comm k) = IsPaying k
  IsPaying (awakes_subscribe k) = IsPaying k
  IsPaying (calls_back c k) = (before : List (Callback e)) → IsPaying (k before)

  IsPaying-IsClosed : IsClosed e IsPaying
  IsPaying-IsClosed = record {
    on_drops = λ w key uuid k h. h;
    on_dups = λ w key k h. h;
    on_send = λ rid headers payload multi k h. (tt, h);
    on_call_back = λ c k h. h;
  }

  IsPaying-IsTaskClosed : IsTaskClosed e IsPaying
  IsPaying-IsTaskClosed = record {
    closed = IsPaying-IsClosed;
    on_over = tt;
    on_fault = tt;
    on_dups_key = λ w uuid k h. h;
  }

  pub task_calls-IsPaying : (cb : Callbacks e) (x : ParseQueueTask) → IsPaying (task_calls e cb x)
  task_calls-IsPaying cb x = task_calls-Ok e IsPaying-IsTaskClosed cb x

  pub reply_calls-IsPaying :
      (arg : ProxyReplyArg e) (headers : Json) (payload : Option Json) (k : Script e)
      → IsPaying k
      → IsPaying (reply_calls e arg headers payload k)
  reply_calls-IsPaying arg headers payload k h =
      reply_calls-Ok e IsPaying-IsClosed arg headers payload k h
