-- ===== src/Threads/Alone.antt =====
-- The programs of calls against the functions of gear/proxychannel.c and gear/proxycomm.c as one step
-- each.
pub mod Replies
pub mod Tasks
pub mod Exchanges
use sawang.Prelude.{◌≡◌, Option, some}
use sawang.Threads.Alone.Replies.{reply_calls-run}
use sawang.Threads.Alone.Exchanges.{exchange_calls-run}
use sawang.Threads.Alone.Tasks.{task_calls-run}
use sawang.ProxyComm.{proxy_comm_reply}
use sawang.Threads.Comm.{reply_calls, task_calls}
use sawang.ProxyChannel.{exchange_finish, Exchange}
use sawang.Threads.Channel.{exchange_calls}
use sawang.ProxyComm.Loop.{comm_task}
use sawang.Threads.Calls.{run, Script}
use sawang.Proxy.{Proxy, ProxyReplyArg, Callbacks, Env}
use sawang.Shm.{ProxyChannelShm}
use sawang.ParseQueue.{ParseQueueTask}

module _ (e : Env) where
  -- Where no other thread comes in between, the calls of a thread one after the other do what its
  -- function does in one step, faults included: the calls of a task of the communication thread are
  -- `comm_task`, those at the end of an exchange `exchange_finish`, and those of an answer, before
  -- whatever follows it, `proxy_comm_reply`.
  pub calls-run :
      (cb : Callbacks e) (task : ParseQueueTask) (x : Exchange e) (shm : ProxyChannelShm)
      (arg : ProxyReplyArg e) (headers : e.json.Json) (payload : Option e.json.Json) (k : Script e)
      (s : Proxy e)
      → (run e (task_calls e cb task) s ≡ comm_task e cb s task)
        × (run e (exchange_calls e x shm) s ≡ some (exchange_finish e s x shm).0)
        × (run e (reply_calls e arg headers payload k) s
            ≡ run e k (proxy_comm_reply e s arg headers payload))
  calls-run cb task x shm arg headers payload k s = (
    task_calls-run e cb task s,
    exchange_calls-run e x shm s,
    reply_calls-run e arg headers payload k s,
  )
