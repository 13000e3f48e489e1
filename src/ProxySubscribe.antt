-- ===== src/ProxySubscribe.antt =====
-- gear/proxysubscribe.c: the subscribe thread, which sends the answers of the reply queue to Gonggo.
use sawang.Prelude.{
  Bool, ℕ, ◌+◌, true, false, ◌&&◌, not, Option, none, some, List, [], ◌∷◌, ◌++◌, CString,
  if◌then◌else◌, length, ltb,
}
use sawang.Glib.{GQueue}
use sawang.Shm.{ProxySubscribeState, ProxySubscribeShm}
use sawang.ReplyQueue.{ReplyQueueTask, push_tail, reply_queue_pop_head, reply_queue_push_head}
pub mod Context
pub mod Owned
pub mod Passes
pub mod Outcome

-- state == SUBSCRIBE_DONE, and so on
abbrev pub is_done : ProxySubscribeState → Bool
is_done ProxySubscribeState.done = true
is_done _ = false

abbrev pub is_termination : ProxySubscribeState → Bool
is_termination ProxySubscribeState.termination = true
is_termination _ = false

-- how the wait for Gonggo ends: with Gonggo dead, or with what it leaves in the shared memory
pub data Wakeup : Type 0 where
  owner_dies : Wakeup
  wakes : ProxySubscribeShm → Wakeup

-- What the thread meets when it sends a task: whether Gonggo has died with the lock, the generated
-- name, whether the memory of the answer can be created and mapped, how the wait ends, and the tasks
-- that other threads append to the reply queue meanwhile.
pub record Attempt : Type 0 where
  pub owner_dead : Bool
  pub uuid_generate : CString
  pub answer_shm : Bool
  pub wakeup : Wakeup
  pub meanwhile : List ReplyQueueTask

unfoldable pub proxy_subscribe_shm_idle : ProxySubscribeShm → ProxySubscribeShm
proxy_subscribe_shm_idle shm = record {
  state = ProxySubscribeState.idle;
  aid = [];
  payload_buff_length = 0;
  remove_request = false;
}

-- the number of bytes of the answer in its shared memory, 0 on a failure
unfoldable pub proxy_subscribe_create_answer : Attempt → CString → ℕ
proxy_subscribe_create_answer a task = if a.answer_shm then length task + 1 else 0

module _ (q : GQueue ReplyQueueTask) where
  open q use {Queue, queue_push_tail, queue_is_empty}

  pub record Subscribe : Type 0 where
    pub shm : ProxySubscribeShm
    pub reply_queue : Option Queue
    pub failed_task : Queue
    pub alive : Bool
    pub proxy_subscribe_end : Bool
    -- the thread has not left its loop
    pub running : Bool
    -- the shared memory at each signal to the dispatcher, the first one first
    pub shown : List ProxySubscribeShm

  abbrev pub append_all : Option Queue → List ReplyQueueTask → Option Queue
  append_all r [] = r
  append_all r (t ∷ ts) = append_all (push_tail q r t) ts

  -- the exchange of one task, and the state that it returns
  unfoldable pub proxy_subscribe_exchange :
      Attempt → ReplyQueueTask → Subscribe → Subscribe × ProxySubscribeState
  unfolding proxy_subscribe_create_answer
  proxy_subscribe_exchange a task s =
      let payload_buff_length = proxy_subscribe_create_answer a task.task in
      let shm = record s.shm { aid = a.uuid_generate; payload_buff_length = payload_buff_length } in
      if ltb payload_buff_length 1
      then (record s { shm = shm }, ProxySubscribeState.failed)
      else (let shm = record shm {
        remove_request = not task.multiple_respond;
        state = ProxySubscribeState.answer;
      } in
          let s = record s { shm = shm; shown = s.shown ++ (shm ∷ []) } in
          elim a.wakeup [
            | owner_dies ↦ (s, ProxySubscribeState.termination)
            | wakes shm' ↦ (record s { shm = shm' }, shm'.state)
          ])

  -- the body of the inner loop, with a task from the reply queue
  unfoldable pub send_task : Attempt → ReplyQueueTask → Subscribe → Subscribe
  unfolding proxy_subscribe_exchange proxy_subscribe_shm_idle
  send_task a task s0 =
      let s = record s0 { reply_queue = append_all s0.reply_queue a.meanwhile } in
      if a.owner_dead
      then record s { alive = false }
      else (let (t, state) = proxy_subscribe_exchange a task s in
          if is_termination state
          then record t { alive = false }
          else (let t = record t { shm = proxy_subscribe_shm_idle t.shm; alive = true } in
              if is_done state
              then t
              else record t { failed_task = queue_push_tail t.failed_task task }))

  -- The inner loop, with an attempt for each task. True if the loop has ended, and false if the
  -- thread has a task in hand and no attempt is left for it.
  unfoldable pub send_all : List Attempt → Subscribe → Subscribe × Bool
  unfolding send_task
  send_all [] s =
      let (task, rest) = reply_queue_pop_head q s.reply_queue in
      let t = record s { reply_queue = rest } in
      elim task [ none ↦ (t, true) | some task ↦ (t, false) ]
  send_all (a ∷ attempts) s =
      let (task, rest) = reply_queue_pop_head q s.reply_queue in
      let t = record s { reply_queue = rest } in
      elim task [
        | none ↦ (t, true)
        | some task ↦
            let u = send_task a task t in
            let after = send_all attempts u in if u.alive then after else (u, true)
      ]

  -- after the inner loop
  unfoldable pub return_failed : Subscribe → Subscribe
  return_failed s =
      if queue_is_empty s.failed_task
      then s
      else (let (failed, r) = reply_queue_push_head q s.reply_queue s.failed_task in
          record s { failed_task = failed; reply_queue = r })

  -- the body of the outer loop up to its wait
  unfoldable pub pass : List Attempt → Subscribe → Subscribe × Bool
  unfolding send_all return_failed proxy_subscribe_shm_idle
  pass attempts s =
      let (t, ended) = send_all attempts (record s { shm = proxy_subscribe_shm_idle s.shm }) in
      if ended
      then (let u = return_failed t in (record u { running = u.alive }, true))
      else (t, false)

  -- the test of the outer loop, when the thread starts or is woken up
  unfoldable pub wake : List Attempt → Subscribe → Subscribe × Bool
  unfolding pass
  wake attempts s =
      if s.running
      then (if s.alive && (not s.proxy_subscribe_end && not (is_termination s.shm.state))
          then pass attempts s
          else (record s { running = false }, true))
      else (s, true)

  unfoldable pub proxy_subscribe_stop : Subscribe → Subscribe
  proxy_subscribe_stop s = record s {
    shm = record s.shm { state = ProxySubscribeState.termination };
    proxy_subscribe_end = true;
  }
