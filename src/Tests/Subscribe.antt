-- ===== src/Tests/Subscribe.antt =====
-- The theorems on gear/proxysubscribe.c at concrete states.
use sawang.ProxySubscribe.Passes.{pass_list}
use sawang.Prelude.{◌≡◌, refl, arith, true, false, some, List, [], ◌∷◌, codes}
use sawang.Shm.{ProxySubscribeState, ProxySubscribeShm}
use sawang.ReplyQueue.{ReplyQueueTask}
use sawang.ReplyQueue.Order.{tasks}
use sawang.ProxySubscribe.{Attempt, wakes, Subscribe, pass}
use sawang.ProxySubscribe.Outcome.{pass-pass_list, pass-kept}
use sawang.Tests.{reply_tasks}

abbrev shm_in : ProxySubscribeState → ProxySubscribeShm
shm_in state = record { state = state; aid = []; payload_buff_length = 0; remove_request = false }

abbrev task_1 : ReplyQueueTask
task_1 = record { task = codes "one"; multiple_respond = false }

abbrev task_2 : ReplyQueueTask
task_2 = record { task = codes "two"; multiple_respond = true }

-- Gonggo leaves this state for an answer.
abbrev pub answered : ProxySubscribeState → Attempt
answered state = record {
  owner_dead = false;
  uuid_generate = codes "a1";
  answer_shm = true;
  wakeup = wakes (shm_in state);
  meanwhile = [];
}

-- the first task fails and the second is taken
abbrev attempts : List Attempt
attempts = answered ProxySubscribeState.failed ∷ answered ProxySubscribeState.done ∷ []

abbrev pub subscribe : Subscribe reply_tasks
subscribe = record {
  shm = shm_in ProxySubscribeState.init;
  reply_queue = some (task_1 ∷ task_2 ∷ []);
  failed_task = [];
  alive = true;
  proxy_subscribe_end = false;
  running = true;
  shown = [];
}

pass-pass_list_example :
    tasks reply_tasks (pass reply_tasks attempts subscribe).0.reply_queue ≡ task_1 ∷ []
unfolding pass_list
pass-pass_list_example = (pass-pass_list reply_tasks attempts subscribe refl refl refl refl).0

pass-kept_example :
    tasks reply_tasks (pass reply_tasks attempts subscribe).0.reply_queue ≡ task_1 ∷ []
pass-kept_example =
    (pass-kept reply_tasks attempts subscribe refl refl refl ((refl, refl), ((refl, refl), tt))
      (omega arith)).0
