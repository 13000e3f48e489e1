-- ===== src/Tests/Queues.antt =====
-- The theorems on gear/replyqueue.c at concrete queues.
use sawang.Prelude.{◌≡◌, true, false, none, some, List, [], ◌∷◌, codes}
use sawang.CJson.Model.{tree_json}
use sawang.ReplyQueue.{ReplyQueueTask, reply_queue_create}
use sawang.ReplyQueue.Order.{
  QueueCall, appends, appends_invalid_status, pops, returns, tasks, queue_run, list_run,
  run-refines,
}
use sawang.Tests.{reply_tasks, rid_1, rid_2, clock}

abbrev task_1 : ReplyQueueTask
task_1 = record { task = codes "one"; multiple_respond = false }

abbrev task_2 : ReplyQueueTask
task_2 = record { task = codes "two"; multiple_respond = true }

abbrev calls : List (QueueCall reply_tasks tree_json)
calls =
    appends_invalid_status rid_1 4
    ∷ appends (tree_json.create_string rid_2) clock (some (tree_json.create_number 7)) true
    ∷ pops
    ∷ returns (task_1 ∷ task_2 ∷ [])
    ∷ pops
    ∷ pops
    ∷ []

run-refines_example :
    let (r, out) =
      queue_run reply_tasks tree_json (reply_queue_create reply_tasks none, []) calls in
    (tasks reply_tasks r, out) ≡ list_run reply_tasks tree_json ([], []) calls
run-refines_example = run-refines reply_tasks tree_json calls
