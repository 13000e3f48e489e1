-- ===== src/ParseQueue.antt =====
-- gear/parsequeue.c: the tasks that the channel thread hands to the communication thread. The state
-- is the file's variable `parse_queue`, and `none` is its null pointer.
use sawang.Prelude.{Option, none, some, [], ◌∷◌, CString, is_some, if◌then◌else◌}
use sawang.Glib.{GQueue}
use sawang.RespondTable.{RespondTableType, singleshot}

pub record ParseQueueTask : Type 0 where
  pub task_key : CString
  pub unsubscribe_task_key : Option CString
  pub unsubscribe_uuid : Option CString
  pub type : RespondTableType

-- a string that is neither null nor empty
unfoldable pub non_empty : Option CString → Option CString
non_empty none = none
non_empty (some []) = none
non_empty (some (x ∷ s)) = some (x ∷ s)

-- the task that `parse_queue_append` makes
unfoldable pub parse_task :
    CString → Option CString → Option CString → RespondTableType → ParseQueueTask
unfolding non_empty
parse_task task_key unsubscribe_task_key unsubscribe_uuid type = record {
  task_key = task_key;
  unsubscribe_task_key = non_empty unsubscribe_task_key;
  unsubscribe_uuid = non_empty unsubscribe_uuid;
  type = if is_some (non_empty unsubscribe_task_key) then singleshot else type;
}

module _ (q : GQueue ParseQueueTask) where
  open q use {Queue, queue_new, queue_push_tail, queue_pop_head}

  unfoldable pub parse_queue_create : Option Queue → Option Queue
  parse_queue_create none = some queue_new
  parse_queue_create (some r) = some r

  unfoldable pub parse_queue_destroy : Option Queue → Option Queue
  parse_queue_destroy r = none

  unfoldable pub parse_queue_append :
      Option Queue → CString → Option CString → Option CString → RespondTableType → Option Queue
  unfolding parse_task
  parse_queue_append none task_key unsubscribe_task_key unsubscribe_uuid type = none
  parse_queue_append (some r) task_key unsubscribe_task_key unsubscribe_uuid type =
      some (queue_push_tail r (parse_task task_key unsubscribe_task_key unsubscribe_uuid type))

  unfoldable pub parse_queue_pop_head : Option Queue → Option ParseQueueTask × Option Queue
  parse_queue_pop_head none = (none, none)
  parse_queue_pop_head (some r) = let (t, rest) = queue_pop_head r in (t, some rest)
