-- ===== src/ReplyQueue.antt =====
-- gear/replyqueue.c: the answers that wait to be sent to Gonggo. Each function runs under one lock.
-- The state is the file's variable `reply_queue`, and `none` is its null pointer: GLib refuses a
-- null queue, and a pop of it returns null.
pub mod Order
use sawang.Prelude.{ℕ, suc, zero, Bool, false, Option, none, some, CString}
use sawang.Define.{service_headers_key, service_payload_key, service_rid_key, service_status_key}
use sawang.Glib.{GQueue}
use sawang.CJson.{CJson}

pub record ReplyQueueTask : Type 0 where
  pub task : CString
  pub multiple_respond : Bool

module _ (q : GQueue ReplyQueueTask) where
  open q use {
    Queue, queue_new, queue_push_tail, queue_push_head, queue_pop_head, queue_pop_tail,
    queue_get_length,
  }

  unfoldable pub reply_queue_create : Option Queue → Option Queue
  reply_queue_create none = some queue_new
  reply_queue_create (some r) = some r

  unfoldable pub reply_queue_destroy : Option Queue → Option Queue
  reply_queue_destroy r = none

  unfoldable pub push_tail : Option Queue → ReplyQueueTask → Option Queue
  push_tail none t = none
  push_tail (some r) t = some (queue_push_tail r t)

  unfoldable pub reply_queue_pop_head : Option Queue → Option ReplyQueueTask × Option Queue
  reply_queue_pop_head none = (none, none)
  reply_queue_pop_head (some r) = let (t, rest) = queue_pop_head r in (t, some rest)

  -- the loop of `reply_queue_push_head`: the source and the reply queue, on fuel
  unfoldable pub push_head_loop : ℕ → Queue → Queue → Queue × Queue
  push_head_loop zero src r = (src, r)
  push_head_loop (suc fuel) src r =
      let (t, rest) = queue_pop_tail src in
      elim t [ none ↦ (rest, r) | some task ↦ push_head_loop fuel rest (queue_push_head r task) ]

  -- the source is left with what the loop does not take
  unfoldable pub reply_queue_push_head : Option Queue → Queue → Queue × Option Queue
  unfolding push_head_loop
  reply_queue_push_head none src = (src, none)
  reply_queue_push_head (some r) src =
      let (rest, r') = push_head_loop (suc (queue_get_length src)) src r in (rest, some r')

  module _ (c : CJson) where
    open c use {
      Json, print_unformatted, create_object, create_string, create_number, add_item_to_object,
    }

    -- the object that `reply_queue_append` prints
    unfoldable pub reply_json : Json → Json → Option Json → Json
    reply_json rid headers none =
        add_item_to_object (add_item_to_object create_object service_rid_key rid)
          service_headers_key headers
    reply_json rid headers (some payload) =
        add_item_to_object
          (add_item_to_object (add_item_to_object create_object service_rid_key rid)
            service_headers_key headers)
          service_payload_key payload

    unfoldable pub reply_queue_append :
        Option Queue → Json → Json → Option Json → Bool → Option Queue
    unfolding reply_json push_tail
    reply_queue_append r rid headers payload multiple_respond = push_tail r (record {
      task = print_unformatted (reply_json rid headers payload);
      multiple_respond = multiple_respond;
    })

    unfoldable pub reply_queue_append_invalid_status : Option Queue → CString → ℕ → Option Queue
    unfolding reply_queue_append
    reply_queue_append_invalid_status r rid status =
        let headers = add_item_to_object create_object service_status_key (create_number status) in
        reply_queue_append r (create_string rid) headers none false
