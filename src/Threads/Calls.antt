-- ===== src/Threads/Calls.antt =====
-- What a thread of gear/proxychannel.c or gear/proxycomm.c does to the shared state, cut at the
-- locks: a program of calls, each of which runs under a lock of its own, so that other threads may
-- come in between two of them.
use sawang.Prelude.{ℕ, ◌+◌, Bool, true, false, Option, none, some, List, [], ◌∷◌, ◌++◌, CString}
use sawang.ReplyQueue.{reply_queue_append}
use sawang.ParseQueue.{parse_queue_append}
use sawang.Proxy.{Proxy, Callback, Env}
use sawang.RespondTable.{
  RespondTableType, respond_table_drop, respond_table_set, respond_table_request_dup,
  respond_table_dup_task_key,
}

module _ (e : Env) where
  open e.json use {Json}
  open e.glib use {PtrArray}

  -- What a thread still has to do: its next call, and what follows for each result. `fault` is a
  -- call of strdup on a null string.
  pub data Script : Type 0 where
    over fault : Script
    sets : RespondTableType → CString → CString → (Bool → Script) → Script
    drops : RespondTableType → CString → CString → (Bool → Option ℕ → Script) → Script
    dups_requests : RespondTableType → CString → (Option PtrArray → Script) → Script
    dups_task_key : RespondTableType → CString → (Option CString → Script) → Script
    appends_task : CString → Option CString → Option CString → RespondTableType → Script → Script
    appends_reply : Json → Json → Option Json → Bool → Script → Script
    awakes_comm awakes_subscribe : Script → Script
    -- a callback, which sees the calls before it
    calls_back : Callback e → (List (Callback e) → Script) → Script

  abbrev pub is_fault : Script → Bool
  is_fault fault = true
  is_fault _ = false

  -- the next call, and what is left to do
  unfoldable pub advance : Script → Proxy e → Proxy e × Script
  advance over s = (s, over)
  advance fault s = (s, fault)
  advance (sets which task_key uuid k) s =
      let (tables, new_entry) = respond_table_set e.glib s.tables which task_key uuid in
      (record s { tables = tables }, k new_entry)
  advance (drops which task_key uuid k) s =
      let (tables, dropped, remaining) = respond_table_drop e.glib s.tables which task_key uuid in
      (record s { tables = tables }, k dropped remaining)
  advance (dups_requests which task_key k) s =
      (s, k (respond_table_request_dup e.glib s.tables which task_key))
  advance (dups_task_key which uuid k) s =
      (s, k (respond_table_dup_task_key e.glib s.tables which uuid))
  advance (appends_task task_key unsubscribe_task_key unsubscribe_uuid type k) s = (
    record s {
      parse_queue =
          parse_queue_append e.parse s.parse_queue task_key unsubscribe_task_key unsubscribe_uuid
            type;
    },
    k,
  )
  advance (appends_reply rid headers payload multi k) s = (
    record s {
      reply_queue = reply_queue_append e.reply e.json s.reply_queue rid headers payload multi;
    },
    k,
  )
  advance (awakes_comm k) s = (record s { comm_signals = s.comm_signals + 1 }, k)
  advance (awakes_subscribe k) s = (record s { subscribe_signals = s.subscribe_signals + 1 }, k)
  advance (calls_back c k) s = (record s { called = s.called ++ (c ∷ []) }, k s.called)

  -- all calls of a thread, with no other thread in between
  unfoldable pub run : Script → Proxy e → Option (Proxy e)
  run over s = some s
  run fault s = none
  run (sets which task_key uuid k) s =
      let (tables, new_entry) = respond_table_set e.glib s.tables which task_key uuid in
      run (k new_entry) (record s { tables = tables })
  run (drops which task_key uuid k) s =
      let (tables, dropped, remaining) = respond_table_drop e.glib s.tables which task_key uuid in
      run (k dropped remaining) (record s { tables = tables })
  run (dups_requests which task_key k) s =
      run (k (respond_table_request_dup e.glib s.tables which task_key)) s
  run (dups_task_key which uuid k) s =
      run (k (respond_table_dup_task_key e.glib s.tables which uuid)) s
  run (appends_task task_key unsubscribe_task_key unsubscribe_uuid type k) s = run k (record s {
    parse_queue =
        parse_queue_append e.parse s.parse_queue task_key unsubscribe_task_key unsubscribe_uuid
          type;
  })
  run (appends_reply rid headers payload multi k) s = run k (record s {
    reply_queue = reply_queue_append e.reply e.json s.reply_queue rid headers payload multi;
  })
  run (awakes_comm k) s = run k (record s { comm_signals = s.comm_signals + 1 })
  run (awakes_subscribe k) s = run k (record s { subscribe_signals = s.subscribe_signals + 1 })
  run (calls_back c k) s = run (k s.called) (record s { called = s.called ++ (c ∷ []) })
