-- ===== src/Proxy.antt =====
-- What the threads of a proxy share: the libraries below it, the callbacks of gear/callback.h that
-- its author writes, and the state of gear/respondtable.c, gear/replyqueue.c and gear/parsequeue.c.
use sawang.Prelude.{ℕ, Bool, Option, none, some, List, CString}
use sawang.Glib.{Glib, GQueue}
use sawang.CJson.{CJson}
use sawang.RespondTable.{RespondTables}
use sawang.ReplyQueue.{ReplyQueueTask}
use sawang.ParseQueue.{ParseQueueTask}

pub record Env : Type 1 where
  pub glib : Glib
  pub json : CJson
  pub reply : GQueue ReplyQueueTask
  pub parse : GQueue ParseQueueTask

-- A null object has no items, and a null item is no string.
abbrev pub item_at : (c : CJson) → Option c.Json → CString → Option c.Json
item_at c none key = none
item_at c (some o) key = c.get_object_item o key

abbrev pub string_at : (c : CJson) → Option c.Json → Option CString
string_at c none = none
string_at c (some j) = c.get_string_value j

module _ (e : Env) where
  pub record ProxyReplyArg : Type 0 where
    pub service : CString
    pub payload : Option e.json.Json

  -- A call of a callback of the communication thread.
  pub data Callback : Type 0 where
    started stopped : Callback
    ran cleared : ProxyReplyArg → Callback

  -- The callbacks of the communication thread. ProxyRun answers by the replies that it makes before
  -- it returns, which may depend on all the calls so far.
  pub record Callbacks : Type 0 where
    pub has_start : Bool
    pub has_run : Bool
    pub has_multirespond_clear : Bool
    pub has_stop : Bool
    pub run : List Callback → ProxyReplyArg → List (e.json.Json × Option e.json.Json)

  pub record Proxy : Type 0 where
    pub tables : RespondTables e.glib
    pub reply_queue : Option e.reply.Queue
    pub parse_queue : Option e.parse.Queue
    -- the calls of callbacks so far, the first one first
    pub called : List Callback
    -- how often each thread has been signalled to wake up
    pub subscribe_signals : ℕ
    pub comm_signals : ℕ
