-- ===== src/Tests.antt =====
-- Concrete states of the program and its theorems at them. Here: the states.
mod Tables
mod Systems
mod Main
mod Gonggo
mod Memory
mod Queues
mod Comm
mod Channel
mod Activator
mod Answers
mod Conf
mod Subscribe
mod Threads
mod Race
use sawang.Prelude.{none, some, [], CString, codes}
use sawang.Glib.{GQueue}
use sawang.Glib.Model.{list_glib, list_queue}
use sawang.CJson.Model.{tree_json}
use sawang.RespondTable.{
  RespondTables, respond_table_create, respond_table_set, singleshot, multirespond,
}
use sawang.RespondTable.Invariant.{no_tables}
use sawang.ReplyQueue.{ReplyQueueTask}
use sawang.ParseQueue.{ParseQueueTask}
use sawang.Proxy.{Env, Proxy, ProxyReplyArg}
use sawang.ProxyComm.{service_json, task_key_from_reply_arg}

abbrev pub rid_1 : CString
rid_1 = codes "a1"

abbrev pub rid_2 : CString
rid_2 = codes "b2"

abbrev pub rid_3 : CString
rid_3 = codes "c3"

abbrev pub reply_tasks : GQueue ReplyQueueTask
reply_tasks = list_queue ReplyQueueTask

abbrev pub env : Env
env = record {
  glib = list_glib;
  json = tree_json;
  reply = reply_tasks;
  parse = list_queue ParseQueueTask;
}

abbrev pub clock_arg : ProxyReplyArg env
clock_arg = record { service = codes "clock"; payload = none }

-- the object of a request for the service `clock`
abbrev pub clock : env.json.Json
clock = service_json env (codes "clock") none

abbrev pub clock_key : CString
clock_key = task_key_from_reply_arg env clock_arg

-- two requests wait for one answer of a task, one for many
abbrev pub tables_of : CString → RespondTables list_glib
tables_of key =
    let s = respond_table_create list_glib (no_tables list_glib) in
    let s = (respond_table_set list_glib s singleshot key rid_1).0 in
    let s = (respond_table_set list_glib s singleshot key rid_2).0 in
    (respond_table_set list_glib s multirespond key rid_3).0

abbrev pub waiting_tables : RespondTables list_glib
waiting_tables = tables_of clock_key

abbrev pub waiting_proxy : Proxy env
waiting_proxy = record {
  tables = waiting_tables;
  reply_queue = some [];
  parse_queue = some [];
  called = [];
  subscribe_signals = 0;
  comm_signals = 0;
}
