-- ===== src/Tests/Race.antt =====
-- The unsubscription of gear/proxychannel.c that is never answered, at a concrete request.
use sawang.Prelude.{◌∷◌, index_of, if◌then◌else◌, str_eq, codes, refl, [], ◌≡◌, some, CString}
use sawang.Tests.Comm.{waiting_tables-TablesAreValid, callbacks}
use sawang.ProxyComm.Outcome.{create_reply_arg-task_key}
use sawang.Tests.{clock_arg, waiting_proxy, rid_3, waiting_tables, clock_key, env}
use sawang.Glib.Model.{list_glib}
use sawang.CJson.Model.{tree_json}
use sawang.RespondTable.Contract.{has_table, rids}
use sawang.RespondTable.{singleshot, respond_table_create, respond_table_set, respond_table_which}
use sawang.RespondTable.Rids.{rids_in}
use sawang.ParseQueue.{parse_task, non_empty}
use sawang.Threads.Channel.{hand_over_calls}
use sawang.Threads.Comm.{task_calls}
use sawang.Threads.Calls.{advance, run, Script}
use sawang.Proxy.{Proxy, ProxyReplyArg}
use sawang.Define.{gonggoservice_request_drop}
use sawang.ProxyComm.Reply.{answered}
use sawang.ProxyComm.{task_key_from_reply_arg}
use sawang.Threads.Race.{hand_over-unanswered}
use sawang.Tests.Channel.{drop_payload, drop_object, drop_exchange}

abbrev drop_arg : ProxyReplyArg env
drop_arg = record { service = gonggoservice_request_drop; payload = some drop_payload }

abbrev drop_key : CString
drop_key = task_key_from_reply_arg env drop_arg

drop_text : env.json.print_unformatted drop_object ≡ drop_key
unfolding task_key_from_reply_arg
drop_text = refl

drop_waits_alone : answered env waiting_tables drop_key ≡ []
unfolding rids respond_table_which respond_table_set respond_table_create rids_in list_glib str_eq
    task_key_from_reply_arg tree_json index_of
drop_waits_alone = refl

clock_key-non_empty : non_empty (some clock_key) ≡ some clock_key
unfolding non_empty task_key_from_reply_arg tree_json
clock_key-non_empty = refl

-- the channel thread once it has queued the task
abbrev queued : Proxy env × Script env
queued = advance env (hand_over_calls env drop_exchange (codes "d4") rid_3 clock_key) waiting_proxy

hand_over-unanswered_example :
    (t : Proxy env) × (u : Proxy env) × (run env
        (task_calls env callbacks (parse_task drop_key (some clock_key) (some rid_3) singleshot))
        (record queued.0 { parse_queue = some [] })
      ≡ some t)
    × (run env queued.1 t ≡ some u)
    × (u.reply_queue ≡ some [])
    × (u.subscribe_signals ≡ 0)
    × (u.parse_queue ≡ some [])
    × (rids list_glib u.tables singleshot drop_key
        ≡ (if has_table list_glib t.tables singleshot then codes "d4" ∷ [] else []))
unfolding non_empty
hand_over-unanswered_example =
    hand_over-unanswered env callbacks drop_exchange drop_object drop_arg clock_arg (codes "d4")
      clock_key rid_3 waiting_proxy (some []) refl drop_text clock_key-non_empty refl
      (create_reply_arg-task_key env clock_arg) waiting_tables-TablesAreValid drop_waits_alone
