-- ===== src/Tests/Comm.antt =====
-- The theorems on gear/proxycomm.c at concrete states.
use sawang.Prelude.{
  ◌++◌, List, All, ◌≡◌, refl, ap, subst, sym, arith, is_some, str_eq, true, false, none, some, [],
  ◌∷◌, codes,
}
use sawang.ProxyComm.Thread.{
  stops, appends, comm_created, awakes, resumes, begins, signalled, ended, comm_step, CommEvent,
  is_waiting, comm_events, CommThread,
}
use sawang.ProxyComm.Thread.Stop.{stop-IsSeen}
use sawang.Proxy.{stopped, started, Proxy, ProxyReplyArg, Callbacks}
use sawang.ParseQueue.{parse_queue_pop_head, parse_queue_append}
use sawang.ProxyComm.Thread.Life.{events-IsLife, IsLife}
use sawang.Define.{gonggoservice_request_drop}
use sawang.ProxyComm.Total.{IsHandled, drain-empty, IsServed}
use sawang.ProxyComm.Loop.{unsubscribes, comm_drain}
use sawang.Glib.Model.{list_glib}
use sawang.RespondTable.{singleshot, multirespond}
use sawang.RespondTable.Invariant.{TablesAreValid, creates, sets, run-TablesAreValid}
use sawang.ProxyComm.{task_key_from_reply_arg, proxy_comm_create_reply_arg, proxy_comm_reply}
use sawang.ProxyComm.Queue.{parse_tasks}
use sawang.ProxyComm.Outcome.{reply-outcome, create_reply_arg-task_key}
use sawang.Tests.{env, clock_arg, rid_1, rid_2, rid_3, clock_key, waiting_tables, waiting_proxy}

abbrev sum_arg : ProxyReplyArg env
sum_arg = record { service = codes "sum"; payload = some (env.json.create_number 3) }

abbrev pub headers : env.json.Json
headers =
    env.json.add_item_to_object env.json.create_object (codes "serviceStatus")
      (env.json.create_number 0)

abbrev pub callbacks : Callbacks env
callbacks = record {
  has_start = false;
  has_run = true;
  has_multirespond_clear = true;
  has_stop = false;
  run = λ called arg. (headers, none) ∷ [];
}

-- a task of the clock, and one to take the third request off
abbrev pub busy_proxy : Proxy env
busy_proxy = record waiting_proxy {
  parse_queue = some (
      record {
        task_key = clock_key;
        unsubscribe_task_key = none;
        unsubscribe_uuid = none;
        type = singleshot;
      }
      ∷ record {
        task_key = clock_key;
        unsubscribe_task_key = some clock_key;
        unsubscribe_uuid = some rid_3;
        type = singleshot;
      }
      ∷ []);
}

pub waiting_tables-TablesAreValid : TablesAreValid list_glib waiting_tables
waiting_tables-TablesAreValid = run-TablesAreValid list_glib (
    creates
    ∷ sets singleshot clock_key rid_1
    ∷ sets singleshot clock_key rid_2
    ∷ sets multirespond clock_key rid_3
    ∷ [])

create_reply_arg-task_key_example :
    proxy_comm_create_reply_arg env (task_key_from_reply_arg env sum_arg) ≡ some sum_arg
create_reply_arg-task_key_example = create_reply_arg-task_key env sum_arg

reply-outcome_example :
    (proxy_comm_reply env waiting_proxy clock_arg headers none).parse_queue ≡ some []
reply-outcome_example =
    (reply-outcome env waiting_proxy clock_arg headers none waiting_tables-TablesAreValid).3

served_key : is_some (proxy_comm_create_reply_arg env clock_key) ≡ true
served_key = ap is_some (create_reply_arg-task_key env clock_arg)

not_drop : str_eq (codes "clock") gonggoservice_request_drop ≡ false
unfolding str_eq
not_drop = refl

served : IsServed env (proxy_comm_create_reply_arg env clock_key)
served = subst (IsServed env) (sym (create_reply_arg-task_key env clock_arg)) not_drop

handled : All (IsHandled env) (parse_tasks env busy_proxy.parse_queue)
unfolding unsubscribes
handled = (served, ((served_key, served_key), tt))

drain-empty_example :
    (t : Proxy env) × (comm_drain env callbacks 3 busy_proxy ≡ some t)
    × (parse_tasks env t.parse_queue ≡ [])
drain-empty_example = drain-empty env callbacks 3 busy_proxy (omega arith) handled

-- all four callbacks, and what the threads do to a thread without tasks
abbrev all_callbacks : Callbacks env
all_callbacks = record callbacks { has_start = true; has_stop = true }

abbrev stop_events : List CommEvent
stop_events =
    begins ∷ resumes ∷ awakes ∷ resumes ∷ appends clock_key none none singleshot ∷ stops ∷ []

abbrev stopped_thread : CommThread env
stopped_thread = record {
  phase = signalled;
  proxy_comm_started = true;
  proxy_comm_end = true;
  proxy = record waiting_proxy {
    parse_queue = some (
        record {
          task_key = clock_key;
          unsubscribe_task_key = none;
          unsubscribe_uuid = none;
          type = singleshot;
        }
        ∷ []);
    called = started ∷ [];
    comm_signals = 2;
  };
}

abbrev ended_thread : CommThread env
ended_thread = record stopped_thread {
  phase = ended;
  proxy = record stopped_thread.proxy { called = started ∷ stopped ∷ [] };
}

stop_run :
    comm_events env all_callbacks (comm_created env waiting_proxy) stop_events ≡ some stopped_thread
unfolding comm_events comm_drain parse_queue_append parse_queue_pop_head
stop_run = refl

end_run :
    comm_events env all_callbacks (comm_created env waiting_proxy) (stop_events ++ (resumes ∷ []))
    ≡ some ended_thread
unfolding comm_events comm_drain parse_queue_append parse_queue_pop_head
end_run = refl

events-IsLife_example : IsLife env all_callbacks ended_thread
events-IsLife_example =
    events-IsLife env all_callbacks waiting_proxy (stop_events ++ (resumes ∷ [])) ended_thread refl
      end_run

stop-IsSeen_example :
    (is_waiting stopped_thread.phase ≡ false)
    × (v : CommThread env) × (comm_step env all_callbacks stopped_thread resumes ≡ some v)
    × (v.phase ≡ ended)
stop-IsSeen_example =
    stop-IsSeen env all_callbacks waiting_proxy stop_events stopped_thread stop_run refl refl
