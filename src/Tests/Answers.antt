-- ===== src/Tests/Answers.antt =====
-- The theorems from a request to its answer at a concrete request.
use sawang.Prelude.{◌≡◌, refl, true, false, none, some, codes, contains}
use sawang.Glib.Model.{list_glib}
use sawang.Shm.{ProxyChannelState, parsed_singleshot}
use sawang.RespondTable.{singleshot}
use sawang.RespondTable.Contract.{rids}
use sawang.ProxyComm.{service_json}
use sawang.ProxyChannel.{Exchange, fresh, exchange_finish, exchange_task_key}
use sawang.ProxyChannel.Answers.{finish-reply}
use sawang.Tests.{env, waiting_proxy}
use sawang.Tests.Channel.{shm_in, waiting_proxy-IsCreated}
use sawang.Tests.Comm.{waiting_tables-TablesAreValid}

-- a request to square a number, whose payload the parse has normalised
abbrev square_exchange : Exchange env
square_exchange = record {
  service_and_payload = some (service_json env (codes "square") (some (env.json.create_number 5)));
  service_name = codes "square";
  payload = some (env.json.create_number 5);
  parsed = record {
    result = parsed_singleshot;
    normalized_payload = fresh (env.json.create_number 5);
    unsubscribe = false;
    invalid_status = 0;
  };
}

finish-reply_example :
    contains
      (rids list_glib
        (exchange_finish env waiting_proxy square_exchange (shm_in ProxyChannelState.done)).0.tables
        singleshot
        (exchange_task_key env square_exchange))
      (codes "d4")
    ≡ true
finish-reply_example =
    (finish-reply env waiting_proxy square_exchange (shm_in ProxyChannelState.done)
      (service_json env (codes "square") (some (env.json.create_number 5)))
      (env.json.create_number 5) (env.json.create_number 5) env.json.create_object none
      waiting_proxy-IsCreated waiting_tables-TablesAreValid refl refl refl refl refl refl refl).1
