-- ===== src/Tests/Channel.antt =====
-- The theorems on gear/proxychannel.c at concrete states.
use sawang.Prelude.{
  arith, if◌then◌else◌, inr, inl, Bool-cases, All, ◌≡◌, refl, sym, ◌∙◌, ap, subst, is_some, str_eq,
  str_eq_iff, Bool, true, false, none, some, [], ◌∷◌, codes, contains, CString,
}
use sawang.ProxyComm.{task_key_from_reply_arg, proxy_comm_create_reply_arg, service_json}
use sawang.Glib.Model.{list_glib}
use sawang.CJson.Model.{tree_json, encode, add_to_object}
use sawang.Tests.{
  env, rid_1, rid_2, rid_3, clock, clock_arg, clock_key, waiting_proxy, waiting_tables,
}
use sawang.RespondTable.{
  singleshot, respond_table_set, respond_table_create, RespondTables, multirespond,
  respond_table_which, store,
}
use sawang.RespondTable.Invariant.{no_tables}
use sawang.Glib.{assoc}
use sawang.ParseQueue.{non_empty}
use sawang.RespondTable.Rids.{add_new, rids_in}
use sawang.RespondTable.Contract.{rids, set-rids}
use sawang.ProxyChannel.Loop.{
  end_exchange, Point, Channel, waiting, in_exchange, ended, wakes, stops, channel_run, writes,
}
use sawang.Proxy.{string_at}
use sawang.Define.{gonggoservice_request_drop, service_rid_key}
use sawang.Shm.{ProxyChannelState, ProxyChannelShm, parsed_singleshot, parsed_multirespond}
use sawang.ProxyComm.Outcome.{create_reply_arg-task_key, service_json-items}
use sawang.ProxyComm.Queue.{parse_tasks}
use sawang.ProxyComm.Total.{IsHandled}
use sawang.ProxyChannel.{
  ChannelCalls, Exchange, same, null, exchange_finish, exchange_read, service_name_of,
  proxy_channel_payload_shm_read,
}
use sawang.ProxyChannel.Rest.{RestCalls}
use sawang.ProxyChannel.Accept.{IsCreated, finish-subscribe}
use sawang.ProxyChannel.Drop.{Unsubscribed, finish-Unsubscribed}
use sawang.ProxyChannel.Handled.{IsRead, KeysAreServed, finish-IsHandled}
use sawang.ProxyChannel.Stops.{CanRead, stop-ended}

abbrev pub shm_in : ProxyChannelState → ProxyChannelShm
shm_in state = record {
  state = state;
  rid = codes "d4";
  payload_buff_length = 8;
  aid = [];
  answer_buff_length = 0;
}

-- a multirespond request of the clock
abbrev clock_exchange : Exchange env
clock_exchange = record {
  service_and_payload = some clock;
  service_name = codes "clock";
  payload = none;
  parsed = record {
    result = parsed_multirespond;
    normalized_payload = null;
    unsubscribe = false;
    invalid_status = 0;
  };
}

-- a request to take off the third request
abbrev pub drop_payload : env.json.Json
drop_payload =
    env.json.add_item_to_object env.json.create_object service_rid_key
      (env.json.create_string rid_3)

abbrev pub drop_object : env.json.Json
drop_object = service_json env gonggoservice_request_drop (some drop_payload)

abbrev pub drop_exchange : Exchange env
drop_exchange = record {
  service_and_payload = some drop_object;
  service_name = gonggoservice_request_drop;
  payload = some drop_payload;
  parsed = record {
    result = parsed_singleshot;
    normalized_payload = same;
    unsubscribe = true;
    invalid_status = 0;
  };
}

-- the tables before the third request
abbrev two_singles : RespondTables list_glib
two_singles =
    let s = respond_table_create list_glib (no_tables list_glib) in
    let s = (respond_table_set list_glib s singleshot clock_key rid_1).0 in
    (respond_table_set list_glib s singleshot clock_key rid_2).0

pub waiting_proxy-IsCreated : IsCreated env waiting_proxy
unfolding respond_table_create respond_table_set respond_table_which store
waiting_proxy-IsCreated = record {
  has_singleshot = refl;
  has_multirespond = refl;
  has_parse_queue = refl;
}

drop_exchange-IsRead : IsRead env drop_exchange drop_object
drop_exchange-IsRead = record {
  has_object = refl;
  has_service =
      ap (string_at env.json)
        (service_json-items env gonggoservice_request_drop (some drop_payload)).0
      ∙ env.json.string_value-create gonggoservice_request_drop;
  drop_unsubscribes = refl;
}

clock_key-non_empty : non_empty (some clock_key) ≡ some clock_key
unfolding non_empty tree_json encode service_json task_key_from_reply_arg add_to_object
clock_key-non_empty = refl

multirespond_rids :
    (task : CString)
    → rids list_glib waiting_tables multirespond task
      ≡ (if str_eq clock_key task then rid_3 ∷ [] else [])
unfolding list_glib assoc rids rids_in add_new contains respond_table_create respond_table_set
    respond_table_which store
multirespond_rids task =
    (set-rids list_glib two_singles multirespond clock_key rid_3).0 multirespond task

contains-nil : (u : CString) → contains [] u ≡ false
unfolding contains
contains-nil u = refl

pub waiting_proxy-KeysAreServed : KeysAreServed env waiting_proxy
waiting_proxy-KeysAreServed task u h = elim (Bool-cases (str_eq clock_key task)) [
  | inl b ↦
      subst
        (λ k. (is_some (proxy_comm_create_reply_arg env k) ≡ true) × (non_empty (some k) ≡ some k))
        ((str_eq_iff clock_key task).0 b)
        (ap is_some (create_reply_arg-task_key env clock_arg), clock_key-non_empty)
  | inr b ↦
      let empty : rids list_glib waiting_tables multirespond task ≡ [] =
        multirespond_rids task ∙ ap (λ (c : Bool). if c then rid_3 ∷ [] else []) b in
      absurd (cc (sym h ∙ (ap (λ us. contains us u) empty ∙ contains-nil u)))
]

abbrev calls : ChannelCalls env
calls = record {
  payload_parse = λ service_name payload. clock_exchange.parsed;
  payload_shm = λ rid buff_length. some clock_key;
}

abbrev rest_calls : RestCalls env
rest_calls = record { proxy_rest = none; uuid_generate = codes "e5"; answer_shm = λ path. true }

abbrev channel : ProxyChannelState → Point env → Channel env
channel state point = record {
  shm = shm_in state;
  proxy = waiting_proxy;
  point = point;
  proxy_channel_end = false;
  proxy_exit = false;
  idle_signals = 1;
  dispatcher_signals = 0;
}

finish-subscribe_example :
    (exchange_finish env waiting_proxy clock_exchange (shm_in ProxyChannelState.done)).0.reply_queue
    ≡ some []
finish-subscribe_example =
    (finish-subscribe env waiting_proxy clock_exchange (shm_in ProxyChannelState.done)
      waiting_proxy-IsCreated refl refl refl refl).3

finish-Unsubscribed_example :
    Unsubscribed env waiting_proxy
      (some drop_payload)
      (env.json.print_unformatted drop_object)
      (codes "d4")
      (exchange_finish env waiting_proxy drop_exchange (shm_in ProxyChannelState.done)).0
finish-Unsubscribed_example =
    (finish-Unsubscribed env waiting_proxy drop_exchange (shm_in ProxyChannelState.done) drop_object
      waiting_proxy-IsCreated refl refl refl refl).0

finish-IsHandled_example : All (IsHandled env) (
    parse_tasks env
      (exchange_finish env waiting_proxy drop_exchange
        (shm_in ProxyChannelState.done)).0.parse_queue)
finish-IsHandled_example =
    finish-IsHandled env waiting_proxy drop_exchange (shm_in ProxyChannelState.done) drop_object
      waiting_proxy-IsCreated drop_exchange-IsRead waiting_proxy-KeysAreServed tt

calls-CanRead : CanRead env calls rest_calls
unfolding exchange_read service_name_of proxy_channel_payload_shm_read task_key_from_reply_arg
calls-CanRead shm = ground (
  arith,
  env.json.parse-print clock,
  (service_json-items env (codes "clock") none).0,
  env.json.string_value-create (codes "clock"),
)

stop-ended_example :
    (t : Channel env) × (channel_run env calls rest_calls (channel ProxyChannelState.idle waiting) (
        stops
        ∷ writes (shm_in ProxyChannelState.request)
        ∷ wakes
        ∷ writes (shm_in ProxyChannelState.done)
        ∷ wakes
        ∷ [])
      ≡ some t)
    × (t.point ≡ ended)
stop-ended_example =
    stop-ended env calls rest_calls (channel ProxyChannelState.idle waiting)
      (shm_in ProxyChannelState.request) (shm_in ProxyChannelState.done) calls-CanRead

abbrev before : Channel env
before = channel ProxyChannelState.done (in_exchange clock_exchange)

abbrev after : Channel env
after = end_exchange env calls rest_calls before clock_exchange
