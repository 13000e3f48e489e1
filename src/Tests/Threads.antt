-- ===== src/Tests/Threads.antt =====
-- The theorems on the interleaved threads at concrete states.
use sawang.Prelude.{
  ◌≡◌, refl, sym, subst, ◌∙◌, true, false, none, some, List, [], ◌∷◌, ◌++◌, CString,
}
use sawang.Tests.Channel.{drop_payload, shm_in, waiting_proxy-KeysAreServed, drop_object}
use sawang.Tests.{clock_arg, waiting_proxy, env}
use sawang.Shm.{ProxySubscribeState, ProxyChannelState, invalid}
use sawang.Threads.System.{
  author, same_caller, answers, comm, comm_takes, finishes, channel, comm_locks, calls, System,
  Event,
}
use sawang.Threads.Calls.{is_fault}
use sawang.Tests.Subscribe.{answered, subscribe}
use sawang.Threads.Progress.{steps-go_on, has_work, goes_on}
use sawang.Tests.Comm.{headers, callbacks}
use sawang.Threads.Machine.{can, started_system, steps}
use sawang.Threads.Comm.{reply_calls}
use sawang.ProxyComm.Outcome.{service_json-items}
use sawang.Define.{service_service_key, gonggoservice_request_drop}
use sawang.Threads.Faultless.{steps-fault_free}
use sawang.Threads.Wakes.Moves.{steps-woken}
use sawang.CJson.Model.{parse_tree, tree_json}
use sawang.Threads.Wakes.{SubscribeIsServed, CommIsWoken}
use sawang.ProxyChannel.{proxy_channel_payload_shm_read, ChannelCalls, null}
use sawang.Threads.Requests.{HasServices}
use sawang.Threads.Safe.{IsServing}
use mathlib.Core.Option.{some-injective}

-- Gonggo sends the request to take off the third request.
abbrev drop_sender : ChannelCalls env
drop_sender = record {
  payload_parse = λ service_name payload. record {
    result = invalid;
    normalized_payload = null;
    unsubscribe = false;
    invalid_status = 0;
  };
  payload_shm = λ rid buff_length. some (env.json.print_unformatted drop_object);
}

parse_empty : env.json.parse [] ≡ none
unfolding tree_json parse_tree
parse_empty = refl

drop_sender-HasServices : HasServices env drop_sender
unfolding proxy_channel_payload_shm_read
drop_sender-HasServices rid n sp h =
    let same : drop_object ≡ sp =
      some-injective drop_object sp (sym (env.json.parse-print drop_object) ∙ h) in
    let name = env.json.create_string gonggoservice_request_drop in
    subst
      (λ sp.
        (item : env.json.Json) × (name : CString) × (env.json.get_object_item sp service_service_key
          ≡ some item)
        × (env.json.get_string_value item ≡ some name))
      same
      (
        name,
        gonggoservice_request_drop,
        (service_json-items env gonggoservice_request_drop (some drop_payload)).0,
        env.json.string_value-create gonggoservice_request_drop,
      )

-- The exchange of that request, and the communication thread before its first wait; the task is
-- queued and taken before the request waits.
abbrev racing : List (Event env)
racing =
    comm_locks
    ∷ finishes (shm_in ProxyChannelState.request) (shm_in ProxyChannelState.done)
    ∷ calls channel
    ∷ calls channel
    ∷ comm_takes
    ∷ calls comm
    ∷ calls comm
    ∷ calls comm
    ∷ calls comm
    ∷ []

waiting_proxy-IsServing : IsServing env waiting_proxy
waiting_proxy-IsServing = record { keys = waiting_proxy-KeysAreServed; queue = tt }

steps-fault_free_example :
    is_fault env (
      (steps env callbacks drop_sender
          (started_system env callbacks drop_sender waiting_proxy subscribe)
          racing).left
        comm)
    ≡ false
steps-fault_free_example =
    (steps-fault_free env parse_empty callbacks drop_sender drop_sender-HasServices racing
        waiting_proxy subscribe waiting_proxy-IsServing).0
      comm

-- The request is heard, its task is taken, and both threads wait; a wake-up is still owed.
abbrev heard : List (Event env)
heard = racing ++ (calls channel ∷ comm_takes ∷ [])

abbrev after_heard : System env
after_heard =
    steps env callbacks drop_sender
      (started_system env callbacks drop_sender waiting_proxy subscribe) heard

steps-woken_example :
    CommIsWoken env after_heard.comm_at after_heard.proxy.parse_queue after_heard.left
    × SubscribeIsServed env after_heard.subscribe_at after_heard.put_back
        after_heard.proxy.reply_queue after_heard.left
steps-woken_example = steps-woken env callbacks drop_sender heard waiting_proxy subscribe refl

-- The communication thread has its lock, and a thread of the author starts an answer.
abbrev answering : List (Event env)
answering = comm_locks ∷ answers 0 clock_arg headers none ∷ []

abbrev after_answering : System env
after_answering =
    steps env callbacks drop_sender
      (started_system env callbacks drop_sender waiting_proxy subscribe) answering

after_answering-work : has_work env callbacks drop_sender after_answering (author 0) ≡ true
unfolding steps reply_calls same_caller
after_answering-work = refl

steps-go_on_example :
    (x : Event env) × (goes_on env x ≡ true)
    × (can env callbacks drop_sender after_answering x ≡ true)
steps-go_on_example =
    steps-go_on env callbacks drop_sender (answered ProxySubscribeState.done) answering
      waiting_proxy subscribe after_answering (author 0) refl
      (steps-fault_free env parse_empty callbacks drop_sender drop_sender-HasServices answering
        waiting_proxy subscribe waiting_proxy-IsServing).0
      after_answering-work
