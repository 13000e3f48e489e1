-- ===== src/ProxyChannel/Rest.antt =====
-- gear/proxychannel.c: the answer of a REST request.
use sawang.Prelude.{
  ℕ, ◌+◌, Bool, true, false, Option, none, some, [], ◌∷◌, ◌++◌, CString, codes, if◌then◌else◌,
  length, ltb, ◌==◌,
}
use sawang.Define.{service_service_key, service_payload_key}
use sawang.Shm.{ProxyChannelState, ProxyChannelShm}
use sawang.Proxy.{Env}
use sawang.ProxyChannel.{ChannelCalls, proxy_channel_payload_shm_read}

module _ (e : Env) where
  open e.json use {
    Json, create_object, create_string, create_number, add_item_to_object, print_unformatted,
  }

  pub record ProxyRestRespond : Type 0 where
    pub code : ℕ
    pub err : Option CString
    pub json : Option Json

  -- the parts that the answer calls: ProxyRest, which may be null, the generator of names, and
  -- whether the shared memory of an answer can be created and mapped
  pub record RestCalls : Type 0 where
    pub proxy_rest : Option (Option CString → Option Json → ProxyRestRespond)
    pub uuid_generate : CString
    pub answer_shm : CString → Bool

  unfoldable pub with_err : Json → Option CString → Json
  with_err o none = o
  with_err o (some []) = o
  with_err o (some (c ∷ err)) = add_item_to_object o (codes "err") (create_string (c ∷ err))

  unfoldable pub with_json : Json → Option Json → Json
  with_json o none = o
  with_json o (some json) = add_item_to_object o (codes "json") json

  unfoldable pub proxy_channel_respond_create : ℕ → Option CString → Option Json → CString
  unfolding with_err with_json
  proxy_channel_respond_create code err json = print_unformatted (
      with_json
        (with_err (add_item_to_object create_object (codes "code") (create_number code)) err) json)

  -- the number of bytes of the answer in its shared memory, 0 on a failure
  unfoldable pub proxy_rest_create_answer : RestCalls → CString → CString → ℕ
  proxy_rest_create_answer rest path respond =
      if rest.answer_shm path then length respond + 1 else 0

  -- the answer of the handler, or of an endpoint that it left alone
  unfoldable pub checked_respond : ProxyRestRespond → ProxyRestRespond
  checked_respond r =
      if r.code == 0
      then record r { code = 503; err = some (codes "REST endpoint is not implemented") }
      else r

  unfoldable pub rest_respond_text : ChannelCalls e → RestCalls → ProxyChannelShm → CString
  unfolding checked_respond proxy_channel_respond_create
  rest_respond_text calls rest shm = elim rest.proxy_rest [
    | none ↦ proxy_channel_respond_create 503 (some (codes "REST handler is not implemented")) none
    | some handler ↦ elim (proxy_channel_payload_shm_read e calls shm.rid shm.payload_buff_length) [
      | none ↦ proxy_channel_respond_create 500 (some (codes "REST payload read is failed")) none
      | some sp ↦
          let endpoint : Option CString = elim (e.json.get_object_item sp service_service_key) [
            | none ↦ some []
            | some service ↦ e.json.get_string_value service
          ] in
          let r =
            checked_respond (handler endpoint (e.json.get_object_item sp service_payload_key)) in
          proxy_channel_respond_create r.code r.err r.json
    ]
  ]

  -- up to the wait: the shared memory, and whether the thread waits for the dispatcher
  unfoldable pub rest_answer : ChannelCalls e → RestCalls → ProxyChannelShm → ProxyChannelShm × Bool
  unfolding rest_respond_text proxy_rest_create_answer
  rest_answer calls rest shm =
      let respond = rest_respond_text calls rest shm in
      let aid = rest.uuid_generate in
      let len = proxy_rest_create_answer rest (codes "/" ++ aid) respond in
      let named = record shm { aid = aid; answer_buff_length = len } in
      if ltb 0 len
      then (record named { state = ProxyChannelState.rest_respond }, true)
      else (named, false)
