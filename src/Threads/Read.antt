-- ===== src/Threads/Read.antt =====
-- gear/proxychannel.c: reading the request of an exchange.
use sawang.Prelude.{◌≡◌, refl, false, none, some, [], CString, arith}
use sawang.Define.{service_payload_key, service_service_key}
use sawang.ProxyChannel.{
  null, parse_service, service_name_of, proxy_channel_payload_shm_read, exchange_read, Exchange,
  ChannelCalls,
}
use sawang.Proxy.{Env}
use sawang.Shm.{invalid, ProxyChannelState, ProxyChannelShm}

module _ (e : Env) where
  open e.json use {Json}

  pub read-some :
      (calls_of : ChannelCalls e) (read : ProxyChannelShm) (sp item : Json) (name : CString)
      → proxy_channel_payload_shm_read e calls_of read.rid read.payload_buff_length ≡ some sp
      → e.json.get_object_item sp service_service_key ≡ some item
      → e.json.get_string_value item ≡ some name
      → (shm : ProxyChannelShm) × (x : Exchange e) × (exchange_read e calls_of read ≡ some (shm, x))
        × (x.service_and_payload ≡ some sp)
  unfolding exchange_read service_name_of
  read-some calls_of read sp item name f i n =
      let payload = e.json.get_object_item sp service_payload_key in
      (
        record read { state = ProxyChannelState.acknowledged },
        record {
          service_and_payload = some sp;
          service_name = name;
          payload = payload;
          parsed = parse_service e calls_of name payload;
        },
        ground (arith, f, i, n),
        refl,
      )

  pub read-none :
      (calls_of : ChannelCalls e) (read : ProxyChannelShm)
      → proxy_channel_payload_shm_read e calls_of read.rid read.payload_buff_length ≡ none
      → (shm : ProxyChannelShm) × (x : Exchange e) × (exchange_read e calls_of read ≡ some (shm, x))
        × (x.service_and_payload ≡ none)
  unfolding exchange_read
  read-none calls_of read f = (
    record read { state = ProxyChannelState.fails },
    record {
      service_and_payload = none;
      service_name = [];
      payload = none;
      parsed = record {
        result = invalid;
        normalized_payload = null;
        unsubscribe = false;
        invalid_status = 0;
      };
    },
    ground (arith, f),
    refl,
  )
