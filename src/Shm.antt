-- ===== src/Shm.antt =====
-- gear/proxy.h and the results of gear/callback.h: the states that a proxy shares with Gonggo.
use sawang.Prelude.{ℕ, Bool, CString}

-- `unknown` is a number that is none of the enum's names.
pub data ProxyChannelState : Type 0 where
  init idle request acknowledged fails done stop_request : ProxyChannelState
  rest rest_respond termination : ProxyChannelState
  unknown : ℕ → ProxyChannelState

pub record ProxyChannelShm : Type 0 where
  pub state : ProxyChannelState
  pub rid : CString
  pub payload_buff_length : ℕ
  pub aid : CString
  pub answer_buff_length : ℕ

-- `invalid`, `singleshot` and `multirespond` are PARSE_INVALID, PARSE_SINGLESHOT and
-- PARSE_MULTIRESPOND.
pub data ProxyPayloadParseResult : Type 0 where
  invalid parsed_singleshot parsed_multirespond : ProxyPayloadParseResult
  unknown : ℕ → ProxyPayloadParseResult

pub data ProxySubscribeState : Type 0 where
  init idle answer failed done termination : ProxySubscribeState
  unknown : ℕ → ProxySubscribeState

pub record ProxySubscribeShm : Type 0 where
  pub state : ProxySubscribeState
  pub aid : CString
  pub payload_buff_length : ℕ
  pub remove_request : Bool

pub data ProxyActivationState : Type 0 where
  init idle request proxy_dying failed success done termination : ProxyActivationState
  unknown : ℕ → ProxyActivationState

pub record ProxyActivationShm : Type 0 where
  pub proxy_name : CString
  pub pid : ℕ
  pub state : ProxyActivationState
