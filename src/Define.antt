-- ===== src/Define.antt =====
-- gear/define.h and gear/proxyservicestatus.h: the names and numbers that the parts share.
use sawang.Prelude.{ℕ, CString, codes}

abbrev pub service_headers_key : CString
service_headers_key = codes "headers"

abbrev pub service_payload_key : CString
service_payload_key = codes "payload"

abbrev pub service_service_key : CString
service_service_key = codes "service"

abbrev pub service_rid_key : CString
service_rid_key = codes "rid"

abbrev pub service_status_key : CString
service_status_key = codes "serviceStatus"

abbrev pub gonggoservice_request_drop : CString
gonggoservice_request_drop = codes "gonggorequestdrop"

pub data ProxyServiceStatus : Type 0 where
  alive_start alive_termination : ProxyServiceStatus
  multirespond_clear_success multirespond_clear_payload_missing : ProxyServiceStatus
  multirespond_clear_payload_rid_missing multirespond_clear_payload_rid_invalid : ProxyServiceStatus

-- the number of the C enum
unfoldable pub status_code : ProxyServiceStatus → ℕ
status_code alive_start = 1
status_code alive_termination = 2
status_code multirespond_clear_success = 3
status_code multirespond_clear_payload_missing = 4
status_code multirespond_clear_payload_rid_missing = 5
status_code multirespond_clear_payload_rid_invalid = 6
