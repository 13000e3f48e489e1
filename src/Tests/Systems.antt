-- ===== src/Tests/Systems.antt =====
-- Concrete systems and programs.
use sawang.Prelude.{true, false, none, [], codes, if◌then◌else◌}
use sawang.Tests.{rid_2, rid_1, env}
use sawang.Glib.Model.{list_glib}
use sawang.RespondTable.Invariant.{no_tables}
use sawang.Posix.{not_recoverable, owner_dead, no_context, locked_ok, Posix}
use sawang.Shm.{ProxySubscribeState, ProxyChannelState, ProxySubscribeShm, ProxyChannelShm}
use sawang.GonggoAlive.Lost.{lost}
use sawang.Work.{World, Program}
use sawang.GonggoAlive.{Watch}

-- a system that grants everything, in which Gonggo lives
abbrev pub kind_posix : Posix
kind_posix = record {
  opens = λ h path create. true;
  no_entry = λ h. false;
  maps = λ h r. true;
  init_busy = λ h lock. false;
  consistent_ok = λ h lock. true;
  lock_status = λ h lock. locked_ok;
  creates_thread = λ h t. true;
  handles = λ h. true;
  gonggo_is_alive = λ h. true;
}

-- the same system once Gonggo has died with its lock
abbrev pub dead_posix : Posix
dead_posix = record kind_posix {
  lock_status = λ h lock. if lost h then not_recoverable else owner_dead;
}

abbrev pub found_channel : ProxyChannelShm
found_channel = record {
  state = ProxyChannelState.done;
  rid = rid_1;
  payload_buff_length = 7;
  aid = [];
  answer_buff_length = 0;
}

abbrev pub found_subscribe : ProxySubscribeShm
found_subscribe = record {
  state = ProxySubscribeState.done;
  aid = rid_2;
  payload_buff_length = 7;
  remove_request = true;
}

abbrev pub new_watch : Watch
new_watch = record {
  gonggo_alive_started = false;
  gonggo_dead = false;
  gonggo_alive_shm = false;
  proxy_exit = false;
  channel = no_context;
  subscribe = no_context;
  alive = no_context;
}

abbrev pub program : Program env
program = record {
  posix = kind_posix;
  pid = 4711;
  log_path = codes "/var/log";
  proxy_name = codes "clockproxy";
  gonggo_name = codes "gonggo";
  size = λ r. 256;
  channel_found = found_channel;
  subscribe_found = found_subscribe;
  has_payload_parse = true;
  has_run = true;
  proxy_activate = λ h. true;
  looks_by_then = λ h. 1;
}

abbrev pub new_world : World env
new_world = record {
  watch = new_watch;
  tables = no_tables list_glib;
  reply_queue = none;
  parse_queue = none;
  has_proxy_log_lock = false;
  proxy_log_pid = 0;
  proxy_log_path = none;
  proxy_uuid_has_lock = false;
  proxy_channel_started = false;
  proxy_subscribe_started = false;
  proxy_comm_started = false;
  calls = [];
}
