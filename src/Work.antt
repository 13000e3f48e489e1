-- ===== src/Work.antt =====
-- gear/work.c: the main thread, which makes everything that the threads use, starts and stops the
-- threads, and takes everything apart. `none` is an access through a null pointer, or to memory that
-- could not be mapped.
pub mod Main
pub mod Ledger
pub mod Owns
pub mod Stops
pub mod Starts
pub mod Buffers
pub mod Faultless
pub mod Total
pub mod Contexts
pub mod Released
use sawang.Prelude.{◌>>=◌, ℕ, Bool, true, false, Option, none, some, ◌∷◌, CString, if◌then◌else◌}
use sawang.Shm.{ProxySubscribeShm, ProxyChannelShm}
use sawang.ParseQueue.{parse_queue_destroy, parse_queue_create}
use sawang.ReplyQueue.{reply_queue_destroy, reply_queue_create}
use sawang.Posix.{
  joined, comm_lock, uuid_lock, log_lock, comm_wakeup, Region, Calls, shm_unlink_enable, inited,
  freed, Thread, Posix,
}
use sawang.RespondTable.{respond_table_destroy, respond_table_create, RespondTables}
use sawang.GonggoAlive.{
  gonggo_alive_stop, gonggo_alive_context_destroy, gonggo_alive_cleanup, Watch,
}
use sawang.ProxySubscribe.Context.{proxy_subscribe_shm_stop, proxy_subscribe_context_destroy}
use sawang.ProxyChannel.Context.{proxy_channel_shm_stop, proxy_channel_context_destroy}
use sawang.AliveMutex.{alive_mutex_destroy}
use sawang.Proxy.{Env}

pub data Pause : Type 0 where
  -- what a pause may end with: a signal, a stop request to the channel thread, or what the thread
  -- that watches Gonggo has found after a number of looks
  signal : Bool → Pause
  stop_request : Pause
  watches : ℕ → Pause

-- the codes of gear/error.h
abbrev pub error_termhandler : ℕ
error_termhandler = 1

abbrev pub error_start : ℕ
error_start = 2

-- SIGTERM, or another signal
unfoldable pub handler : Bool → Watch → Watch
handler sigterm w = if sigterm then record w { proxy_exit = true } else w

module _ (e : Env) where
  -- What the program is given: the system, its names, the sizes of the structures in shared memory,
  -- what that memory holds when it is mapped, whether the two callbacks that it needs are there, what
  -- the activation returns, and how far the thread that watches Gonggo comes meanwhile.
  pub record Program : Type 0 where
    pub posix : Posix
    pub pid : ℕ
    pub log_path : CString
    pub proxy_name : CString
    pub gonggo_name : CString
    pub size : Region → ℕ
    pub channel_found : ProxyChannelShm
    pub subscribe_found : ProxySubscribeShm
    pub has_payload_parse : Bool
    pub has_run : Bool
    pub proxy_activate : Calls → Bool
    pub looks_by_then : Calls → ℕ

  -- the variables of the files, and the calls so far
  pub record World : Type 0 where
    pub watch : Watch
    pub tables : RespondTables e.glib
    pub reply_queue : Option e.reply.Queue
    pub parse_queue : Option e.parse.Queue
    pub has_proxy_log_lock : Bool
    pub proxy_log_pid : ℕ
    pub proxy_log_path : Option CString
    pub proxy_uuid_has_lock : Bool
    pub proxy_channel_started : Bool
    pub proxy_subscribe_started : Bool
    pub proxy_comm_started : Bool
    pub calls : Calls

  -- how the program ends: with a code, or still waiting for a signal
  pub data Outcome : Type 0 where
    returns : ℕ → World → Outcome
    waits : World → Outcome

  unfoldable pub proxy_uuid_init : World → World
  proxy_uuid_init w =
      if w.proxy_uuid_has_lock
      then w
      else record w { proxy_uuid_has_lock = true; calls = inited uuid_lock ∷ w.calls }

  unfoldable pub proxy_uuid_destroy : World → World
  proxy_uuid_destroy w =
      if w.proxy_uuid_has_lock
      then record w { proxy_uuid_has_lock = false; calls = freed uuid_lock ∷ w.calls }
      else w

  unfoldable pub proxy_log_context_init : ℕ → CString → World → World
  proxy_log_context_init pid path w =
      let v =
        if w.has_proxy_log_lock
        then w
        else record w { has_proxy_log_lock = true; calls = inited log_lock ∷ w.calls } in
      record v { proxy_log_pid = pid; proxy_log_path = some path }

  unfoldable pub proxy_log_context_destroy : World → World
  proxy_log_context_destroy w =
      let v =
        if w.has_proxy_log_lock
        then record w { has_proxy_log_lock = false; calls = freed log_lock ∷ w.calls }
        else w in
      record v { proxy_log_pid = 0; proxy_log_path = none }

  unfoldable pub create_tables : World → World
  create_tables w = record w {
    tables = respond_table_create e.glib w.tables;
    reply_queue = reply_queue_create e.reply w.reply_queue;
    parse_queue = parse_queue_create e.parse w.parse_queue;
  }

  unfoldable pub clean_up : World → World
  unfolding proxy_uuid_destroy proxy_log_context_destroy
  clean_up w0 =
      let w = proxy_uuid_destroy (proxy_log_context_destroy w0) in
      let (alive, h) = alive_mutex_destroy w.watch.alive w.calls in
      record w {
        tables = respond_table_destroy e.glib w.tables;
        reply_queue = reply_queue_destroy e.reply w.reply_queue;
        parse_queue = parse_queue_destroy e.parse w.parse_queue;
        watch = record w.watch { alive = alive };
        calls = h;
      }

  unfoldable pub channel_destroy : World → World
  channel_destroy w =
      let (c, h) = proxy_channel_context_destroy w.watch.channel w.calls in
      record w { watch = record w.watch { channel = c }; calls = h }

  unfoldable pub subscribe_destroy : World → World
  subscribe_destroy w =
      let (c, h) = proxy_subscribe_context_destroy w.watch.subscribe w.calls in
      record w { watch = record w.watch { subscribe = c }; calls = h }

  unfoldable pub gonggo_destroy : World → World
  gonggo_destroy w =
      let (v, h) = gonggo_alive_context_destroy w.watch w.calls in record w { watch = v; calls = h }

  -- the callbacks are arguments of what calls them
  unfoldable pub proxy_comm_context_init : World → World
  proxy_comm_context_init w = record w { calls = inited comm_wakeup ∷ inited comm_lock ∷ w.calls }

  unfoldable pub proxy_comm_context_destroy : World → World
  proxy_comm_context_destroy w = record w { calls = freed comm_wakeup ∷ freed comm_lock ∷ w.calls }

  unfoldable pub enable_channel : World → World
  enable_channel w = record w {
    watch = record w.watch { channel = shm_unlink_enable w.watch.channel };
  }

  unfoldable pub enable_subscribe : World → World
  enable_subscribe w = record w {
    watch = record w.watch { subscribe = shm_unlink_enable w.watch.subscribe };
  }

  -- the calls of a thread that is joined where it has started
  unfoldable pub join : Bool → Thread → Calls → Calls
  join started t h = if started then joined t ∷ h else h

  module _ (g : Program) where
    unfoldable pub stop_channel : World → Option World
    stop_channel w =
        if w.proxy_channel_started
        then (do
          (c, h) ← proxy_channel_shm_stop g.posix w.watch.channel w.calls
          some (record w { watch = record w.watch { channel = c }; calls = h }))
        else some w

    unfoldable pub stop_subscribe : World → Option World
    stop_subscribe w =
        if w.proxy_subscribe_started
        then (do
          (c, h) ← proxy_subscribe_shm_stop g.posix w.watch.subscribe w.calls
          some (record w { watch = record w.watch { subscribe = c }; calls = h }))
        else some w

    -- The thread that watches Gonggo unlocks Gonggo's lock where it ends, cancelled or by itself.
    unfoldable pub stop_gonggo : World → World
    stop_gonggo w =
        if w.watch.gonggo_alive_started
        then record w { calls = gonggo_alive_cleanup (gonggo_alive_stop w.watch w.calls) }
        else w
