-- ===== src/Lib.antt =====
-- Sawang, the library of gear/ from which a proxy of Gonggo is built.
--
-- A proxy takes requests from Gonggo over shared memory and answers them. Its channel thread
-- (gear/proxychannel.c) reads a request, has it parsed by a callback, notes in the respond tables
-- (gear/respondtable.c) which request waits for the answer to which task, and puts the task on the
-- parse queue (gear/parsequeue.c). The communication thread (gear/proxycomm.c) takes tasks off that
-- queue, hands them to the callbacks of the proxy's author, and puts their answers, with the requests
-- that wait for them, on the reply queue (gear/replyqueue.c). The subscribe thread
-- (gear/proxysubscribe.c) sends those to Gonggo, and puts back what Gonggo does not take. A task is
-- named by its key, the text of a JSON object with a service and a payload. Before all that, the
-- proxy announces itself to Gonggo (gear/proxyactivator.c). Gonggo and the proxy each hold a lock for
-- as long as they live (gear/alivemutex.c), and a thread of the proxy waits for that of Gonggo
-- (gear/gonggoalive.c). The main thread (gear/work.c) makes what the threads use, starts and stops
-- them, and takes everything apart.
--
-- The files:
--   Prelude: the library's names, Boolean tests, and lists and C strings as lists of bytes.
--   Glib: GPtrArray, GHashTable and GQueue, which the program calls, as records of their operations
--     with what GLib's documentation says of them. Glib/Model has lists that meet this.
--   CJson: the same for cJSON. CJson/Model has trees that meet it.
--   Define, Shm: the names, numbers and states of gear/define.h, gear/proxyservicestatus.h,
--     gear/proxy.h and gear/callback.h.
--   RespondTable: gear/respondtable.c, one definition for each function, by its name. The state is
--     the record of the file's static variables. In its children, `rids` is the list of requests
--     that wait for a task.
--   ReplyQueue, ParseQueue: gear/replyqueue.c and gear/parsequeue.c, by the names of their functions.
--   Posix: the calls of the system and of pthread. The system is a parameter, `Posix`: what a call
--     returns is any function of the list of calls before it, which the definitions pass on and
--     extend. Posix/Counts and Work/Ledger count in such a list what the process holds.
--     Posix/Answer is the memory of a payload and of an answer, of gear/proxychannel.c and
--     gear/proxysubscribe.c, Posix/Opening and Posix/Owned are about shared memory in general.
--   Log: gear/log.c. A file is its day and its bytes, and a day a number.
--   AliveMutex, GonggoAlive: gear/alivemutex.c and gear/gonggoalive.c, by the names of their
--     functions. `gonggo_look` is the body of the thread's loop.
--   Proxy: the state that the threads share, the callbacks, and the record of libraries.
--   ProxyComm: gear/proxycomm.c; its loop over the tasks is ProxyComm/Loop, and ProxyComm/Thread is
--     the thread from its start to its end, as a machine over what the threads do to it.
--     ProxyComm/Rules says how the thread keeps a property of its state.
--   ProxyChannel: gear/proxychannel.c. `exchange_read` and `exchange_finish` are
--     `proxy_channel_exchange` before and after its wait; ProxyChannel/Rest is the answer of a REST
--     request; ProxyChannel/Loop is the thread as a machine with a point for each of its waits, and
--     ProxyChannel/Context its shared memory from its creation to its release.
--   ProxySubscribe: gear/proxysubscribe.c. `pass` is the body of the outer loop, `send_all` the inner
--     loop and `send_task` its body. What happens while a task is sent is an `Attempt`; a pass is
--     given a list of these, which its recursion is on. ProxySubscribe/Context is the shared memory.
--   ProxyActivator: gear/proxyactivator.c. `Gonggo` is what each lock and wait finds; the state notes
--     whether the memory is mapped and its lock held. ProxyActivator/Idle is the search for Gonggo's
--     idle state, ProxyActivator/Outcome the whole.
--   ConfVar: gear/confvar.c. A file is the list of its lines; no byte of a line is zero.
--     ConfVar/Numbers has its numbers, over strtol, strtof and strtoul as parameters.
--   Work: gear/work.c and the locks of gear/proxyuuid.c and gear/log.c. Work/Main has `work` itself,
--     with a definition for each part of it that begins at an early return.
--   Threads: the channel thread, the communication thread and the subscribe thread together, with
--     threads of the author that answer after ProxyRun has returned, interleaved at each lock. What a
--     thread does is a program of calls (Threads/Calls; Threads/Comm and Threads/Channel have those of
--     each function); Threads/System has the state and the events, Threads/Machine what can happen and
--     what it does. Threads/Alone compares the programs with the functions as one step, Threads/Shared
--     and Threads/Closed are rules, and Threads/Safe to Threads/Faultless, Threads/Owed with
--     Threads/Wakes, and Threads/Progress are about nulls, signals and locks; Threads/Race is about the
--     order in which an unsubscription is queued and recorded.
--   Tests: the theorems at concrete states.
--
-- Each function that holds one lock throughout is one step; outside Threads so is a pass of the
-- communication thread from one wait to the next. A result of `none` where the source has no error
-- path is a fault: a null string that is passed to strdup or strcmp, an access through a null pointer, or to memory
-- that could not be mapped or is mapped no more. Memory that is only released has no part in the model. Numbers
-- that the source writes to JSON, such as a status, are natural numbers; their conversion between
-- `unsigned int` and `int` is not modelled, so they are below 2^31.
--
-- Fuel: `push_head_loop` runs with one round more than the source queue is long, `comm_drain` with
-- any number of rounds; each round takes one task, so one more than there are tasks is enough, which
-- is what `comm_pass` gives it. `gonggo_loop` runs for a number of rounds, one for each look; its
-- theorems are for every number.
--
-- Not modelled: the identifiers of gear/proxyuuid.c and the result of the activation in gear/work.c,
-- which are arguments; that a thread, once created, comes to say that it has started; a lock or a
-- join of gear/work.c that does not return, so that what is said of `work` is said of the runs in
-- which they do; and gear/glibshim.c, which is a copy of GLib's own code.
pub mod Prelude
pub mod Glib
pub mod CJson
pub mod Define
pub mod ConfVar
pub mod ReplyQueue
pub mod RespondTable
pub mod ParseQueue
pub mod Posix
pub mod AliveMutex
pub mod GonggoAlive
pub mod Log
pub mod Proxy
pub mod Shm
pub mod ProxyComm
pub mod ProxyChannel
pub mod ProxySubscribe
pub mod ProxyActivator
pub mod Threads
pub mod Work
pub mod Tests
