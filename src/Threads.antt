-- ===== src/Threads.antt =====
-- The threads of gear/proxychannel.c, gear/proxycomm.c and gear/proxysubscribe.c together, and those
-- of the proxy's author, interleaved in any order.
pub mod Calls
pub mod Comm
pub mod Channel
pub mod System
pub mod Machine
pub mod Shared
pub mod Tables
pub mod Safe
pub mod Served
pub mod Read
pub mod Requests
pub mod Faultless
pub mod Family
pub mod Closed
pub mod Owed
pub mod Wakes
pub mod Quiet
pub mod Progress
pub mod Alone
pub mod Race
