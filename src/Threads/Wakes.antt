-- ===== src/Threads/Wakes.antt =====
-- No wake-up is lost between the threads.
pub mod Called
pub mod Loops
pub mod Moves
use sawang.Prelude.{◌⊎◌, ◌≡◌, Bool, true, false, Option, List, [], is_some, inl, inr}
use sawang.Threads.Calls.{Script}
use sawang.Threads.System.{
  taking, returning, subscribe_holds, signal_subscribe, exchanging, signal_comm, set_left, draining,
  System, SubscribeAt, CommAt, Caller,
}
use sawang.Threads.Family.{set_left-Some, Some}
use sawang.ReplyQueue.Order.{tasks}
use sawang.Threads.Owed.{OwesSubscribe, OwesComm, IsPaying}
use sawang.ReplyQueue.{ReplyQueueTask}
use sawang.ProxyComm.Queue.{parse_tasks}
use sawang.Proxy.{Env}

module _ (e : Env) where
  abbrev pub Left : Type 0
  Left = Caller → Script e

  abbrev pub CommOwed : Left → Type 0
  CommOwed left = Some e (OwesComm e) left

  abbrev pub SubscribeOwed : Left → Type 0
  SubscribeOwed left = Some e (OwesSubscribe e) left

  -- While the communication thread sleeps: no task waits, or a signal to it is owed.
  abbrev pub CommIsWoken : CommAt → Option e.parse.Queue → Left → Type 0
  CommIsWoken CommAt.asleep q left = (parse_tasks e q ≡ []) ⊎ CommOwed left
  CommIsWoken _ q left = Unit

  -- While the subscribe thread sleeps: only answers wait that it has put back, or a signal is owed.
  -- Before it puts them back, alive, no answer waits, or a signal is owed.
  abbrev pub SubscribeIsWoken :
      SubscribeAt → Bool → List ReplyQueueTask → Option e.reply.Queue → Left → Type 0
  SubscribeIsWoken SubscribeAt.asleep alive put_back q left =
      (tasks e.reply q ≡ put_back) ⊎ SubscribeOwed left
  SubscribeIsWoken returning alive put_back q left =
      alive ≡ true → (tasks e.reply q ≡ []) ⊎ SubscribeOwed left
  SubscribeIsWoken _ alive put_back q left = Unit

  -- The part of it that counts for others.
  abbrev pub SubscribeIsServed :
      SubscribeAt → List ReplyQueueTask → Option e.reply.Queue → Left → Type 0
  SubscribeIsServed SubscribeAt.asleep put_back q left =
      (tasks e.reply q ≡ put_back) ⊎ SubscribeOwed left
  SubscribeIsServed _ put_back q left = Unit

  pub record IsWoken (s : System e) : Type 0 where
    pub comm_woken : CommIsWoken s.comm_at s.proxy.parse_queue s.left
    pub subscribe_woken :
        SubscribeIsWoken s.subscribe_at s.subscribe.alive s.put_back s.proxy.reply_queue s.left
    pub paying : (c : Caller) → IsPaying e (s.left c)
    pub has_queue : is_some s.proxy.reply_queue ≡ true

  pub comm-left :
      (at : CommAt) (q : Option e.parse.Queue) (left : Left) (c : Caller) (k : Script e)
      → (OwesComm e (left c) → OwesComm e k)
      → CommIsWoken at q left
      → CommIsWoken at q (set_left e left c k)
  comm-left CommAt.asleep q left c k go (inl none_waits) = inl none_waits
  comm-left CommAt.asleep q left c k go (inr owed) =
      inr (set_left-Some e (OwesComm e) left c k go owed)
  comm-left CommAt.awake q left c k go h = tt
  comm-left draining q left c k go h = tt
  comm-left CommAt.gone q left c k go h = tt

  pub comm-owed :
      (at : CommAt) (q : Option e.parse.Queue) (left : Left) → CommOwed left → CommIsWoken at q left
  comm-owed CommAt.asleep q left owed = inr owed
  comm-owed CommAt.awake q left owed = tt
  comm-owed draining q left owed = tt
  comm-owed CommAt.gone q left owed = tt

  pub comm-signal :
      (at : CommAt) (q : Option e.parse.Queue) (left : Left) → CommIsWoken (signal_comm at) q left
  comm-signal CommAt.asleep q left = tt
  comm-signal CommAt.awake q left = tt
  comm-signal draining q left = tt
  comm-signal CommAt.gone q left = tt

  pub subscribe-left :
      (at : SubscribeAt) (alive : Bool) (back : List ReplyQueueTask) (q : Option e.reply.Queue)
      (left : Left) (c : Caller) (k : Script e)
      → (OwesSubscribe e (left c) → OwesSubscribe e k)
      → SubscribeIsWoken at alive back q left
      → SubscribeIsWoken at alive back q (set_left e left c k)
  subscribe-left SubscribeAt.asleep alive back q left c k go (inl same) = inl same
  subscribe-left SubscribeAt.asleep alive back q left c k go (inr owed) =
      inr (set_left-Some e (OwesSubscribe e) left c k go owed)
  subscribe-left returning alive back q left c k go h = λ a. elim (h a) [
    | inl none_waits ↦ inl none_waits
    | inr owed ↦ inr (set_left-Some e (OwesSubscribe e) left c k go owed)
  ]
  subscribe-left SubscribeAt.awake alive back q left c k go h = tt
  subscribe-left taking alive back q left c k go h = tt
  subscribe-left SubscribeAt.gone alive back q left c k go h = tt
  subscribe-left (exchanging t) alive back q left c k go h = tt

  pub subscribe-owed :
      (at : SubscribeAt) (alive : Bool) (back : List ReplyQueueTask) (q : Option e.reply.Queue)
      (left : Left)
      → SubscribeOwed left
      → SubscribeIsWoken at alive back q left
  subscribe-owed SubscribeAt.asleep alive back q left owed = inr owed
  subscribe-owed returning alive back q left owed = λ _. inr owed
  subscribe-owed SubscribeAt.awake alive back q left owed = tt
  subscribe-owed taking alive back q left owed = tt
  subscribe-owed SubscribeAt.gone alive back q left owed = tt
  subscribe-owed (exchanging t) alive back q left owed = tt

  -- a signal by a thread that gets the lock
  pub subscribe-signal :
      (at : SubscribeAt) (alive : Bool) (back : List ReplyQueueTask) (q : Option e.reply.Queue)
      (left : Left)
      → subscribe_holds at ≡ false
      → SubscribeIsWoken (signal_subscribe at) alive back q left
  subscribe-signal SubscribeAt.asleep alive back q left h = tt
  subscribe-signal SubscribeAt.awake alive back q left h = tt
  subscribe-signal SubscribeAt.gone alive back q left h = tt
  subscribe-signal returning alive back q left h = cc
  subscribe-signal taking alive back q left h = tt
  subscribe-signal (exchanging t) alive back q left h = tt

  -- a wait that ends without a signal
  pub subscribe-wakes :
      (at : SubscribeAt) (alive : Bool) (back : List ReplyQueueTask) (q : Option e.reply.Queue)
      (left : Left)
      → SubscribeIsWoken at alive back q left
      → SubscribeIsWoken (signal_subscribe at) alive back q left
  subscribe-wakes SubscribeAt.asleep alive back q left h = tt
  subscribe-wakes returning alive back q left h = h
  subscribe-wakes SubscribeAt.awake alive back q left h = tt
  subscribe-wakes taking alive back q left h = tt
  subscribe-wakes SubscribeAt.gone alive back q left h = tt
  subscribe-wakes (exchanging t) alive back q left h = tt
