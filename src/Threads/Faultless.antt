-- ===== src/Threads/Faultless.antt =====
-- No thread passes a null string to strdup or strcmp, under every interleaving of the threads.
use sawang.Prelude.{contains, ◌≡◌, refl, subst, true, false, none, List, [], CString, All}
use sawang.Threads.Requests.{finish_calls-IsSafe, HasServices}
use sawang.Threads.Safe.{reply_calls-IsSafe, IsServing, IsSafe, IsKey}
use sawang.Threads.Shared.{steps-Holds, IsRelied}
use sawang.Threads.Served.{take-IsServing, advance-IsSafe}
use sawang.Threads.System.{Caller, Event}
use sawang.Threads.Machine.{started_system, steps}
use sawang.ProxyComm.Queue.{parse_tasks}
use sawang.RespondTable.Contract.{rids}
use sawang.Threads.Calls.{fault, is_fault, Script, over}
use sawang.ProxySubscribe.{Subscribe}
use sawang.ProxyChannel.{ChannelCalls}
use sawang.Proxy.{Proxy, Callbacks, Env}
use sawang.RespondTable.{multirespond}
use sawang.ProxyComm.Total.{IsHandled}

module _ (e : Env) where
  safe-no_fault : (k : Script e) → IsSafe e k → is_fault e k ≡ false
  safe-no_fault fault h = absurd h
  safe-no_fault over h = refl
  safe-no_fault k h = refl

  module _ (parse_empty : e.json.parse [] ≡ none) where
    module _ (cb : Callbacks e) (calls_of : ChannelCalls e)
        (services : HasServices e calls_of) where
      IsSafe-IsRelied : IsRelied e cb calls_of (IsServing e) (IsSafe e)
      IsSafe-IsRelied = record {
        on_other = λ s t tables queue v. record {
          keys =
              subst
                (λ u.
                  (task r : CString)
                  → contains (rids e.glib u multirespond task) r ≡ true
                  → IsKey e task)
                tables v.keys;
          queue = subst (λ q. All (IsHandled e) (parse_tasks e q)) queue v.queue;
        };
        on_call = advance-IsSafe e;
        on_over = tt;
        on_take = take-IsServing e cb;
        on_finish = λ read left. finish_calls-IsSafe e parse_empty cb calls_of read left services;
        on_answer = λ arg headers payload. reply_calls-IsSafe e arg headers payload over tt;
      }

      -- However the threads are interleaved, call by call, with whatever the callbacks return and
      -- whichever answers the author's threads give: no thread comes to pass a null string to strdup or
      -- strcmp, and every task on the parse queue is one that the communication thread can handle, if
      -- each object that Gonggo sends names its service by a text, an empty text does not parse, and the
      -- tables and the queue are so at the start, as they are when they are empty.
      pub steps-fault_free :
          (xs : List (Event e)) (proxy : Proxy e) (subscribe : Subscribe e.reply)
          → IsServing e proxy
          → let t = steps e cb calls_of (started_system e cb calls_of proxy subscribe) xs in
            ((c : Caller) → is_fault e (t.left c) ≡ false)
            × All (IsHandled e) (parse_tasks e t.proxy.parse_queue)
      steps-fault_free xs proxy subscribe v =
          let h = steps-Holds e cb calls_of IsSafe-IsRelied xs proxy subscribe v in
          (λ c. safe-no_fault _ (h.each c), h.shared.queue)
