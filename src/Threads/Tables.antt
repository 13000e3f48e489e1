-- ===== src/Threads/Tables.antt =====
-- The respond tables under every interleaving of the threads.
use sawang.Prelude.{subst, List}
use sawang.Threads.Calls.{sets, drops, Script, advance}
use sawang.RespondTable.Invariant.{drop-TablesAreValid, set-TablesAreValid, TablesAreValid}
use sawang.Threads.Shared.{steps-Holds, IsRelied}
use sawang.Threads.Machine.{started_system, steps}
use sawang.Threads.System.{Event}
use sawang.ProxySubscribe.{Subscribe}
use sawang.Proxy.{Proxy, Callbacks, Env}
use sawang.ProxyChannel.{ChannelCalls}

module _ (e : Env) (cb : Callbacks e) (calls_of : ChannelCalls e) where
  abbrev KeepsTables : Proxy e → Type 0
  KeepsTables s = TablesAreValid e.glib s.tables

  advance-KeepsTables : (k : Script e) (s : Proxy e) → KeepsTables s → KeepsTables (advance e k s).0
  unfolding advance
  advance-KeepsTables (sets w key uuid k) s v = set-TablesAreValid e.glib s.tables w key uuid v
  advance-KeepsTables (drops w key uuid k) s v = drop-TablesAreValid e.glib s.tables w key uuid v
  advance-KeepsTables k s v = v

  tables-IsRelied : IsRelied e cb calls_of KeepsTables (λ _. Unit {0})
  tables-IsRelied = record {
    on_other = λ s t same _. subst (TablesAreValid e.glib) same;
    on_call = λ k s v _. (advance-KeepsTables k s v, tt);
    on_over = tt;
    on_take = λ s v. (v, λ _ _. tt);
    on_finish = λ _ _. tt;
    on_answer = λ _ _ _. tt;
  }

  -- However the channel thread, the communication thread, the subscribe thread and any threads of the
  -- proxy's author are interleaved, call by call, with whatever Gonggo sends and the callbacks return:
  -- the tables satisfy their invariant after any events, if they do so at the start.
  pub steps-TablesAreValid :
      (xs : List (Event e)) (proxy : Proxy e) (subscribe : Subscribe e.reply)
      → TablesAreValid e.glib proxy.tables
      → TablesAreValid e.glib
          (steps e cb calls_of (started_system e cb calls_of proxy subscribe) xs).proxy.tables
  steps-TablesAreValid xs proxy subscribe v =
      (steps-Holds e cb calls_of tables-IsRelied xs proxy subscribe v).shared
