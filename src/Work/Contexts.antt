-- ===== src/Work/Contexts.antt =====
-- gear/work.c: what the program holds while it makes its contexts, and the ways out.
use sawang.Prelude.{
  OnSome, bind-OnSome, ◌≡◌, refl, sym, ap, subst, Bool, true, false, Option, none, some, List,
  if◌then◌else◌, is_some, arith,
}
use sawang.Work.Owns.{
  no_threads, subscribe_init-Owns, channel_init-Owns, subscribe_destroy-Owns, gonggo_init-Owns,
  channel_destroy-Owns, comm_init-Owns, Owns,
}
use sawang.Work.{
  error_start, returns, subscribe_destroy, clean_up, enable_subscribe, channel_destroy, Pause,
  proxy_comm_context_init, enable_channel, World, Program,
}
use sawang.Posix.{shm_unlink_enable, Calls, subscribe_shm, channel_shm}
use sawang.Work.Main.{start_subscription, start_contexts, run_threads, start_watch}
use sawang.GonggoAlive.{Watch, gonggo_alive_context_init}
use sawang.Work.Starts.{run_threads-Ends, Ends, Before1}
use sawang.ProxySubscribe.Context.{proxy_subscribe_context_init}
use sawang.ProxyChannel.Context.{proxy_channel_context_init}
use sawang.Work.Stops.{clean_up-IsReleased, IsReleased}
use sawang.Proxy.{Env}

none_of {ℓ} : {A : Type ℓ} (o : Option A) → is_some o ≡ false → o ≡ none
none_of none h = refl
none_of (some a) h = absurd (cc h)

module _ (e : Env) (g : Program e) where
  -- no thread has started
  abbrev pub IsIdle : World e → Type 0
  IsIdle w =
      (w.proxy_channel_started ≡ false)
      × (w.proxy_subscribe_started ≡ false)
      × (w.watch.gonggo_alive_started ≡ false)
      × (w.proxy_comm_started ≡ false)

  -- the contexts from the life sign to the subscription are there, or the first ones of them
  abbrev pub HasAlive : World e → Type 0
  HasAlive w = Owns e false no_threads w × IsIdle w × (is_some w.watch.alive.path ≡ true)

  abbrev pub HasChannel : World e → Type 0
  HasChannel w = HasAlive w × (is_some w.watch.channel.path ≡ true)

  abbrev pub HasBoth : World e → Type 0
  HasBoth w = HasChannel w × (is_some w.watch.subscribe.path ≡ true)

  -- the way out with nothing but the life sign
  pub returns-IsReleased :
      (w : World e)
      → Owns e false no_threads w
      → w.watch.channel.path ≡ none
      → w.watch.subscribe.path ≡ none
      → w.watch.gonggo_alive_shm ≡ false
      → IsReleased e (clean_up e w)
  returns-IsReleased w o c s f = clean_up-IsReleased e w (o, c, s, f)

  -- the way out with the channel's context
  pub without_channel-IsReleased :
      (w : World e)
      → Owns e false no_threads w
      → w.watch.subscribe.path ≡ none
      → w.watch.gonggo_alive_shm ≡ false
      → IsReleased e (clean_up e (channel_destroy e (enable_channel e w)))
  unfolding enable_channel channel_destroy shm_unlink_enable
  without_channel-IsReleased w o s f =
      let (owns, gone) = channel_destroy-Owns e (enable_channel e w) false o in
      returns-IsReleased (channel_destroy e (enable_channel e w)) owns gone s f

  -- the way out with both contexts
  pub without_both-IsReleased :
      (w : World e)
      → Owns e false no_threads w
      → is_some w.watch.subscribe.path ≡ true
      → w.watch.gonggo_alive_shm ≡ false
      → IsReleased e (
          clean_up e
            (subscribe_destroy e (enable_subscribe e (channel_destroy e (enable_channel e w)))))
  unfolding enable_channel channel_destroy enable_subscribe subscribe_destroy shm_unlink_enable
  without_both-IsReleased w o s f =
      let (owns, gone) = channel_destroy-Owns e (enable_channel e w) false o in
      let v = enable_subscribe e (channel_destroy e (enable_channel e w)) in
      let (owns', gone') = subscribe_destroy-Owns e v false s owns in
      returns-IsReleased (subscribe_destroy e v) owns' gone gone' f

  pub comm-Before1 : (w : World e) → HasBoth w → Before1 e g (proxy_comm_context_init e w)
  unfolding proxy_comm_context_init
  comm-Before1 w o = ground (arith, comm_init-Owns e w no_threads o.0.0.0)

  pub watched-Ends :
      (xs : List Pause) (w : World e) (ok : Bool)
      → HasBoth w
      → w.watch.gonggo_alive_shm ≡ ok
      → OnSome (Ends e g) (
          if ok
          then run_threads e g xs (proxy_comm_context_init e w)
          else some (
              returns error_start (
                clean_up e (
                  subscribe_destroy e
                    (enable_subscribe e (channel_destroy e (enable_channel e w)))))))
  unfolding proxy_comm_context_init
  watched-Ends xs w true o f =
      run_threads-Ends e g xs (proxy_comm_context_init e w) (comm-Before1 w o) o.0.0.1.0
  watched-Ends xs w false o f = without_both-IsReleased w o.0.0.0 o.1 f

  pub gonggo-HasBoth :
      (w : World e) (v : Watch) (h : Calls) (ok : Bool)
      → HasBoth w
      → Owns e false no_threads (record w { watch = v; calls = h })
        × (v ≡ record w.watch { gonggo_alive_shm = ok })
      → HasBoth (record w { watch = v; calls = h })
  gonggo-HasBoth w v h ok o (owns, same) =
      subst
        (λ v.
          Owns e false no_threads (record w { watch = v; calls = h })
          → HasBoth (record w { watch = v; calls = h }))
        (sym same) (λ owns. (((owns, o.0.0.1, o.0.0.2), o.0.1), o.1)) owns

  pub start_watch-Ends :
      (xs : List Pause) (w : World e)
      → HasBoth w
      → w.watch.gonggo_alive_shm ≡ false
      → OnSome (Ends e g) (start_watch e g xs w)
  unfolding start_watch
  start_watch-Ends xs w o f =
      bind-OnSome _ (Ends e g) (gonggo_alive_context_init g.posix g.gonggo_name w.watch w.calls) _
        (gonggo_init-Owns e g.posix g.gonggo_name w false f o.0.0.0)
        (λ (ok, v, h) l.
          watched-Ends xs (record w { watch = v; calls = h }) ok (gonggo-HasBoth w v h ok o l)
            (ap (λ x. x.gonggo_alive_shm) l.1))

  pub subscribed-Ends :
      (xs : List Pause) (w : World e) (ok : Bool)
      → HasChannel w
      → w.watch.gonggo_alive_shm ≡ false
      → is_some w.watch.subscribe.path ≡ ok
      → OnSome (Ends e g) (
          if ok
          then start_watch e g xs w
          else some (returns error_start (clean_up e (channel_destroy e (enable_channel e w)))))
  subscribed-Ends xs w true o f s = start_watch-Ends xs w (o, s) f
  subscribed-Ends xs w false o f s = without_channel-IsReleased w o.0.0 (none_of _ s) f

  pub start_subscription-Ends :
      (xs : List Pause) (w : World e)
      → HasChannel w
      → w.watch.gonggo_alive_shm ≡ false
      → w.watch.subscribe.path ≡ none
      → OnSome (Ends e g) (start_subscription e g xs w)
  unfolding start_subscription
  start_subscription-Ends xs w o f s =
      bind-OnSome _ (Ends e g)
        (proxy_subscribe_context_init g.posix (g.size subscribe_shm) g.subscribe_found g.proxy_name
          w.watch.subscribe w.calls)
        _
        (subscribe_init-Owns e g.posix (g.size subscribe_shm) g.subscribe_found g.proxy_name w false
          no_threads s o.0.0)
        (λ (ok, c, h) l.
          subscribed-Ends xs (record w { watch = record w.watch { subscribe = c }; calls = h }) ok
            ((l.0, o.0.1, o.0.2), o.1) f l.1)

  pub channelled-Ends :
      (xs : List Pause) (w : World e) (ok : Bool)
      → HasAlive w
      → w.watch.gonggo_alive_shm ≡ false
      → w.watch.subscribe.path ≡ none
      → is_some w.watch.channel.path ≡ ok
      → OnSome
          (Ends e g)
          (if ok then start_subscription e g xs w else some (returns error_start (clean_up e w)))
  channelled-Ends xs w true o f s c = start_subscription-Ends xs w (o, c) f s
  channelled-Ends xs w false o f s c = returns-IsReleased w o.0 (none_of _ c) s f

  pub start_contexts-Ends :
      (xs : List Pause) (w : World e)
      → HasAlive w
      → w.watch.gonggo_alive_shm ≡ false
      → w.watch.subscribe.path ≡ none
      → w.watch.channel.path ≡ none
      → OnSome (Ends e g) (start_contexts e g xs w)
  unfolding start_contexts
  start_contexts-Ends xs w o f s n =
      bind-OnSome _ (Ends e g)
        (proxy_channel_context_init g.posix (g.size channel_shm) g.channel_found g.proxy_name
          w.watch.channel w.calls)
        _
        (channel_init-Owns e g.posix (g.size channel_shm) g.channel_found g.proxy_name w false
          no_threads n o.0)
        (λ (ok, c, h) l.
          channelled-Ends xs (record w { watch = record w.watch { channel = c }; calls = h }) ok
            (l.0, o.1, o.2) f s l.1)
