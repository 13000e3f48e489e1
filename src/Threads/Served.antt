-- ===== src/Threads/Served.antt =====
-- Each call of a safe program keeps what the communication thread needs, and leaves a safe program.
use sawang.Prelude.{
  contains-remove_first_le, str_eq_iff, ◌≡◌, sym, subst, ◌∙◌, Option, none, some, List, [], ◌∷◌,
  CString, arith, Bool-cases, inl, inr, All, str_eq,
}
use sawang.Threads.Calls.{
  fault, over, calls_back, awakes_subscribe, awakes_comm, appends_reply, appends_task,
  dups_task_key, dups_requests, drops, sets, Script, advance,
}
use sawang.RespondTable.Contract.{set-rids, rids, drop-rids}
use sawang.Threads.Safe.{IsKey, task_calls-IsSafe, KeyFits, IsSafe, IsServing}
use sawang.RespondTable.Reads.{dup_task_key-TaskOf, TaskOf}
use sawang.RespondTable.{
  respond_table_request_dup, singleshot, multirespond, other, respond_table_set, respond_table_drop,
  RespondTableType,
}
use sawang.ProxyComm.Queue.{pop_head-parse_tasks, parse_tasks}
use sawang.ProxyChannel.Handled.{All-snoc, KeysAreServed}
use sawang.Threads.Comm.{task_calls}
use sawang.ParseQueue.{parse_task, ParseQueueTask, parse_queue_pop_head, parse_queue_append}
use sawang.ProxyComm.Total.{IsHandled}
use sawang.Proxy.{Proxy, Callbacks, Env}
use sawang.Glib.{tail, head?}
use mathlib.Core.Option.{some-injective}

All-head_tail {ℓ κ} :
    {A : Type ℓ} (P : A → Type κ) (xs : List A)
    → All P xs
    → ((x : A) → head? xs ≡ some x → P x) × All P (tail xs)
All-head_tail P [] h = (λ x e. cc, tt)
All-head_tail P (y ∷ xs) h = (λ x e. subst P (some-injective y x e) h.0, h.1)

module _ (e : Env) where
  set-KeysAreServed :
      (s : Proxy e) (w : RespondTableType) (key uuid : CString)
      → KeyFits e w key
      → KeysAreServed e s
      → KeysAreServed e (record s { tables = (respond_table_set e.glib s.tables w key uuid).0 })
  set-KeysAreServed s multirespond key uuid fits keys = λ task u h.
      elim (Bool-cases (str_eq key task)) [
        | inl b ↦ subst (IsKey e) ((str_eq_iff key task).0 b) fits
        | inr b ↦ keys task u (
            ground
              (arith, b, h, (set-rids e.glib s.tables multirespond key uuid).0 multirespond task))
      ]
  set-KeysAreServed s singleshot key uuid fits keys = λ task u h.
      keys task u
        (ground (arith, h, (set-rids e.glib s.tables singleshot key uuid).0 multirespond task))
  set-KeysAreServed s (other n) key uuid fits keys = λ task u h.
      keys task u
        (ground (arith, h, (set-rids e.glib s.tables (other n) key uuid).0 multirespond task))

  drop-KeysAreServed :
      (s : Proxy e) (w : RespondTableType) (key uuid : CString)
      → KeysAreServed e s
      → KeysAreServed e (record s { tables = (respond_table_drop e.glib s.tables w key uuid).0 })
  drop-KeysAreServed s w key uuid keys = λ task u h. keys task u (
      ground (
        arith,
        (drop-rids e.glib s.tables w key uuid).0 multirespond task,
        contains-remove_first_le (rids e.glib s.tables w key) uuid u,
        str_eq_iff key task,
        h,
      ))

  append-queue :
      (q : Option e.parse.Queue) (key : CString) (task uuid : Option CString) (w : RespondTableType)
      → IsHandled e (parse_task key task uuid w)
      → All (IsHandled e) (parse_tasks e q)
      → All (IsHandled e) (parse_tasks e (parse_queue_append e.parse q key task uuid w))
  unfolding parse_queue_append
  append-queue none key task uuid w h all = tt
  append-queue (some q) key task uuid w h all =
      subst (All (IsHandled e)) (sym (e.parse.contents-push_tail q (parse_task key task uuid w)))
        (All-snoc e (IsHandled e) (e.parse.contents q) (parse_task key task uuid w) all h)

  found-IsSafe :
      (s : Proxy e) (w : RespondTableType) (uuid : CString) (k : Option CString → Script e)
      → KeysAreServed e s
      → IsSafe e (k none) × ((task : CString) → KeyFits e w task → IsSafe e (k (some task)))
      → (o : Option CString) → TaskOf e.glib s.tables w uuid o
      → IsSafe e (k o)
  found-IsSafe s w uuid k keys h none t = h.0
  found-IsSafe s singleshot uuid k keys h (some task) t = h.1 task tt
  found-IsSafe s multirespond uuid k keys h (some task) t = h.1 task (keys task uuid t)
  found-IsSafe s (other n) uuid k keys h (some task) t = h.1 task tt

  pub advance-IsSafe :
      (k : Script e) (s : Proxy e)
      → IsServing e s
      → IsSafe e k
      → IsServing e (advance e k s).0 × IsSafe e (advance e k s).1
  unfolding advance
  advance-IsSafe over s v h = (v, h)
  advance-IsSafe fault s v h = absurd h
  advance-IsSafe (sets w key uuid k) s v h = (
    record { keys = set-KeysAreServed s w key uuid h.0 v.keys; queue = v.queue },
    h.1 (respond_table_set e.glib s.tables w key uuid).1,
  )
  advance-IsSafe (drops w key uuid k) s v h = (
    record { keys = drop-KeysAreServed s w key uuid v.keys; queue = v.queue },
    h (respond_table_drop e.glib s.tables w key uuid).1
        (respond_table_drop e.glib s.tables w key uuid).2,
  )
  advance-IsSafe (dups_requests w key k) s v h =
      (v, h (respond_table_request_dup e.glib s.tables w key))
  advance-IsSafe (dups_task_key w uuid k) s v h =
      (v, found-IsSafe s w uuid k v.keys h _ (dup_task_key-TaskOf e.glib s.tables w uuid))
  advance-IsSafe (appends_task key task uuid w k) s v h = (
    record { keys = v.keys; queue = append-queue s.parse_queue key task uuid w h.0 v.queue },
    h.1,
  )
  advance-IsSafe (appends_reply rid headers payload multi k) s v h =
      (record { keys = v.keys; queue = v.queue }, h)
  advance-IsSafe (awakes_comm k) s v h = (record { keys = v.keys; queue = v.queue }, h)
  advance-IsSafe (awakes_subscribe k) s v h = (record { keys = v.keys; queue = v.queue }, h)
  advance-IsSafe (calls_back c k) s v h = (record { keys = v.keys; queue = v.queue }, h s.called)

  -- A task that is taken can be handled, and so can those that are left.
  pub take-IsServing :
      (cb : Callbacks e) (s : Proxy e)
      → IsServing e s
      → let (task, rest) = parse_queue_pop_head e.parse s.parse_queue in
        IsServing e (record s { parse_queue = rest })
        × ((x : ParseQueueTask) → task ≡ some x → IsSafe e (task_calls e cb x))
  take-IsServing cb s v =
      let (popped, left) = pop_head-parse_tasks e s.parse_queue in
      let (first, others) = All-head_tail (IsHandled e) (parse_tasks e s.parse_queue) v.queue in
      (
        record { keys = v.keys; queue = subst (All (IsHandled e)) (sym left) others },
        λ x h. task_calls-IsSafe e cb x (first x (sym popped ∙ h)),
      )
