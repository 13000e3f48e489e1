-- ===== src/ProxySubscribe/Outcome.antt =====
-- gear/proxysubscribe.c: the effect of a pass of the subscribe thread, and its stop.
use sawang.Prelude.{
  nil_of_length, ◌≡◌, ◌≤◌, refl, ◌∙◌, ap, true, false, Option, none, some, List, [], ◌∷◌, ◌++◌,
  append-nil, if◌then◌else◌, is_some, arith, length, All, Bool-cases, inl, inr,
}
use sawang.Glib.{GQueue}
use sawang.ReplyQueue.{ReplyQueueTask, reply_queue_push_head}
use sawang.ReplyQueue.Order.{tasks, push_head-tasks}
use sawang.ProxySubscribe.{
  Attempt, Subscribe, proxy_subscribe_shm_idle, send_all, return_failed, pass, wake,
  proxy_subscribe_stop,
}
use sawang.ProxySubscribe.Passes.{pass_list, send_all-pass_list, dies, takes}

-- The tasks that are not taken, in their order; those with no attempt stay.
abbrev pub kept : List Attempt → List ReplyQueueTask → List ReplyQueueTask
kept attempts [] = []
kept [] (t ∷ ts) = t ∷ ts
kept (a ∷ attempts) (t ∷ ts) = let rest = kept attempts ts in if takes a then rest else t ∷ rest

-- An attempt at which the thread does not die and nobody appends a task.
abbrev pub IsQuiet : Attempt → Type 0
IsQuiet a = (dies a ≡ false) × (a.meanwhile ≡ [])

pass_list-kept :
    (attempts : List Attempt) (ts : List ReplyQueueTask)
    → All IsQuiet attempts
    → length ts ≤ length attempts
    → ((pass_list attempts ts).left ≡ kept attempts ts)
      × ((pass_list attempts ts).alive ≡ true)
      × ((pass_list attempts ts).ended ≡ true)
unfolding pass_list
pass_list-kept [] [] h l = (refl, refl, refl)
pass_list-kept (a ∷ attempts) [] h l = (refl, refl, refl)
pass_list-kept [] (t ∷ ts) h l = absurd (omega arith)
pass_list-kept (a ∷ attempts) (t ∷ ts) h l =
    let (left, alive, ended) = pass_list-kept attempts ts h.1 (omega arith) in
    ground (arith, h.0.0, h.0.1, append-nil ts, left, alive, ended)

module _ (q : GQueue ReplyQueueTask) where
  open q use {contents}

  pushed-tasks :
      (r : Option q.Queue) (src : q.Queue)
      → is_some r ≡ true
      → (tasks q (reply_queue_push_head q r src).1 ≡ contents src ++ tasks q r)
        × (contents (reply_queue_push_head q r src).0 ≡ [])
  pushed-tasks none src h = cc
  pushed-tasks (some r) src h = let (none_left, all) = push_head-tasks q src r in (all, none_left)

  pub return_failed-tasks :
      (s : Subscribe q)
      → is_some s.reply_queue ≡ true
      → let u = return_failed q s in
        (tasks q u.reply_queue ≡ contents s.failed_task ++ tasks q s.reply_queue)
        × (contents u.failed_task ≡ [])
        × (u.alive ≡ s.alive)
        × (u.shown ≡ s.shown)
  unfolding return_failed
  return_failed-tasks s there = elim (Bool-cases (q.queue_is_empty s.failed_task)) [
    | inl b ↦
        let empty =
          nil_of_length (contents s.failed_task)
            (ground (arith, q.is_empty-contents s.failed_task, b)) in
        rw (b, return_failed) (rw empty, empty, refl, refl)
    | inr b ↦
        rw (b, return_failed)
          (let (all, none_left) = pushed-tasks s.reply_queue s.failed_task there in
            (all, none_left, refl, refl))
  ]

  pub return_failed-is_some :
      (s : Subscribe q)
      → is_some s.reply_queue ≡ true
      → is_some (return_failed q s).reply_queue ≡ true
  unfolding return_failed reply_queue_push_head
  return_failed-is_some s h = ground arith

  -- A pass with attempts enough for it ends. It leaves in the reply queue exactly the tasks that the
  -- pass over the list of its tasks leaves, in that order, and none aside; it tells Gonggo of the
  -- answers of that pass, with their lengths and whether a request is done with; and the thread goes
  -- on if and only if it lives through that pass.
  pub pass-pass_list :
      (attempts : List Attempt) (s : Subscribe q)
      → s.alive ≡ true
      → is_some s.reply_queue ≡ true
      → contents s.failed_task ≡ []
      → (pass_list attempts (tasks q s.reply_queue)).ended ≡ true
      → let (u, ended) = pass q attempts s in
        let p = pass_list attempts (tasks q s.reply_queue) in
        (tasks q u.reply_queue ≡ p.left)
        × (contents u.failed_task ≡ [])
        × (u.shown ≡ s.shown ++ p.shown)
        × (u.running ≡ p.alive)
        × (ended ≡ true)
  unfolding pass
  pass-pass_list attempts s alive there none_failed enough =
      let s' = record s { shm = proxy_subscribe_shm_idle s.shm } in
      let (ended, lives, left, shown, still) =
        send_all-pass_list q attempts s' (tasks q s.reply_queue) alive there refl in
      let v = (send_all q attempts s').0 in
      let (queue, failed, alive', shown') = return_failed-tasks v still in
      rw (ended ∙ enough, pass)
        (
          queue
              ∙ (left
                  ∙ ap (λ us. us ++ (pass_list attempts (tasks q s.reply_queue)).left) none_failed),
          failed,
          shown' ∙ shown,
          alive' ∙ lives,
          refl,
        )

  -- When nobody dies and nobody appends a task meanwhile, a pass with an attempt for each task ends,
  -- and the reply queue then has the tasks that Gonggo has not taken, in their order, to be sent
  -- again: none is lost and none is sent again after it has been taken.
  pub pass-kept :
      (attempts : List Attempt) (s : Subscribe q)
      → s.alive ≡ true
      → is_some s.reply_queue ≡ true
      → contents s.failed_task ≡ []
      → All IsQuiet attempts
      → length (tasks q s.reply_queue) ≤ length attempts
      → let (u, ended) = pass q attempts s in
        (tasks q u.reply_queue ≡ kept attempts (tasks q s.reply_queue))
        × (u.running ≡ true)
        × (ended ≡ true)
  pass-kept attempts s alive there none_failed quiet enough =
      let (left, lives, ended) = pass_list-kept attempts (tasks q s.reply_queue) quiet enough in
      let (queue, failed, shown, running, over) =
        pass-pass_list attempts s alive there none_failed ended in
      (queue ∙ left, running ∙ lives, over)

  -- After `proxy_subscribe_stop` a thread that waits for an answer to send ends at its next wake-up,
  -- with the reply queue as it was, and tells Gonggo of nothing more.
  pub stop-wake :
      (attempts : List Attempt) (s : Subscribe q)
      → let (u, ended) = wake q attempts (proxy_subscribe_stop q s) in
        (u.running ≡ false) × (u.reply_queue ≡ s.reply_queue) × (u.shown ≡ s.shown) × (ended ≡ true)
  unfolding wake proxy_subscribe_stop
  stop-wake attempts s = (ground arith, ground arith, ground arith, ground arith)
