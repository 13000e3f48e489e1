-- ===== src/ProxySubscribe/Passes.antt =====
-- gear/proxysubscribe.c against lists: what a pass over the reply queue leaves in it.
use sawang.Prelude.{
  ◌+◌, ◌≡◌, refl, sym, ◌∙◌, ap, Bool, true, false, ◌&&◌, ◌||◌, not, Option, none, some, List, [],
  ◌∷◌, ◌++◌, append-nil, append_assoc, if◌then◌else◌, is_some, arith, length, Bool-cases, inl, inr,
}
use sawang.Glib.{GQueue, head?, tail}
use sawang.Shm.{ProxySubscribeState, ProxySubscribeShm}
use sawang.ReplyQueue.{ReplyQueueTask, push_tail, reply_queue_pop_head}
use sawang.ReplyQueue.Order.{tasks}
use sawang.ProxySubscribe.{
  Attempt, Wakeup, owner_dies, wakes, Subscribe, is_done, is_termination, proxy_subscribe_exchange,
  proxy_subscribe_create_answer, send_task, send_all, append_all,
}

-- the shared memory with which Gonggo is told of an answer
abbrev pub answer_of : Attempt → ReplyQueueTask → ProxySubscribeShm
answer_of a t = record {
  state = ProxySubscribeState.answer;
  aid = a.uuid_generate;
  payload_buff_length = length t.task + 1;
  remove_request = not t.multiple_respond;
}

abbrev pub ends_with_death : Wakeup → Bool
ends_with_death owner_dies = true
ends_with_death (wakes shm) = is_termination shm.state

abbrev pub ends_done : Wakeup → Bool
ends_done owner_dies = false
ends_done (wakes shm) = is_done shm.state

-- Gonggo is told of the answer.
abbrev pub shows : Attempt → Bool
shows a = not a.owner_dead && a.answer_shm

-- The attempt ends the thread.
abbrev pub dies : Attempt → Bool
dies a = a.owner_dead || (a.answer_shm && ends_with_death a.wakeup)

-- Gonggo has taken the answer.
abbrev pub takes : Attempt → Bool
takes a = a.answer_shm && ends_done a.wakeup

-- What a pass comes to: the tasks that are left, whether the thread lives on, whether the pass has
-- ended, and what Gonggo is told of.
pub record Passed : Type 0 where
  pub left : List ReplyQueueTask
  pub alive : Bool
  pub ended : Bool
  pub shown : List ProxySubscribeShm

-- A pass over a list of tasks: each is attempted once, in turn. A task that Gonggo does not take
-- stays before those after it, one at which the thread dies is gone, and tasks that are appended
-- meanwhile come last.
unfoldable pub pass_list : List Attempt → List ReplyQueueTask → Passed
pass_list attempts [] = record { left = []; alive = true; ended = true; shown = [] }
pass_list [] (t ∷ ts) = record { left = ts; alive = true; ended = false; shown = [] }
pass_list (a ∷ attempts) (t ∷ ts) =
    let rest = pass_list attempts (ts ++ a.meanwhile) in
    let shown : List ProxySubscribeShm = if shows a then answer_of a t ∷ [] else [] in
    if dies a
    then record { left = ts ++ a.meanwhile; alive = false; ended = true; shown = shown }
    else record rest {
      left = if takes a then rest.left else t ∷ rest.left;
      shown = shown ++ rest.shown;
    }

module _ (q : GQueue ReplyQueueTask) where
  open q use {contents}

  append_all-tasks :
      (r : Option q.Queue) (ts : List ReplyQueueTask)
      → is_some r ≡ true
      → (tasks q (append_all q r ts) ≡ tasks q r ++ ts) × (is_some (append_all q r ts) ≡ true)
  unfolding push_tail
  append_all-tasks none ts h = cc
  append_all-tasks (some r) [] h = (sym (append-nil (contents r)), refl)
  append_all-tasks (some r) (t ∷ ts) h =
      let (same, there) = append_all-tasks (some (q.queue_push_tail r t)) ts refl in
      (
        same
            ∙ (ap (λ us. us ++ ts) (q.contents-push_tail r t)
                ∙ append_assoc (contents r) (t ∷ []) ts),
        there,
      )

  pub pop-tasks :
      (r : Option q.Queue)
      → is_some r ≡ true
      → ((reply_queue_pop_head q r).0 ≡ head? (tasks q r))
        × (tasks q (reply_queue_pop_head q r).1 ≡ tail (tasks q r))
        × (is_some (reply_queue_pop_head q r).1 ≡ true)
  unfolding reply_queue_pop_head
  pop-tasks none h = cc
  pop-tasks (some r) h = (q.pop_head-head? r, q.contents-pop_head r, refl)

  -- what sending one task does
  send_task-fields :
      (a : Attempt) (t : ReplyQueueTask) (s : Subscribe q)
      → s.alive ≡ true
      → let u = send_task q a t s in
        (u.reply_queue ≡ append_all q s.reply_queue a.meanwhile)
        × (u.alive ≡ not (dies a))
        × (contents u.failed_task
            ≡ contents s.failed_task ++ (if dies a || takes a then [] else t ∷ []))
        × (u.shown ≡ s.shown ++ (if shows a then answer_of a t ∷ [] else []))
  unfolding send_task proxy_subscribe_exchange proxy_subscribe_create_answer
  send_task-fields a t s h = (
    ground arith,
    ground arith,
    ground (arith, q.contents-push_tail s.failed_task t, append-nil (contents s.failed_task)),
    ground (arith, append-nil s.shown),
  )

  -- The inner loop and the list pass agree.
  abbrev pub Agrees : Subscribe q → Subscribe q × Bool → Passed → Type 0
  Agrees s (u, ended) p =
      (ended ≡ p.ended)
      × (u.alive ≡ p.alive)
      × (contents u.failed_task ++ tasks q u.reply_queue ≡ contents s.failed_task ++ p.left)
      × (u.shown ≡ s.shown ++ p.shown)
      × (is_some u.reply_queue ≡ true)

  send_all-cons :
      (a : Attempt) (attempts : List Attempt) (s : Subscribe q) (t : ReplyQueueTask)
      → (reply_queue_pop_head q s.reply_queue).0 ≡ some t
      → let u =
          send_task q a t (record s { reply_queue = (reply_queue_pop_head q s.reply_queue).1 }) in
        send_all q (a ∷ attempts) s ≡ (if u.alive then send_all q attempts u else (u, true))
  unfolding send_all
  send_all-cons a attempts s t e = rw (e, send_all)

  -- an attempt at which the thread dies
  died-Agrees :
      (a : Attempt) (t : ReplyQueueTask) (ts : List ReplyQueueTask) (s u : Subscribe q)
      → u.alive ≡ false
      → tasks q u.reply_queue ≡ ts
      → contents u.failed_task ≡ contents s.failed_task ++ []
      → u.shown ≡ s.shown ++ (if shows a then answer_of a t ∷ [] else [])
      → is_some u.reply_queue ≡ true
      → Agrees s
          (u, true)
          (record {
            left = ts;
            alive = false;
            ended = true;
            shown = if shows a then answer_of a t ∷ [] else [];
          })
  died-Agrees a t ts s u dead all failed shown there =
      (refl, dead, ground (arith, append-nil (contents s.failed_task)), shown, there)

  -- an attempt at which it does not
  lived-Agrees :
      (a : Attempt) (t : ReplyQueueTask) (s u : Subscribe q) (after : Subscribe q × Bool)
      (rest : Passed)
      → contents u.failed_task ≡ contents s.failed_task ++ (if takes a then [] else t ∷ [])
      → u.shown ≡ s.shown ++ (if shows a then answer_of a t ∷ [] else [])
      → Agrees u after rest
      → Agrees s after (record rest {
        left = if takes a then rest.left else t ∷ rest.left;
        shown = (if shows a then answer_of a t ∷ [] else []) ++ rest.shown;
      })
  lived-Agrees a t s u (v, ended) rest failed shown (e, lives, left, shows', there) = (
    e,
    lives,
    left
        ∙ ground (
          arith,
          failed,
          append-nil (contents s.failed_task),
          append_assoc (contents s.failed_task) (t ∷ []) rest.left,
        ),
    shows'
        ∙ (ap (λ x. x ++ rest.shown) shown
            ∙ append_assoc s.shown (if shows a then answer_of a t ∷ [] else []) rest.shown),
    there,
  )

  pub send_all-pass_list :
      (attempts : List Attempt) (s : Subscribe q) (ts : List ReplyQueueTask)
      → s.alive ≡ true
      → is_some s.reply_queue ≡ true
      → tasks q s.reply_queue ≡ ts
      → Agrees s (send_all q attempts s) (pass_list attempts ts)
  unfolding send_all pass_list
  send_all-pass_list [] s [] alive there e =
      let (popped, left, still) = pop-tasks s.reply_queue there in
      rw (popped ∙ ap head? e, send_all)
        (
          refl,
          alive,
          ap (λ us. contents s.failed_task ++ us) (left ∙ ap tail e),
          sym (append-nil s.shown),
          still,
        )
  send_all-pass_list [] s (t ∷ ts) alive there e =
      let (popped, left, still) = pop-tasks s.reply_queue there in
      rw (popped ∙ ap head? e, send_all)
        (
          refl,
          alive,
          ap (λ us. contents s.failed_task ++ us) (left ∙ ap tail e),
          sym (append-nil s.shown),
          still,
        )
  send_all-pass_list (a ∷ attempts) s [] alive there e =
      let (popped, left, still) = pop-tasks s.reply_queue there in
      rw (popped ∙ ap head? e, send_all)
        (
          refl,
          alive,
          ap (λ us. contents s.failed_task ++ us) (left ∙ ap tail e),
          sym (append-nil s.shown),
          still,
        )
  send_all-pass_list (a ∷ attempts) s (t ∷ ts) alive there e =
      let (popped, left, still) = pop-tasks s.reply_queue there in
      let s' = record s { reply_queue = (reply_queue_pop_head q s.reply_queue).1 } in
      let u = send_task q a t s' in
      let (queue, lives, failed, shown) = send_task-fields a t s' alive in
      let (appended, present) = append_all-tasks s'.reply_queue a.meanwhile still in
      let there' = ap is_some queue ∙ present in
      let all : tasks q u.reply_queue ≡ ts ++ a.meanwhile =
        ap (tasks q) queue ∙ (appended ∙ ap (λ us. us ++ a.meanwhile) (left ∙ ap tail e)) in
      let here = send_all-cons a attempts s t (popped ∙ ap head? e) in
      elim (Bool-cases (dies a)) [
        | inl d ↦
            let dead = lives ∙ ap not d in
            rw (here, dead, d, pass_list)
              (died-Agrees a t (ts ++ a.meanwhile) s u dead all (failed ∙ ground arith) shown
                there')
        | inr d ↦
            let live = lives ∙ ap not d in
            rw (here, live, d, pass_list)
              (lived-Agrees a t s u (send_all q attempts u) (pass_list attempts (ts ++ a.meanwhile))
                (failed ∙ ground arith) shown
                (send_all-pass_list attempts u (ts ++ a.meanwhile) live there' all))
      ]
