-- ===== src/ReplyQueue/Order.antt =====
-- gear/replyqueue.c against a list of tasks, oldest first.
use sawang.Prelude.{
  ℕ, zero, suc, ◌≡◌, ◌<◌, refl, sym, ◌∙◌, ap, Option, none, some, List, [], ◌∷◌, ◌++◌, arith,
  length, Bool, false, CString, nil≢cons, Option-cases, inl, inr,
}
use sawang.Define.{service_status_key}
use sawang.CJson.{CJson}
use sawang.Glib.{GQueue, head?, tail, get_last?, drop_last}
use sawang.ReplyQueue.{
  ReplyQueueTask, reply_queue_pop_head, push_head_loop, reply_queue_push_head, reply_queue_create,
  reply_queue_append, reply_queue_append_invalid_status, reply_json,
}

drop_last-append {ℓ} :
    {A : Type ℓ} (xs ys : List A) (a : A)
    → get_last? xs ≡ some a
    → (drop_last xs ++ (a ∷ ys) ≡ xs ++ ys) × (length (drop_last xs) < length xs)
drop_last-append [] ys a e = cc
drop_last-append (x ∷ []) ys a e = ground arith
drop_last-append (x ∷ y ∷ xs) ys a e = ground (arith, drop_last-append (y ∷ xs) ys a)

get_last?-nil {ℓ} : {A : Type ℓ} (xs : List A) → get_last? xs ≡ none → xs ≡ []
get_last?-nil [] e = refl
get_last?-nil (x ∷ []) e = cc
get_last?-nil (x ∷ y ∷ xs) e = absurd (nil≢cons (sym (get_last?-nil (y ∷ xs) e)))

module _ (q : GQueue ReplyQueueTask) where
  open q use {Queue, contents, queue_pop_tail, queue_push_head}

  abbrev pub tasks : Option Queue → List ReplyQueueTask
  tasks none = []
  tasks (some r) = contents r

  push_head_loop-contents :
      (fuel : ℕ) (src r : Queue)
      → length (contents src) < fuel
      → (contents (push_head_loop q fuel src r).0 ≡ [])
        × (contents (push_head_loop q fuel src r).1 ≡ contents src ++ contents r)
  unfolding push_head_loop
  push_head_loop-contents zero src r h = absurd (omega arith)
  push_head_loop-contents (suc fuel) src r h = elim (Option-cases (queue_pop_tail src).0) [
    | inl e ↦
        rw (e, push_head_loop)
          (let empty = get_last?-nil (contents src) (sym (q.pop_tail-get_last? src) ∙ e) in
            ground (arith, q.contents-pop_tail src, empty))
    | inr (t, e) ↦
        rw (e, push_head_loop)
          (let (split, shorter) =
              drop_last-append (contents src) (contents r) t (sym (q.pop_tail-get_last? src) ∙ e) in
            ground (
              arith,
              split,
              shorter,
              q.contents-pop_tail src,
              q.contents-push_head r t,
              push_head_loop-contents fuel (queue_pop_tail src).1 (queue_push_head r t),
            ))
  ]

  -- `reply_queue_push_head` empties its source and puts all of its tasks, in their order, before
  -- those of the reply queue; its loop ends within one round for each task and one more.
  pub push_head-tasks :
      (src r : Queue)
      → (contents (reply_queue_push_head q (some r) src).0 ≡ [])
        × (tasks (reply_queue_push_head q (some r) src).1 ≡ contents src ++ contents r)
  unfolding reply_queue_push_head
  push_head-tasks src r =
      push_head_loop-contents (suc (q.queue_get_length src)) src r
        (omega (arith, q.get_length-contents src))

  module _ (c : CJson) where
    open c use {Json, print_unformatted}

    pub data QueueCall : Type 0 where
      appends : Json → Json → Option Json → Bool → QueueCall
      appends_invalid_status : CString → ℕ → QueueCall
      pops : QueueCall
      returns : Queue → QueueCall

    -- A call on the state; a pop adds what it returns to the end of the results.
    abbrev pub queue_step :
        Option Queue × List (Option ReplyQueueTask)
        → QueueCall
        → Option Queue × List (Option ReplyQueueTask)
    queue_step (r, out) (appends rid headers payload multi) =
        (reply_queue_append q c r rid headers payload multi, out)
    queue_step (r, out) (appends_invalid_status rid status) =
        (reply_queue_append_invalid_status q c r rid status, out)
    queue_step (r, out) pops = let (t, r') = reply_queue_pop_head q r in (r', out ++ (t ∷ []))
    queue_step (r, out) (returns src) = ((reply_queue_push_head q r src).1, out)

    -- The task that a call appends.
    abbrev pub task_of : Json → Json → Option Json → Bool → ReplyQueueTask
    task_of rid headers payload multi = record {
      task = print_unformatted (reply_json q c rid headers payload);
      multiple_respond = multi;
    }

    -- The same over a list of tasks, oldest first.
    abbrev pub list_step :
        List ReplyQueueTask × List (Option ReplyQueueTask)
        → QueueCall
        → List ReplyQueueTask × List (Option ReplyQueueTask)
    list_step (ts, out) (appends rid headers payload multi) =
        (ts ++ (task_of rid headers payload multi ∷ []), out)
    list_step (ts, out) (appends_invalid_status rid status) = (
      ts
          ++ (task_of (c.create_string rid)
                (c.add_item_to_object c.create_object service_status_key (c.create_number status))
                none false
              ∷ []),
      out,
    )
    list_step (ts, out) pops = (tail ts, out ++ (head? ts ∷ []))
    list_step (ts, out) (returns src) = (contents src ++ ts, out)

    abbrev pub queue_run :
        Option Queue × List (Option ReplyQueueTask)
        → List QueueCall
        → Option Queue × List (Option ReplyQueueTask)
    queue_run s [] = s
    queue_run s (x ∷ xs) = queue_run (queue_step s x) xs

    abbrev pub list_run :
        List ReplyQueueTask × List (Option ReplyQueueTask)
        → List QueueCall
        → List ReplyQueueTask × List (Option ReplyQueueTask)
    list_run s [] = s
    list_run s (x ∷ xs) = list_run (list_step s x) xs

    step-refines :
        (r : Queue) (out : List (Option ReplyQueueTask)) (x : QueueCall)
        → (r' : Queue) × (queue_step (some r, out) x ≡ (some r', (list_step (contents r, out) x).1))
          × (contents r' ≡ (list_step (contents r, out) x).0)
    unfolding reply_queue_append reply_queue_append_invalid_status reply_queue_pop_head
        reply_queue_push_head
    step-refines r out (appends rid headers payload multi) =
        let t = task_of rid headers payload multi in
        (q.queue_push_tail r t, refl, q.contents-push_tail r t)
    step-refines r out (appends_invalid_status rid status) =
        let headers =
          c.add_item_to_object c.create_object service_status_key (c.create_number status) in
        let t = task_of (c.create_string rid) headers none false in
        (q.queue_push_tail r t, refl, q.contents-push_tail r t)
    step-refines r out pops =
        ((q.queue_pop_head r).1, rw (q.pop_head-head? r), q.contents-pop_head r)
    step-refines r out (returns src) =
        ((push_head_loop q (suc (q.queue_get_length src)) src r).1, refl, (push_head-tasks src r).1)

    run_from-refines :
        (r : Queue) (out : List (Option ReplyQueueTask)) (xs : List QueueCall)
        → let (r', out') = queue_run (some r, out) xs in
          (tasks r', out') ≡ list_run (contents r, out) xs
    run_from-refines r out [] = refl
    run_from-refines r out (x ∷ xs) =
        let (r', e, f) = step-refines r out x in
        let out' = (list_step (contents r, out) x).1 in
        ap (λ s. (tasks (queue_run s xs).0, (queue_run s xs).1)) e
        ∙ (run_from-refines r' out' xs ∙ ap (λ ts. list_run (ts, out') xs) f)

    -- Any calls on a created reply queue return the tasks that the same calls return on a list, on
    -- which an append adds at the end, a pop takes the first, and `reply_queue_push_head` puts its
    -- source in front; the queue then holds the tasks of that list.
    pub run-refines :
        (xs : List QueueCall)
        → let (r, out) = queue_run (reply_queue_create q none, []) xs in
          (tasks r, out) ≡ list_run ([], []) xs
    unfolding reply_queue_create
    run-refines xs = rw (← q.contents-new) (run_from-refines q.queue_new [] xs)
