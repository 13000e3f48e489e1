-- ===== src/ProxyChannel/Accept.antt =====
-- gear/proxychannel.c: what an exchange that Gonggo has finished leaves in the proxy.
use sawang.Prelude.{
  ◌+◌, ◌≡◌, refl, Bool, true, false, ◌&&◌, ◌||◌, not, none, [], ◌∷◌, ◌++◌, CString, if◌then◌else◌,
  is_some, str_eq, arith, contains, Option-cases, inl, inr, append-nil,
}
use sawang.ParseQueue.{parse_queue_append, parse_task}
use sawang.Shm.{ProxyChannelState, ProxyChannelShm}
use sawang.RespondTable.{RespondTableType, singleshot, multirespond, respond_table_set}
use sawang.RespondTable.Rids.{add_new}
use sawang.RespondTable.Contract.{rids, same_table, has_table, set-rids}
use sawang.ProxyComm.Queue.{parse_tasks}
use sawang.Proxy.{Env, Proxy}
use sawang.ProxyChannel.{
  Exchange, exchange_finish, exchange_task_key, exchange_subscribe, is_parsed_multirespond,
  is_invalid,
}

module _ (e : Env) where
  open e.json use {Json, print_unformatted}

  -- the table for a request, by what its parse returned
  abbrev pub table_of : Exchange e → RespondTableType
  table_of x = if is_parsed_multirespond x.parsed.result then multirespond else singleshot

  -- Both tables and the parse queue have been created.
  pub record IsCreated (s : Proxy e) : Type 0 where
    pub has_singleshot : has_table e.glib s.tables singleshot ≡ true
    pub has_multirespond : has_table e.glib s.tables multirespond ≡ true
    pub has_parse_queue : is_some s.parse_queue ≡ true

  has_table_of :
      (s : Proxy e) (x : Exchange e) → IsCreated s → has_table e.glib s.tables (table_of x) ≡ true
  has_table_of s x c = ground arith

  -- whether a subscription makes a job
  abbrev pub makes_job : Proxy e → Exchange e → CString → Bool
  makes_job s x rid =
      not (is_parsed_multirespond x.parsed.result)
      || not (contains (rids e.glib s.tables (table_of x) (exchange_task_key e x)) rid)

  subscribe-fields :
      (s : Proxy e) (x : Exchange e) (rid : CString)
      → IsCreated s
      → let t = exchange_subscribe e s x rid in
        let k = exchange_task_key e x in
        (t.tables ≡ (respond_table_set e.glib s.tables (table_of x) k rid).0)
        × (parse_tasks e t.parse_queue
            ≡ parse_tasks e s.parse_queue
              ++ (if makes_job s x rid then parse_task k none none (table_of x) ∷ [] else []))
        × (t.comm_signals ≡ (if makes_job s x rid then s.comm_signals + 1 else s.comm_signals))
        × (t.reply_queue ≡ s.reply_queue)
  unfolding exchange_subscribe parse_queue_append
  subscribe-fields s x rid c =
      let k = exchange_task_key e x in
      let new_entry = (set-rids e.glib s.tables (table_of x) k rid).1 in
      elim (Option-cases s.parse_queue) [
        | inl h ↦ (
          ground (arith, c.has_parse_queue),
          ground (arith, c.has_parse_queue),
          ground (arith, c.has_parse_queue),
          ground (arith, c.has_parse_queue),
        )
        | inr (q, h) ↦ (
          ground arith,
          ground (
            arith,
            new_entry,
            has_table_of s x c,
            h,
            e.parse.contents-push_tail q (parse_task k none none (table_of x)),
            append-nil (e.parse.contents q),
          ),
          ground (arith, new_entry, has_table_of s x c),
          ground arith,
        )
      ]

  -- When Gonggo has finished the exchange of a valid request that is no unsubscription, the request
  -- waits at the end of its task, in the table that its parse names, unless it waited there before;
  -- no other task and no other table changes. A task for that key is put on the parse queue, with a
  -- signal to the communication thread, unless it is a multirespond request that waited before. No
  -- answer is queued, and the thread goes on.
  pub finish-subscribe :
      (s : Proxy e) (x : Exchange e) (shm : ProxyChannelShm)
      → IsCreated s
      → is_some x.service_and_payload ≡ true
      → shm.state ≡ ProxyChannelState.done
      → is_invalid x.parsed.result ≡ false
      → x.parsed.unsubscribe ≡ false
      → let w = table_of x in
        let k = exchange_task_key e x in
        let us = rids e.glib s.tables w k in
        let runs = not (is_parsed_multirespond x.parsed.result) || not (contains us shm.rid) in
        let (t, alive) = exchange_finish e s x shm in
        ((w' : RespondTableType) (j : CString)
          → rids e.glib t.tables w' j ≡ (
              if same_table w w' && str_eq k j
              then add_new us shm.rid
              else rids e.glib s.tables w' j))
        × (parse_tasks e t.parse_queue
            ≡ parse_tasks e s.parse_queue ++ (if runs then parse_task k none none w ∷ [] else []))
        × (t.comm_signals ≡ (if runs then s.comm_signals + 1 else s.comm_signals))
        × (t.reply_queue ≡ s.reply_queue)
        × (alive ≡ true)
  unfolding exchange_finish
  finish-subscribe s x shm c has_sp is_done valid kept =
      let done : exchange_finish e s x shm ≡ (exchange_subscribe e s x shm.rid, true) =
        ground arith in
      let w = table_of x in
      let k = exchange_task_key e x in
      let set = (set-rids e.glib s.tables w k shm.rid).0 in
      let (tables, tasks, signals, replies) = subscribe-fields s x shm.rid c in
      rw done (
        λ w' j. rw tables (ground (arith, set w' j, has_table_of s x c)),
        tasks,
        signals,
        replies,
        refl,
      )
