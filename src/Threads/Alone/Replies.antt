-- ===== src/Threads/Alone/Replies.antt =====
-- gear/proxycomm.c: the calls of a reply, with no other thread in between, are the reply.
use sawang.Prelude.{
  ℕ, zero, suc, ◌+◌, ◌≡◌, refl, Option, some, CString, ltb, ◌==◌, arith, Bool-cases, Option-cases,
  inl, inr,
}
use sawang.Threads.Calls.{Script, run}
use sawang.Proxy.{Proxy, ProxyReplyArg, Env}
use sawang.ProxyComm.{
  task_key_from_reply_arg, send_reply, reply_source, reply_rids, reply_rid, proxy_comm_reply,
}
use sawang.Threads.Comm.{send_calls, rids_calls, reply_calls, answer_calls}
use sawang.RespondTable.{
  respond_table_request_dup, multirespond, singleshot, other, RespondTableType,
}

module _ (e : Env) where
  open e.json use {Json, create_array}
  open e.glib use {PtrArray, ptr_array_len}

  send_calls-run :
      (w : RespondTableType) (rid headers : Json) (payload : Option Json) (k : Script e)
      (s : Proxy e)
      → run e (send_calls e w rid headers payload k) s
        ≡ run e k (send_reply e s w (some rid) headers payload)
  unfolding run send_calls send_reply
  send_calls-run w rid headers payload k s = refl

  rids_calls-run :
      (w : RespondTableType) (key : CString) (arr : PtrArray) (n i : ℕ) (rid : Json)
      (k : Json → Script e) (s : Proxy e)
      → run e (rids_calls e w key arr n i rid k) s ≡ (
          let (tables, rid') = reply_rids e w key arr n i (s.tables, rid) in
          run e (k rid') (record s { tables = tables }))
  unfolding run rids_calls reply_rids
  rids_calls-run w key arr zero i rid k s = refl
  rids_calls-run singleshot key arr (suc n) i rid k s =
      rids_calls-run singleshot key arr n (i + 1) _ k _
  rids_calls-run multirespond key arr (suc n) i rid k s =
      rids_calls-run multirespond key arr n (i + 1) _ k s
  rids_calls-run (other m) key arr (suc n) i rid k s =
      rids_calls-run (other m) key arr n (i + 1) _ k s

  answer_calls-run :
      (w : RespondTableType) (key : CString) (arr : PtrArray) (headers : Json)
      (payload : Option Json) (k : Script e) (s : Proxy e)
      → run e (answer_calls e w key arr headers payload k) s ≡ (
          let (tables, rid) = reply_rid e w key arr s.tables in
          run e k (send_reply e (record s { tables = tables }) w rid headers payload))
  unfolding answer_calls reply_rid send_reply run send_calls
  answer_calls-run w key arr headers payload k s = elim (Bool-cases (ltb 1 (ptr_array_len arr))) [
    | inl b ↦ rw b (
        rids_calls-run w key arr (ptr_array_len arr) 0 create_array
          (λ rid. send_calls e w rid headers payload k) s)
    | inr b ↦
        rw b (elim (Bool-cases (ptr_array_len arr == 1)) [ inl c ↦ rw c refl | inr c ↦ rw c refl ])
  ]

  pub reply_calls-run :
      (arg : ProxyReplyArg e) (headers : Json) (payload : Option Json) (k : Script e) (s : Proxy e)
      → run e (reply_calls e arg headers payload k) s
        ≡ run e k (proxy_comm_reply e s arg headers payload)
  unfolding reply_calls proxy_comm_reply run reply_source
  reply_calls-run arg headers payload k s =
      let key = task_key_from_reply_arg e arg in
      elim (Option-cases (respond_table_request_dup e.glib s.tables singleshot key)) [
        | inr (arr, f) ↦ ground (arith, answer_calls-run singleshot key arr headers payload k s, f)
        | inl f ↦ elim (Option-cases (respond_table_request_dup e.glib s.tables multirespond key)) [
          | inr (arr, f') ↦
              ground (arith, answer_calls-run multirespond key arr headers payload k s, f, f')
          | inl f' ↦ ground (arith, f, f')
        ]
      ]
