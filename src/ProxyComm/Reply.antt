-- ===== src/ProxyComm/Reply.antt =====
-- gear/proxycomm.c: whom `proxy_comm_reply` answers, and what it leaves waiting.
use sawang.Prelude.{
  ◌≡◌, Option, none, some, List, [], ◌∷◌, CString, if◌then◌else◌, arith, length, ltb, Option-cases,
  inl, inr,
}
use sawang.RespondTable.{
  RespondTables, RespondTableType, singleshot, multirespond, respond_table_request_dup,
}
use sawang.RespondTable.Valid.{is_cons}
use sawang.RespondTable.Contract.{rids}
use sawang.RespondTable.Invariant.{TablesAreValid}
use sawang.RespondTable.Reads.{reads-rids}
use sawang.Proxy.{Env, Proxy, ProxyReplyArg}
use sawang.ProxyComm.{
  task_key_from_reply_arg, reply_rid, reply_source, send_reply, proxy_comm_reply,
}
use sawang.ProxyComm.Rids.{rid_array, drop_all, dropped, reply_rids-rid_array}

module _ (e : Env) where
  open e.json use {Json, create_string, create_array}
  open e.glib use {PtrArray, elements}

  -- The `rid` for some requests: null, a string, or an array of strings.
  abbrev pub rid_json : List CString → Option Json
  rid_json [] = none
  rid_json (u ∷ []) = some (create_string u)
  rid_json (u ∷ v ∷ us) = some (rid_array e create_array (u ∷ v ∷ us))

  reply_rid-rid_json :
      (w : RespondTableType) (us : List CString) (k : CString) (arr : PtrArray)
      (t : RespondTables e.glib)
      → elements arr ≡ us
      → reply_rid e w k arr t ≡ (if ltb 1 (length us) then dropped e w t k us else t, rid_json us)
  unfolding reply_rid
  reply_rid-rid_json w [] k arr t h = rw (e.glib.len-elements arr, h, reply_rid)
  reply_rid-rid_json w (u ∷ []) k arr t h =
      rw (e.glib.len-elements arr, h, reply_rid) (rw (e.glib.index-get_elem? arr 0 u (rw h)))
  reply_rid-rid_json w (u ∷ v ∷ us) k arr t h =
      rw (e.glib.len-elements arr, h, reply_rid)
        (rw (reply_rids-rid_array e w (u ∷ v ∷ us) k arr 0 t create_array h) (ground arith))

  -- The requests that an answer to a task goes to: the single ones if there are any.
  abbrev pub answered : RespondTables e.glib → CString → List CString
  answered t k =
      if is_cons (rids e.glib t singleshot k)
      then rids e.glib t singleshot k
      else rids e.glib t multirespond k

  reply_source-eq :
      (t : RespondTables e.glib) (k : CString)
      → TablesAreValid e.glib t
      → reply_source e t k ≡ (
          if is_cons (rids e.glib t singleshot k)
          then (singleshot, respond_table_request_dup e.glib t singleshot k)
          else (multirespond, respond_table_request_dup e.glib t multirespond k))
  unfolding reply_source
  reply_source-eq t k v =
      let one = (reads-rids e.glib t singleshot k [] v).2 in
      elim (Option-cases (respond_table_request_dup e.glib t singleshot k)) [
        | inl h ↦ ground (arith, one)
        | inr (a, h) ↦ ground (arith, one)
      ]

  -- What `proxy_comm_reply` makes of the tables and which `rid` it sends, for tables that satisfy
  -- the invariant.
  pub reply-state :
      (s : Proxy e) (arg : ProxyReplyArg e) (headers : Json) (payload : Option Json)
      → TablesAreValid e.glib s.tables
      → let k = task_key_from_reply_arg e arg in
        let us = rids e.glib s.tables singleshot k in
        proxy_comm_reply e s arg headers payload
        ≡ send_reply e
            (record s { tables = if ltb 1 (length us) then drop_all e s.tables k us else s.tables })
            (if is_cons us then singleshot else multirespond)
            (rid_json (answered s.tables k))
            headers
            payload
  unfolding proxy_comm_reply send_reply
  reply-state s arg headers payload v =
      let t = s.tables in
      let k = task_key_from_reply_arg e arg in
      let one = reads-rids e.glib t singleshot k [] v in
      let many = reads-rids e.glib t multirespond k [] v in
      elim (Option-cases (respond_table_request_dup e.glib t singleshot k)) [
        | inr (a, h) ↦ ground (
          arith,
          h,
          one.2,
          one.3,
          reply_rid-rid_json singleshot (rids e.glib t singleshot k) k a t,
        )
        | inl h ↦ elim (Option-cases (respond_table_request_dup e.glib t multirespond k)) [
          | inl m ↦ ground (arith, one.2, many.2)
          | inr (a, m) ↦ ground (
            arith,
            one.2,
            many.2,
            many.3,
            reply_rid-rid_json multirespond (rids e.glib t multirespond k) k a t,
          )
        ]
      ]
