-- ===== src/ProxyComm/Invariant.antt =====
-- gear/proxycomm.c: the communication thread and the invariant of the respond tables.
use sawang.ProxyComm.Rules.{IsKept, OptAll, drain-OptAll}
use sawang.Prelude.{
  ℕ, sym, subst, Option, List, [], ◌∷◌, CString, if◌then◌else◌, length, ltb, Bool-cases, inl, inr,
}
use sawang.RespondTable.{
  RespondTables, RespondTableType, singleshot, multirespond, respond_table_drop,
}
use sawang.RespondTable.Contract.{rids}
use sawang.RespondTable.Valid.{is_cons}
use sawang.RespondTable.Invariant.{TablesAreValid, drop-TablesAreValid}
use sawang.Proxy.{Env, Proxy, ProxyReplyArg, Callbacks}
use sawang.ProxyComm.{task_key_from_reply_arg, proxy_comm_reply}
use sawang.ProxyComm.Loop.{comm_drain}
use sawang.ProxyComm.Rids.{drop_all}
use sawang.ProxyComm.Reply.{reply-state, rid_json, answered}
use sawang.ProxyComm.Outcome.{send_reply-fields}

module _ (e : Env) where
  open e.json use {Json}

  abbrev Keeps : Proxy e → Type 0
  Keeps s = TablesAreValid e.glib s.tables

  -- A call that ends keeps the invariant.
  abbrev pub OptKeeps : Option (Proxy e) → Type 0
  OptKeeps o = OptAll e (λ s. TablesAreValid e.glib s.tables) o

  drop_all-TablesAreValid :
      (us : List CString) (t : RespondTables e.glib) (k : CString)
      → TablesAreValid e.glib t
      → TablesAreValid e.glib (drop_all e t k us)
  unfolding drop_all
  drop_all-TablesAreValid [] t k v = v
  drop_all-TablesAreValid (u ∷ us) t k v =
      drop_all-TablesAreValid us (respond_table_drop e.glib t singleshot k u).0 k
        (drop-TablesAreValid e.glib t singleshot k u v)

  reply-Keeps :
      (s : Proxy e) (arg : ProxyReplyArg e) (headers : Json) (payload : Option Json)
      → Keeps s
      → Keeps (proxy_comm_reply e s arg headers payload)
  reply-Keeps s arg headers payload v =
      let k = task_key_from_reply_arg e arg in
      let us = rids e.glib s.tables singleshot k in
      let tables = if ltb 1 (length us) then drop_all e s.tables k us else s.tables in
      let which : RespondTableType = if is_cons us then singleshot else multirespond in
      let sent =
        send_reply-fields e (record s { tables = tables }) which
          (rid_json e (answered e s.tables k)) headers payload in
      let kept : TablesAreValid e.glib tables = elim (Bool-cases (ltb 1 (length us))) [
        | inl b ↦ rw b (drop_all-TablesAreValid us s.tables k v)
        | inr b ↦ rw b v
      ] in
      rw (reply-state e s arg headers payload v) (subst (TablesAreValid e.glib) (sym sent.2) kept)

  tables-IsKept : IsKept e Keeps
  tables-IsKept = record {
    on_reply = reply-Keeps;
    on_drop = λ s task uuid. drop-TablesAreValid e.glib s.tables multirespond task uuid;
    on_call = λ s c w v. v;
    on_pop = λ s v. v;
  }

  module _ (cb : Callbacks e) where
    -- Whatever tasks the communication thread takes off the parse queue, and whatever replies the
    -- callbacks make, the tables satisfy their invariant after any number of rounds of its loop that
    -- ends.
    pub drain-OptKeeps :
        (fuel : ℕ) (s : Proxy e)
        → TablesAreValid e.glib s.tables
        → OptKeeps (comm_drain e cb fuel s)
    drain-OptKeeps fuel s v = drain-OptAll e tables-IsKept cb fuel s v
