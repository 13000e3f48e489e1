-- ===== src/Threads/Closed.antt =====
-- gear/proxycomm.c: the rule for a property of the programs of calls that answer.
pub mod Tasks
use sawang.Prelude.{
  ℕ, zero, suc, ◌+◌, Bool, true, false, ◌&&◌, Option, none, some, List, [], ◌∷◌, CString, ltb, ◌==◌,
  if◌then◌else◌,
}
use sawang.ProxyComm.{is_multirespond, task_key_from_reply_arg, leaves_none}
use sawang.Threads.Calls.{awakes_subscribe, appends_reply, calls_back, dups_requests, drops, Script}
use sawang.Proxy.{Callback, cleared, ProxyReplyArg, Callbacks, Env}
use sawang.RespondTable.{multirespond, singleshot, other, RespondTableType}
use sawang.Threads.Comm.{
  answer_found, replies_calls, clear_calls, send_calls, rids_calls, reply_calls, answer_calls,
}

module _ (e : Env) where
  open e.json use {Json}
  open e.glib use {PtrArray}

  -- A property of programs that the calls of an answer and of a cleared task keep.
  pub record IsClosed (Ok : Script e → Type 0) : Type 0 where
    pub on_drops :
        (w : RespondTableType) (key uuid : CString) (k : Bool → Option ℕ → Script e)
        → ((b : Bool) (n : Option ℕ) → Ok (k b n))
        → Ok (drops w key uuid k)
    pub on_dups :
        (w : RespondTableType) (key : CString) (k : Option PtrArray → Script e)
        → ((o : Option PtrArray) → Ok (k o))
        → Ok (dups_requests w key k)
    pub on_send :
        (rid headers : Json) (payload : Option Json) (multi : Bool) (k : Script e)
        → Ok k
        → Ok (appends_reply rid headers payload multi (awakes_subscribe k))
    pub on_call_back :
        (c : Callback e) (k : List (Callback e) → Script e)
        → ((before : List (Callback e)) → Ok (k before))
        → Ok (calls_back c k)

  pub if-Ok :
      (Ok : Script e → Type 0) (b : Bool) (x y : Script e) → Ok x → Ok y → Ok (if b then x else y)
  if-Ok Ok true x y h k = h
  if-Ok Ok false x y h k = k

  module _ {Ok : Script e → Type 0} (c : IsClosed Ok) where
    send_calls-Ok :
        (w : RespondTableType) (rid headers : Json) (payload : Option Json) (k : Script e)
        → Ok k
        → Ok (send_calls e w rid headers payload k)
    unfolding send_calls
    send_calls-Ok w rid headers payload k h =
        c.on_send rid headers payload (is_multirespond e w) k h

    rids_calls-Ok :
        (w : RespondTableType) (key : CString) (arr : PtrArray) (n i : ℕ) (rid : Json)
        (k : Json → Script e)
        → ((j : Json) → Ok (k j))
        → Ok (rids_calls e w key arr n i rid k)
    unfolding rids_calls
    rids_calls-Ok w key arr zero i rid k h = h rid
    rids_calls-Ok singleshot key arr (suc n) i rid k h =
        c.on_drops singleshot key (e.glib.ptr_array_index arr i) _
          (λ _ _. rids_calls-Ok singleshot key arr n (i + 1) _ k h)
    rids_calls-Ok multirespond key arr (suc n) i rid k h =
        rids_calls-Ok multirespond key arr n (i + 1) _ k h
    rids_calls-Ok (other m) key arr (suc n) i rid k h =
        rids_calls-Ok (other m) key arr n (i + 1) _ k h

    answer_found-Ok :
        (w : RespondTableType) (key : CString) (headers : Json) (payload : Option Json)
        (k : Script e) (o : Option PtrArray) (l : Script e)
        → Ok k
        → Ok l
        → Ok (answer_found e w key headers payload k o l)
    unfolding answer_calls
    answer_found-Ok w key headers payload k none l h h' = h'
    answer_found-Ok w key headers payload k (some arr) l h h' =
        if-Ok Ok (ltb 1 (e.glib.ptr_array_len arr)) _ _
          (rids_calls-Ok w key arr (e.glib.ptr_array_len arr) 0 e.json.create_array
            (λ rid. send_calls e w rid headers payload k)
            (λ rid. send_calls-Ok w rid headers payload k h))
          (if-Ok Ok (e.glib.ptr_array_len arr == 1) _ _
            (send_calls-Ok w (e.json.create_string (e.glib.ptr_array_index arr 0)) headers payload k
              h)
            h)

    pub reply_calls-Ok :
        (arg : ProxyReplyArg e) (headers : Json) (payload : Option Json) (k : Script e)
        → Ok k
        → Ok (reply_calls e arg headers payload k)
    unfolding reply_calls
    reply_calls-Ok arg headers payload k h =
        let key = task_key_from_reply_arg e arg in
        let again : Script e =
          dups_requests multirespond key
            (λ multi. answer_found e multirespond key headers payload k multi k) in
        c.on_dups singleshot key (λ o. answer_found e singleshot key headers payload k o again)
          (λ o. answer_found-Ok singleshot key headers payload k o again h (
            c.on_dups multirespond key
              (λ o'. answer_found e multirespond key headers payload k o' k)
              (λ o'. answer_found-Ok multirespond key headers payload k o' k h h)))

    module _ (cb : Callbacks e) where
      pub clear_calls-Ok :
          (task uuid : CString) (arg : ProxyReplyArg e) (k : Script e)
          → Ok k
          → Ok (clear_calls e cb task uuid (some arg) k)
      unfolding clear_calls
      clear_calls-Ok task uuid arg k h = c.on_drops multirespond task uuid _ (λ b n.
          if-Ok Ok (b && (leaves_none n && cb.has_multirespond_clear))
            (calls_back (cleared arg) (λ _. k)) k (c.on_call_back (cleared arg) (λ _. k) (λ _. h))
            h)

      pub replies_calls-Ok :
          (arg : ProxyReplyArg e) (rs : List (Json × Option Json)) (k : Script e)
          → Ok k
          → Ok (replies_calls e cb arg rs k)
      unfolding replies_calls
      replies_calls-Ok arg [] k h = h
      replies_calls-Ok arg ((headers, payload) ∷ rs) k h =
          reply_calls-Ok arg headers payload (replies_calls e cb arg rs k)
            (replies_calls-Ok arg rs k h)
