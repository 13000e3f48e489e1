-- ===== src/Tests/Tables.antt =====
-- The theorems on gear/respondtable.c at concrete tables.
use sawang.Prelude.{List, ◌≡◌, [], ◌∷◌, contains, str_eq, remove_first, index_of, CString, codes}
use sawang.RespondTable.Invariant.{
  TableCall, TablesAreValid, table_run, no_tables, creates, sets, drops, run-TablesAreValid,
}
use sawang.RespondTable.Reads.{TaskOf, dup_task_key-TaskOf, reads-rids}
use sawang.Glib.{assoc}
use sawang.Glib.Model.{list_glib, drop_key, iter}
use sawang.RespondTable.Rids.{add_new, rids_in}
use sawang.RespondTable.{
  respond_table_which, store, find_or_insert, respond_table_set_do, remove_request,
  respond_table_drop_do, RespondTables, singleshot, multirespond, respond_table_set,
  respond_table_drop, respond_table_create, respond_table_dup_task_key,
  respond_table_request_exists,
}
use sawang.RespondTable.Contract.{rids, set-rids, drop-rids}
use sawang.Tests.{rid_1, rid_2, rid_3, tables_of}

abbrev task_key : CString
task_key = codes "clock"

abbrev waiting : RespondTables list_glib
waiting = tables_of task_key

abbrev calls : List (TableCall list_glib)
calls =
    creates
    ∷ sets singleshot task_key rid_1
    ∷ sets singleshot task_key rid_2
    ∷ sets multirespond task_key rid_3
    ∷ drops singleshot task_key rid_3
    ∷ []

set-rids_example :
    rids list_glib
      (respond_table_set list_glib waiting singleshot task_key rid_3).0
      singleshot
      task_key
    ≡ rid_1 ∷ rid_2 ∷ rid_3 ∷ []
unfolding list_glib assoc drop_key iter add_new rids_in rids respond_table_which store
    find_or_insert respond_table_set_do remove_request respond_table_drop_do respond_table_set
    respond_table_drop respond_table_create str_eq contains index_of remove_first
set-rids_example = (set-rids list_glib waiting singleshot task_key rid_3).0 singleshot task_key

drop-rids_example :
    rids list_glib
      (respond_table_drop list_glib waiting singleshot task_key rid_1).0
      singleshot
      task_key
    ≡ rid_2 ∷ []
unfolding list_glib assoc drop_key iter add_new rids_in rids respond_table_which store
    find_or_insert respond_table_set_do remove_request respond_table_drop_do respond_table_set
    respond_table_drop respond_table_create str_eq contains index_of remove_first
drop-rids_example = (drop-rids list_glib waiting singleshot task_key rid_1).0 singleshot task_key

run-TablesAreValid_example :
    TablesAreValid list_glib (table_run list_glib (no_tables list_glib) calls)
run-TablesAreValid_example = run-TablesAreValid list_glib calls

dup_task_key-TaskOf_example :
    TaskOf list_glib waiting multirespond rid_3
      (respond_table_dup_task_key list_glib waiting multirespond rid_3)
dup_task_key-TaskOf_example = dup_task_key-TaskOf list_glib waiting multirespond rid_3

reads-rids_example :
    respond_table_request_exists list_glib
      (table_run list_glib (no_tables list_glib) calls)
      singleshot
      task_key
      rid_2
    ≡ contains
        (rids list_glib (table_run list_glib (no_tables list_glib) calls) singleshot task_key)
        rid_2
reads-rids_example =
    (reads-rids list_glib (table_run list_glib (no_tables list_glib) calls) singleshot task_key
      rid_2 (run-TablesAreValid list_glib calls)).1
