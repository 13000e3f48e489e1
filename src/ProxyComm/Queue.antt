-- ===== src/ProxyComm/Queue.antt =====
-- gear/parsequeue.c seen as a list of tasks, oldest first.
use sawang.Prelude.{◌≡◌, Option, none, some, List, []}
use sawang.Glib.{head?, tail}
use sawang.ParseQueue.{ParseQueueTask, parse_queue_pop_head}
use sawang.Proxy.{Env}

module _ (e : Env) where
  abbrev pub parse_tasks : Option e.parse.Queue → List ParseQueueTask
  parse_tasks none = []
  parse_tasks (some q) = e.parse.contents q

  pub pop_head-parse_tasks :
      (q : Option e.parse.Queue)
      → ((parse_queue_pop_head e.parse q).0 ≡ head? (parse_tasks q))
        × (parse_tasks (parse_queue_pop_head e.parse q).1 ≡ tail (parse_tasks q))
  unfolding parse_queue_pop_head
  pop_head-parse_tasks none = (λ i. none, λ i. [])
  pop_head-parse_tasks (some q) = (e.parse.pop_head-head? q, e.parse.contents-pop_head q)
