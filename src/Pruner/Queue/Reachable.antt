-- ===== src/Pruner/Queue/Reachable.antt =====
-- The queues that the methods of event_queue.go can build, in whatever order they are called.
use shinzo_host_client.Prelude.{String, List, none}
use shinzo_host_client.Prelude.Int.{ℤ}
use shinzo_host_client.Pruner.Config.{CollectionConfig}
use shinzo_host_client.Pruner.DocId.{Bytes}
use shinzo_host_client.Pruner.Queue.{
  Store, new_event_queue, push, drain_docs, drain_blocks, requeue,
}
use shinzo_host_client.Pruner.Queue.Invariant.{
  IsValid, new_event_queue-IsValid, push-IsValid, drain_docs-IsValid,
}
use shinzo_host_client.Pruner.Queue.Blocks.{drain_blocks-IsValid}
use shinzo_host_client.Pruner.Queue.Requeue.{requeue-IsValid}

-- A new queue, before any prefix is captured, and what the calls make of it.
pub data Reachable : Store → Type 0 where
  created : (c : CollectionConfig) → Reachable (record { prefix = none; queue = new_event_queue c })
  pushed :
      {s : Store} (name : String) (doc_id : Bytes) → Reachable s → Reachable (push name doc_id s)
  drained_docs : {s : Store} (count : ℤ) → Reachable s → Reachable (drain_docs count s).1
  drained_blocks : {s : Store} (count : ℤ) → Reachable s → Reachable (drain_blocks count s).1
  put_back :
      {s : Store} (name : String) (doc_ids : List Bytes)
      → Reachable s
      → Reachable (requeue name doc_ids s)

-- Whatever calls of pushing, draining and putting back, in whatever order, have led to it from a new
-- queue, a queue counts its blocks rightly, its UUIDs have 16 bytes, and its prefix has no dash.
pub Reachable-IsValid : (s : Store) → Reachable s → IsValid s
Reachable-IsValid _ (created c) = new_event_queue-IsValid c none tt
Reachable-IsValid _ (pushed {s = s} name doc_id r) =
    push-IsValid name doc_id s (Reachable-IsValid s r)
Reachable-IsValid _ (drained_docs {s = s} count r) =
    drain_docs-IsValid count s (Reachable-IsValid s r)
Reachable-IsValid _ (drained_blocks {s = s} count r) =
    drain_blocks-IsValid count s (Reachable-IsValid s r)
Reachable-IsValid _ (put_back {s = s} name doc_ids r) =
    requeue-IsValid name doc_ids s (Reachable-IsValid s r)
