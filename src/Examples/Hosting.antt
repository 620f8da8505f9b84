-- ===== src/Examples/Hosting.antt =====
-- The tenants of internal/features/tenancy.go at concrete inputs, over the in-memory store.
use distributed_task_queue_s.Base.{pos, refl, Option, none, some, [], ◌∷◌, lookup, arith}
use distributed_task_queue_s.Manager.Storage.{memory_storage}
use distributed_task_queue_s.Tenancy.{ResourceLimit, Tenant, new_tenant_manager}
use distributed_task_queue_s.Tenancy.Tenants.{create_tenant, default_limit}
use distributed_task_queue_s.Tenancy.Creating.{
  MemoryTenants, Created, create_tenant-Created, Keeps, add_queues, add_queues-le,
}
use distributed_task_queue_s.Examples.Queueing.{fresh}

abbrev nobody : MemoryTenants
nobody = new_tenant_manager fresh

abbrev two_queues : ResourceLimit
two_queues = record default_limit { max_queues = pos 2 }

abbrev acme : Option ResourceLimit → Tenant
acme limit = record {
  id = "acme";
  name = "Acme";
  queues = [];
  resource_limit = limit;
  metadata = [];
}

create_tenant-Created_example :
    Created (acme none) nobody (create_tenant memory_storage (acme none) nobody)
create_tenant-Created_example = create_tenant-Created (acme none) nobody

add_queues-le_example : Keeps "acme" 2 (some two_queues) (
    add_queues "acme"
      ("a" ∷ "b" ∷ [])
      (create_tenant memory_storage (acme (some two_queues)) nobody).1)
unfolding lookup
add_queues-le_example =
    add_queues-le (acme (some two_queues)) two_queues 2 ("a" ∷ "b" ∷ []) nobody refl refl
      (omega arith) refl refl
