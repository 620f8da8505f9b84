-- ===== src/Tenancy.antt =====
-- internal/features/tenancy.go: tenants, their limits and their queues. The children hold the methods
-- of TenantManager; the keys of a context are not modelled.
pub mod Tenants
pub mod Creating
use distributed_task_queue_s.Base.{ℤ, String, Option, List, [], Dict}
use distributed_task_queue_s.Manager.{Manager}

-- A rate is a float64 that the code only stores; a whole number stands for it.
pub record ResourceLimit : Type 0 where
  pub max_jobs : ℤ
  pub max_queues : ℤ
  pub max_workers : ℤ
  pub max_concurrency : ℤ
  pub rate_limit : ℤ
  pub storage_quota_mb : ℤ

pub record Tenant : Type 0 where
  pub id : String
  pub name : String
  pub queues : List String
  pub resource_limit : Option ResourceLimit
  pub metadata : Dict String

pub record TenantManager (S : Type 0) : Type 0 where
  pub tenants : Dict Tenant
  pub queue_manager : Manager S

abbrev pub new_tenant_manager : {S : Type 0} → Manager S → TenantManager S
new_tenant_manager m = record { tenants = []; queue_manager = m }
