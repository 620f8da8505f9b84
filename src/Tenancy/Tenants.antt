-- ===== src/Tenancy/Tenants.antt =====
-- CreateTenant to AddQueueToTenant of internal/features/tenancy.go. A missing limit, which only
-- UpdateResourceLimit can leave, is a nil pointer, and reading it panics.
use Prim.Native.String.{◌++◌ as append}
use distributed_task_queue_s.Base.{
  ℤ, pos, ltb_ℤ, false, String, ◌==◌, if◌then◌else◌, Option, none, some, List, [], ◌∷◌, ◌++◌,
  length, or_default, lookup, insert, delete, values, Method, ok, err, panic, handle, give, fail,
  reads, or_log, ◌>>=◌, ◌>>◌, message, wrapped,
}
use distributed_task_queue_s.Job.{priority_normal}
use distributed_task_queue_s.Job.Queue.{QueueConfig, exponential}
use distributed_task_queue_s.Manager.{Manager}
use distributed_task_queue_s.Manager.Storage.{Storage}
use distributed_task_queue_s.Manager.Queues.{register_queue, delete_queue}
use distributed_task_queue_s.Tenancy.{ResourceLimit, Tenant, TenantManager}

abbrev pub default_limit : ResourceLimit
default_limit = record {
  max_jobs = pos 10000;
  max_queues = pos 10;
  max_workers = pos 100;
  max_concurrency = pos 10;
  rate_limit = pos 100;
  storage_quota_mb = pos 1024;
}

abbrev pub limit_of : Tenant → ResourceLimit
limit_of t = or_default default_limit t.resource_limit

abbrev pub default_queue_name : String → String
default_queue_name id = append id "_default"

unfoldable pub default_queue : Tenant → QueueConfig
default_queue t = record {
  name = default_queue_name t.id;
  max_workers = (limit_of t).max_workers;
  max_retries = pos 3;
  retry_strategy = exponential;
  default_timeout = pos 0;
  priority = priority_normal;
  rate_limit = pos 0;
  weight = pos 0;
  is_paused = false;
  retry_delay = pos 0;
  max_retry_delay = pos 0;
  dead_letter_queue = "";
}

abbrev pub no_tenant : String → String
no_tenant id = append "tenant not found: " id

module _ {S : Type 0} (st : Storage S) where
  abbrev pub on_queues : {A : Type 0} → Method (Manager S) A → Method (TenantManager S) A
  on_queues op g = let (o, m) = op g.queue_manager in (o, record g { queue_manager = m })

  abbrev pub put_tenant : Tenant → Method (TenantManager S) (Unit {0})
  put_tenant t g = (ok tt, record g { tenants = insert t.id t g.tenants })

  -- The tenant is stored before its queue is registered, and stays if that fails.
  unfoldable pub admit : Tenant → Method (TenantManager S) (Unit {0})
  admit t = do
    put_tenant (record t { resource_limit = some (limit_of t) })
    handle (on_queues (register_queue st (default_queue t))) (λ _. give tt)
        (λ e. fail (wrapped "failed to create default queue" e))
    put_tenant
        (record t { resource_limit = some (limit_of t); queues = default_queue_name t.id ∷ [] })

  unfoldable pub create_tenant : Tenant → Method (TenantManager S) (Unit {0})
  create_tenant t g =
      if t.id == ""
      then (err (message "tenant ID is required"), g)
      else elim (lookup t.id g.tenants) [
        | none ↦ admit t g
        | some _ ↦ (err (message (append "tenant already exists: " t.id)), g)
      ]

  unfoldable pub get_tenant : String → Method (TenantManager S) Tenant
  get_tenant id g = elim (lookup id g.tenants) [
    | none ↦ (err (message (no_tenant id)), g)
    | some t ↦ (ok t, g)
  ]

  unfoldable pub list_tenants : Method (TenantManager S) (List Tenant)
  list_tenants = reads (λ g. values g.tenants)

  -- The errors of the deletions are dropped.
  unfoldable pub delete_queues : List String → Method (TenantManager S) (Unit {0})
  delete_queues [] = give tt
  delete_queues (q ∷ qs) = or_log (on_queues (delete_queue st q)) >> delete_queues qs

  unfoldable pub delete_tenant : String → Method (TenantManager S) (Unit {0})
  delete_tenant id = do
    t ← get_tenant id
    delete_queues t.queues
    λ g. (ok tt, record g { tenants = delete id g.tenants })

  abbrev pub within_jobs : ℤ → Option ResourceLimit → Method (TenantManager S) (Unit {0})
  within_jobs count none g = (panic, g)
  within_jobs count (some l) g =
      if ltb_ℤ count l.max_jobs then (ok tt, g) else (err (message "tenant job limit exceeded"), g)

  unfoldable pub check_resource_limit : String → ℤ → Method (TenantManager S) (Unit {0})
  check_resource_limit id count = do t ← get_tenant id; within_jobs count t.resource_limit

  unfoldable pub update_resource_limit :
      String → Option ResourceLimit → Method (TenantManager S) (Unit {0})
  update_resource_limit id limits g = elim (lookup id g.tenants) [
    | none ↦ (err (message (no_tenant id)), g)
    | some t ↦
        (ok tt, record g { tenants = insert id (record t { resource_limit = limits }) g.tenants })
  ]

  unfoldable pub get_tenant_queues : String → Method (TenantManager S) (List String)
  get_tenant_queues id = do t ← get_tenant id; give t.queues

  abbrev pub add_within :
      String → String → Tenant → Option ResourceLimit → Method (TenantManager S) (Unit {0})
  add_within id queue t none g = (panic, g)
  add_within id queue t (some l) g =
      if ltb_ℤ (pos (length t.queues)) l.max_queues
      then (
        ok tt,
        record g { tenants = insert id (record t { queues = t.queues ++ queue ∷ [] }) g.tenants },
      )
      else (err (message "tenant queue limit exceeded"), g)

  unfoldable pub add_queue_to_tenant : String → String → Method (TenantManager S) (Unit {0})
  add_queue_to_tenant id queue g = elim (lookup id g.tenants) [
    | none ↦ (err (message (no_tenant id)), g)
    | some t ↦ add_within id queue t t.resource_limit g
  ]
