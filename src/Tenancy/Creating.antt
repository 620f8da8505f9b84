-- ===== src/Tenancy/Creating.antt =====
-- What CreateTenant and AddQueueToTenant of internal/features/tenancy.go leave behind.
use Prim.Native.String.{◌++◌ as append}
use text.Mathlib.TextLemmas.{append-eq-nil_iff}
use distributed_task_queue_s.Base.{
  ℕ, pos, ◌≤◌, ltb_ℤ, true, false, String, ◌==◌, eq_iff, ◌≡◌, ◌≢◌, refl, ap, ◌∙◌, inl, inr, Option,
  none, some, List, [], ◌∷◌, length, length-append, or_default, Option-cases, Bool-cases, lookup,
  insert, lookup-insert, lookup-insert_self, Outcome, ok, err, message, arith,
}
use distributed_task_queue_s.Memory.{MemoryStore}
use distributed_task_queue_s.Memory.Configs
use distributed_task_queue_s.Manager.Storage.{memory_storage}
use distributed_task_queue_s.Manager.Queues.{register_queue, with_queue_defaults, remember}
use distributed_task_queue_s.Manager.Enqueueing.{MemoryManager}
use distributed_task_queue_s.Tenancy.{ResourceLimit, Tenant, TenantManager}
use distributed_task_queue_s.Tenancy.Tenants.{
  default_queue, default_queue_name, limit_of, default_limit, create_tenant, admit,
  add_queue_to_tenant,
}

abbrev pub MemoryTenants : Type 0
MemoryTenants = TenantManager MemoryStore

-- How a call of CreateTenant ends.
pub data Created (t : Tenant) (g : MemoryTenants) (r : Outcome (Unit {0}) × MemoryTenants)
    : Type 0 where
  unnamed : t.id ≡ "" → r ≡ (err (message "tenant ID is required"), g) → Created t g r
  exists :
      (old : Tenant)
      → lookup t.id g.tenants ≡ some old
      → r ≡ (err (message (append "tenant already exists: " t.id)), g)
      → Created t g r
  created :
      (h : MemoryTenants)
      → lookup t.id g.tenants ≡ none
      → r ≡ (ok tt, h)
      → lookup t.id h.tenants
        ≡ some
            (record t { resource_limit = some (limit_of t); queues = default_queue_name t.id ∷ [] })
      → ((other : String)
          → (t.id == other) ≡ false
          → lookup other h.tenants ≡ lookup other g.tenants)
      → h.queue_manager.configs
        ≡ insert
            (default_queue_name t.id)
            (with_queue_defaults (default_queue t))
            g.queue_manager.configs
      → h.queue_manager.storage.queue_configs
        ≡ insert
            (default_queue_name t.id)
            (with_queue_defaults (default_queue t))
            g.queue_manager.storage.queue_configs
      → h.queue_manager.storage.jobs ≡ g.queue_manager.storage.jobs
      → Created t g r

abbrev suffix : String
suffix = "_default"

suffix_kept : suffix ≢ ""
suffix_kept f = clash ((eq_iff suffix "").1 f)
  where
    clash : false ≡ true → ⊥
    clash e = absurd (cc)

named : (id : String) → (default_queue_name id == "") ≡ false
named id = elim (Bool-cases (default_queue_name id == "")) [
  | inr e ↦ e
  | inl e ↦ absurd (
      suffix_kept
        ((append-eq-nil_iff {p = id} {q = suffix}).0 ((eq_iff (default_queue_name id) "").0 e)).1)
]

register_lem :
    (t : Tenant) (m : MemoryManager)
    → register_queue memory_storage (default_queue t) m ≡ (
      ok (with_queue_defaults (default_queue t)),
      record {
        storage = record m.storage {
          queue_configs =
              insert
                (default_queue_name t.id)
                (with_queue_defaults (default_queue t))
                m.storage.queue_configs;
        };
        configs =
            insert (default_queue_name t.id) (with_queue_defaults (default_queue t)) m.configs;
      },
    )
unfolding register_queue remember Configs.save_queue_config default_queue with_queue_defaults
register_lem t m = rw (named t.id) refl

-- The state after a tenant has been admitted.
abbrev admitted_state : Tenant → MemoryTenants → MemoryTenants
admitted_state t g = record {
  tenants =
      insert t.id
        (record t { resource_limit = some (limit_of t); queues = default_queue_name t.id ∷ [] })
        (insert t.id (record t { resource_limit = some (limit_of t) }) g.tenants);
  queue_manager = record {
    storage = record g.queue_manager.storage {
      queue_configs =
          insert (default_queue_name t.id) (with_queue_defaults (default_queue t))
            g.queue_manager.storage.queue_configs;
    };
    configs =
        insert (default_queue_name t.id) (with_queue_defaults (default_queue t))
          g.queue_manager.configs;
  };
}

admit_lem :
    (t : Tenant) (g : MemoryTenants) → admit memory_storage t g ≡ (ok tt, admitted_state t g)
unfolding admit
admit_lem t g = rw (register_lem t g.queue_manager) refl

others_kept :
    (t : Tenant) (g : MemoryTenants) (other : String)
    → (t.id == other) ≡ false
    → lookup other (admitted_state t g).tenants ≡ lookup other g.tenants
others_kept t g other ne =
    lookup-insert t.id other _ _ ∙ rw ne (lookup-insert t.id other _ g.tenants ∙ rw ne refl)

-- A tenant without an identifier and one that is there already are refused with nothing changed. Any
-- other is stored with its limits, the default ones if it has none, and with its default queue, whose
-- configuration, with all defaults filled in, stands in the manager and in the store; no other tenant
-- and no job changes.
pub create_tenant-Created :
    (t : Tenant) (g : MemoryTenants) → Created t g (create_tenant memory_storage t g)
unfolding create_tenant
create_tenant-Created t g = elim (Bool-cases (t.id == "")) [
  | inl e ↦ unnamed ((eq_iff t.id "").0 e) (rw (e, create_tenant) refl)
  | inr e ↦ elim (Option-cases (lookup t.id g.tenants)) [
    | inr (old, f) ↦ exists old f (rw (e, f, create_tenant) refl)
    | inl f ↦
        created (admitted_state t g) f (rw (e, f, create_tenant) (admit_lem t g))
          (lookup-insert_self t.id _ _) (others_kept t g) refl refl refl
  ]
]

-- AddQueueToTenant for each name of a list.
unfoldable pub add_queues : String → List String → MemoryTenants → MemoryTenants
add_queues id [] g = g
add_queues id (q ∷ qs) g = add_queues id qs (add_queue_to_tenant memory_storage id q g).1

abbrev pub Keeps : String → ℕ → Option ResourceLimit → MemoryTenants → Type 0
Keeps id n limit g =
    (t : Tenant) × (lookup id g.tenants ≡ some t)
    × (t.resource_limit ≡ limit)
    × (length t.queues ≤ n)

add_queue-Keeps :
    (id q : String) (n : ℕ) (l : ResourceLimit) (g : MemoryTenants)
    → l.max_queues ≡ pos n
    → Keeps id n (some l) g
    → Keeps id n (some l) (add_queue_to_tenant memory_storage id q g).1
unfolding add_queue_to_tenant
add_queue-Keeps id q n l g top (t, here, limit, le) =
    rw (here, add_queue_to_tenant)
      (rw (limit, add_queue_to_tenant)
        (elim (Bool-cases (ltb_ℤ (pos (length t.queues)) l.max_queues)) [
          | inl room ↦
              rw (room, add_queue_to_tenant)
                (
                  _,
                  lookup-insert_self id _ g.tenants,
                  refl,
                  ground (arith, top, length-append t.queues (q ∷ [])),
                )
          | inr full ↦ rw (full, add_queue_to_tenant) (t, here, limit, le)
        ]))

add_queues-Keeps :
    (id : String) (qs : List String) (n : ℕ) (l : ResourceLimit) (g : MemoryTenants)
    → l.max_queues ≡ pos n
    → Keeps id n (some l) g
    → Keeps id n (some l) (add_queues id qs g)
unfolding add_queues
add_queues-Keeps id [] n l g top k = k
add_queues-Keeps id (q ∷ qs) n l g top k =
    add_queues-Keeps id qs n l (add_queue_to_tenant memory_storage id q g).1 top
      (add_queue-Keeps id q n l g top k)

-- A new tenant whose limit allows `n` queues, at least one, never has more than `n`, whatever queues
-- are added to it one after another.
pub add_queues-le :
    (t : Tenant) (l : ResourceLimit) (n : ℕ) (qs : List String) (g : MemoryTenants)
    → t.resource_limit ≡ some l
    → l.max_queues ≡ pos n
    → 1 ≤ n
    → (t.id == "") ≡ false
    → lookup t.id g.tenants ≡ none
    → Keeps t.id n (some l) (add_queues t.id qs (create_tenant memory_storage t g).1)
unfolding create_tenant
add_queues-le t l n qs g limit top room ok_id new =
    add_queues-Keeps t.id qs n l (create_tenant memory_storage t g).1 top (
      rw (ok_id, new, create_tenant)
        (rw (admit_lem t g) (
          _,
          lookup-insert_self t.id _ _,
          ap (λ o. some (or_default default_limit o)) limit,
          omega arith,
        )))
