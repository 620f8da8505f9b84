-- ===== src/Memory/Configs.antt =====
-- The queue-configuration methods of internal/storage/memory/memory.go (SaveQueueConfig to
-- ListQueueConfigs).
use distributed_task_queue_s.Base.{
  String, none, some, List, lookup, insert, delete, values, Method, ok, err, config_not_found,
}
use distributed_task_queue_s.Job.Queue.{QueueConfig}
use distributed_task_queue_s.Memory.{MemoryStore}

unfoldable pub save_queue_config : QueueConfig → Method MemoryStore (Unit {0})
save_queue_config c m = (ok tt, record m { queue_configs = insert c.name c m.queue_configs })

unfoldable pub get_queue_config : String → Method MemoryStore QueueConfig
get_queue_config queue m = elim (lookup queue m.queue_configs) [
  | none ↦ (err (config_not_found queue), m)
  | some c ↦ (ok c, m)
]

unfoldable pub delete_queue_config : String → Method MemoryStore (Unit {0})
delete_queue_config queue m = (ok tt, record m { queue_configs = delete queue m.queue_configs })

unfoldable pub list_queue_configs : Method MemoryStore (List QueueConfig)
list_queue_configs m = (ok (values m.queue_configs), m)
