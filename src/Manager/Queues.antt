-- ===== src/Manager/Queues.antt =====
-- The configuration and queue methods of internal/queue/manager.go (NewManager to ListQueues, and
-- PauseQueue to GetAllQueueStats).
use distributed_task_queue_s.Base.{
  ℕ, ℤ, pos, eqb_ℤ, ltb, String, Bool, ◌==◌, if◌then◌else◌, none, some, List, [], ◌∷◌, Dict, lookup,
  insert, delete, values, Method, Outcome, ok, err, handle, give, fail, modify, reads, annotate,
  ◌>>=◌, ◌>>◌, validation_error, queue_error,
}
use distributed_task_queue_s.Job.{Job}
use distributed_task_queue_s.Job.Queue.{
  QueueConfig, QueueStats, RetryStrategy, exponential, fixed, linear, other,
}
use distributed_task_queue_s.Manager.{Manager, call}
use distributed_task_queue_s.Manager.Storage.{Storage}

abbrev pub default_to : ℤ → ℤ → ℤ
default_to d a = if eqb_ℤ a (pos 0) then d else a

abbrev pub default_strategy : RetryStrategy → RetryStrategy
default_strategy (other s) = if s == "" then exponential else other s
default_strategy fixed = fixed
default_strategy exponential = exponential
default_strategy linear = linear

-- The fields that RegisterQueue fills in.
unfoldable pub with_queue_defaults : QueueConfig → QueueConfig
with_queue_defaults c = record c {
  max_workers = default_to (pos 10) c.max_workers;
  max_retries = default_to (pos 3) c.max_retries;
  retry_strategy = default_strategy c.retry_strategy;
  retry_delay = default_to (pos 60) c.retry_delay;
  max_retry_delay = default_to (pos 3600) c.max_retry_delay;
  default_timeout = default_to (pos 300) c.default_timeout;
  weight = default_to (pos 1) c.weight;
}

-- `for _, config := range configs { m.configs[config.Name] = config }`.
unfoldable pub load_all : List QueueConfig → Dict QueueConfig → Dict QueueConfig
load_all [] d = d
load_all (c ∷ cs) d = load_all cs (insert c.name c d)

module _ {S : Type 0} (st : Storage S) where
  unfoldable pub load_configs : Method (Manager S) (Unit {0})
  load_configs = do
    configs ← call st.list_queue_configs
    modify (λ g. record g { configs = load_all configs g.configs })

  unfoldable pub new_manager : S → Outcome (Unit {0}) × Manager S
  unfolding load_configs load_all
  new_manager store =
      annotate "failed to load queue configs" load_configs
        (record { storage = store; configs = [] })

  unfoldable pub remember : QueueConfig → Method (Manager S) (Unit {0})
  remember c = modify (λ g. record g { configs = insert c.name c g.configs })

  -- The value is the configuration as the caller sees it afterwards, with the defaults filled in.
  unfoldable pub register_queue : QueueConfig → Method (Manager S) QueueConfig
  unfolding with_queue_defaults remember
  register_queue config =
      if config.name == "" then fail (validation_error "queue name is required") else do
        let c = with_queue_defaults config
        annotate "failed to save queue config" (call (st.save_queue_config c))
        remember c
        give c

  unfoldable pub load_missing : String → Method (Manager S) QueueConfig
  load_missing name =
      handle (call (st.get_queue_config name))
        (λ c. do modify (λ g. record g { configs = insert name c g.configs }); give c)
        (λ _. fail (queue_error "queue config not found: " name))

  unfoldable pub get_queue_config : String → Method (Manager S) QueueConfig
  unfolding load_missing
  get_queue_config name g = elim (lookup name g.configs) [
    | none ↦ load_missing name g
    | some c ↦ (ok c, g)
  ]

  unfoldable pub save_known : QueueConfig → Method (Manager S) (Unit {0})
  unfolding remember
  save_known c = do
    annotate "failed to update queue config" (call (st.save_queue_config c))
    remember c

  unfoldable pub update_queue_config : QueueConfig → Method (Manager S) (Unit {0})
  unfolding save_known
  update_queue_config c g =
      if c.name == ""
      then (err (validation_error "queue name is required"), g)
      else elim (lookup c.name g.configs) [
        | none ↦ (err (queue_error "queue not found: " c.name), g)
        | some _ ↦ save_known c g
      ]

  unfoldable pub forget : String → Method (Manager S) (Unit {0})
  forget name = do
    annotate "failed to delete queue config" (call (st.delete_queue_config name))
    modify (λ g. record g { configs = delete name g.configs })

  unfoldable pub delete_queue : String → Method (Manager S) (Unit {0})
  unfolding forget
  delete_queue name = do
    length ← call (st.queue_length name)
    if ltb 0 length then fail (queue_error "cannot delete non-empty queue: " name) else forget name

  unfoldable pub list_queues : Method (Manager S) (List QueueConfig)
  list_queues = reads (λ g. values g.configs)

  unfoldable pub pause_queue : String → Method (Manager S) (Unit {0})
  pause_queue name = annotate "failed to pause queue" (call (st.pause_queue name))

  unfoldable pub resume_queue : String → Method (Manager S) (Unit {0})
  resume_queue name = annotate "failed to resume queue" (call (st.resume_queue name))

  unfoldable pub is_queue_paused : String → Method (Manager S) Bool
  is_queue_paused name = call (st.is_queue_paused name)

  unfoldable pub get_queue_length : String → Method (Manager S) ℕ
  get_queue_length name = call (st.queue_length name)

  -- A job that cannot be read is left out.
  unfoldable pub collect : List String → Method (Manager S) (List Job)
  collect [] = give []
  collect (id ∷ ids) =
      let rest = collect ids in
      handle (call (st.get_job id)) (λ j. handle rest (λ js. give (j ∷ js)) fail) (λ _. rest)

  unfoldable pub peek_queue : String → ℤ → Method (Manager S) (List Job)
  unfolding collect
  peek_queue name count = do ids ← call (st.peek name count); collect ids

  unfoldable pub get_queue_stats : String → Method (Manager S) QueueStats
  get_queue_stats name = call (st.get_queue_stats name)

  unfoldable pub get_all_queue_stats : Method (Manager S) (Dict QueueStats)
  get_all_queue_stats = call st.get_queue_stats_all
