-- ===== src/Manager/Coherence.antt =====
-- The configurations that the manager of internal/queue/manager.go keeps beside the in-memory backend.
use distributed_task_queue_s.Base.{
  String, ◌==◌, eq_iff, ◌≡◌, sym, subst, ◌∙◌, inl, inr, some, Option-cases, Bool-cases, List, [],
  ◌∷◌, ltb, length, Dict, lookup, insert, delete, lookup-insert, lookup-delete,
}
use distributed_task_queue_s.Job.Queue.{QueueConfig}
use distributed_task_queue_s.Memory.Queues.{queue_length, entries}
use distributed_task_queue_s.Memory.Configs
use distributed_task_queue_s.Manager.Storage.{memory_storage}
use distributed_task_queue_s.Manager.Queues.{
  register_queue, with_queue_defaults, remember, get_queue_config, update_queue_config, save_known,
  delete_queue, forget,
}
use distributed_task_queue_s.Manager.Enqueueing.{
  MemoryManager, get_queue_config_cached, get_queue_config_stored, get_queue_config_unknown,
}

-- What the first map knows the second knows alike.
abbrev pub Agrees : Dict QueueConfig → Dict QueueConfig → Type 0
Agrees known stored =
    (name : String) (c : QueueConfig) → lookup name known ≡ some c → lookup name stored ≡ some c

abbrev pub Coherent : MemoryManager → Type 0
Coherent g = Agrees g.configs g.storage.queue_configs

insert-Agrees :
    (key : String) (c : QueueConfig) (known stored : Dict QueueConfig)
    → Agrees known stored
    → Agrees (insert key c known) (insert key c stored)
insert-Agrees key c known stored a name d e = elim (Bool-cases (key == name)) [
  | inl same ↦
      lookup-insert key name c stored ∙ rw same (sym (lookup-insert key name c known ∙ rw same) ∙ e)
  | inr ne ↦
      lookup-insert key name c stored
      ∙ rw ne (a name d (sym (lookup-insert key name c known ∙ rw ne) ∙ e))
]

delete-Agrees :
    (key : String) (known stored : Dict QueueConfig)
    → Agrees known stored
    → Agrees (delete key known) (delete key stored)
delete-Agrees key known stored a name d e = elim (Bool-cases (key == name)) [
  | inl same ↦
      lookup-delete key name stored ∙ rw same (sym (lookup-delete key name known ∙ rw same) ∙ e)
  | inr ne ↦
      lookup-delete key name stored
      ∙ rw ne (a name d (sym (lookup-delete key name known ∙ rw ne) ∙ e))
]

load-Agrees :
    (key : String) (c : QueueConfig) (known stored : Dict QueueConfig)
    → Agrees known stored
    → lookup key stored ≡ some c
    → Agrees (insert key c known) stored
load-Agrees key c known stored a here name d e = elim (Bool-cases (key == name)) [
  | inl same ↦
      subst (λ k. lookup k stored ≡ some d) ((eq_iff key name).0 same)
        (here ∙ (sym (lookup-insert key name c known ∙ rw same) ∙ e))
  | inr ne ↦ a name d (sym (lookup-insert key name c known ∙ rw ne) ∙ e)
]

pub data Change : Type 0 where
  register update : QueueConfig → Change
  get drop_queue : String → Change

unfoldable pub change : Change → MemoryManager → MemoryManager
change (register c) g = (register_queue memory_storage c g).1
change (update c) g = (update_queue_config memory_storage c g).1
change (get name) g = (get_queue_config memory_storage name g).1
change (drop_queue name) g = (delete_queue memory_storage name g).1

unfoldable pub change_all : List Change → MemoryManager → MemoryManager
change_all [] g = g
change_all (x ∷ xs) g = change_all xs (change x g)

change-Coherent : (x : Change) (g : MemoryManager) → Coherent g → Coherent (change x g)
unfolding change register_queue remember Configs.save_queue_config update_queue_config save_known
    delete_queue forget Configs.delete_queue_config queue_length
change-Coherent (register c) g a = elim (Bool-cases (c.name == "")) [
  | inl e ↦ rw (e, change, register_queue) a
  | inr e ↦
      rw (e, change, register_queue)
        (insert-Agrees c.name (with_queue_defaults c) g.configs g.storage.queue_configs a)
]
change-Coherent (update c) g a = elim (Bool-cases (c.name == "")) [
  | inl e ↦ rw (e, change, update_queue_config) a
  | inr e ↦ elim (Option-cases (lookup c.name g.configs)) [
    | inl f ↦ rw (e, f, change, update_queue_config) a
    | inr (_, f) ↦
        rw (e, f, change, update_queue_config)
          (insert-Agrees c.name c g.configs g.storage.queue_configs a)
  ]
]
change-Coherent (get name) g a = elim (Option-cases (lookup name g.configs)) [
  | inr (_, f) ↦ rw (get_queue_config_cached name g f, change) a
  | inl f ↦ elim (Option-cases (lookup name g.storage.queue_configs)) [
    | inl e ↦ rw (get_queue_config_unknown name g f e, change) a
    | inr (c, e) ↦
        rw (get_queue_config_stored name g f e, change)
          (load-Agrees name c g.configs g.storage.queue_configs a e)
  ]
]
change-Coherent (drop_queue name) g a =
    elim (Bool-cases (ltb 0 (length (entries g.storage name)))) [
      | inl e ↦ rw (e, change, delete_queue) a
      | inr e ↦
          rw (e, change, delete_queue) (delete-Agrees name g.configs g.storage.queue_configs a)
    ]

-- Over any calls of RegisterQueue, UpdateQueueConfig, GetQueueConfig and DeleteQueue in any order,
-- failing ones included, a manager whose configurations the store has alike stays so: whatever
-- configuration it keeps for a queue is the one that the store holds.
pub change_all-Coherent :
    (xs : List Change) (g : MemoryManager) → Coherent g → Coherent (change_all xs g)
unfolding change_all
change_all-Coherent [] g a = a
change_all-Coherent (x ∷ xs) g a = change_all-Coherent xs (change x g) (change-Coherent x g a)
