-- ===== src/Redis.antt =====
-- internal/storage/redis: the Redis backend. The client of the package go-redis, which sends commands to
-- the Redis server, and encoding/json are parameters; the children hold the methods of RedisStore.
pub mod Jobs
pub mod Queues
pub mod Workers
pub mod Server
pub mod Holding
pub mod Reading
pub mod Refinement
pub mod Agreement
pub mod Popping
use distributed_task_queue_s.Base.{ℕ, String, Bool, Option, List, Method, Outcome}
use distributed_task_queue_s.Job.{Job}

-- The commands, on the state R of the server and of the connection to it; D is the type of the values,
-- byte strings, and F that of float64. A reply is the value, or
-- none for `redis.Nil`; z_range gives the members between two ranks, lowest score first.
pub record Client (R D F : Type 0) : Type 0 where
  pub set_nx : String → D → Method R Bool
  pub get : String → Method R (Option D)
  pub set : String → D → Method R (Unit {0})
  pub exists : String → Method R ℕ
  pub del : String → Method R ℕ
  pub z_add : String → F → String → Method R (Unit {0})
  pub z_rem : String → String → Method R ℕ
  pub z_card : String → Method R ℕ
  pub z_range : String → ℕ → ℕ → Method R (List String)
  pub of_text : String → D
  pub s_add : String → String → Method R (Unit {0})
  pub s_rem : String → String → Method R (Unit {0})
  pub s_members : String → Method R (List String)
  pub ping : Method R (Unit {0})

-- json.Marshal and json.Unmarshal for the values of a type.
pub record Codec (D A : Type 0) : Type 0 where
  pub marshal : A → Outcome D
  pub unmarshal : D → Outcome A

-- A call that leaves the server alone.
abbrev pub pure : {R A : Type 0} → Outcome A → Method R A
pure o r = (o, r)
