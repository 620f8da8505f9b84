-- ===== src/Examples/Keeping.antt =====
-- The Redis backend of internal/storage/redis with a small server, which is three maps: of values, of
-- sorted sets, in which the job that is added last comes first, and of sets.
use distributed_task_queue_s.Base.{
  subst, ℤ, pos, String, ◌==◌, Bool, true, false, not, if◌then◌else◌, is_some, ◌≡◌, refl, ap, ◌∙◌,
  inl, inr, Option-cases, Option, none, some, List, [], ◌∷◌, length, take, Dict, lookup, or_default,
  eq_iff, Bool-cases, lookup_or, insert, delete, lookup-insert, lookup-delete, Outcome, ok, err,
  message,
}
use distributed_task_queue_s.Job.{Job, priority_low}
use distributed_task_queue_s.Memory.Jobs.Access.{
  view, JobMap, create_spec, get_spec, update_spec, delete_spec, change_spec,
}
use distributed_task_queue_s.Redis.{Client, Codec}
use distributed_task_queue_s.Redis.Jobs
use distributed_task_queue_s.Redis.Queues.{dequeue}
use distributed_task_queue_s.Redis.Server.{
  Strings, SortedSets, RoundTrips, without, contains, one_if,
}
use distributed_task_queue_s.Redis.Holding.{Holds, Matches, job_key-eq}
use distributed_task_queue_s.Redis.Refinement.{methods-Matches}
use distributed_task_queue_s.Memory.{MemoryStore}
use distributed_task_queue_s.Redis.Agreement.{
  JobCall, creates, gets, deletes, updates, answers, redis_step, memory_step, answers_agree,
}
use distributed_task_queue_s.Redis.Popping.{Popped, dequeue-Popped}
use distributed_task_queue_s.Examples.Store.{sample, empty_store}

-- A value is a job or the mark of a pause.
record Small : Type 0 where
  texts : Dict (Option Job)
  sets : Dict (List String)
  groups : Dict (List String)

abbrev values : Small → String → Option (Option Job)
values r k = lookup k r.texts

abbrev members : Small → String → List String
members r k = lookup_or [] k r.sets

abbrev group : Small → String → List String
group r k = lookup_or [] k r.groups

abbrev with_group : String → List String → Small → Small
with_group k ms r = record r { groups = insert k ms r.groups }

set_new : String → Option Job → Option (Option Job) → Small → Outcome Bool × Small
set_new k d none r = (ok true, record r { texts = insert k d r.texts })
set_new k d (some old) r = (ok false, r)

abbrev client : Client Small (Option Job) ℤ
client = record {
  set_nx = λ k d r. set_new k d (lookup k r.texts) r;
  get = λ k r. (ok (lookup k r.texts), r);
  set = λ k d r. (ok tt, record r { texts = insert k d r.texts });
  exists = λ k r. (ok (one_if (is_some (lookup k r.texts))), r);
  del = λ k r. (ok (one_if (is_some (lookup k r.texts))), record r { texts = delete k r.texts });
  z_add = λ k s m r. (ok tt, record r { sets = insert k (m ∷ members r k) r.sets });
  z_rem = λ k m r. (
    ok (one_if (contains m (members r k))),
    record r { sets = insert k (without m (members r k)) r.sets },
  );
  z_card = λ k r. (ok (length (members r k)), r);
  z_range = λ k from to r. (ok (take 1 (members r k)), r);
  of_text = λ t. none;
  s_add = λ k m r. (ok tt, with_group k (m ∷ without m (group r k)) r);
  s_rem = λ k m r. (ok tt, with_group k (without m (group r k)) r);
  s_members = λ k r. (ok (group r k), r);
  ping = λ r. (ok tt, r);
}

set_nx_is :
    (k : String) (d : Option Job) (r : Small)
    → (client.set_nx k d r).0 ≡ ok (not (is_some (values r k)))
unfolding set_new
set_nx_is k d r = elim (Option-cases (lookup k r.texts)) [
  | inl e ↦ rw e refl
  | inr (_, e) ↦ rw e refl
]

set_nx_does :
    (k : String) (d : Option Job) (l : String) (r : Small)
    → values (client.set_nx k d r).1 l
      ≡ (if is_some (values r k) then values r l else if k == l then some d else values r l)
unfolding set_new
set_nx_does k d l r = elim (Option-cases (lookup k r.texts)) [
  | inl e ↦ rw e (lookup-insert k l d r.texts)
  | inr (_, e) ↦ rw e refl
]

strings : Strings client values
strings = record {
  set_nx_reply = set_nx_is;
  set_nx_effect = set_nx_does;
  get_reply = λ k r. refl;
  get_effect = λ k l r. refl;
  set_reply = λ k d r. refl;
  set_effect = λ k d l r. lookup-insert k l d r.texts;
  exists_reply = λ k r. refl;
  exists_effect = λ k l r. refl;
  del_reply = λ k r. refl;
  del_effect = λ k l r. lookup-delete k l r.texts;
}

rem_does :
    (k m l : String) (r : Small)
    → members (client.z_rem k m r).1 l ≡ (if k == l then without m (members r l) else members r l)
rem_does k m l r =
    ap (or_default []) (lookup-insert k l (without m (members r k)) r.sets)
    ∙ (elim (Bool-cases (k == l)) [
      | inl e ↦ rw e (ap (λ x. without m (members r x)) ((eq_iff k l).0 e))
      | inr e ↦ rw e refl
    ])

sorted_sets : SortedSets client members
sorted_sets = record {
  first_reply = λ k r. refl;
  first_effect = λ k l r. refl;
  rem_reply = λ k m r. refl;
  rem_effect = rem_does;
  exists_keeps = λ k l r. refl;
}

-- A codec that refuses a job with no payload.
abbrev codec : Codec (Option Job) Job
codec = record {
  marshal = λ j. if j.payload == "" then err (message "no payload") else ok (some j);
  unmarshal = λ d. elim d [ none ↦ err (message "no job") | some j ↦ ok j ];
}

new-RoundTrips : RoundTrips codec (sample "b" priority_low (pos 2))
new-RoundTrips = record {
  text = some (sample "b" priority_low (pos 2));
  marshals = refl;
  unmarshals = refl;
}

abbrev lost : Job → Job
lost j = record j { error = "lost" }

-- A server that holds one job, which also waits in a queue.
abbrev one_job : Small
one_job = record {
  texts = ("job:a", some (sample "a" priority_low (pos 1))) ∷ [];
  sets = ("zset:mail", "a" ∷ []) ∷ [];
  groups = [];
}

abbrev one_of : JobMap
one_of id = if "a" == id then some (sample "a" priority_low (pos 1)) else none

one_job-Holds : Holds client codec values one_job one_of
unfolding lookup
one_job-Holds id = elim (Bool-cases ("a" == id)) [
  | inl e ↦ rw (job_key-eq "a" id ∙ e) (rw e (refl, (eq_iff "a" id).0 e))
  | inr e ↦ rw (job_key-eq "a" id ∙ e) (rw e tt)
]

-- The stored job has a payload, and keeps it when its error is written.
lost-RoundTrips : (k : Job) → one_of "a" ≡ some k → RoundTrips codec (lost k)
lost-RoundTrips k e =
    subst (λ j. RoundTrips codec (lost j))
      (ap (λ o. or_default (sample "a" priority_low (pos 1)) o) e)
      (record {
        text = some (lost (sample "a" priority_low (pos 1)));
        marshals = refl;
        unmarshals = refl;
      })

methods-Matches_example :
    Matches client codec values
      (Jobs.create client codec (sample "b" priority_low (pos 2)))
      (create_spec (sample "b" priority_low (pos 2)))
      one_job
      one_of
    × Matches client codec values (Jobs.get client codec "a") (get_spec "a") one_job one_of
    × Matches client codec values
        (Jobs.update client codec (sample "b" priority_low (pos 2)))
        (update_spec (sample "b" priority_low (pos 2)))
        one_job
        one_of
    × Matches client codec values (Jobs.delete client codec "a") (delete_spec "a") one_job one_of
    × Matches client codec values
        (Jobs.change client codec "a" lost)
        (change_spec "a" lost)
        one_job
        one_of
methods-Matches_example =
    methods-Matches client codec values strings (sample "b" priority_low (pos 2)) "a" lost one_job
      one_of refl refl new-RoundTrips lost-RoundTrips (λ k h. refl) one_job-Holds

dequeue-Popped_example :
    Popped client values members "mail" one_job (dequeue client "mail" "w" one_job)
dequeue-Popped_example =
    dequeue-Popped client values members strings sorted_sets "mail" "w" one_job refl refl

-- The same job in an in-memory store, and calls that create, read, change and delete.
abbrev same_jobs : MemoryStore
same_jobs = record empty_store { jobs = ("a", sample "a" priority_low (pos 1)) ∷ [] }

same_jobs-Holds : Holds client codec values one_job (view same_jobs)
unfolding lookup
same_jobs-Holds id = elim (Bool-cases ("a" == id)) [
  | inl e ↦ rw (job_key-eq "a" id ∙ e) (rw e (refl, (eq_iff "a" id).0 e))
  | inr e ↦ rw (job_key-eq "a" id ∙ e) (rw e tt)
]

abbrev some_calls : List JobCall
some_calls =
    creates (sample "b" priority_low (pos 2))
    ∷ gets "b"
    ∷ deletes "a"
    ∷ gets "a"
    ∷ updates (sample "b" priority_low (pos 2))
    ∷ []

answers_agree_example :
    answers (redis_step client codec) some_calls one_job ≡ answers memory_step some_calls same_jobs
answers_agree_example =
    answers_agree client codec values strings some_calls one_job same_jobs
      ((refl, new-RoundTrips), (refl, (refl, (refl, ((refl, new-RoundTrips), tt))))) same_jobs-Holds
