-- ===== src/Redis/Server.antt =====
-- What internal/storage/redis relies on: how the documentation of the Redis commands describes their
-- replies and effects, on a server that can be reached.
use distributed_task_queue_s.Base.{
  ℕ, String, ◌==◌, ◌||◌, Bool, false, not, take, if◌then◌else◌, is_some, ◌≡◌, Option, none, some,
  List, [], ◌∷◌, select, ok,
}
use distributed_task_queue_s.Job.{Job}
use distributed_task_queue_s.Redis.{Client, Codec}

abbrev pub one_if : Bool → ℕ
one_if b = if b then 1 else 0

abbrev pub contains : String → List String → Bool
contains m [] = false
contains m (x ∷ xs) = x == m || contains m xs

abbrev pub without : String → List String → List String
without m xs = select (λ x. not (x == m)) xs

-- A server seen through the values that its string keys hold.
pub record Strings {R D F : Type 0} (c : Client R D F) (values : R → String → Option D)
    : Type 0 where
  pub set_nx_reply :
      (k : String) (d : D) (r : R) → (c.set_nx k d r).0 ≡ ok (not (is_some (values r k)))
  pub set_nx_effect :
      (k : String) (d : D) (l : String) (r : R)
      → values (c.set_nx k d r).1 l
        ≡ (if is_some (values r k) then values r l else if k == l then some d else values r l)
  pub get_reply : (k : String) (r : R) → (c.get k r).0 ≡ ok (values r k)
  pub get_effect : (k l : String) (r : R) → values (c.get k r).1 l ≡ values r l
  pub set_reply : (k : String) (d : D) (r : R) → (c.set k d r).0 ≡ ok tt
  pub set_effect :
      (k : String) (d : D) (l : String) (r : R)
      → values (c.set k d r).1 l ≡ (if k == l then some d else values r l)
  pub exists_reply : (k : String) (r : R) → (c.exists k r).0 ≡ ok (one_if (is_some (values r k)))
  pub exists_effect : (k l : String) (r : R) → values (c.exists k r).1 l ≡ values r l
  pub del_reply : (k : String) (r : R) → (c.del k r).0 ≡ ok (one_if (is_some (values r k)))
  pub del_effect :
      (k l : String) (r : R) → values (c.del k r).1 l ≡ (if k == l then none else values r l)

-- A server seen through the members of its sorted sets, lowest score first.
pub record SortedSets {R D F : Type 0} (c : Client R D F) (members : R → String → List String)
    : Type 0 where
  pub first_reply : (k : String) (r : R) → (c.z_range k 0 0 r).0 ≡ ok (take 1 (members r k))
  pub first_effect : (k l : String) (r : R) → members (c.z_range k 0 0 r).1 l ≡ members r l
  pub rem_reply :
      (k m : String) (r : R) → (c.z_rem k m r).0 ≡ ok (one_if (contains m (members r k)))
  pub rem_effect :
      (k m l : String) (r : R)
      → members (c.z_rem k m r).1 l ≡ (if k == l then without m (members r l) else members r l)
  pub exists_keeps : (k l : String) (r : R) → members (c.exists k r).1 l ≡ members r l

-- A job that has a text, from which it comes back as it was. Not every job does: no text is written
-- for one with a payload that is not JSON, and one with a payload that is missing, or that has
-- insignificant spaces, comes back with another payload.
pub record RoundTrips {D : Type 0} (json : Codec D Job) (j : Job) : Type 0 where
  pub text : D
  pub marshals : json.marshal j ≡ ok text
  pub unmarshals : json.unmarshal text ≡ ok j
