-- ===== src/Service/Workers.antt =====
-- Any number of workers on one Redis server: their store calls in any order, the tasks that they
-- start, the ends of those tasks, and the time that passes. The tasks of a world are here those that
-- run.
pub mod Calls
pub mod Guarded
pub mod Starts
pub mod Leases
use sp1_helios.Prelude.{
  ℕ, ◌-◌, ◌<◌, ◌≡◌, ◌∷◌, ◌++◌, List, is_some, Text, text_eq, All, if◌then◌else◌,
}
use sp1_helios.Types.{ProofRequest, ProofId, ProofRequestStatus}
use sp1_helios.Redis.{Platform}
use sp1_helios.Redis.Expiring.{Expiring}
use sp1_helios.Action.{World}
use sp1_helios.Action.Runs.{Tasks}
use sp1_helios.Store.{
  RedisStore, State, proof_id, proof_generation_lock_key, get_proof_state, read_finalized_header,
  set_proof_state, update_finalized_header_and_proof_states, find_requests_by_status,
  acquire_global_lock, release_global_lock, extend_proof_generation_lock,
  release_proof_generation_lock,
}
use sp1_helios.Service.{spawn_if_lock_acquired, initial_proof_generation_lock_duration_ms}
use sp1_helios.Service.Orphans.{task_lock}

module _ (p : Platform) (r : RedisStore) where
  -- A call of some worker that starts and ends no task, and extends no lock.
  pub data Call (w : World p) : World p → Type 0 where
    reads_state : (id : ProofId) → Call w (get_proof_state p r id w).1
    reads_header : Call w (read_finalized_header p r w).1
    finds : (status : ProofRequestStatus) → Call w (find_requests_by_status p r status w).1
    saves : (id : ProofId) (state : State p) → Call w (set_proof_state p r id state w).1
    publishes :
        (header : p.spec.Header) (states : List (ProofId × State p))
        → Call w (update_finalized_header_and_proof_states p r header states w).1
    takes_global : Call w (acquire_global_lock p r w).1
    releases_global : Call w (release_global_lock p r w).1

  -- The time in milliseconds for which each lock was last granted, less what has passed since.
  abbrev pub Grants : Type 0
  Grants = Text → ℕ

  abbrev pub grant : Grants → Text → ℕ → Grants
  grant granted k ms j = if text_eq k j then ms else granted j

  pub record Timed : Type 0 where
    pub world : World p
    pub granted : Grants

  -- A task starts where its lock is acquired.
  abbrev pub after_start : Timed → ProofRequest → Timed
  after_start x request =
      let key = proof_generation_lock_key p r (proof_id p request) in
      record {
        world = (spawn_if_lock_acquired p r request x.world).1;
        granted =
            if is_some (p.redis.lookup x.world.server key)
            then x.granted
            else grant x.granted key initial_proof_generation_lock_duration_ms;
      }

  abbrev pub after_extension : Timed → ProofId → ℕ → Timed
  after_extension x id ms = record {
    world = (extend_proof_generation_lock p r id ms x.world).1;
    granted = grant x.granted (proof_generation_lock_key p r id) ms;
  }

  -- A task ends with the release of its lock, by the cancelled lock task.
  abbrev pub after_end : Timed → ProofId → Tasks → Timed
  after_end x id tasks = record x {
    world = record (release_proof_generation_lock p r id x.world).1 { spawned = tasks };
  }

  module _ (e : Expiring p.redis) where
    abbrev pub after_pass : Timed → ℕ → Timed
    after_pass x n = record {
      world = record (x.world) { server = e.pass n x.world.server };
      granted = λ k. x.granted k - n;
    }

    -- Time passes only while the lock task of each running task is in time. A task whose worker
    -- dies leaves its lock behind.
    pub data Step (x : Timed) : Timed → Type 0 where
      calls : {u : World p} → Call x.world u → Step x (record x { world = u })
      starts : (request : ProofRequest) → Step x (after_start x request)
      extends : (id : ProofId) (ms : ℕ) → 0 < ms → Step x (after_extension x id ms)
      ends :
          (before : Tasks) (task : ProofRequest × ProofId) (after : Tasks)
          → x.world.spawned ≡ before ++ task ∷ after
          → Step x (after_end x task.1 (before ++ after))
      dies :
          (before : Tasks) (task : ProofRequest × ProofId) (after : Tasks)
          → x.world.spawned ≡ before ++ task ∷ after
          → Step x (record x { world = record (x.world) { spawned = before ++ after } })
      passes :
          (n : ℕ)
          → All (λ task. n < x.granted (task_lock p r task)) x.world.spawned
          → Step x (after_pass x n)

    pub data Steps (x : Timed) : Timed → Type 0 where
      here : Steps x x
      next : {y z : Timed} → Steps x y → Step y z → Steps x z
