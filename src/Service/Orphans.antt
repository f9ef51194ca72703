-- ===== src/Service/Orphans.antt =====
-- `restart_orphaned_proofs`: which generating requests get a task.
use sp1_helios.Prelude.{
  ◌≡◌, ◌↔◌, refl, ap, List, [], ◌∷◌, ◌++◌, true, false, ok, is_some, Text, text_eq, text_eq_refl,
  eq_of_text_eq, arith, All, All-map, Any, Any-All, Any-witness, Pairwise, Bool-cases, inl, inr,
}
use sp1_helios.Types.{ProofRequest, ProofId, generating}
use sp1_helios.Redis.{Platform, Documented, Reachable}
use sp1_helios.Action.Runs.{Values, Tasks, Runs, Runs-bind}
use sp1_helios.Store.{RedisStore, State, proof_id, proof_state_key, proof_generation_lock_key}
use sp1_helios.Store.Runs.{locked}
use sp1_helios.Store.Scan.{found, find_requests_by_status-found}
use sp1_helios.Store.Kept.{Kept, FullScan, All-found}
use sp1_helios.Service.{restart_orphaned_proofs}
use sp1_helios.Service.Headers.{lock_of, locks, tasks, locks-state_key, Runs-spawn_all}

module _ (p : Platform) (r : RedisStore) where
  abbrev pub task_lock : ProofRequest × ProofId → Text
  task_lock task = proof_generation_lock_key p r task.1

  locked_free :
      (v : Values) (k j : Text)
      → is_some (locked v k j) ≡ false
      → (is_some (v j) ≡ false) × (text_eq k j ≡ false)
  locked_free v k j h = elim (Bool-cases (text_eq k j)) [
    | inl same ↦ absurd (ground (arith, ap v (eq_of_text_eq k j same)))
    | inr other ↦ (ground arith, other)
  ]

  locks_keep :
      (v : Values) (ss : List (State p)) (k : Text)
      → is_some (v k) ≡ true
      → is_some (locks p r v ss k) ≡ true
  locks_keep v [] k h = h
  locks_keep v (s ∷ ss) k h = locks_keep (locked v (lock_of p r s)) ss k (ground arith)

  -- Every lock that was tried is held.
  pub locks_hold :
      (v : Values) (ss : List (State p))
      → All (λ s. is_some (locks p r v ss (lock_of p r s)) ≡ true) ss
  locks_hold v [] = tt
  locks_hold v (s ∷ ss) = (
    locks_keep (locked v (lock_of p r s)) ss (lock_of p r s)
        (ground (arith, text_eq_refl (lock_of p r s))),
    locks_hold (locked v (lock_of p r s)) ss,
  )

  tasks_free :
      (v : Values) (ss : List (State p))
      → All (λ task. is_some (v (task_lock task)) ≡ false) (tasks p r v ss)
  tasks_free v [] = tt
  tasks_free v (s ∷ ss) =
      let later : All (λ task. is_some (v (task_lock task)) ≡ false)
          (tasks p r (locked v (lock_of p r s)) ss) =
        All-map _ _ (λ task h. (locked_free v (lock_of p r s) (task_lock task) h).0) _
          (tasks_free (locked v (lock_of p r s)) ss) in
      elim (Bool-cases (is_some (v (lock_of p r s)))) [
        | inl held ↦ rw held later
        | inr free ↦ rw free (free, later)
      ]

  -- No two tasks have the same lock.
  abbrev pub Apart : ProofRequest × ProofId → ProofRequest × ProofId → Type 0
  Apart a b = text_eq (task_lock a) (task_lock b) ≡ false

  tasks-Apart : (v : Values) (ss : List (State p)) → Pairwise Apart (tasks p r v ss)
  tasks-Apart v [] = tt
  tasks-Apart v (s ∷ ss) =
      let rest = tasks-Apart (locked v (lock_of p r s)) ss in
      elim (Bool-cases (is_some (v (lock_of p r s)))) [
        | inl held ↦ rw held rest
        | inr free ↦
            let apart : All (Apart (s.request, proof_id p s.request))
                (tasks p r (locked v (lock_of p r s)) ss) =
              All-map _ _ (λ task h. (locked_free v (lock_of p r s) (task_lock task) h).1) _
                (tasks_free (locked v (lock_of p r s)) ss) in
            rw free (apart, rest)
      ]

  -- Every free lock that was tried has a task.
  tasks_start :
      (v : Values) (ss : List (State p))
      → All
          (λ s.
            is_some (v (lock_of p r s)) ≡ false
            → Any (λ task. text_eq (task_lock task) (lock_of p r s) ≡ true) (tasks p r v ss))
          ss
  tasks_start v [] = tt
  tasks_start v (s ∷ ss) =
      let rest = tasks_start (locked v (lock_of p r s)) ss in
      elim (Bool-cases (is_some (v (lock_of p r s)))) [
        | inl held ↦ (
          λ free. absurd (ground arith),
          All-map _ _ (λ s' h free. rw held (h (ground arith))) ss rest,
        )
        | inr free ↦ (
          λ _. rw free (inl (text_eq_refl (lock_of p r s))),
          All-map _ _
              (λ s' h free'. rw free (elim (Bool-cases (text_eq (lock_of p r s) (lock_of p r s'))) [
                | inl same ↦ inl same
                | inr other ↦ inr (h (ground arith))
              ]))
              ss rest,
        )
      ]

  -- Every task is of a state.
  abbrev pub TaskOf : ProofRequest × ProofId → State p → Type 0
  TaskOf task s = task ≡ (s.request, proof_id p s.request)

  tasks-TaskOf :
      (v : Values) (ss : List (State p)) → All (λ task. Any (TaskOf task) ss) (tasks p r v ss)
  tasks-TaskOf v [] = tt
  tasks-TaskOf v (s ∷ ss) =
      let later : All (λ task. Any (TaskOf task) (s ∷ ss))
          (tasks p r (locked v (lock_of p r s)) ss) =
        All-map _ _ (λ task h. inr h) _ (tasks-TaskOf (locked v (lock_of p r s)) ss) in
      elim (Bool-cases (is_some (v (lock_of p r s)))) [
        | inl held ↦ rw held later
        | inr free ↦ rw free (inl refl, later)
      ]

  -- New tasks for states: each state whose lock was free has one for its lock; each is for a
  -- state, and its lock was free; and no two have one lock.
  pub record Started (Of : State p → Type 0) (v : Values) (new_tasks : Tasks) : Type 0 where
    pub started :
        (s : State p)
        → Of s
        → is_some (v (lock_of p r s)) ≡ false
        → Any (λ task. text_eq (task_lock task) (lock_of p r s) ≡ true) new_tasks
    pub of_states : All (λ task. (s : State p) × Of s × TaskOf task s) new_tasks
    pub were_free : All (λ task. is_some (v (task_lock task)) ≡ false) new_tasks
    pub apart : Pairwise Apart new_tasks

  -- The tasks that are started for the states of a list are those of what the list stands for.
  pub tasks-Started :
      (Of : State p → Type 0) (v : Values) (ss : List (State p))
      → ((P : State p → Type 0) → ((s : State p) → Of s → P s) ↔ All P ss)
      → Started Of v (tasks p r v ss)
  tasks-Started Of v ss all = record {
    started =
        (all (λ s.
            is_some (v (lock_of p r s)) ≡ false
            → Any (λ task. text_eq (task_lock task) (lock_of p r s) ≡ true) (tasks p r v ss))).1
          (tasks_start v ss);
    of_states =
        All-map _ _
          (λ task found_one.
            let (s, (of_s, same)) = Any-witness _ ss (
              Any-All _ _ (λ s. Of s × TaskOf task s) ss (λ s k e. (k, e)) ((all Of).0 (λ s k. k))
                found_one) in
            (s, of_s, same))
          _ (tasks-TaskOf v ss);
    were_free = tasks_free v ss;
    apart = tasks-Apart v ss;
  }

  -- What `restart_orphaned_proofs` does about the generating states that the store has: afterwards
  -- the lock of each is held, new tasks are started for those whose lock was free, and no state
  -- changes.
  pub record Restarts (v : Values) (t : Tasks) (v' : Values) (t' : Tasks) : Type 0 where
    pub new_tasks : Tasks
    pub appended : t' ≡ t ++ new_tasks
    pub held : (s : State p) → Kept p r generating v s → is_some (v' (lock_of p r s)) ≡ true
    pub started : Started (Kept p r generating v) v new_tasks
    pub states : (id : ProofId) → v' (proof_state_key p r id) ≡ v (proof_state_key p r id)

module _ {p : Platform} (d : Documented p.redis) (a : Reachable p.redis) (r : RedisStore) where
  -- On a documented server that answers every command and whose scan is full, and ends within the
  -- fuel: after `restart_orphaned_proofs` no generating request that the store has, under any key of
  -- the states but the finalized header's, is left without a holder of its lock. Each whose lock was
  -- free has a new task, the new tasks are for such requests with free locks only and no two for one
  -- lock, and no state changes.
  pub restart_orphaned_proofs-Restarts :
      (pages : List (List Text)) (v : Values) (t : Tasks)
      → FullScan p r v t pages
      → (v' : Values) × (t' : Tasks) × Runs (restart_orphaned_proofs p r) v t (ok tt) v' t'
        × Restarts p r v t v' t'
  unfolding restart_orphaned_proofs
  restart_orphaned_proofs-Restarts pages v t scan =
      let ss = found p r generating v pages in
      let all = λ (P : State p → Type 0). All-found p r P generating v t pages scan in
      (
        locks p r v ss,
        t ++ tasks p r v ss,
        Runs-bind _ _
            (find_requests_by_status-found d a r generating pages v t scan.within_fuel scan.scanned)
            (Runs-spawn_all d a r ss v t),
        record {
          new_tasks = tasks p r v ss;
          appended = refl;
          held =
              (all (λ s. is_some (locks p r v ss (lock_of p r s)) ≡ true)).1 (locks_hold p r v ss);
          started = tasks-Started p r (Kept p r generating v) v ss all;
          states = locks-state_key p r v ss;
        },
      )
