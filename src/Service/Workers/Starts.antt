-- ===== src/Service/Workers/Starts.antt =====
-- The start of a task by a worker.
use sp1_helios.Prelude.{
  ◌≡◌, refl, sym, ap, ◌∙◌, subst, [], ◌∷◌, ◌++◌, some, true, false, ok, is_some, Text, codes,
  text_eq, text_eq_refl, All, All-map, All-append, All-both, inl, inr, ◌⊎◌, Bool, Result, err,
  map_err, if◌then◌else◌,
}
use sp1_helios.Types.{ProofRequest, ProofId, ProofServiceError, redis_error}
use sp1_helios.Redis.{Platform, Documented, Reachable}
use sp1_helios.Redis.Local.{Other}
use sp1_helios.Redis.Expiring.{Expiring, set_nx-remaining, set_nx-granted}
use sp1_helios.Action.{World, pure, spawn, ◌>>=◌}
use sp1_helios.Store.{
  RedisStore, proof_id, proof_generation_lock_key, acquire_proof_generation_lock,
}
use sp1_helios.Store.Keeps.{text_eq_swap}
use sp1_helios.Service.{spawn_if_lock_acquired, spawn_on, initial_proof_generation_lock_duration_ms}
use sp1_helios.Service.Requests.{Runs-spawn_if_lock_acquired}
use sp1_helios.Service.Orphans.{task_lock}
use sp1_helios.Service.Exclusive.{Exclusive-locked, Apart-free}
use sp1_helios.Service.Workers.{Timed, Grants, grant, after_start}
use sp1_helios.Service.Workers.Guarded.{Lasts, Guarded, Exclusive-Shows}

module _ (p : Platform) (r : RedisStore) where
  -- The lock of the new task.
  abbrev new_lock : ProofRequest → Text
  new_lock request = proof_generation_lock_key p r (proof_id p request)

module _ {p : Platform} (d : Documented p.redis) (a : Reachable p.redis) (r : RedisStore)
    (e : Expiring p.redis) where
  open p use {redis}

  spawn_on-server :
      (request : ProofRequest) (res : Result ProofServiceError Bool) (w : World p)
      → (spawn_on p r request res w).1.server ≡ w.server
  unfolding spawn_on spawn pure
  spawn_on-server request (ok true) w = refl
  spawn_on-server request (ok false) w = refl
  spawn_on-server request (err x) w = refl

  -- The server after the start of a task is the one after SET NX.
  started :
      (request : ProofRequest) (w : World p)
      → (spawn_if_lock_acquired p r request w).1.server
        ≡ (redis.set_nx_px
            (proof_generation_lock_key p r (proof_id p request))
            (codes "locked")
            initial_proof_generation_lock_duration_ms
            w.server).1
  unfolding spawn_if_lock_acquired acquire_proof_generation_lock ◌>>=◌
  started request w =
      let reply =
        redis.set_nx_px (proof_generation_lock_key p r (proof_id p request)) (codes "locked")
          initial_proof_generation_lock_duration_ms w.server in
      spawn_on-server request (map_err redis_error reply.0) (record w { server = reply.1 })

  after_start-remaining :
      (x : Timed p r) (request : ProofRequest) (j : Text)
      → (is_some (redis.lookup x.world.server (new_lock p r request)) ≡ true)
        ⊎ Other j (new_lock p r request)
      → e.remaining (after_start p r x request).world.server j ≡ e.remaining x.world.server j
  after_start-remaining x request j h =
      ap (λ t. e.remaining t j) (started request x.world)
      ∙ set_nx-remaining d a e (new_lock p r request) (codes "locked") 1000 x.world.server j h

  -- Where the lock was taken, nothing is granted.
  taken-lasting :
      (x : Timed p r) (request : ProofRequest)
      → is_some (redis.lookup x.world.server (new_lock p r request)) ≡ true
      → All (Lasts p r e x) x.world.spawned
      → All (Lasts p r e (after_start p r x request)) x.world.spawned
  taken-lasting x request taken =
      let granted : x.granted ≡ (after_start p r x request).granted = sym (
        ap (λ (b : Bool). if b then x.granted else grant p r x.granted (new_lock p r request) 1000)
          taken) in
      All-map _ _
        (λ task h.
          after_start-remaining x request (task_lock p r task) (inl taken)
          ∙ h
          ∙ ap (λ (g : Grants p r). some (g (task_lock p r task))) granted)
        x.world.spawned

  free_grants :
      (x : Timed p r) (request : ProofRequest)
      → is_some (redis.lookup x.world.server (new_lock p r request)) ≡ false
      → (j : Text)
      → (after_start p r x request).granted j
        ≡ (if text_eq (new_lock p r request) j then 1000 else x.granted j)
  free_grants x request free j =
      ap
        (λ (b : Bool). (if b then x.granted else grant p r x.granted (new_lock p r request) 1000) j)
        free

  -- Where it was free, the other tasks keep their locks, and the new one has its first grant.
  free-lasting :
      (x : Timed p r) (request : ProofRequest)
      → is_some (redis.lookup x.world.server (new_lock p r request)) ≡ false
      → Guarded p r e x
      → All
          (Lasts p r e (after_start p r x request))
          (x.world.spawned ++ (request, proof_id p request) ∷ [])
  free-lasting x request free g =
      let y = after_start p r x request in
      let key = new_lock p r request in
      All-append (Lasts p r e y) x.world.spawned ((request, proof_id p request) ∷ [])
        (All-both (Lasts p r e y) x.world.spawned
          (λ task l h.
            let other = text_eq_swap _ _ (
              Apart-free p r (redis.lookup x.world.server) task (request, proof_id p request) free
                h) in
            after_start-remaining x request (task_lock p r task) (inr other)
            ∙ l
            ∙ ap some (
                sym (
                  free_grants x request free (task_lock p r task)
                  ∙ ap (λ (b : Bool). if b then 1000 else x.granted (task_lock p r task)) other)))
          g.lasting g.exclusive.held)
        (
          ap (λ t. e.remaining t key) (started request x.world)
              ∙ set_nx-granted d a e key _ _ _ free
              ∙ ap some (
                  sym (
                    free_grants x request free key
                    ∙ ap (λ (b : Bool). if b then 1000 else x.granted key) (text_eq_refl key))),
          tt,
        )

  pub starts-Guarded :
      (x : Timed p r) (request : ProofRequest)
      → Guarded p r e x
      → Guarded p r e (after_start p r x request)
  starts-Guarded x request g =
      let new : ProofRequest × ProofId = (request, proof_id p request) in
      let values = redis.lookup x.world.server in
      let old = x.world.spawned in
      let y = after_start p r x request in
      let (_, s) =
        (Runs-spawn_if_lock_acquired d a r request values old).run x.world
          (record { same_values = λ j. refl; same_tasks = refl }) in
      let lasting = λ (b : Bool).
        elim b
          as (λ c.
            is_some (values (new_lock p r request)) ≡ c
            → All (Lasts p r e y) (if c then old else old ++ new ∷ [])) [
              | true ↦ λ taken. taken-lasting x request taken g.lasting
              | false ↦ λ free. free-lasting x request free g
            ] in
      record {
        exclusive = Exclusive-Shows p r _ _ _ s (Exclusive-locked p r values old new g.exclusive);
        lasting = subst (All (Lasts p r e y)) (sym s.same_tasks) (lasting _ refl);
      }
