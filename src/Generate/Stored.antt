-- ===== src/Generate/Stored.antt =====
-- How the proof generation task ends.
use sp1_helios.Prelude.{
  ℕ, zero, suc, ◌≡◌, refl, ap, ◌∙◌, List, [], ◌∷◌, Option, Bool, true, false, Result, ok, is_some,
  map_err, Text, arith, if◌then◌else◌, ◌==◌,
}
use sp1_helios.Types.{ProofRequest, ProofId, redis_error}
use sp1_helios.Redis.{Platform, Documented, Reachable}
use sp1_helios.Action.{World, query}
use sp1_helios.Action.Runs.{
  Values, Tasks, Shows, put, erase, Runs, Runs-bind, Runs-pure, Runs-result, reply_of,
}
use sp1_helios.Store.{
  RedisStore, State, proof_state_key, proof_generation_lock_key, set_proof_state,
  extend_proof_generation_lock, release_proof_generation_lock,
}
use sp1_helios.Store.Runs.{Runs-set_proof_state}
use sp1_helios.Inputs.{Failure}
use sp1_helios.Generate.{
  on_tick, on_cancel, ticks, store_final, updated_proof_state, generate_and_store_proof,
}

module _ {p : Platform} (d : Documented p.redis) (a : Reachable p.redis) (r : RedisStore) where
  open p use {redis}

  Runs-pexpire :
      (k : Text) (n : ℕ) (v : Values) (t : Tasks)
      → (n == 0) ≡ false
      → Runs {p = p} (query (redis.pexpire k n)) v t (ok (if is_some (v k) then 1 else 0)) v t
  unfolding query
  Runs-pexpire k n v t lasts = record {
    run = λ w s.
        let (c, e) = reply_of (redis.pexpire k n w.server) (a.pexpire_answers k n w.server) in
        let (count, same) = d.pexpire_ok k n w.server (redis.pexpire k n w.server).1 c e in
        (
          ap (λ (q : Result Text ℕ × redis.Server). map_err redis_error q.0) e
              ∙ ap ok
                  (count ∙ ap (λ (o : Option Text). if is_some o then 1 else 0) (s.same_values k)),
          record {
            same_values = λ j. ground (arith, same j, s.same_values j, lasts);
            same_tasks = s.same_tasks;
          },
        );
  }

  Runs-extend :
      (id : ProofId) (ms : ℕ) (v : Values) (t : Tasks)
      → (ms == 0) ≡ false
      → is_some (v (proof_generation_lock_key p r id)) ≡ true
      → Runs (extend_proof_generation_lock p r id ms) v t (ok true) v t
  unfolding extend_proof_generation_lock
  Runs-extend id ms v t lasts held =
      Runs-bind _ _
        (Runs-result (ap (λ (b : Bool). ok (if b then 1 else 0)) held)
          (Runs-pexpire _ ms v t lasts))
        (Runs-pure true v t)

  on_tick-Shows :
      (id : ProofId) (v : Values) (t : Tasks) (w : World p)
      → is_some (v (proof_generation_lock_key p r id)) ≡ true
      → Shows w v t
      → (w' : World p) × (on_tick p r id w ≡ (true, w')) × Shows w' v t
  unfolding on_tick
  on_tick-Shows id v t w held s =
      let (extended, s') = (Runs-extend id 21000 v t refl held).run w s in
      ((extend_proof_generation_lock p r id 21000 w).1, rw (extended, on_tick) refl, s')

  -- The lock task goes on, and nothing changes, as long as the lock is there.
  ticks-Shows :
      (id : ProofId) (n : ℕ) (v : Values) (t : Tasks) (w : World p)
      → is_some (v (proof_generation_lock_key p r id)) ≡ true
      → Shows w v t
      → (w' : World p) × (ticks p r id n (true, w) ≡ (true, w')) × Shows w' v t
  unfolding ticks
  ticks-Shows id zero v t w held s = (w, refl, s)
  ticks-Shows id (suc n) v t w held s =
      let (next, tick, s') = on_tick-Shows id v t w held s in
      let (last, eq, s'') = ticks-Shows id n v t next held s' in
      (last, ap (ticks p r id n) tick ∙ eq, s'')

  store_final-Shows :
      (id : ProofId) (state : State p) (text : Text) (sleeps : List ℕ) (v : Values) (t : Tasks)
      (w : World p)
      → p.state_json.to_string state ≡ ok text
      → Shows w v t
      → (w' : World p) × (store_final p r id state sleeps (true, w) ≡ (true, (true, w')))
        × Shows w' (put v (proof_state_key p r id) text) t
  unfolding store_final
  store_final-Shows id state text [] v t w e s =
      let (saved, s') = (Runs-set_proof_state d a r id state text v t e).run w s in
      ((set_proof_state p r id state w).1, rw (saved, store_final) refl, s')
  store_final-Shows id state text (n ∷ sleeps) v t w e s =
      let (saved, s') = (Runs-set_proof_state d a r id state text v t e).run w s in
      ((set_proof_state p r id state w).1, rw (saved, store_final) refl, s')

  release-Shows :
      (id : ProofId) (v : Values) (t : Tasks) (w : World p)
      → Shows w v t
      → Shows
          (release_proof_generation_lock p r id w).1
          (erase v (proof_generation_lock_key p r id))
          t
  unfolding release_proof_generation_lock
  release-Shows id v t w s =
      let key = proof_generation_lock_key p r id in
      let (_, e) = reply_of (redis.del key w.server) (a.del_answers key w.server) in
      let same = d.del_ok key w.server (redis.del key w.server).1 e in
      record {
        same_values = λ j. ground (arith, same j, s.same_values j);
        same_tasks = s.same_tasks;
      }

  -- On a documented server that answers every command, for a task that holds its lock, whatever the outcome, however
  -- often the lock is extended, and if the final state has a text: the task stores the final state
  -- under the key of its id, then releases its lock, and changes nothing else.
  pub generate_and_store_proof-Shows :
      (to_string : Failure → Text) (request : ProofRequest) (id : ProofId)
      (outcome : Result Failure p.ProofOutput) (before : ℕ) (sleeps : List ℕ) (text : Text)
      (v : Values) (t : Tasks) (w : World p)
      → p.state_json.to_string (updated_proof_state p r to_string request outcome) ≡ ok text
      → is_some (v (proof_generation_lock_key p r id)) ≡ true
      → Shows w v t
      → (w' : World p) × (generate_and_store_proof p r to_string request id outcome before sleeps w
          ≡ (true, w'))
        × Shows w'
            (erase (put v (proof_state_key p r id) text) (proof_generation_lock_key p r id))
            t
  unfolding generate_and_store_proof
  generate_and_store_proof-Shows to_string request id outcome before sleeps text v t w e held s =
      let (w1, ticked, s1) = ticks-Shows id before v t w held s in
      let (w2, stored, s2) = store_final-Shows id _ text sleeps v t w1 e s1 in
      (
        (release_proof_generation_lock p r id w2).1,
        rw (ticked, stored, on_cancel) refl,
        release-Shows id _ t w2 s2,
      )
