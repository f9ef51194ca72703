-- ===== src/Store/Runs.antt =====
-- What the store's methods do to the values of the keys, on a documented server that answers.
use sp1_helios.Prelude.{
  codes, ℕ, ◌≡◌, refl, some, not, ◌&&◌, ok, is_some, Text, text_eq, arith, if◌then◌else◌,
}
use sp1_helios.Types.{ProofId}
use sp1_helios.Redis.{Platform, Documented, Reachable, Json}
use sp1_helios.Action.Runs.{
  Values, Tasks, put, erase, Runs, Runs-lift, Runs-bind, Runs-get, Runs-set_ex, Runs-set_nx,
  reply_of,
}
use sp1_helios.Store.{
  RedisStore, State, proof_state_key, finalized_header_key, global_lock_key,
  proof_generation_lock_key, parse_reply, read_json_value, get_proof_state, read_finalized_header,
  set_proof_state, acquire_global_lock, release_global_lock, acquire_proof_generation_lock,
}

-- The values after an attempt to take a lock.
abbrev pub locked : Values → Text → Values
locked v k j = if not (is_some (v k)) && text_eq k j then some (codes "locked") else v j

module _ {p : Platform} (d : Documented p.redis) (a : Reachable p.redis) where
  open p use {redis}

  Runs-read :
      {A : Type 0} (json : Json A) (k : Text) (v : Values) (t : Tasks)
      → Runs {p = p} (read_json_value p json k) v t (parse_reply p json (v k)) v t
  unfolding read_json_value
  Runs-read json k v t = Runs-bind _ _ (Runs-get d a k v t) (Runs-lift _ v t)

  pub Runs-get_proof_state :
      (r : RedisStore) (id : ProofId) (v : Values) (t : Tasks)
      → Runs
          (get_proof_state p r id)
          v
          t
          (parse_reply p p.state_json (v (proof_state_key p r id)))
          v
          t
  unfolding get_proof_state
  Runs-get_proof_state r id v t = Runs-read p.state_json _ v t

  pub Runs-read_finalized_header :
      (r : RedisStore) (v : Values) (t : Tasks)
      → Runs
          (read_finalized_header p r)
          v
          t
          (parse_reply p p.header_json (v (finalized_header_key p r)))
          v
          t
  unfolding read_finalized_header
  Runs-read_finalized_header r v t = Runs-read p.header_json _ v t

  pub Runs-set_proof_state :
      (r : RedisStore) (id : ProofId) (state : State p) (text : Text) (v : Values) (t : Tasks)
      → p.state_json.to_string state ≡ ok text
      → Runs (set_proof_state p r id state) v t (ok tt) (put v (proof_state_key p r id) text) t
  unfolding set_proof_state
  Runs-set_proof_state r id state text v t e =
      rw e (Runs-bind _ _ (Runs-lift (ok text) v t) (Runs-set_ex d a _ text _ v t))

  pub Runs-acquire_global_lock :
      (r : RedisStore) (v : Values) (t : Tasks)
      → Runs
          (acquire_global_lock p r)
          v
          t
          (ok (not (is_some (v (global_lock_key p r)))))
          (locked v (global_lock_key p r))
          t
  unfolding acquire_global_lock
  Runs-acquire_global_lock r v t = Runs-set_nx d a _ _ _ v t

  pub Runs-acquire_proof_generation_lock :
      (r : RedisStore) (id : ProofId) (ms : ℕ) (v : Values) (t : Tasks)
      → Runs
          (acquire_proof_generation_lock p r id ms)
          v
          t
          (ok (not (is_some (v (proof_generation_lock_key p r id)))))
          (locked v (proof_generation_lock_key p r id))
          t
  unfolding acquire_proof_generation_lock
  Runs-acquire_proof_generation_lock r id ms v t = Runs-set_nx d a _ _ _ v t

  pub Runs-release_global_lock :
      (r : RedisStore) (v : Values) (t : Tasks)
      → Runs (release_global_lock p r) v t (ok tt) (erase v (global_lock_key p r)) t
  unfolding release_global_lock
  Runs-release_global_lock r v t = record {
    run = λ w s.
        let key = global_lock_key p r in
        let (_, e) = reply_of (redis.del key w.server) (a.del_answers key w.server) in
        let same = d.del_ok key w.server (redis.del key w.server).1 e in
        (
          refl,
          record {
            same_values = λ j. ground (arith, same j, s.same_values j);
            same_tasks = s.same_tasks;
          },
        );
  }
