-- ===== src/Service/Onward.antt =====
-- The stored header never goes back to an earlier slot, whatever `process_new_finalized_header` and
-- the other parts of a round return.
use sp1_helios.Prelude.{
  ℕ, ◌≤◌, ◌≡◌, refl, sym, ap, ◌∙◌, subst, ◌∷◌, List, some, true, false, Bool, Result, ok, map_err,
  Text, text_eq, length, arith,
}
use sp1_helios.Types.{B256, ProofId, waiting_for_finality, redis_error}
use sp1_helios.Redis.{Platform, Documented, Reachable, set}
use sp1_helios.Redis.Local.{Local-lookup}
use sp1_helios.Action.{Action, World, pure, query, ◌>>=◌}
use sp1_helios.Action.Runs.{reply_of}
use sp1_helios.Action.Maintains.{
  Maintains, Maintains-lift, Maintains-attempt, Maintains-if, Maintains-bind, Maintains-bind_lift,
}
use sp1_helios.Store.{
  RedisStore, State, finalized_header_key, global_lock_key, read_finalized_header,
  update_finalized_header_and_proof_states,
}
use sp1_helios.Store.Keys.{header_ne_global_lock}
use sp1_helios.Store.Runs.{Runs-read_finalized_header}
use sp1_helios.Store.Keeps.{
  Keeps, Spares, Spared, state_writes-Spared, Keeps-find_requests_by_status,
  Keeps-acquire_global_lock, Keeps-release_global_lock, Keeps-pure,
}
use sp1_helios.Service.{
  should_update, apply_new_header, process_new_finalized_header_locked, process_header_with,
  with_global_lock, process_new_finalized_header, update_redis_state,
}
use sp1_helios.Service.Readable.{
  StoredFrom, StoredFrom-same, StoredFrom-earlier, IsHeaderKey, other_states,
}
use sp1_helios.Service.Newer.{spawn_all-header, exec-Stores}

module _ (p : Platform) (r : RedisStore) where
  other_lock : Spares (IsHeaderKey p r) (global_lock_key p r)
  other_lock j q =
      subst (λ k. text_eq (global_lock_key p r) k ≡ false) (sym q) (header_ne_global_lock p r)

module _ {p : Platform} (d : Documented p.redis) (a : Reachable p.redis) (r : RedisStore)
    (digits : (b : B256) → length (p.to_hex b) ≡ 64)
    (reads : (h : p.spec.Header) (json : Text)
      → p.header_json.to_string h ≡ ok json
      → p.header_json.from_str json ≡ ok h)
    (n : ℕ) where
  open p use {spec, redis}

  abbrev From : World p → Type 0
  From = StoredFrom p r n

  Maintains-Keeps :
      {A : Type 0} (m : Action p A) → Keeps redis.lookup (IsHeaderKey p r) m → Maintains From m
  Maintains-Keeps m k = record { maintains = λ w s. StoredFrom-same p r (k.keys w _ refl) s }

  update-Maintains :
      (latest : spec.Header) (states : List (ProofId × State p))
      → n ≤ spec.beacon_slot latest
      → Maintains From (update_finalized_header_and_proof_states p r latest states)
  unfolding update_finalized_header_and_proof_states query
  update-Maintains latest states le = Maintains-bind_lift _ _ λ json e.
      Maintains-bind_lift _ _ λ ws e'.
        let spared =
          subst (Spared (IsHeaderKey p r)) e'
            (state_writes-Spared p r (IsHeaderKey p r) states (other_states p r digits)) in
        let commands = set (finalized_header_key p r) json ∷ ws in
        record {
          maintains = λ w s.
              let (u, q) =
                reply_of (redis.exec commands w.server) (a.exec_answers commands w.server) in
              StoredFrom-earlier p r le (
                (exec-Stores d a r digits reads latest json ws (ground (arith, e)) spared).yields w
                  tt u
                  (ap (λ (x : Result Text (Unit {0}) × redis.Server). map_err redis_error x.0) q));
        }

  apply_new_header-Maintains :
      (latest : spec.Header)
      → n ≤ spec.beacon_slot latest
      → Maintains From (apply_new_header p r latest)
  unfolding apply_new_header
  apply_new_header-Maintains latest le =
      Maintains-bind _ _
        (Maintains-Keeps _
          (Keeps-find_requests_by_status (Local-lookup d a) r waiting_for_finality))
        λ waiting. Maintains-bind_lift _ _ λ payload e.
          Maintains-bind _ _ (update-Maintains latest _ le)
            λ _. record { maintains = λ w s. StoredFrom-same p r (spawn_all-header d a r _ w) s }

  locked-Maintains :
      (latest : spec.Header) → Maintains From (process_new_finalized_header_locked p r latest)
  unfolding process_new_finalized_header_locked ◌>>=◌ should_update
  locked-Maintains latest = record {
    maintains = λ w s.
        let (read, shown) =
          (Runs-read_finalized_header d a r (redis.lookup w.server) w.spawned).run w
            (record { same_values = λ j. refl; same_tasks = refl }) in
        let same : From (read_finalized_header p r w).1 =
          StoredFrom-same p r (shown.same_values _) s in
        rw (read ∙ s.readable, ◌>>=◌)
          ((Maintains-if (should_update p r (some s.header) latest) (apply_new_header p r latest)
              (pure tt)
              (λ newer. apply_new_header-Maintains latest (ground (arith, newer, s.as_new)))
              (λ older. Maintains-Keeps _ (Keeps-pure tt))).maintains
            (read_finalized_header p r w).1 same);
  }

  process_header_with-Maintains :
      (latest : spec.Header) (acquired : Bool)
      → Maintains From (process_header_with p r latest acquired)
  unfolding process_header_with
  process_header_with-Maintains latest true =
      Maintains-bind _ _ (locked-Maintains latest) λ _. Maintains-Keeps _ (Keeps-pure true)
  process_header_with-Maintains latest false = Maintains-Keeps _ (Keeps-pure false)

  process_new_finalized_header-Maintains :
      (latest : spec.Header) → Maintains From (process_new_finalized_header p r latest)
  unfolding process_new_finalized_header with_global_lock
  process_new_finalized_header-Maintains latest =
      Maintains-bind _ _
        (Maintains-Keeps _ (Keeps-acquire_global_lock (Local-lookup d a) r (other_lock p r)))
        λ acquired.
          Maintains-bind _ _ (Maintains-attempt _ (process_header_with-Maintains latest acquired))
            λ result.
              Maintains-bind _ _
                (Maintains-Keeps _
                  (Keeps-release_global_lock (Local-lookup d a) r (other_lock p r)))
                λ _. Maintains-lift result

  pub update_redis_state-Maintains :
      (latest : spec.Header) (flag : Bool) → Maintains From (update_redis_state p r latest flag)
  unfolding update_redis_state
  update_redis_state-Maintains latest flag =
      Maintains-bind _ _ (Maintains-attempt _ (process_new_finalized_header-Maintains latest))
        λ res. Maintains-Keeps _ (Keeps-pure _)
