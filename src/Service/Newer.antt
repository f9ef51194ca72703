-- ===== src/Service/Newer.antt =====
-- What a success of `process_new_finalized_header` has left in the store, from any world.
use sp1_helios.Prelude.{
  ◌≡◌, refl, sym, ap, ◌∙◌, subst, List, ◌∷◌, Option, some, Bool, true, false, ok, Text, text_eq,
  text_eq_refl, length, arith, inl, inr, All, All-map,
}
use sp1_helios.Types.{B256, ProofId}
use sp1_helios.Redis.{Platform, Documented, Reachable, Write, set}
use sp1_helios.Redis.Local.{target, written-Other, Local-lookup}
use sp1_helios.Action.{Action, World, query}
use sp1_helios.Action.Runs.{reply_of}
use sp1_helios.Action.Outcome.{
  Yields, Anywhere, Yields-pure, Yields-lift, Yields-attempt, Yields-if, Yields-bind, Yields-any,
}
use sp1_helios.Store.{
  RedisStore, State, parse_reply, finalized_header_key, global_lock_key, read_finalized_header,
  state_writes, update_finalized_header_and_proof_states, release_global_lock,
}
use sp1_helios.Store.Keys.{header_ne_global_lock}
use sp1_helios.Store.Runs.{Runs-read_finalized_header}
use sp1_helios.Store.Keeps.{Spares, Spared, state_writes-Spared, Keeps-release_global_lock}
use sp1_helios.Service.{
  should_update, apply_new_header, process_new_finalized_header_locked, process_header_with,
  with_global_lock, process_new_finalized_header, spawn_all,
}
use sp1_helios.Service.Headers.{locks-header_key, Runs-spawn_all}
use sp1_helios.Service.Advance.{should_update-cases}
use sp1_helios.Service.Readable.{
  header_value, StoredFrom, StoredFrom-same, IsHeaderKey, read_back, other_states,
}

module _ {p : Platform} (d : Documented p.redis) (a : Reachable p.redis) (r : RedisStore) where
  open p use {spec, redis}

  pub spawn_all-header :
      (states : List (State p)) (w : World p)
      → header_value p r (spawn_all p r states w).1 ≡ header_value p r w
  spawn_all-header states w =
      let (_, s) =
        (Runs-spawn_all d a r states (redis.lookup w.server) w.spawned).run w
          (record { same_values = λ j. refl; same_tasks = refl }) in
      s.same_values _ ∙ locks-header_key p r (redis.lookup w.server) states

  module _ (digits : (b : B256) → length (p.to_hex b) ≡ 64)
      (reads : (h : spec.Header) (json : Text)
        → p.header_json.to_string h ≡ ok json
        → p.header_json.from_str json ≡ ok h) where
    abbrev Stores : spec.Header → {A : Type 0} → A → World p → Type 0
    Stores latest _ w = StoredFrom p r (spec.beacon_slot latest) w

    pub exec-Stores :
        (latest : spec.Header) (json : Text) (ws : List Write)
        → p.header_json.to_string latest ≡ ok json
        → All (λ c. Spares (IsHeaderKey p r) (target c)) ws
        → Yields Anywhere
            (query (redis.exec (set (finalized_header_key p r) json ∷ ws)))
            (Stores latest)
    unfolding query
    exec-Stores latest json ws e spared = record {
      yields = λ w x u q.
          let commands = set (finalized_header_key p r) json ∷ ws in
          let (_, done) =
            reply_of (redis.exec commands w.server) (a.exec_answers commands w.server) in
          let value : redis.lookup (redis.exec commands w.server).1 (finalized_header_key p r)
              ≡ some json =
            d.exec_ok commands w.server _ done (finalized_header_key p r)
            ∙ written-Other (finalized_header_key p r) _ ws
                (All-map _ _ (λ c (h : Spares (IsHeaderKey p r) (target c)). h _ refl) ws spared)
            ∙ ground (arith, text_eq_refl (finalized_header_key p r)) in
          record {
            header = latest;
            readable = read_back p r latest json _ (reads latest json e) value;
            as_new = omega arith;
          };
    }

    update-Stores :
        (latest : spec.Header) (states : List (ProofId × State p))
        → Yields Anywhere
            (update_finalized_header_and_proof_states p r latest states)
            (Stores latest)
    unfolding update_finalized_header_and_proof_states
    update-Stores latest states =
        Yields-bind {R = λ json w. p.header_json.to_string latest ≡ ok json} _ _
          (Yields-lift _ (λ w x json e. ground arith))
          λ json.
            Yields-bind
              {R = λ ws w.
                (p.header_json.to_string latest ≡ ok json) × (state_writes p r states ≡ ok ws)}
              _ _ (Yields-lift _ (λ w x ws e. (x, e)))
              λ ws. record {
                yields = λ w (e, e').
                    let spared = subst (Spared (IsHeaderKey p r)) e' (
                      state_writes-Spared p r (IsHeaderKey p r) states (other_states p r digits)) in
                    (exec-Stores latest json ws e spared).yields w tt;
              }

    apply_new_header-Stores :
        (latest : spec.Header) → Yields Anywhere (apply_new_header p r latest) (Stores latest)
    unfolding apply_new_header
    apply_new_header-Stores latest = Yields-bind _ _ (Yields-any _) λ waiting.
        Yields-bind _ _ (Yields-any _) λ payload.
          Yields-bind _ _ (update-Stores latest _)
            λ _. record { yields = λ w x u e. StoredFrom-same p r (spawn_all-header _ w) x }

    locked-Stores :
        (latest : spec.Header)
        → Yields Anywhere (process_new_finalized_header_locked p r latest) (Stores latest)
    unfolding process_new_finalized_header_locked
    locked-Stores latest =
        Yields-bind {R = λ stored w. parse_reply p p.header_json (header_value p r w) ≡ ok stored} _
          _ reading
          λ stored.
            Yields-if (should_update p r stored latest) _ _
              (λ newer. record { yields = λ w x. (apply_new_header-Stores latest).yields w tt })
              (λ older. Yields-pure tt (λ w e. kept stored older w e))
      where
        reading :
            Yields Anywhere
              (read_finalized_header p r)
              (λ stored w. parse_reply p p.header_json (header_value p r w) ≡ ok stored)
        reading = record {
          yields = λ w x stored e.
              let (read, s) =
                (Runs-read_finalized_header d a r (redis.lookup w.server) w.spawned).run w
                  (record { same_values = λ j. refl; same_tasks = refl }) in
              ap (λ o. parse_reply p p.header_json o) (s.same_values (finalized_header_key p r))
              ∙ sym read
              ∙ e;
        }

        kept :
            (stored : Option spec.Header)
            → should_update p r stored latest ≡ false
            → (w : World p) → parse_reply p p.header_json (header_value p r w) ≡ ok stored
            → StoredFrom p r (spec.beacon_slot latest) w
        kept stored older w e = elim (should_update-cases p r stored latest) [
          | inl (_, (old, q, le)) ↦ record { header = old; readable = e ∙ ap ok q; as_new = le }
          | inr (newer, _) ↦ absurd (ground arith)
        ]

    Yields-with_global_lock :
        {A : Type 0} {Q : A → World p → Type 0} (f : Bool → Action p A)
        → ((acquired : Bool) → Yields Anywhere (f acquired) Q)
        → ((x : A) (w : World p) → Q x w → Q x (release_global_lock p r w).1)
        → Yields Anywhere (with_global_lock p r f) Q
    unfolding with_global_lock
    Yields-with_global_lock {Q} f h stable = Yields-bind _ _ (Yields-any _) λ acquired.
        Yields-bind _ _ (Yields-attempt _ (h acquired)) λ result.
          Yields-bind {R = λ _ w. (x : _) → result ≡ ok x → Q x w} _ _
            (record { yields = λ w g u e x q. stable x w (g x q) })
            λ _. Yields-lift result (λ w g x q. g x q)

    -- On a documented server that answers every command, where ids print as 64 digits and serde_json
    -- reads headers back: when `process_new_finalized_header` answers that the header is stored, the
    -- store has a header that can be read, of the same slot or a later one, whether it was this call
    -- that stored it or an earlier one.
    pub process_new_finalized_header-StoredFrom :
        (latest : spec.Header) (w : World p)
        → (process_new_finalized_header p r latest w).0 ≡ ok true
        → StoredFrom p r (spec.beacon_slot latest) (process_new_finalized_header p r latest w).1
    unfolding process_new_finalized_header process_header_with
    process_new_finalized_header-StoredFrom latest w e =
        (Yields-with_global_lock {Q = λ x u. x ≡ true → StoredFrom p r (spec.beacon_slot latest) u}
            (process_header_with p r latest) header_with
            (λ x u h q. StoredFrom-same p r (released u) (h q))).yields
          w tt true e refl
      where
        header_with :
            (acquired : Bool)
            → Yields Anywhere
                (process_header_with p r latest acquired)
                (λ x u. x ≡ true → StoredFrom p r (spec.beacon_slot latest) u)
        header_with true = Yields-bind _ _ (locked-Stores latest) λ _. Yields-pure true (λ u s q. s)
        header_with false = Yields-pure false (λ u x q. absurd (ground arith))

        released :
            (u : World p) → header_value p r (release_global_lock p r u).1 ≡ header_value p r u
        released u =
            (Keeps-release_global_lock (Local-lookup d a) r {K = IsHeaderKey p r} (λ j q.
                subst (λ k. text_eq (global_lock_key p r) k ≡ false) (sym q)
                  (header_ne_global_lock p r))).keys
              u _ refl
