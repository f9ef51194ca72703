-- ===== src/Generate/Recovers.antt =====
-- The retry loop of the final write, on a server that fails some of the writes.
use sp1_helios.Prelude.{
  ℕ, zero, suc, ◌≤◌, ◌<◌, ◌≡◌, ◌⊎◌, refl, ap, ◌∙◌, List, [], ◌∷◌, some, Bool, true, false, Result,
  ok, err, is_ok, Text, text_eq_refl, length, arith, Result-cases, inl, inr,
}
use sp1_helios.Types.{ProofRequest, ProofId, ProofServiceError, redis_error}
use sp1_helios.Redis.{Redis, Platform, Documented}
use sp1_helios.Redis.Local.{Local}
use sp1_helios.Action.{World, query, pure, lift, ◌>>=◌}
use sp1_helios.Action.Maintains.{Maintains, Maintains-bind}
use sp1_helios.Store.{
  RedisStore, State, proof_state_key, proof_generation_lock_key, set_proof_state,
  proof_state_ttl_secs, extend_proof_generation_lock, release_proof_generation_lock,
}
use sp1_helios.Store.Keys.{state_ne_generation_lock}
use sp1_helios.Inputs.{Failure}
use sp1_helios.Generate.{
  on_tick, on_cancel, ticks, store_final, updated_proof_state, generate_and_store_proof,
}

-- A server on which an outage of the writes ends: it has a number of failures left, each write that
-- fails uses one up, and the lock's commands add none. Whether those fail is left open.
pub record Outage (r : Redis) : Type 0 where
  pub left : r.Server → ℕ
  pub set_ex_fails :
      (k v : Text) (n : ℕ) (s : r.Server) (e : Text)
      → (r.set_ex_value k v n s).0 ≡ err e
      → left (r.set_ex_value k v n s).1 < left s
  pub pexpire_left : (k : Text) (n : ℕ) (s : r.Server) → left (r.pexpire k n s).1 ≤ left s
  pub del_left : (k : Text) (s : r.Server) → left (r.del k s).1 ≤ left s

module _ {p : Platform} (d : Documented p.redis) (l : Local p.redis p.redis.lookup)
    (o : Outage p.redis) (r : RedisStore) where
  open p use {redis}

  abbrev AtMost : ℕ → World p → Type 0
  AtMost m w = o.left w.server ≤ m

  Maintains-extend :
      (id : ProofId) (ms m : ℕ) → Maintains (AtMost m) (extend_proof_generation_lock p r id ms)
  unfolding extend_proof_generation_lock query pure
  Maintains-extend id ms m =
      Maintains-bind _ _
        (record {
          maintains = λ w h.
              omega (arith, o.pexpire_left (proof_generation_lock_key p r id) ms w.server, h);
        })
        λ res. record { maintains = λ w h. h }

  on_tick-left : (id : ProofId) (w : World p) → o.left (on_tick p r id w).1.server ≤ o.left w.server
  unfolding on_tick release_proof_generation_lock
  on_tick-left id w =
      let extended : o.left (extend_proof_generation_lock p r id 21000 w).1.server
          ≤ o.left w.server =
        (Maintains-extend id 21000 (o.left w.server)).maintains w (omega arith) in
      elim (Result-cases (extend_proof_generation_lock p r id 21000 w).0) [
        | inl (true, q) ↦ rw (q, on_tick) extended
        | inl (false, q) ↦ rw (q, on_tick) extended
        | inr (e, q) ↦
            rw (q, on_tick)
              (omega (
                arith,
                extended,
                o.del_left (proof_generation_lock_key p r id)
                    (extend_proof_generation_lock p r id 21000 w).1.server,
              ))
      ]

  ticks-left :
      (id : ProofId) (n : ℕ) (alive : Bool) (w : World p)
      → o.left (ticks p r id n (alive, w)).1.server ≤ o.left w.server
  unfolding ticks
  ticks-left id zero alive w = omega arith
  ticks-left id (suc n) false w = omega arith
  ticks-left id (suc n) true w =
      let (alive, w') = on_tick p r id w in
      omega (arith, ticks-left id n alive w', on_tick-left id w)

  -- The write is acknowledged, and then the state is there, or it fails, and uses up a failure.
  set_proof_state-left :
      (id : ProofId) (state : State p) (text : Text) (w : World p)
      → p.state_json.to_string state ≡ ok text
      → let (res, w') = set_proof_state p r id state w in
        ((res ≡ ok tt) × (redis.lookup w'.server (proof_state_key p r id) ≡ some text))
        ⊎ ((e : ProofServiceError) × (res ≡ err e) × (o.left w'.server < o.left w.server))
  unfolding set_proof_state query lift ◌>>=◌
  set_proof_state-left id state text w e =
      let key = proof_state_key p r id in
      elim (Result-cases (redis.set_ex_value key text proof_state_ttl_secs w.server).0) [
        | inl (done, q) ↦
            rw (e, q)
              (inl (
                refl,
                d.set_ex_ok key text proof_state_ttl_secs w.server
                      (redis.set_ex_value key text proof_state_ttl_secs w.server).1
                      (ap (λ x. (x, (redis.set_ex_value key text proof_state_ttl_secs w.server).1))
                        q)
                      key
                    ∙ ground (arith, text_eq_refl key),
              ))
        | inr (why, q) ↦
            rw (e, q)
              (inr (
                redis_error why,
                refl,
                o.set_ex_fails key text proof_state_ttl_secs w.server why q,
              ))
      ]

  store_final-left :
      (id : ProofId) (state : State p) (text : Text) (sleeps : List ℕ) (alive : Bool) (w : World p)
      → p.state_json.to_string state ≡ ok text
      → o.left w.server ≤ length sleeps
      → let (stored, (alive', w')) = store_final p r id state sleeps (alive, w) in
        (stored ≡ true) × (redis.lookup w'.server (proof_state_key p r id) ≡ some text)
  unfolding store_final
  store_final-left id state text [] alive w e few = elim (set_proof_state-left id state text w e) [
    | inl (done, there) ↦ (ap is_ok done, there)
    | inr (why, failed, less) ↦ absurd (omega (arith, less, few))
  ]
  store_final-left id state text (n ∷ sleeps) alive w e few =
      elim (set_proof_state-left id state text w e) [
        | inl (done, there) ↦ rw (done, store_final) (refl, there)
        | inr (why, failed, less) ↦
            let w' = (set_proof_state p r id state w).1 in
            let (alive', w'') = ticks p r id n (alive, w') in
            rw (failed, store_final)
              (store_final-left id state text sleeps alive' w'' e
                (omega (arith, less, few, ticks-left id n alive w')))
      ]

  on_cancel-state :
      (id : ProofId) (alive : Bool) (w : World p)
      → redis.lookup (on_cancel p r id alive w).server (proof_state_key p r id)
        ≡ redis.lookup w.server (proof_state_key p r id)
  unfolding on_cancel release_proof_generation_lock
  on_cancel-state id true w =
      l.del_keeps (proof_generation_lock_key p r id) w.server (proof_state_key p r id)
        (state_ne_generation_lock p r id id)
  on_cancel-state id false w = refl

  -- On a documented server whose commands change no key but their own, where an outage of the writes
  -- ends within the attempts that are made, and if the final state has a text: whatever the outcome
  -- of the proof, and whatever becomes of its lock meanwhile, the task ends, and the final state is
  -- in the store.
  pub generate_and_store_proof-Recovers :
      (to_string : Failure → Text) (request : ProofRequest) (id : ProofId)
      (outcome : Result Failure p.ProofOutput) (before : ℕ) (sleeps : List ℕ) (text : Text)
      (w : World p)
      → p.state_json.to_string (updated_proof_state p r to_string request outcome) ≡ ok text
      → o.left w.server ≤ length sleeps
      → let (ended, w') =
          generate_and_store_proof p r to_string request id outcome before sleeps w in
        (ended ≡ true) × (redis.lookup w'.server (proof_state_key p r id) ≡ some text)
  unfolding generate_and_store_proof
  generate_and_store_proof-Recovers to_string request id outcome before sleeps text w e few =
      let (alive, w1) = ticks p r id before (true, w) in
      let state = updated_proof_state p r to_string request outcome in
      let (alive', w2) = (store_final p r id state sleeps (alive, w1)).1 in
      let (stored, there) =
        store_final-left id state text sleeps alive w1 e
          (omega (arith, few, ticks-left id before true w)) in
      rw (stored, generate_and_store_proof) (refl, on_cancel-state id alive' w2 ∙ there)
