-- ===== src/Service/Workers/Leases.antt =====
-- The proof generation locks as leases: they expire, and the lock tasks extend them.
use sp1_helios.Prelude.{
  ℕ, ◌<◌, ◌≡◌, refl, sym, ap, ◌∙◌, subst, some, true, ok, is_some, text_eq, eq_of_text_eq, arith,
  All-both, Bool-cases, inl, inr, Bool, Result, err, map_err, if◌then◌else◌, ◌==◌,
}
use sp1_helios.Types.{ProofId, ProofServiceError, redis_error}
use sp1_helios.Redis.{Platform, Documented, Reachable}
use sp1_helios.Redis.Expiring.{Expiring}
use sp1_helios.Action.{World, pure, proceed, ◌>>=◌}
use sp1_helios.Action.Runs.{reply_of}
use sp1_helios.Store.{RedisStore, proof_generation_lock_key, extend_proof_generation_lock}
use sp1_helios.Service.Orphans.{task_lock}
use sp1_helios.Service.Workers.{
  Timed, grant, after_extension, Step, Steps, calls, starts, extends, ends, dies, passes, here,
  next,
}
use sp1_helios.Service.Workers.Guarded.{
  Lasts, Guarded, Exclusive-Shows, calls-Guarded, ends-Guarded, dies-Guarded, passes-Guarded,
}
use sp1_helios.Service.Workers.Starts.{starts-Guarded}

module _ {p : Platform} (d : Documented p.redis) (a : Reachable p.redis) (r : RedisStore)
    (e : Expiring p.redis) where
  open p use {redis}

  proceed-pure :
      (res : Result ProofServiceError ℕ) (w : World p)
      → (proceed res (λ c. pure {p = p} (c == 1)) w).1 ≡ w
  unfolding pure
  proceed-pure (ok c) w = refl
  proceed-pure (err x) w = refl

  extended :
      (id : ProofId) (ms : ℕ) (w : World p)
      → (extend_proof_generation_lock p r id ms w).1
        ≡ record w { server = (redis.pexpire (proof_generation_lock_key p r id) ms w.server).1 }
  unfolding extend_proof_generation_lock ◌>>=◌
  extended id ms w =
      let reply = redis.pexpire (proof_generation_lock_key p r id) ms w.server in
      proceed-pure (map_err redis_error reply.0) (record w { server = reply.1 })

  extends-Guarded :
      (x : Timed p r) (id : ProofId) (ms : ℕ)
      → 0 < ms
      → Guarded p r e x
      → Guarded p r e (after_extension p r x id ms)
  extends-Guarded x id ms pos g =
      let key = proof_generation_lock_key p r id in
      let server = x.world.server in
      let (c, q) = reply_of (redis.pexpire key ms server) (a.pexpire_answers key ms server) in
      let (count, same) = d.pexpire_ok key ms server _ c q in
      let y : Timed p r = record {
        world = record (x.world) { server = (redis.pexpire key ms server).1 };
        granted = grant p r x.granted key ms;
      } in
      subst (λ w. Guarded p r e (record y { world = w })) (sym (extended id ms x.world))
        (record {
          exclusive =
              Exclusive-Shows p r y.world (redis.lookup server) x.world.spawned
                (record { same_values = λ j. ground (arith, same j, pos); same_tasks = refl })
                g.exclusive;
          lasting =
              All-both (Lasts p r e y) x.world.spawned
                (λ task l h. elim (Bool-cases (text_eq key (task_lock p r task))) [
                  | inr other ↦ rw other (e.elsewhere.pexpire_keeps key ms server _ other ∙ l)
                  | inl hit ↦
                      let same_key = eq_of_text_eq key (task_lock p r task) hit in
                      let held : is_some (redis.lookup server key) ≡ true =
                        subst (λ i. is_some (redis.lookup server i) ≡ true) (sym same_key) h in
                      let extended_one : redis.pexpire key ms server
                          ≡ (ok 1, (redis.pexpire key ms server).1) =
                        subst
                          (λ i.
                            redis.pexpire key ms server ≡ (ok i, (redis.pexpire key ms server).1))
                          (count ∙ ap (λ (b : Bool). if b then 1 else 0) held) q in
                      rw hit (
                        subst (λ i. e.remaining (redis.pexpire key ms server).1 i ≡ some ms)
                          same_key (e.pexpire_grants key ms server _ extended_one pos))
                ])
                g.lasting g.exclusive.held;
        })

  Step-Guarded : {x y : Timed p r} → Step p r e x y → Guarded p r e x → Guarded p r e y
  Step-Guarded {x} (calls call) g = calls-Guarded d a r e x call g
  Step-Guarded {x} (starts request) g = starts-Guarded d a r e x request g
  Step-Guarded {x} (extends id ms pos) g = extends-Guarded x id ms pos g
  Step-Guarded {x} (ends before task after q) g = ends-Guarded d a r e x before task after q g
  Step-Guarded {x} (dies before task after q) g = dies-Guarded d a r e x before task after q g
  Step-Guarded {x} (passes n in_time) g = passes-Guarded d a r e x n in_time g

  -- On a documented server that answers every command, and on which keys expire: whatever calls the
  -- workers make of the store, in any order, and whatever time passes, also if workers die, each
  -- running task holds its lock and no two run for one lock, and the server has granted each lock
  -- the time that it was given when it was acquired or last extended; provided that it was so at
  -- first, and that no running task is left for that time without an extension of its lock.
  pub Steps-Guarded : {x y : Timed p r} → Steps p r e x y → Guarded p r e x → Guarded p r e y
  Steps-Guarded here g = g
  Steps-Guarded (next steps step) g = Step-Guarded step (Steps-Guarded steps g)
