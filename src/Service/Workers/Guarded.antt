-- ===== src/Service/Workers/Guarded.antt =====
-- The invariant of the workers, and the steps that grant no lock.
use sp1_helios.Prelude.{
  ℕ, ◌<◌, ◌≡◌, refl, ap, ◌∙◌, subst, ◌∷◌, ◌++◌, Option, some, true, is_some, Text, All, All-map,
  All-remove, All-both, Pairwise-remove,
}
use sp1_helios.Types.{ProofRequest, ProofId}
use sp1_helios.Redis.{Platform, Documented, Reachable}
use sp1_helios.Redis.Local.{Local-lookup}
use sp1_helios.Redis.Expiring.{Expiring}
use sp1_helios.Action.{World}
use sp1_helios.Action.Runs.{Values, Tasks, Shows, reply_of}
use sp1_helios.Store.{RedisStore, release_proof_generation_lock}
use sp1_helios.Store.Keeps.{text_eq_swap}
use sp1_helios.Service.Orphans.{task_lock, Apart}
use sp1_helios.Service.Exclusive.{Exclusive, Exclusive-erase, Exclusive-remove}
use sp1_helios.Service.Workers.{Call, Timed, after_end, after_pass}
use sp1_helios.Service.Workers.Calls.{Call-Kept}

module _ (p : Platform) (r : RedisStore) (e : Expiring p.redis) where
  -- The lock of the task has as much time left as it was granted.
  abbrev pub Lasts : Timed p r → ProofRequest × ProofId → Type 0
  Lasts x task =
      e.remaining x.world.server (task_lock p r task) ≡ some (x.granted (task_lock p r task))

  -- Each running task holds its lock, no two run for one lock, and each lock has the time left that
  -- was granted.
  pub record Guarded (x : Timed p r) : Type 0 where
    pub exclusive : Exclusive p r (p.redis.lookup x.world.server) x.world.spawned
    pub lasting : All (Lasts x) x.world.spawned

module _ (p : Platform) (r : RedisStore) where
  -- The values and the tasks that are shown decide exclusion.
  pub Exclusive-Shows :
      (u : World p) (v : Values) (t : Tasks)
      → Shows u v t
      → Exclusive p r v t
      → Exclusive p r (p.redis.lookup u.server) u.spawned
  Exclusive-Shows u v t s x = record {
    held = rw s.same_tasks (
        All-map _ _ (λ task h. ap (λ (o : Option Text). is_some o) (s.same_values _) ∙ h) t x.held);
    apart = rw s.same_tasks x.apart;
  }

module _ {p : Platform} (d : Documented p.redis) (a : Reachable p.redis) (r : RedisStore)
    (e : Expiring p.redis) where
  open p use {redis}

  pub calls-Guarded :
      (x : Timed p r) {u : World p}
      → Call p r x.world u
      → Guarded p r e x
      → Guarded p r e (record x { world = u })
  calls-Guarded x call g =
      let values = Call-Kept p r (Local-lookup d a) call in
      let times = Call-Kept p r e.elsewhere call in
      record {
        exclusive = record {
          held = rw values.tasks (
              All-map _ _
                (λ task h. ap (λ (o : Option Text). is_some o) (values.locks (task.1)) ∙ h) _
                g.exclusive.held);
          apart = rw values.tasks g.exclusive.apart;
        };
        lasting = rw values.tasks (All-map _ _ (λ task h. times.locks (task.1) ∙ h) _ g.lasting);
      }

  pub ends-Guarded :
      (x : Timed p r) (before : Tasks) (task : ProofRequest × ProofId) (after : Tasks)
      → x.world.spawned ≡ before ++ task ∷ after
      → Guarded p r e x
      → Guarded p r e (after_end p r x task.1 (before ++ after))
  unfolding release_proof_generation_lock
  ends-Guarded x before task after q g =
      let key = task_lock p r task in
      let (_, done) = reply_of (redis.del key x.world.server) (a.del_answers key x.world.server) in
      let values = redis.lookup x.world.server in
      let exclusive = subst (Exclusive p r values) q g.exclusive in
      let others =
        (Pairwise-remove (Apart p r) before task after (λ s t. text_eq_swap _ _)
          exclusive.apart).1 in
      record {
        exclusive =
            Exclusive-Shows p r _ _ _
              (record { same_values = d.del_ok key x.world.server _ done; same_tasks = refl })
              (Exclusive-erase p r values before task after exclusive);
        lasting =
            All-both (Lasts p r e (after_end p r x task.1 (before ++ after))) (before ++ after)
              (λ t apart h. e.elsewhere.del_keeps key x.world.server _ apart ∙ h) others
              (All-remove (Lasts p r e x) before task after
                (subst (All (Lasts p r e x)) q g.lasting)).1;
      }

  pub dies-Guarded :
      (x : Timed p r) (before : Tasks) (task : ProofRequest × ProofId) (after : Tasks)
      → x.world.spawned ≡ before ++ task ∷ after
      → Guarded p r e x
      → Guarded p r e (record x { world = record (x.world) { spawned = before ++ after } })
  dies-Guarded x before task after q g = record {
    exclusive =
        Exclusive-remove p r _ before task after
          (subst (Exclusive p r (redis.lookup x.world.server)) q g.exclusive);
    lasting =
        (All-remove (Lasts p r e x) before task after (subst (All (Lasts p r e x)) q g.lasting)).1;
  }

  pub passes-Guarded :
      (x : Timed p r) (n : ℕ)
      → All (λ task. n < x.granted (task_lock p r task)) x.world.spawned
      → Guarded p r e x
      → Guarded p r e (after_pass p r e x n)
  passes-Guarded x n in_time g = record {
    exclusive = record {
      held =
          All-both
            (λ task. is_some (redis.lookup (e.pass n x.world.server) (task_lock p r task)) ≡ true)
            x.world.spawned
            (λ task (l, u) h.
              ap (λ (o : Option Text). is_some o) (e.pass_keeps n _ x.world.server _ l u) ∙ h)
            (All-both (λ task. Lasts p r e x task × (n < x.granted (task_lock p r task)))
              x.world.spawned (λ task l u. (l, u)) g.lasting in_time)
            g.exclusive.held;
      apart = g.exclusive.apart;
    };
    lasting =
        All-both (Lasts p r e (after_pass p r e x n)) x.world.spawned
          (λ task l u. e.pass_takes n _ x.world.server _ l u) g.lasting in_time;
  }
