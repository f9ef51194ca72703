-- ===== src/Action/Runs.antt =====
-- The service's view of the server: the live value of each key and the tasks spawned. An action
-- that runs as a function of this view is described by its result and the view after it.
use sp1_helios.Prelude.{
  ℕ, ◌≡◌, refl, sym, ap, fun_ext, ◌∙◌, List, [], ◌∷◌, ◌++◌, Option, none, some, Bool, true, not,
  ◌&&◌, Result, ok, err, is_ok, is_some, map_err, Text, text_eq, arith, if◌then◌else◌, subst,
}
use sp1_helios.Types.{ProofRequest, ProofId, ProofServiceError, redis_error}
use sp1_helios.Redis.{Platform, Documented, Reachable, Write, written}
use sp1_helios.Action.{Action, World, pure, raise, lift, query, attempt, spawn, proceed, ◌>>=◌}

abbrev pub Values : Type 0
Values = Text → Option Text

abbrev pub Tasks : Type 0
Tasks = List (ProofRequest × ProofId)

abbrev pub put : Values → Text → Text → Values
put values k v j = if text_eq k j then some v else values j

abbrev pub erase : Values → Text → Values
erase values k j = if text_eq k j then none else values j

-- The world shows these values and tasks.
pub record Shows {p : Platform} (w : World p) (values : Values) (tasks : Tasks) : Type 0 where
  pub same_values : (j : Text) → p.redis.lookup w.server j ≡ values j
  pub same_tasks : w.spawned ≡ tasks

-- From any world that shows `values` and `tasks`, the action returns `result` and leaves a world
-- that shows `values'` and `tasks'`.
pub record Runs {p : Platform} {A : Type 0} (m : Action p A) (values : Values) (tasks : Tasks)
    (result : Result ProofServiceError A) (values' : Values) (tasks' : Tasks) : Type 0 where
  pub run : (w : World p) → Shows w values tasks → ((m w).0 ≡ result) × Shows (m w).1 values' tasks'

module _ {p : Platform} {A : Type 0} where
  pub Runs-pure : (a : A) (v : Values) (t : Tasks) → Runs {p = p} (pure a) v t (ok a) v t
  unfolding pure
  Runs-pure a v t = record { run = λ w s. (refl, s) }

  pub Runs-raise :
      (e : ProofServiceError) (v : Values) (t : Tasks)
      → Runs {p = p} {A = A} (raise e) v t (err e) v t
  unfolding raise
  Runs-raise e v t = record { run = λ w s. (refl, s) }

  pub Runs-lift :
      (r : Result ProofServiceError A) (v : Values) (t : Tasks) → Runs {p = p} (lift r) v t r v t
  unfolding lift
  Runs-lift r v t = record { run = λ w s. (refl, s) }

  pub Runs-attempt :
      {m : Action p A} {r : Result ProofServiceError A} {v v' : Values} {t t' : Tasks}
      → Runs m v t r v' t'
      → Runs (attempt m) v t (ok r) v' t'
  unfolding attempt
  Runs-attempt h = record { run = λ w s. (ap ok (h.run w s).0, (h.run w s).1) }

  -- An action on the same worlds, with a result that is equal.
  pub Runs-result :
      {m : Action p A} {r r' : Result ProofServiceError A} {v v' : Values} {t t' : Tasks}
      → r ≡ r'
      → Runs m v t r v' t'
      → Runs m v t r' v' t'
  Runs-result e h = record { run = λ w s. ((h.run w s).0 ∙ e, (h.run w s).1) }

module _ {p : Platform} {A B : Type 0} where
  pub Runs-bind :
      (m : Action p A) (f : A → Action p B) {a : A} {b : Result ProofServiceError B}
      {v v' v'' : Values} {t t' t'' : Tasks}
      → Runs m v t (ok a) v' t'
      → Runs (f a) v' t' b v'' t''
      → Runs (m >>= f) v t b v'' t''
  unfolding ◌>>=◌
  Runs-bind m f {b} {v''} {t''} h k = record {
    run = λ w s.
        subst (λ r. ((proceed r f (m w).1).0 ≡ b) × Shows (proceed r f (m w).1).1 v'' t'')
          (sym (h.run w s).0) (k.run (m w).1 (h.run w s).1);
  }

  pub Runs-bind_err :
      (m : Action p A) (f : A → Action p B) {e : ProofServiceError} {v v' : Values} {t t' : Tasks}
      → Runs m v t (err e) v' t'
      → Runs (m >>= f) v t (err e) v' t'
  unfolding ◌>>=◌
  Runs-bind_err m f {e} {v'} {t'} h = record {
    run = λ w s.
        subst (λ r. ((proceed r f (m w).1).0 ≡ err e) × Shows (proceed r f (m w).1).1 v' t')
          (sym (h.run w s).0) (refl, (h.run w s).1);
  }

pub Runs-spawn :
    {p : Platform} (request : ProofRequest) (id : ProofId) (v : Values) (t : Tasks)
    → Runs {p = p} (spawn request id) v t (ok tt) v (t ++ (request, id) ∷ [])
unfolding spawn
Runs-spawn request id v t = record {
  run = λ w s. (
    refl,
    record {
      same_values = s.same_values;
      same_tasks = ap (λ (l : Tasks). l ++ (request, id) ∷ []) s.same_tasks;
    },
  );
}

pub reply_of :
    {S A : Type 0} (reply : Result Text A × S)
    → is_ok reply.0 ≡ true
    → (x : A) × (reply ≡ (ok x, reply.1))
reply_of (ok x, s) h = (x, refl)
reply_of (err e, s) h = absurd (ground arith)

-- The commands, on a documented server that answers.
module _ {p : Platform} (d : Documented p.redis) (a : Reachable p.redis) where
  open p use {redis}

  pub Runs-get :
      (k : Text) (v : Values) (t : Tasks) → Runs {p = p} (query (redis.get k)) v t (ok (v k)) v t
  unfolding query
  Runs-get k v t = record {
    run = λ w s.
        let (x, e) = reply_of (redis.get k w.server) (a.get_answers k w.server) in
        let (value, same) = d.get_ok k w.server (redis.get k w.server).1 x e in
        (
          ap (λ (q : Result Text (Option Text) × redis.Server). map_err redis_error q.0) e
              ∙ ap ok (value ∙ s.same_values k),
          record { same_values = λ j. same j ∙ s.same_values j; same_tasks = s.same_tasks },
        );
  }

  pub Runs-set_ex :
      (k x : Text) (n : ℕ) (v : Values) (t : Tasks)
      → Runs {p = p} (query (redis.set_ex_value k x n)) v t (ok tt) (put v k x) t
  unfolding query
  Runs-set_ex k x n v t = record {
    run = λ w s.
        let (_, e) =
          reply_of (redis.set_ex_value k x n w.server) (a.set_ex_answers k x n w.server) in
        let same = d.set_ex_ok k x n w.server (redis.set_ex_value k x n w.server).1 e in
        (
          ap (λ (q : Result Text (Unit {0}) × redis.Server). map_err redis_error q.0) e,
          record {
            same_values = λ j. ground (arith, same j, s.same_values j);
            same_tasks = s.same_tasks;
          },
        );
  }

  pub Runs-set_nx :
      (k x : Text) (n : ℕ) (v : Values) (t : Tasks)
      → Runs {p = p}
          (query (redis.set_nx_px k x n))
          v
          t
          (ok (not (is_some (v k))))
          (λ j. if not (is_some (v k)) && text_eq k j then some x else v j)
          t
  unfolding query
  Runs-set_nx k x n v t = record {
    run = λ w s.
        let (b, e) = reply_of (redis.set_nx_px k x n w.server) (a.set_nx_answers k x n w.server) in
        let (free, same) = d.set_nx_ok k x n w.server (redis.set_nx_px k x n w.server).1 b e in
        let free' : b ≡ not (is_some (v k)) =
          free ∙ ap (λ (o : Option Text). not (is_some o)) (s.same_values k) in
        (
          ap (λ (q : Result Text Bool × redis.Server). map_err redis_error q.0) e ∙ ap ok free',
          record {
            same_values = λ j. ground (arith, free', same j, s.same_values j);
            same_tasks = s.same_tasks;
          },
        );
  }

  pub Runs-exec :
      (ws : List Write) (v : Values) (t : Tasks)
      → Runs {p = p} (query (redis.exec ws)) v t (ok tt) (written v ws) t
  unfolding query
  Runs-exec ws v t = record {
    run = λ w s.
        let (_, e) = reply_of (redis.exec ws w.server) (a.exec_answers ws w.server) in
        let same = d.exec_ok ws w.server (redis.exec ws w.server).1 e in
        (
          ap (λ (q : Result Text (Unit {0}) × redis.Server). map_err redis_error q.0) e,
          record {
            same_values = λ j. same j ∙ ap (λ m. written m ws j) (fun_ext s.same_values);
            same_tasks = s.same_tasks;
          },
        );
  }
