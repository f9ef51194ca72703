-- ===== src/Store/Scan.antt =====
-- The SCAN loop of `find_requests_by_status`, on a server whose scan ends.
use sp1_helios.Prelude.{
  codes, ℕ, zero, suc, ◌≤◌, ◌≡◌, ◌≢◌, sym, ap, ◌∙◌, fun_ext, List, [], ◌∷◌, ◌++◌, map, Option,
  false, Result, ok, map_err, length, arith, Text, ◌==◌,
}
use mathlib.Core.List.{append_assoc, append-nil}
use sp1_helios.Types.{ProofRequestStatus, redis_error}
use sp1_helios.Redis.{Platform, Documented, Reachable}
use sp1_helios.Action.{World, query}
use sp1_helios.Action.Runs.{Values, Tasks, Shows, Runs, Runs-bind, Runs-pure, Runs-result, reply_of}
use sp1_helios.Store.{
  RedisStore, State, matching, proof_state_keys, fetch_matching, scan_loop, find_requests_by_status,
}

module _ (p : Platform) (r : RedisStore) where
  open p use {redis}

  abbrev pattern_text : Text
  pattern_text = r.key_prefix ++ codes ":state:*"

  -- A server with these values answers SCAN from this cursor with a cursor and keys.
  abbrev pub Replies : Values → Tasks → ℕ → ℕ → List Text → Type 0
  Replies v t cursor next keys =
      (w : World p)
      → Shows w v t
      → (redis.scan cursor (r.key_prefix ++ codes ":state:*") 100 w.server).0 ≡ ok (next, keys)

  -- The scan from this cursor ends, and gives these pages of keys.
  abbrev pub Scanned : Values → Tasks → ℕ → List (List Text) → Type 0
  Scanned v t cursor [] = ⊥
  Scanned v t cursor (keys ∷ []) = Replies v t cursor 0 keys
  Scanned v t cursor (keys ∷ more ∷ pages) =
      (next : ℕ) × (next ≢ 0) × Replies v t cursor next keys × Scanned v t next (more ∷ pages)

  -- The states with the status under the keys of the pages, in their order.
  abbrev pub found : ProofRequestStatus → Values → List (List Text) → List (State p)
  found status v [] = []
  found status v (keys ∷ pages) =
      matching p status (map v (proof_state_keys p r keys)) ++ found status v pages

module _ {p : Platform} (d : Documented p.redis) (a : Reachable p.redis) (r : RedisStore) where
  open p use {redis}

  Runs-mget :
      (ks : List Text) (v : Values) (t : Tasks)
      → Runs {p = p} (query (redis.mget ks)) v t (ok (map v ks)) v t
  unfolding query
  Runs-mget ks v t = record {
    run = λ w s.
        let (x, e) = reply_of (redis.mget ks w.server) (a.mget_answers ks w.server) in
        let (values, same) = d.mget_ok ks w.server (redis.mget ks w.server).1 x e in
        (
          ap (λ (q : Result Text (List (Option Text)) × redis.Server). map_err redis_error q.0) e
              ∙ ap ok (values ∙ ap (λ m. map m ks) (fun_ext s.same_values)),
          record { same_values = λ j. same j ∙ s.same_values j; same_tasks = s.same_tasks },
        );
  }

  Runs-scan :
      (cursor next : ℕ) (keys : List Text) (v : Values) (t : Tasks)
      → Replies p r v t cursor next keys
      → Runs {p = p}
          (query (redis.scan cursor (r.key_prefix ++ codes ":state:*") 100))
          v
          t
          (ok (next, keys))
          v
          t
  unfolding query
  Runs-scan cursor next keys v t h = record {
    run = λ w s.
        let reply = redis.scan cursor (r.key_prefix ++ codes ":state:*") 100 w.server in
        let e : reply ≡ (ok (next, keys), reply.1) =
          ap (λ (x : Result Text (ℕ × List Text)). (x, reply.1)) (h w s) in
        (
          ap (λ (x : Result Text (ℕ × List Text)). map_err redis_error x) (h w s),
          record {
            same_values =
                λ j. d.scan_ok cursor _ 100 w.server reply.1 (next, keys) e j ∙ s.same_values j;
            same_tasks = s.same_tasks;
          },
        );
  }

  pub Runs-fetch_matching :
      (status : ProofRequestStatus) (ks : List Text) (v : Values) (t : Tasks)
      → Runs (fetch_matching p status ks) v t (ok (matching p status (map v ks))) v t
  unfolding fetch_matching matching
  Runs-fetch_matching status [] v t = Runs-pure [] v t
  Runs-fetch_matching status (k ∷ ks) v t = Runs-bind _ _ (Runs-mget (k ∷ ks) v t) (Runs-pure _ v t)

  Runs-scan_loop :
      (status : ProofRequestStatus) (fuel cursor : ℕ) (before : List (State p))
      (pages : List (List Text)) (v : Values) (t : Tasks)
      → length pages ≤ fuel
      → Scanned p r v t cursor pages
      → Runs
          (scan_loop p r status fuel cursor before)
          v
          t
          (ok (before ++ found p r status v pages))
          v
          t
  unfolding scan_loop
  Runs-scan_loop status fuel cursor before [] v t le s = absurd s
  Runs-scan_loop status zero cursor before (keys ∷ pages) v t le s = absurd (omega arith)
  Runs-scan_loop status (suc fuel) cursor before (keys ∷ []) v t le s =
      Runs-bind _ _ (Runs-scan cursor 0 keys v t s) (
        Runs-bind _ _ (Runs-fetch_matching status (proof_state_keys p r keys) v t)
          (Runs-result (ap (λ l. ok (before ++ l)) (sym (append-nil _))) (Runs-pure _ v t)))
  Runs-scan_loop status (suc fuel) cursor before (keys ∷ more ∷ pages) v t le
        (next, other, reply, s) =
      let go_on : (next == 0) ≡ false = ground arith in
      Runs-bind _ _ (Runs-scan cursor next keys v t reply) (
        Runs-bind _ _ (Runs-fetch_matching status (proof_state_keys p r keys) v t) (
          rw go_on (
            Runs-result (ap ok (append_assoc before _ _))
              (Runs-scan_loop status fuel next _ (more ∷ pages) v t (omega arith) s))))

  -- On a documented server that answers and whose scan ends within the fuel, `find_requests_by_status` changes nothing and gives
  -- the states with the status under all the keys scanned, page by page; other states, keys
  -- without a value, texts that are not states, and the key of the finalized header are skipped.
  pub find_requests_by_status-found :
      (status : ProofRequestStatus) (pages : List (List Text)) (v : Values) (t : Tasks)
      → length pages ≤ p.scan_fuel
      → Scanned p r v t 0 pages
      → Runs (find_requests_by_status p r status) v t (ok (found p r status v pages)) v t
  unfolding find_requests_by_status
  find_requests_by_status-found status pages v t le s =
      Runs-scan_loop status p.scan_fuel 0 [] pages v t le s
