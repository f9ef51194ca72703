-- ===== src/Examples/Outage.antt =====
-- The end of a proof generation task on a server whose writes fail twice.
use sp1_helios.Prelude.{
  codes, ℕ, zero, suc, ◌≤◌, ◌<◌, ◌≡◌, refl, ap, sym, [], ◌∷◌, map, Option, none, some, true, not,
  ◌&&◌, Result, ok, err, is_some, Text, text_eq, arith, if◌then◌else◌, ◌==◌,
}
use sp1_helios.Redis.{Redis, Platform, Documented, written}
use sp1_helios.Redis.Local.{Local, Other, written-Other}
use sp1_helios.Action.Runs.{Values, put, erase}
use sp1_helios.Store.{proof_id, proof_state_key}
use sp1_helios.Inputs.{Failure, slot_not_divisible}
use sp1_helios.Generate.{generate_and_store_proof, updated_proof_state}
use sp1_helios.Generate.Recovers.{Outage, generate_and_store_proof-Recovers}
use sp1_helios.Examples.Chain.{request}
use sp1_helios.Examples.Server.{small_platform, small_store, scanned_keys}

-- The failures that are left, and the values.
record Failing : Type 0 where
  failures : ℕ
  values : Values

abbrev state : ℕ → Values → Failing
state m values = record { failures = m; values = values }

abbrev saved : ℕ → Values → Text → Text → Result Text (Unit {0}) × Failing
saved zero m k v = (ok tt, state 0 (put m k v))
saved (suc n) m k v = (err (codes "down"), state n m)

-- The commands on a lock fail during the outage too.
abbrev erased : ℕ → Values → Text → Result Text (Unit {0}) × Failing
erased zero m k = (ok tt, state 0 (erase m k))
erased (suc n) m k = (err (codes "down"), state (suc n) m)

abbrev extended : ℕ → Values → Text → ℕ → Result Text ℕ × Failing
extended zero m k ms = (
  ok (if is_some (m k) then 1 else 0),
  state 0 (λ j. if text_eq k j && (ms == 0) then none else m j),
)
extended (suc n) m k ms = (err (codes "down"), state (suc n) m)

abbrev failing_redis : Redis
failing_redis = record {
  Server = Failing;
  lookup = λ s k. s.values k;
  get = λ k s. (ok (s.values k), s);
  mget = λ ks s. (ok (map s.values ks), s);
  set_value = λ k v s. saved s.failures s.values k v;
  set_ex_value = λ k v n s. saved s.failures s.values k v;
  set_nx_px = λ k v n s. (
    ok (not (is_some (s.values k))),
    state s.failures
        (λ j. if not (is_some (s.values k)) && text_eq k j then some v else s.values j),
  );
  del = λ k s. erased s.failures s.values k;
  pexpire = λ k n s. extended s.failures s.values k n;
  scan = λ c pattern n s. (ok (0, scanned_keys), s);
  exec = λ ws s. (ok tt, state s.failures (written s.values ws));
}

saved_ok :
    (n : ℕ) (m : Values) (k v : Text) (s' : Failing)
    → saved n m k v ≡ (ok tt, s')
    → (j : Text) → s'.values j ≡ (if text_eq k j then some v else m j)
saved_ok zero m k v s' e j = ap (λ (q : Result Text (Unit {0}) × Failing). q.1.values j) (sym e)
saved_ok (suc n) m k v s' e j =
    absurd (ground (arith, ap (λ (q : Result Text (Unit {0}) × Failing). q.0) e))

erased_ok :
    (n : ℕ) (m : Values) (k : Text) (s' : Failing)
    → erased n m k ≡ (ok tt, s')
    → (j : Text) → s'.values j ≡ (if text_eq k j then none else m j)
erased_ok zero m k s' e j = ap (λ (q : Result Text (Unit {0}) × Failing). q.1.values j) (sym e)
erased_ok (suc n) m k s' e j =
    absurd (ground (arith, ap (λ (q : Result Text (Unit {0}) × Failing). q.0) e))

extended_ok :
    (n : ℕ) (m : Values) (k : Text) (ms : ℕ) (s' : Failing) (c : ℕ)
    → extended n m k ms ≡ (ok c, s')
    → (c ≡ (if is_some (m k) then 1 else 0))
      × ((j : Text) → s'.values j ≡ (if text_eq k j && (ms == 0) then none else m j))
extended_ok zero m k ms s' c e =
    (ground (arith, e), λ j. ap (λ (q : Result Text ℕ × Failing). q.1.values j) (sym e))
extended_ok (suc n) m k ms s' c e =
    absurd (ground (arith, ap (λ (q : Result Text ℕ × Failing). q.0) e))

failing_documented : Documented failing_redis
failing_documented = record {
  get_ok = λ k s s' v e.
      (ground arith, λ j. ap (λ (q : Result Text (Option Text) × Failing). q.1.values j) (sym e));
  mget_ok = λ ks s s' v e. (ground arith, λ j. ground arith);
  scan_ok = λ c pattern n s s' v e j. ground arith;
  set_ex_ok = λ k v n s s' e j. saved_ok s.failures s.values k v s' e j;
  set_nx_ok = λ k v n s s' b e. (ground arith, λ j. ground arith);
  del_ok = λ k s s' e j. erased_ok s.failures s.values k s' e j;
  pexpire_ok = λ k n s s' c e. extended_ok s.failures s.values k n s' c e;
  exec_ok = λ ws s s' e j. ground arith;
}

saved_keeps : (n : ℕ) (m : Values) (k v j : Text) → Other j k → (saved n m k v).1.values j ≡ m j
saved_keeps zero m k v j other = ground (arith, other)
saved_keeps (suc n) m k v j other = refl

erased_keeps : (n : ℕ) (m : Values) (k j : Text) → Other j k → (erased n m k).1.values j ≡ m j
erased_keeps zero m k j other = ground (arith, other)
erased_keeps (suc n) m k j other = refl

extended_keeps :
    (n : ℕ) (m : Values) (k : Text) (ms : ℕ) (j : Text)
    → Other j k
    → (extended n m k ms).1.values j ≡ m j
extended_keeps zero m k ms j other = ground (arith, other)
extended_keeps (suc n) m k ms j other = refl

values_kept : Local failing_redis failing_redis.lookup
values_kept = record {
  get_keeps = λ k s j. refl;
  mget_keeps = λ ks s j. refl;
  scan_keeps = λ c pattern n s j. refl;
  set_ex_keeps = λ k v n s j other. saved_keeps s.failures s.values k v j other;
  set_nx_keeps = λ k v n s j other. ground (arith, other);
  pexpire_keeps = λ k n s j other. extended_keeps s.failures s.values k n j other;
  del_keeps = λ k s j other. erased_keeps s.failures s.values k j other;
  exec_keeps = λ ws s j others. written-Other j s.values ws others;
}

saved_fails :
    (n : ℕ) (m : Values) (k v : Text) (e : Text)
    → (saved n m k v).0 ≡ err e
    → (saved n m k v).1.failures < n
saved_fails zero m k v e q = absurd (ground (arith, q))
saved_fails (suc n) m k v e q = omega arith

extended_left : (n : ℕ) (m : Values) (k : Text) (ms : ℕ) → (extended n m k ms).1.failures ≤ n
extended_left zero m k ms = omega arith
extended_left (suc n) m k ms = omega arith

erased_left : (n : ℕ) (m : Values) (k : Text) → (erased n m k).1.failures ≤ n
erased_left zero m k = omega arith
erased_left (suc n) m k = omega arith

abbrev failing_outage : Outage failing_redis
failing_outage = record {
  left = λ s. s.failures;
  set_ex_fails = λ k v n s e q. saved_fails s.failures s.values k v e q;
  pexpire_left = λ k n s. extended_left s.failures s.values k n;
  del_left = λ k s. erased_left s.failures s.values k;
}

abbrev failing_platform : Platform
failing_platform = record small_platform { redis = failing_redis }

abbrev outcome : Result Failure Text
outcome = err (slot_not_divisible 65)

-- Two attempts fail, and the third one stores the failure of the proof.
generate_and_store_proof-Recovers_example :
    let (ended, w') =
      generate_and_store_proof failing_platform small_store
        (λ e. [])
        request
        (proof_id failing_platform request)
        outcome
        1
        (1 ∷ 3 ∷ [])
        (record { server = state 2 (λ k. none); spawned = [] }) in
    (ended ≡ true)
    × (failing_redis.lookup w'.server
          (proof_state_key failing_platform small_store (proof_id failing_platform request))
        ≡ some (4 ∷ []))
unfolding updated_proof_state
generate_and_store_proof-Recovers_example =
    generate_and_store_proof-Recovers {p = failing_platform} failing_documented values_kept
      failing_outage small_store (λ e. []) request (proof_id failing_platform request) outcome 1
      (1 ∷ 3 ∷ []) (4 ∷ []) (record { server = state 2 (λ k. none); spawned = [] }) refl
      (omega arith)
