-- ===== src/Examples/Server.antt =====
-- A Redis server that is a function from keys to values, and a platform over it.
use sp1_helios.Prelude.{
  codes, ℕ, zero, suc, ◌+◌, ◌≡◌, refl, ap, ◌∙◌, sym, List, [], ◌∷◌, ◌++◌, map, Option, none, some,
  Bool, not, ◌&&◌, Result, ok, err, is_some, Text, text_eq, arith, if◌then◌else◌, ◌==◌,
}
use sp1_helios.Types.{
  ProofRequestState, ProofRequestStatus, initiated, waiting_for_finality, generating, success,
  errored,
}
use sp1_helios.Redis.{Redis, Platform, Documented, Reachable, written}
use sp1_helios.Action.Runs.{Values, put, erase}
use sp1_helios.Store.{finalized_header_key, tag, RedisStore}
use sp1_helios.Examples.Chain.{small_spec, SmallHeader, header_at, request}

abbrev pub zeros : ℕ → Text
zeros zero = []
zeros (suc n) = 48 ∷ zeros n

-- The key of the sample request, whose hash is 151.
abbrev pub request_key : Text
request_key = codes "p:state:" ++ (151 ∷ zeros 63)

abbrev pub scanned_keys : List Text
scanned_keys = request_key ∷ codes "p:state:finalized_header" ∷ []

abbrev pub small_redis : Redis
small_redis = record {
  Server = Values;
  lookup = λ s k. s k;
  get = λ k s. (ok (s k), s);
  mget = λ ks s. (ok (map s ks), s);
  set_value = λ k v s. (ok tt, put s k v);
  set_ex_value = λ k v n s. (ok tt, put s k v);
  set_nx_px = λ k v n s.
      (ok (not (is_some (s k))), λ j. if not (is_some (s k)) && text_eq k j then some v else s j);
  del = λ k s. (ok tt, erase s k);
  pexpire = λ k n s.
      (ok (if is_some (s k) then 1 else 0), λ j. if text_eq k j && (n == 0) then none else s j);
  scan = λ c pattern n s. (ok (0, scanned_keys), s);
  exec = λ ws s. (ok tt, written s ws);
}

pub small_documented : Documented small_redis
small_documented = record {
  get_ok = λ k s s' v e.
      (ground arith, λ j. ap (λ (q : Result Text (Option Text) × Values). q.1 j) (sym e));
  pexpire_ok =
      λ k n s s' c e. (ground arith, λ j. ap (λ (q : Result Text ℕ × Values). q.1 j) (sym e));
  mget_ok = λ ks s s' v e.
      (ground arith, λ j. ap (λ (q : Result Text (List (Option Text)) × Values). q.1 j) (sym e));
  scan_ok =
      λ c pattern n s s' v e j. ap (λ (q : Result Text (ℕ × List Text) × Values). q.1 j) (sym e);
  set_ex_ok = λ k v n s s' e j. ap (λ (q : Result Text (Unit {0}) × Values). q.1 j) (sym e);
  set_nx_ok = λ k v n s s' b e.
      let free : b ≡ not (is_some (s k)) = ground arith in
      (
        free,
        λ j.
            ap (λ (q : Result Text Bool × Values). q.1 j) (sym e)
            ∙ ap (λ (c : Bool). if c && text_eq k j then some v else s j) (sym free),
      );
  del_ok = λ k s s' e j. ap (λ (q : Result Text (Unit {0}) × Values). q.1 j) (sym e);
  exec_ok = λ ws s s' e j. ap (λ (q : Result Text (Unit {0}) × Values). q.1 j) (sym e);
}

pub small_reachable : Reachable small_redis
small_reachable = record {
  get_answers = λ k s. refl;
  mget_answers = λ ks s. refl;
  set_ex_answers = λ k v n s. refl;
  set_nx_answers = λ k v n s. refl;
  pexpire_answers = λ k n s. refl;
  del_answers = λ k s. refl;
  scan_answers = λ c pattern n s. refl;
  exec_answers = λ ws s. refl;
}

abbrev pub state_of : ProofRequestStatus → ProofRequestState Text
state_of status = record {
  status = status;
  request = request;
  proof_network_tx_id = none;
  proof_data = none;
  error_message = none;
}

abbrev pub status_of : ℕ → ProofRequestStatus
status_of zero = initiated
status_of (suc zero) = waiting_for_finality
status_of (suc (suc zero)) = generating
status_of (suc (suc (suc zero))) = success
status_of _ = errored

-- A state of the sample request is written as its status, a header as its slot.
abbrev pub small_platform : Platform
small_platform = record {
  spec = small_spec;
  redis = small_redis;
  ProofOutput = Text;
  header_json = record {
    to_string = λ (h : SmallHeader). ok (h.slot ∷ []);
    from_str = λ text. elim text [ [] ↦ err [] | n ∷ rest ↦ ok (header_at n) ];
  };
  state_json = record {
    to_string = λ (s : ProofRequestState Text). ok (tag s.status ∷ []);
    from_str = λ text. elim text [ [] ↦ err [] | n ∷ rest ↦ ok (state_of (status_of n)) ];
  };
  rlp = λ r. r.src_chain_block_number ∷ [];
  keccak256 = λ text. elim text [ [] ↦ 0 | n ∷ rest ↦ n + 1 ];
  to_hex = λ n. n ∷ zeros 63;
  scan_fuel = 3;
}

abbrev pub small_store : RedisStore
small_store = record { key_prefix = codes "p"; global_lock_duration_secs = 30 }

-- The header of slot 64 is stored, and nothing else.
abbrev pub stored_header : Values
stored_header = put (λ j. none) (finalized_header_key small_platform small_store) (64 ∷ [])
