-- ===== src/Store.antt =====
-- zk-api/src/redis_store.rs: what the service keeps in Redis, key by key.
pub mod Runs
pub mod Keys
pub mod Scan
pub mod Kept
pub mod Keeps
use sp1_helios.Prelude.{
  codes, ℕ, zero, suc, ◌*◌, ◌%◌, ◌^◌, List, [], ◌∷◌, ◌++◌, map, Option, none, some, Bool, true,
  false, not, Result, ok, err, map_err, Text, text_eq, ◌==◌, if◌then◌else◌,
}
use sp1_helios.Types.{
  B256, ProofRequest, ProofId, ProofRequestState, ProofRequestStatus, ProofServiceError, initiated,
  waiting_for_finality, generating, success, errored, serialization_error, internal,
}
use sp1_helios.Redis.{Platform, Json, Write, set, set_ex}
use sp1_helios.Action.{Action, World, pure, raise, lift, query, ◌>>=◌, ◌>>◌}

-- 7 days
abbrev pub proof_state_ttl_secs : ℕ
proof_state_ttl_secs = 7 * 24 * 60 * 60

-- The fields of `RedisStore` that are its own configuration.
pub record RedisStore : Type 0 where
  pub key_prefix : Text
  pub global_lock_duration_secs : ℕ

-- A number for each status, by which two are compared.
abbrev pub tag : ProofRequestStatus → ℕ
tag initiated = 0
tag waiting_for_finality = 1
tag generating = 2
tag success = 3
tag errored = 4

abbrev pub status_eq : ProofRequestStatus → ProofRequestStatus → Bool
status_eq a b = tag a == tag b

module _ (p : Platform) where
  -- `ProofId::new` of types.rs.
  unfoldable pub proof_id : ProofRequest → ProofId
  proof_id request = record { hash = p.keccak256 (p.rlp request) }

  unfoldable pub proof_state_key : RedisStore → ProofId → Text
  proof_state_key r id = r.key_prefix ++ (codes ":state:" ++ p.to_hex id.hash)

  unfoldable pub finalized_header_key : RedisStore → Text
  finalized_header_key r = r.key_prefix ++ codes ":state:finalized_header"

  unfoldable pub global_lock_key : RedisStore → Text
  global_lock_key r = r.key_prefix ++ codes ":lock"

  unfoldable pub proof_generation_lock_key : RedisStore → ProofId → Text
  proof_generation_lock_key r id = r.key_prefix ++ (codes ":lock:" ++ p.to_hex id.hash)

  abbrev pub State : Type 0
  State = ProofRequestState p.ProofOutput

  -- `read_json_value`, on the reply of GET.
  unfoldable pub parse_reply :
      {A : Type 0} → Json A → Option Text → Result ProofServiceError (Option A)
  parse_reply json none = ok none
  parse_reply json (some text) = elim (json.from_str text) [
    | ok a ↦ ok (some a)
    | err e ↦ err (serialization_error e)
  ]

  unfoldable pub read_json_value : {A : Type 0} → Json A → Text → Action p (Option A)
  unfolding parse_reply
  read_json_value json key = do text ← query (p.redis.get key); lift (parse_reply json text)

  unfoldable pub get_proof_state : RedisStore → ProofId → Action p (Option State)
  get_proof_state r id = read_json_value p.state_json (proof_state_key r id)

  unfoldable pub read_finalized_header : RedisStore → Action p (Option p.spec.Header)
  read_finalized_header r = read_json_value p.header_json (finalized_header_key r)

  unfoldable pub set_proof_state : RedisStore → ProofId → State → Action p (Unit {0})
  set_proof_state r id state = do
    json ← lift (map_err serialization_error (p.state_json.to_string state))
    query (p.redis.set_ex_value (proof_state_key r id) json proof_state_ttl_secs)

  unfoldable pub set_finalized_header : RedisStore → p.spec.Header → Action p (Unit {0})
  set_finalized_header r header = do
    json ← lift (map_err serialization_error (p.header_json.to_string header))
    query (p.redis.set_value (finalized_header_key r) json)

  -- The commands that `update_finalized_header_and_proof_states` adds for the states.
  unfoldable pub state_writes :
      RedisStore → List (ProofId × State) → Result ProofServiceError (List Write)
  state_writes r [] = ok []
  state_writes r ((id, state) ∷ states) =
      let rest = state_writes r states in
      elim (p.state_json.to_string state) [
        | err e ↦ err (serialization_error e)
        | ok json ↦ elim rest [
          | err e ↦ err e
          | ok writes ↦ ok (set_ex (proof_state_key r id) json proof_state_ttl_secs ∷ writes)
        ]
      ]

  unfoldable pub update_finalized_header_and_proof_states :
      RedisStore → p.spec.Header → List (ProofId × State) → Action p (Unit {0})
  update_finalized_header_and_proof_states r header updated_states = do
    json ← lift (map_err serialization_error (p.header_json.to_string header))
    writes ← lift (state_writes r updated_states)
    query (p.redis.exec (set (finalized_header_key r) json ∷ writes))

  -- The replies of MGET that parse and have the status; the others are skipped.
  unfoldable pub matching : ProofRequestStatus → List (Option Text) → List State
  matching status [] = []
  matching status (none ∷ replies) = matching status replies
  matching status (some json ∷ replies) =
      let rest = matching status replies in
      elim (p.state_json.from_str json) [
        | ok state ↦ if status_eq state.status status then state ∷ rest else rest
        | err e ↦ rest
      ]

  -- `keys.filter(|k| k != finalized_header_key)`.
  unfoldable pub proof_state_keys : RedisStore → List Text → List Text
  proof_state_keys r [] = []
  proof_state_keys r (k ∷ ks) =
      let rest = proof_state_keys r ks in
      if text_eq k (finalized_header_key r) then rest else k ∷ rest

  -- One MGET for the keys of a batch, unless it is empty.
  unfoldable pub fetch_matching : ProofRequestStatus → List Text → Action p (List State)
  fetch_matching status [] = pure []
  fetch_matching status (k ∷ ks) = do
    replies ← query (p.redis.mget (k ∷ ks))
    pure (matching status replies)

  -- The SCAN loop, on fuel.
  unfoldable pub scan_loop :
      RedisStore → ProofRequestStatus → ℕ → ℕ → List State → Action p (List State)
  scan_loop r status zero cursor found = raise (internal (codes "scan fuel"))
  scan_loop r status (suc fuel) cursor found = do
    batch ← query (p.redis.scan cursor (r.key_prefix ++ codes ":state:*") 100)
    states ← fetch_matching status (proof_state_keys r (batch.1))
    let more = scan_loop r status fuel (batch.0) (found ++ states)
    if batch.0 == 0 then pure (found ++ states) else more

  unfoldable pub find_requests_by_status : RedisStore → ProofRequestStatus → Action p (List State)
  unfolding scan_loop fetch_matching
  find_requests_by_status r status = scan_loop r status p.scan_fuel 0 []

  unfoldable pub try_acquire_lock : Text → ℕ → Action p Bool
  try_acquire_lock key duration_ms = query (p.redis.set_nx_px key (codes "locked") duration_ms)

  -- `as_millis() as u64`.
  unfoldable pub acquire_global_lock : RedisStore → Action p Bool
  unfolding try_acquire_lock
  acquire_global_lock r =
      try_acquire_lock (global_lock_key r) (r.global_lock_duration_secs * 1000 % 2 ^ 64)

  -- A release ignores the reply.
  unfoldable pub release : Text → Action p (Unit {0})
  release key w = (ok tt, record w { server = (p.redis.del key w.server).1 })

  unfoldable pub release_global_lock : RedisStore → Action p (Unit {0})
  unfolding release
  release_global_lock r = release (global_lock_key r)

  unfoldable pub acquire_proof_generation_lock : RedisStore → ProofId → ℕ → Action p Bool
  unfolding try_acquire_lock
  acquire_proof_generation_lock r id duration_ms =
      try_acquire_lock (proof_generation_lock_key r id) duration_ms

  unfoldable pub release_proof_generation_lock : RedisStore → ProofId → Action p (Unit {0})
  unfolding release
  release_proof_generation_lock r id = release (proof_generation_lock_key r id)

  unfoldable pub extend_proof_generation_lock : RedisStore → ProofId → ℕ → Action p Bool
  extend_proof_generation_lock r id duration_ms = do
    res ← query (p.redis.pexpire (proof_generation_lock_key r id) duration_ms)
    pure (res == 1)
