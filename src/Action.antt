-- ===== src/Action.antt =====
-- The service's methods as actions: they change the Redis server and start tasks, and may fail.
-- What was done before a failure stays done.
pub mod Runs
pub mod Outcome
pub mod Maintains
use sp1_helios.Prelude.{
  ℕ, ◌≡◌, refl, List, [], ◌∷◌, ◌++◌, Option, none, some, Bool, true, false, Result, ok, err,
  map_err, Text,
}
use sp1_helios.Types.{ProofRequest, ProofId, ProofServiceError, redis_error, serialization_error}
use sp1_helios.Redis.{Redis, Platform}

-- The server, and the proof generation tasks that were spawned, oldest first.
pub record World (p : Platform) : Type 0 where
  pub server : p.redis.Server
  pub spawned : List (ProofRequest × ProofId)

abbrev pub Action : Platform → Type 0 → Type 0
Action p A = World p → Result ProofServiceError A × World p

module _ {p : Platform} {A : Type 0} where
  unfoldable pub pure : A → Action p A
  pure a w = (ok a, w)

  unfoldable pub raise : ProofServiceError → Action p A
  raise e w = (err e, w)

  unfoldable pub lift : Result ProofServiceError A → Action p A
  lift r w = (r, w)

  -- A Redis command, with its error converted by `?`.
  unfoldable pub query : (p.redis.Server → Result Text A × p.redis.Server) → Action p A
  query command w =
      let (reply, server') = command w.server in
      (map_err redis_error reply, record w { server = server' })

  -- The result of an action as a value, for a `match` on it.
  unfoldable pub attempt : Action p A → Action p (Result ProofServiceError A)
  attempt m w = let (r, w') = m w in (ok r, w')

unfoldable pub spawn : {p : Platform} → ProofRequest → ProofId → Action p (Unit {0})
spawn request id w = (ok tt, record w { spawned = w.spawned ++ (request, id) ∷ [] })

module _ {p : Platform} {A B : Type 0} where
  abbrev pub proceed : Result ProofServiceError A → (A → Action p B) → Action p B
  proceed (ok a) f w = f a w
  proceed (err e) f w = (err e, w)

  infixl 5 ◌>>=◌ ◌>>◌
  unfoldable pub ◌>>=◌ : Action p A → (A → Action p B) → Action p B
  unfolding pure raise lift query attempt spawn
  ◌>>=◌ m f w = let (r, w') = m w in proceed r f w'

  abbrev pub ◌>>◌ : Action p A → Action p B → Action p B
  m >> k = m >>= λ _. k
