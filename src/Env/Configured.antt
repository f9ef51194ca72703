-- ===== src/Env/Configured.antt =====
-- What `RedisStore::new` has read when it succeeds.
use sp1_helios.Prelude.{
  ℕ, ◌<◌, ◌^◌, ◌≡◌, ◌↔◌, ◌⊎◌, refl, sym, ap, ◌∙◌, List, [], ◌∷◌, Option, none, some, Bool, true,
  false, Result, ok, err, ok_or, Text, codes, parse_u64, parse_u64_lem, Digits, decimal, map_err,
  arith, Option-cases, Result-cases, Bool-cases, inl, inr,
}
use sp1_helios.Prelude
use sp1_helios.Store.{RedisStore}
use sp1_helios.Env.{
  Env, Connection, connected, timed_out, refused, connect, finish_store, new_store,
}

-- What `RedisStore::new` has read and reached when it succeeds.
pub record Configured (open_client : Text → Result Text (Unit {0})) (connection : Connection)
    (env : Env) (r : RedisStore) : Type 0 where
  pub redis_url : Text
  pub duration : Text
  pub digits : Text
  pub url_set : env (codes "REDIS_URL") ≡ some redis_url
  pub duration_set : env (codes "REDIS_LOCK_DURATION_SECS") ≡ some duration
  pub prefix_set : env (codes "REDIS_KEY_PREFIX") ≡ some r.key_prefix
  pub opened : open_client redis_url ≡ ok tt
  pub in_time : connection ≡ connected
  pub signed : (duration ≡ digits) ⊎ (duration ≡ 43 ∷ digits)
  pub are_digits : Digits digits
  pub spells : r.global_lock_duration_secs ≡ decimal 0 digits
  pub bounded : r.global_lock_duration_secs < 2 ^ 64

connect-ok :
    (connection : Connection) (made r : RedisStore)
    → Prelude.◌>>=◌ (connect connection) (λ _. ok made) ≡ ok r
    → (connection ≡ connected) × (made ≡ r)
unfolding connect
connect-ok connected made r e = (refl, ground arith)
connect-ok timed_out made r e = absurd (ground arith)
connect-ok (refused x) made r e = absurd (ground arith)

finish_store-ok :
    (open_client : Text → Result Text (Unit {0})) (connection : Connection) (env : Env)
    (redis_url : Text) (secs : ℕ) (r : RedisStore)
    → finish_store open_client connection env redis_url secs ≡ ok r
    → (env (codes "REDIS_KEY_PREFIX") ≡ some r.key_prefix)
      × (open_client redis_url ≡ ok tt)
      × (connection ≡ connected)
      × (r.global_lock_duration_secs ≡ secs)
unfolding finish_store
finish_store-ok open_client connection env redis_url secs r e =
    elim (Option-cases (env (codes "REDIS_KEY_PREFIX"))) [
      | inl missing ↦ absurd (ground arith)
      | inr (key_prefix, set) ↦ elim (Result-cases (open_client redis_url)) [
        | inr (x, failed) ↦ absurd (ground arith)
        | inl (_, opened) ↦
            let made : RedisStore = record {
              key_prefix = key_prefix;
              global_lock_duration_secs = secs;
            } in
            let (in_time, same) = connect-ok connection made r (rw (set, opened) at e) in
            (
              set ∙ ap (λ (s : RedisStore). some s.key_prefix) same,
              opened,
              in_time,
              sym (ap (λ (s : RedisStore). s.global_lock_duration_secs) same),
            )
      ]
    ]

finish_store-Configured :
    (open_client : Text → Result Text (Unit {0})) (connection : Connection) (env : Env)
    (redis_url duration : Text) (secs : ℕ) (r : RedisStore)
    → env (codes "REDIS_URL") ≡ some redis_url
    → env (codes "REDIS_LOCK_DURATION_SECS") ≡ some duration
    → parse_u64 duration ≡ some secs
    → finish_store open_client connection env redis_url secs ≡ ok r
    → Configured open_client connection env r
finish_store-Configured open_client connection env redis_url duration secs r url set read e =
    let (digits, signed, are_digits, spells, bounded) = parse_u64_lem duration secs read in
    let (prefix, opened, in_time, same) =
      finish_store-ok open_client connection env redis_url secs r e in
    record {
      redis_url = redis_url;
      duration = duration;
      digits = digits;
      url_set = url;
      duration_set = set;
      prefix_set = prefix;
      opened = opened;
      in_time = in_time;
      signed = signed;
      are_digits = are_digits;
      spells = same ∙ spells;
      bounded = rw same bounded;
    }

-- If `RedisStore::new` succeeds, its three variables are set, the client opened and connected in
-- time, the prefix is the variable's, and the lock's seconds are the number that the variable spells
-- in decimal digits, after at most one plus sign, and fit 64 bits.
pub new_store-Configured :
    (open_client : Text → Result Text (Unit {0})) (connection : Connection) (env : Env)
    (r : RedisStore)
    → new_store open_client connection env ≡ ok r
    → Configured open_client connection env r
unfolding new_store
new_store-Configured open_client connection env r e =
    elim (Option-cases (env (codes "REDIS_URL"))) [
      | inl missing ↦ absurd (ground arith)
      | inr (redis_url, url) ↦ elim (Option-cases (env (codes "REDIS_LOCK_DURATION_SECS"))) [
        | inl missing ↦ absurd (ground arith)
        | inr (duration, set) ↦ elim (Option-cases (parse_u64 duration)) [
          | inl unread ↦ absurd (ground arith)
          | inr (secs, read) ↦
              let rest : finish_store open_client connection env redis_url secs ≡ ok r =
                rw (url, set, read) at e in
              finish_store-Configured open_client connection env redis_url duration secs r url set
                read rest
        ]
      ]
    ]
