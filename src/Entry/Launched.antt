-- ===== src/Entry/Launched.antt =====
-- When the service reaches its main loop.
use sp1_helios.Prelude.{
  ℕ, ◌^◌, ◌≡◌, ◌<◌, ◌⊎◌, refl, ap, ◌∙◌, ◌∷◌, Option, some, true, Result, ok, err, ok_or, map_err,
  ltb, Text, codes, List, parse_u64, parse_u64_lem, Digits, decimal, arith, Result-cases,
  Option-cases, Bool-cases, inl, inr, bind-eq-ok, map_err-eq-ok, ok_or-eq-ok, ok_inj, subst,
}
use sp1_helios.Store.{RedisStore}
use sp1_helios.Env.{Env, Connection, required, invalid, new_service}
use sp1_helios.Run.Loop.{RunError}
use sp1_helios.Entry.{
  Exit, set_up, service, port_panic, bind_panic, running, unexpected, parse_u16, api_port,
  start_api_server, launch, main,
}

parse_u16_lem : (s : Text) (n : ℕ) → parse_u16 s ≡ some n → (parse_u64 s ≡ some n) × (n < 2 ^ 16)
unfolding parse_u16
parse_u16_lem s n e = elim (Option-cases (parse_u64 s)) [
  | inl none_read ↦ absurd (ground (arith, e, none_read))
  | inr (m, q) ↦ elim (Bool-cases (ltb m (2 ^ 16))) [
    | inl fits ↦
        let same : m ≡ n = ground (arith, e, q, fits) in
        (q ∙ ap some same, ground (arith, fits, same))
    | inr large ↦ absurd (ground (arith, e, q, large))
  ]
]

module _ {Url : Type 0} (tracing backend : Result Text (Unit {0}))
    (open_client : Text → Result Text (Unit {0})) (connection : Connection)
    (parse_url : Text → Option Url) (env : Env) (bind : ℕ → Result Text (Unit {0})) where
  -- What has gone well when the main loop begins.
  pub record Launched (store : RedisStore) (providers : List Url) : Type 0 where
    pub traced : tracing ≡ ok tt
    pub proves : backend ≡ ok tt
    pub configured : new_service open_client connection parse_url env ≡ ok (store, providers)
    pub port : Text
    pub digits : Text
    pub port_set : env (codes "PORT") ≡ some port
    pub spelled : (port ≡ digits) ⊎ (port ≡ 43 ∷ digits)
    pub are_digits : Digits digits
    pub bounded : decimal 0 digits < 2 ^ 16
    pub bound : bind (decimal 0 digits) ≡ ok tt

  -- The exit that the end of the main loop gives.
  abbrev pub exit_of : Result RunError (Unit {0}) → Exit
  exit_of (ok _) = unexpected
  exit_of (err e) = running e

  launch-Launched :
      (store : RedisStore) (providers : List Url)
      → launch tracing backend open_client connection parse_url env bind ≡ ok (store, providers)
      → Launched store providers
  unfolding launch start_api_server api_port
  launch-Launched store providers e =
      let (_, q0, e0) = bind-eq-ok (map_err set_up tracing) _ e in
      let (_, q1, e1) = bind-eq-ok (map_err set_up backend) _ e0 in
      let (_, q2, e2) =
        bind-eq-ok (map_err service (new_service open_client connection parse_url env)) _ e1 in
      let (_, q3, e3) = bind-eq-ok (start_api_server env bind) _ e2 in
      let (n, q4, e4) = bind-eq-ok (map_err port_panic (api_port env)) _ q3 in
      let (port, q5, e5) =
        bind-eq-ok (required env (codes "PORT"))
          (λ port. ok_or (parse_u16 port) (invalid (codes "PORT") port))
          (map_err-eq-ok port_panic _ q4) in
      let (fits, short) = parse_u16_lem port n (ok_or-eq-ok (parse_u16 port) _ e5) in
      let (digits, spelled, are_digits, same, _) = parse_u64_lem port n fits in
      record {
        traced = map_err-eq-ok set_up tracing q0;
        proves = map_err-eq-ok set_up backend q1;
        configured = map_err-eq-ok service _ q2 ∙ ap ok (ok_inj e3);
        port = port;
        digits = digits;
        port_set = ok_or-eq-ok (env (codes "PORT")) _ q5;
        spelled = spelled;
        are_digits = are_digits;
        bounded = subst (λ m. m < 2 ^ 16) same short;
        bound = subst (λ m. bind m ≡ ok tt) same (map_err-eq-ok bind_panic (bind n) e4);
      }

  -- If `main` reaches the main loop, then tracing and the backend were set up, the service was made
  -- from the environment, and `PORT` spells, in decimal digits after at most one plus sign, a number
  -- below 2^16, which was bound; the loop runs on that service, the process ends with the loop's
  -- error, or with one of its own if the loop returns, and only then are the posts to Slack
  -- waited for.
  pub main-Launched :
      (run : RedisStore → List Url → Result RunError (Unit {0}))
      → (main tracing backend open_client connection parse_url env bind run).1 ≡ true
      → (store : RedisStore) × (providers : List Url) × Launched store providers
        × ((main tracing backend open_client connection parse_url env bind run).0
            ≡ exit_of (run store providers))
  unfolding main
  main-Launched run e =
      elim (Result-cases (launch tracing backend open_client connection parse_url env bind)) [
        | inr (x, q) ↦ absurd (ground (arith, e, q))
        | inl ((store, providers), q) ↦ (
          store,
          providers,
          launch-Launched store providers q,
          elim (Result-cases (run store providers)) [
            | inl (u, ended) ↦ rw (q, main, ended) refl
            | inr (x, ended) ↦ rw (q, main, ended) refl
          ],
        )
      ]
