-- ===== src/Run/Onward.antt =====
-- The main loop never goes back: neither the light client's head nor the stored header.
use sp1_helios.Prelude.{
  ℕ, ◌≤◌, ◌≡◌, ◌∙◌, subst, Option-cases, some, List, [], ◌∷◌, Bool, true, Result, ok, err, Text,
  length, arith, Bool-cases, Result-cases, inl, inr,
}
use sp1_helios.Types.{B256}
use sp1_helios.Helios.{Core}
use sp1_helios.Redis.{Documented, Reachable}
use sp1_helios.Action.{World}
use sp1_helios.Store.{RedisStore}
use sp1_helios.Service.{restart_orphaned_proofs}
use sp1_helios.Service.Readable.{StoredFrom, StoredFrom-same}
use sp1_helios.Service.Onward.{update_redis_state-Maintains}
use sp1_helios.Client.{Client, advance}
use sp1_helios.Client.Onward.{Grows, head, advance-Onward}
use sp1_helios.Client.Rpc.{Endpoints}
use sp1_helios.Run.{panics, HealthError, advance_light_client, check_header_health}
use sp1_helios.Run.Loop.{Host, host_platform, Driver, Round, publish, round, run}
use sp1_helios.Run.Covered.{restart_orphaned_proofs-header, check_header_health-header}

advance_light_client-Onward :
    (h : Core) (light_client advanced_client : Client h) (flag raised : Bool)
    (rpcs : Endpoints h.spec)
    → Grows h
    → advance_light_client h light_client flag rpcs ≡ some (advanced_client, raised)
    → head h light_client.store ≤ head h advanced_client.store
unfolding advance_light_client
advance_light_client-Onward h light_client advanced_client flag raised rpcs g e =
    elim (Result-cases (advance h light_client rpcs)) [
      | inr (x, q) ↦ elim (Bool-cases (panics x)) [
        | inl panic ↦ absurd (ground (arith, e, q, panic))
        | inr error ↦
            let same : light_client ≡ advanced_client = ground (arith, e, q, error) in
            subst (λ (c : Client h). head h light_client.store ≤ head h c.store) same (omega arith)
      ]
      | inl (advanced, q) ↦
          let same : advanced ≡ advanced_client = ground (arith, e, q) in
          subst (λ (c : Client h). head h light_client.store ≤ head h c.store) same
            (advance-Onward h g light_client advanced rpcs q)
    ]

module _ (h : Core) (host : Host h.spec) (r : RedisStore) (d : Documented host.redis)
    (a : Reachable host.redis) (digits : (b : B256) → length (host.to_hex b) ≡ 64)
    (reads : (header : h.Header) (json : Text)
      → host.header_json.to_string header ≡ ok json
      → host.header_json.from_str json ≡ ok header)
    (g : Grows h) where
  -- The store has a header of the slot or a later one.
  abbrev From : ℕ → World (host_platform h host r) → Type 0
  From n w = StoredFrom (host_platform h host r) r n w

  -- If the loop goes on, the head is not behind that of `s`.
  abbrev pub NotBehind : Driver h host r → Result HealthError (Driver h host r) → Type 0
  NotBehind s (ok s') = head h s.light_client.store ≤ head h s'.light_client.store
  NotBehind s (err e) = Unit

  NotBehind-earlier :
      (s middle : Driver h host r) (res : Result HealthError (Driver h host r))
      → head h s.light_client.store ≤ head h middle.light_client.store
      → NotBehind middle res
      → NotBehind s res
  NotBehind-earlier s middle (ok last) le rest = omega (arith, le, rest)
  NotBehind-earlier s middle (err e) le rest = tt

  publish-From :
      (n : ℕ) (s : Driver h host r) (w : World (host_platform h host r))
      → From n w
      → From n (publish h host r s w).1
  unfolding publish
  publish-From n s w stored = elim (Bool-cases s.should_advance_redis_state) [
    | inr down ↦ rw (down, publish) stored
    | inl up ↦
        rw (up, publish)
          ((update_redis_state-Maintains {p = host_platform h host r} d a r digits reads n
              s.light_client.store.finalized_header true).maintains
            w stored)
  ]

  round-Onward :
      (s : Driver h host r) (next : Round h host r) (w : World (host_platform h host r)) (n : ℕ)
      → From n w
      → From n (round h host r s next w).1 × NotBehind s (round h host r s next w).0
  unfolding round
  round-Onward s next w n stored =
      let (flag, published) = publish h host r s w in
      let picked_up = (restart_orphaned_proofs (host_platform h host r) r published).1 in
      let checked =
        check_header_health h (host_platform h host r) r s.light_client.config next.now picked_up in
      let kept : From n checked.1 =
        StoredFrom-same (host_platform h host r) r
          (check_header_health-header {p = host_platform h host r} d a r h s.light_client.config
              next.now picked_up
            ∙ restart_orphaned_proofs-header {p = host_platform h host r} d a r published)
          (publish-From n s w stored) in
      elim (Result-cases checked.0) [
        | inr (e, q) ↦ rw (q, round) (kept, tt)
        | inl (u, q) ↦ elim (Option-cases (advance_light_client h s.light_client flag next.rpcs)) [
          | inl panic ↦ rw (q, panic, round) (kept, tt)
          | inr ((light_client', flag'), e) ↦
              rw (q, e, round)
                (
                  kept,
                  advance_light_client-Onward h s.light_client light_client' flag flag' next.rpcs g
                      e,
                )
        ]
      ]

  -- On a documented server that answers every command, where ids print as 64 digits and serde_json
  -- reads headers back, no other worker writes, and helios replaces a finalized header only by a
  -- later one: whatever rounds run, and whether or not the loop survives them, if the store has a
  -- header that can be read, of a slot or a later one, it has one afterwards; and while the loop
  -- goes on, the light client's finalized slot is not behind the one it started with.
  pub run-Onward :
      (rounds : List (Round h host r)) (s : Driver h host r) (w : World (host_platform h host r))
      (n : ℕ)
      → From n w
      → From n (run h host r rounds s w).1 × NotBehind s (run h host r rounds s w).0
  unfolding run
  run-Onward [] s w n stored = (stored, omega arith)
  run-Onward (next ∷ rounds) s w n stored =
      let (kept, first) = round-Onward s next w n stored in
      elim (Result-cases (round h host r s next w).0) [
        | inr (x, q) ↦ rw (q, run) (kept, tt)
        | inl (middle, q) ↦
            let (last, rest) = run-Onward rounds middle (round h host r s next w).1 n kept in
            rw (q, run)
              (
                last,
                NotBehind-earlier s middle
                    (run h host r rounds middle (round h host r s next w).1).0 (rw q at first) rest,
              )
      ]
