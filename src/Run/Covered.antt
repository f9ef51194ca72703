-- ===== src/Run/Covered.antt =====
-- The main loop's flag `should_advance_redis_state`: while it is down, the store is as new as the
-- light client.
use sp1_helios.Prelude.{
  ℕ, ◌≤◌, ◌≡◌, refl, ap, ◌∙◌, subst, List, [], ◌∷◌, Bool, true, false, ok, Text, length, arith, ltb,
  Bool-cases, Result-cases, Option-cases, some, inl, inr,
}
use sp1_helios.Types.{B256, generating}
use sp1_helios.Helios.{Core}
use sp1_helios.Redis.{Platform, Documented, Reachable}
use sp1_helios.Action.{World, attempt, pure, ◌>>=◌}
use sp1_helios.Store.{RedisStore, find_requests_by_status}
use sp1_helios.Redis.Local.{Local-lookup}
use sp1_helios.Store.Keeps.{
  Keeps-find_requests_by_status, Keeps-read_finalized_header, Keeps-bind, Keeps-pure,
}
use sp1_helios.Service.{process_new_finalized_header, update_redis_state, restart_orphaned_proofs}
use sp1_helios.Service.Readable.{
  header_value, IsHeaderKey, StoredFrom, StoredFrom-same, StoredFrom-earlier,
}
use sp1_helios.Service.Newer.{spawn_all-header, process_new_finalized_header-StoredFrom}
use sp1_helios.Client.{Client, advance}
use sp1_helios.Client.Time.{Config}
use sp1_helios.Client.Rpc.{Endpoints}
use sp1_helios.Run.{panics, advance_light_client, check_header_health, get_stored_header_age}
use sp1_helios.Run.Loop.{Host, host_platform, Driver, Round, publish, round, run}

-- An advance that leaves the flag down found it down, and no newer header.
advance_light_client-down :
    (h : Core) (light_client advanced_client : Client h) (flag : Bool) (rpcs : Endpoints h.spec)
    → advance_light_client h light_client flag rpcs ≡ some (advanced_client, false)
    → (flag ≡ false)
      × (h.beacon_slot advanced_client.store.finalized_header
          ≤ h.beacon_slot light_client.store.finalized_header)
unfolding advance_light_client
advance_light_client-down h light_client advanced_client flag rpcs e =
    elim (Result-cases (advance h light_client rpcs)) [
      | inr (x, q) ↦ elim (Bool-cases (panics x)) [
        | inl panic ↦ absurd (ground (arith, e, q, panic))
        | inr error ↦
            let same : (light_client, flag) ≡ (advanced_client, false) =
              ground (arith, e, q, error) in
            (
              ap (λ (c : Client h × Bool). c.1) same,
              subst
                  (λ (c : Client h × Bool).
                    h.beacon_slot c.0.store.finalized_header
                    ≤ h.beacon_slot light_client.store.finalized_header)
                  same (omega arith),
            )
      ]
      | inl (advanced, q) ↦
          elim (Bool-cases (
            ltb (h.beacon_slot light_client.store.finalized_header)
              (h.beacon_slot advanced.store.finalized_header))) [
                | inl newer ↦ absurd (ground (arith, e, q, newer))
                | inr older ↦
                    let same : (advanced, flag) ≡ (advanced_client, false) =
                      ground (arith, e, q, older) in
                    (
                      ap (λ (c : Client h × Bool). c.1) same,
                      subst
                          (λ (c : Client h × Bool).
                            h.beacon_slot c.0.store.finalized_header
                            ≤ h.beacon_slot light_client.store.finalized_header)
                          same (ground (arith, older)),
                    )
              ]
    ]

module _ {p : Platform} (d : Documented p.redis) (a : Reachable p.redis) (r : RedisStore) where
  pub restart_orphaned_proofs-header :
      (w : World p) → header_value p r (restart_orphaned_proofs p r w).1 ≡ header_value p r w
  unfolding restart_orphaned_proofs ◌>>=◌
  restart_orphaned_proofs-header w =
      let found =
        (Keeps-find_requests_by_status (Local-lookup d a) r {K = IsHeaderKey p r} generating).keys w
          _ refl in
      elim (Result-cases (find_requests_by_status p r generating w).0) [
        | inr (e, q) ↦ rw q found
        | inl (states, q) ↦ rw q (spawn_all-header d a r states _ ∙ found)
      ]

  pub check_header_health-header :
      (h : Core) (config : Config h.spec) (now : ℕ) (w : World p)
      → header_value p r (check_header_health h p r config now w).1 ≡ header_value p r w
  unfolding check_header_health get_stored_header_age
  check_header_health-header h config now w =
      (Keeps-bind {K = IsHeaderKey p r} _ _ (Keeps-read_finalized_header (Local-lookup d a) r)
          (λ stored. Keeps-pure _)).keys
        w _ refl

  module _ (digits : (b : B256) → length (p.to_hex b) ≡ 64)
      (reads : (header : p.spec.Header) (json : Text)
        → p.header_json.to_string header ≡ ok json
        → p.header_json.from_str json ≡ ok header) where
    -- `update_redis_state` takes the flag down only when the store is as new as the header.
    update_redis_state-down :
        (latest : p.spec.Header) (w : World p)
        → (update_redis_state p r latest true w).0 ≡ ok false
        → StoredFrom p r (p.spec.beacon_slot latest) (update_redis_state p r latest true w).1
    unfolding update_redis_state attempt ◌>>=◌ pure
    update_redis_state-down latest w e =
        elim (Result-cases (process_new_finalized_header p r latest w).0) [
          | inr (x, q) ↦ absurd (ground (arith, e, q))
          | inl (false, q) ↦ absurd (ground (arith, e, q))
          | inl (true, q) ↦ process_new_finalized_header-StoredFrom d a r digits reads latest w q
        ]

module _ (h : Core) (host : Host h.spec) (r : RedisStore) (d : Documented host.redis)
    (a : Reachable host.redis) (digits : (b : B256) → length (host.to_hex b) ≡ 64)
    (reads : (header : h.Header) (json : Text)
      → host.header_json.to_string header ≡ ok json
      → host.header_json.from_str json ≡ ok header) where
  -- While the flag is down, the stored header is of the client's finalized slot or a later one.
  abbrev pub Covered : Driver h host r → World (host_platform h host r) → Type 0
  Covered s w =
      s.should_advance_redis_state ≡ false
      → StoredFrom (host_platform h host r) r (h.beacon_slot s.light_client.store.finalized_header)
          w

  publish-Covered :
      (s : Driver h host r) (w : World (host_platform h host r))
      → Covered s w
      → (publish h host r s w).0 ≡ false
      → StoredFrom
          (host_platform h host r)
          r
          (h.beacon_slot s.light_client.store.finalized_header)
          (publish h host r s w).1
  unfolding publish
  publish-Covered s w c e = elim (Bool-cases s.should_advance_redis_state) [
    | inr down ↦ rw down (c down)
    | inl up ↦
        let latest = s.light_client.store.finalized_header in
        elim (Result-cases (update_redis_state (host_platform h host r) r latest true w).0) [
          | inr (x, q) ↦ absurd (ground (arith, e, up, q))
          | inl (true, q) ↦ absurd (ground (arith, e, up, q))
          | inl (false, q) ↦
              rw up
                (update_redis_state-down {p = host_platform h host r} d a r digits reads latest w q)
        ]
  ]

  round-Covered :
      (s : Driver h host r) (next : Round h host r) (w : World (host_platform h host r))
      (s' : Driver h host r)
      → Covered s w
      → (round h host r s next w).0 ≡ ok s'
      → Covered s' (round h host r s next w).1
  unfolding round
  round-Covered s next world s' c e down =
      let (flag, published) = publish h host r s world in
      let picked_up = (restart_orphaned_proofs (host_platform h host r) r published).1 in
      elim (Result-cases
        (check_header_health h (host_platform h host r) r s.light_client.config next.now
          picked_up).0) [
            | inr (x, q) ↦ absurd (ground (arith, e, q))
            | inl (x, q) ↦
                elim (Option-cases (advance_light_client h s.light_client flag next.rpcs)) [
                  | inl panic ↦ absurd (ground (arith, e, q, panic))
                  | inr ((light_client', flag'), w) ↦
                      let made : Driver h host r = record {
                        light_client = light_client';
                        should_advance_redis_state = flag';
                      } in
                      let same : made ≡ s' = ground (arith, e, q, w) in
                      let is_down : flag' ≡ false =
                        ap (λ (t : Driver h host r). t.should_advance_redis_state) same ∙ down in
                      let (was_down, older) =
                        advance_light_client-down h s.light_client light_client' flag next.rpcs
                          (w ∙ ap (λ b. some (light_client', b)) is_down) in
                      let stored =
                        StoredFrom-same (host_platform h host r) r
                          (check_header_health-header {p = host_platform h host r} d a r h
                              s.light_client.config next.now picked_up
                            ∙ restart_orphaned_proofs-header {p = host_platform h host r} d a r
                                published)
                          (publish-Covered s world c was_down) in
                      subst
                        (λ (t : Driver h host r).
                          StoredFrom (host_platform h host r) r
                            (h.beacon_slot t.light_client.store.finalized_header)
                            (round h host r s next world).1)
                        same
                        (rw (q, round) (StoredFrom-earlier (host_platform h host r) r older stored))
                ]
          ]

  -- On a documented server that answers every command, where ids print as 64 digits and serde_json
  -- reads headers back, and no other worker writes: after any rounds that the loop survives, if the
  -- flag is down then the stored header can be read and is of the light client's finalized slot or
  -- a later one, provided that this held before.
  pub run-Covered :
      (rounds : List (Round h host r)) (s : Driver h host r) (w : World (host_platform h host r))
      (s' : Driver h host r)
      → Covered s w
      → (run h host r rounds s w).0 ≡ ok s'
      → s'.should_advance_redis_state ≡ false
      → StoredFrom
          (host_platform h host r)
          r
          (h.beacon_slot s'.light_client.store.finalized_header)
          (run h host r rounds s w).1
  unfolding run
  run-Covered [] s w s' c e down =
      let same : s ≡ s' = ground arith in subst (λ t. Covered t w) same c down
  run-Covered (next ∷ rounds) s w s' c e down = elim (Result-cases (round h host r s next w).0) [
    | inr (x, q) ↦ absurd (ground (arith, e, q))
    | inl (middle, q) ↦
        rw (q, run)
          (run-Covered rounds middle (round h host r s next w).1 s'
            (round-Covered s next w middle c q) (rw (q, run) at e) down)
  ]
