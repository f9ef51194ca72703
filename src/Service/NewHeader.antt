-- ===== src/Service/NewHeader.antt =====
-- `process_new_finalized_header_locked` from end to end.
use sp1_helios.Prelude.{
  codes, ◌≤◌, ◌<◌, ◌≡◌, ap, ◌⊎◌, List, ◌++◌, Option, some, ok, ok_or, Text, length, inl, inr,
}
use sp1_helios.Types.{B256, waiting_for_finality, internal}
use sp1_helios.Helios.{ExecutionHeader}
use sp1_helios.Redis.{Platform, Documented, Reachable}
use sp1_helios.Action.Runs.{Values, Tasks, Runs, Runs-bind, Runs-pure, Runs-lift, Runs-result}
use sp1_helios.Store.{RedisStore, State, finalized_header_key, parse_reply}
use sp1_helios.Store.Runs.{Runs-read_finalized_header}
use sp1_helios.Store.Kept.{FullScan}
use sp1_helios.Store.Scan.{found, find_requests_by_status-found}
use sp1_helios.Service.{now_final, apply_new_header, process_new_finalized_header_locked}
use sp1_helios.Service.Headers.{Runs-spawn_all, locks, tasks}
use sp1_helios.Service.Advance.{Advances, should_update-cases, Runs-update, saved, saved-Advances}

module _ {p : Platform} (d : Documented p.redis) (a : Reachable p.redis) (r : RedisStore)
    (encodes : (s : State p) → (text : Text) × (p.state_json.to_string s ≡ ok text)) where
  open p use {spec}

  Runs-apply_new_header :
      (latest : spec.Header) (payload : ExecutionHeader) (json : Text) (pages : List (List Text))
      (v : Values) (t : Tasks)
      → FullScan p r v t pages
      → spec.execution latest ≡ some payload
      → p.header_json.to_string latest ≡ ok json
      → let moved =
          now_final p r payload.block_number
            (spec.beacon_slot latest)
            (found p r waiting_for_finality v pages) in
        Runs
          (apply_new_header p r latest)
          v
          t
          (ok tt)
          (locks p r (saved p r encodes v json moved) moved)
          (t ++ tasks p r (saved p r encodes v json moved) moved)
  unfolding apply_new_header
  Runs-apply_new_header latest payload json pages v t scan has written_as =
      Runs-bind _ _
        (find_requests_by_status-found d a r waiting_for_finality pages v t scan.within_fuel
          scan.scanned)
        (Runs-bind _ _
          (Runs-result
            (ap
              (λ o.
                ok_or o (internal (codes "Failed to get execution header from finality update")))
              has)
            (Runs-lift _ v t))
          (Runs-bind _ _ (Runs-update d a r encodes latest json _ v t written_as)
            (Runs-spawn_all d a r _ _ t)))

  -- Under the global lock, on a documented server that answers every command and whose scan is full,
  -- and ends within the fuel, with a stored header that can be read or none, for a header that has a
  -- payload and a text, where every state has a text and ids print as 64 digits: if the stored
  -- header is as new, nothing changes. Otherwise the new header is stored; each waiting request that
  -- the store has, under any key of the states but the finalized header's, and that the new header
  -- makes final, has a generating state, and its lock is held; no state of another id changes; and
  -- the new tasks are for such requests with free locks only, each of them has one, and no two have
  -- one lock.
  pub process_new_finalized_header_locked-Advances :
      (digits : (b : B256) → length (p.to_hex b) ≡ 64) (latest : spec.Header)
      (stored : Option spec.Header) (payload : ExecutionHeader) (json : Text)
      (pages : List (List Text)) (v : Values) (t : Tasks)
      → FullScan p r v t pages
      → parse_reply p p.header_json (v (finalized_header_key p r)) ≡ ok stored
      → spec.execution latest ≡ some payload
      → p.header_json.to_string latest ≡ ok json
      → (((old : spec.Header) × (stored ≡ some old)
            × (spec.beacon_slot latest ≤ spec.beacon_slot old))
          × Runs (process_new_finalized_header_locked p r latest) v t (ok tt) v t)
        ⊎ (((old : spec.Header)
              → stored ≡ some old
              → spec.beacon_slot old < spec.beacon_slot latest)
            × ((v' : Values) × (t' : Tasks) × Runs
                  (process_new_finalized_header_locked p r latest)
                  v
                  t
                  (ok tt)
                  v'
                  t'
                × Advances p r latest payload.block_number json v t v' t'))
  unfolding process_new_finalized_header_locked
  process_new_finalized_header_locked-Advances digits latest stored payload json pages v t scan read
        has written_as =
      let header = Runs-result read (Runs-read_finalized_header d a r v t) in
      elim (should_update-cases p r stored latest) [
        | inl (no_news, old) ↦ inl (old, Runs-bind _ _ header (rw no_news (Runs-pure tt v t)))
        | inr (news, newer) ↦ inr (
          newer,
          (
            _,
            _,
            Runs-bind _ _ header
                (rw news (Runs-apply_new_header latest payload json pages v t scan has written_as)),
            saved-Advances d a r encodes digits latest payload.block_number json pages v t scan,
          ),
        )
      ]
