-- ===== src/Client/Updates.antt =====
-- `get_updates_single_rpc` of zk-api/src/consensus_client/mod.rs: the batches of sync-committee
-- updates that one endpoint is asked for.
use sp1_helios.Prelude.{
  ℕ, zero, suc, ◌+◌, ◌-◌, List, [], ◌++◌, Result, ok, map_err, ◌>>=◌, min, ltb, leb, if◌then◌else◌,
}
use sp1_helios.Helios.{Core}
use sp1_helios.Client.Rpc.{Endpoint, ClientError, rpc_error}
use sp1_helios.Client.Time.{wrapping_sub}

abbrev pub max_request_light_client_updates : ℕ
max_request_light_client_updates = 128

-- The size of the next batch.
abbrev pub batch_size : ℕ → ℕ → ℕ
batch_size expected next = min (expected - next) max_request_light_client_updates

module _ (h : Core) where
  open h use {spec, Update, calc_sync_period}

  -- The `while` loop, from `next`, on fuel: the updates and the period that it ends at. It is
  -- called with as much fuel as there are periods.
  unfoldable pub fetch_batches :
      ℕ → Endpoint spec → ℕ → ℕ → List Update → Result ClientError (List Update × ℕ)
  fetch_batches zero rpc expected next updates = ok (updates, next)
  fetch_batches (suc fuel) rpc expected next updates =
      let more = map_err rpc_error (rpc.get_updates next (batch_size expected next)) >>= λ update.
      fetch_batches fuel rpc expected (next + batch_size expected next) (updates ++ update) in
      if ltb next expected then more else ok (updates, next)

  -- The last request, after the loop.
  unfoldable pub fetch_last : Endpoint spec → List Update × ℕ → Result ClientError (List Update)
  fetch_last rpc (updates, next) =
      map_err rpc_error (rpc.get_updates next max_request_light_client_updates) >>= λ update.
      ok (updates ++ update)

  unfoldable pub get_updates_single_rpc : ℕ → ℕ → Endpoint spec → Result ClientError (List Update)
  unfolding fetch_batches fetch_last
  get_updates_single_rpc expected_current_slot current_finalized_slot rpc =
      let expected = calc_sync_period expected_current_slot in
      let next = calc_sync_period current_finalized_slot in
      (if leb 128 (wrapping_sub expected next)
        then fetch_batches expected rpc expected next []
        else ok ([], next))
      >>= fetch_last rpc
