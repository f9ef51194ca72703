-- ===== src/Client/Time.antt =====
-- `ConfigExt` of zk-api/src/consensus_client/mod.rs: slots, timestamps and ages. Times are Unix
-- seconds, but nanoseconds for `age`, and `u64` arithmetic wraps, as in the release build that is deployed.
use sp1_helios.Prelude.{
  ℕ, ◌+◌, ◌-◌, ◌*◌, ◌%◌, ◌^◌, Bool, Option, none, some, ltb, leb, if◌then◌else◌,
}
use sp1_helios.Types.{B256}
use sp1_helios.Helios.{Spec, Core}

-- What the source reads of helios' `Config`, with its chain and its forks.
pub record Config (s : Spec) : Type 0 where
  pub genesis_time : ℕ
  pub genesis_root : B256
  pub forks : s.Forks
  pub strict_checkpoint_age : Bool
  pub max_checkpoint_age : ℕ

abbrev pub u64 : ℕ → ℕ
u64 n = n % 2 ^ 64

-- `a - b` on `u64`.
abbrev pub wrapping_sub : ℕ → ℕ → ℕ
wrapping_sub a b = u64 (a + 2 ^ 64 - b)

-- A second.
abbrev pub nanos : ℕ
nanos = 1000000000

module _ (h : Core) where
  open h use {spec}

  unfoldable pub expected_current_slot : Config spec → ℕ → ℕ
  expected_current_slot c now = h.expected_current_slot now c.genesis_time

  unfoldable pub slot_timestamp : Config spec → ℕ → ℕ
  slot_timestamp c slot = u64 (u64 (slot * 12) + c.genesis_time)

  -- `saturating_sub` is the subtraction of ℕ.
  unfoldable pub is_valid_checkpoint : Config spec → ℕ → ℕ → Bool
  unfolding slot_timestamp expected_current_slot
  is_valid_checkpoint c now blockhash_slot =
      let current_slot_timestamp = slot_timestamp c (expected_current_slot c now) in
      let blockhash_slot_timestamp = slot_timestamp c blockhash_slot in
      ltb (current_slot_timestamp - blockhash_slot_timestamp) c.max_checkpoint_age

  -- In nanoseconds, as is the time. `none` is the panic of `Duration`'s subtraction below zero.
  unfoldable pub age : Config spec → ℕ → ℕ → Option ℕ
  unfolding slot_timestamp
  age c now slot =
      let expected_time = slot_timestamp c slot * nanos in
      if leb expected_time now then some (now - expected_time) else none

  -- The clock is read for the current slot, and again for the seconds that are left.
  unfoldable pub duration_until_next_update : Config spec → ℕ → ℕ → ℕ
  unfolding slot_timestamp expected_current_slot
  duration_until_next_update c read now =
      let next_slot = u64 (expected_current_slot c read + 1) in
      let time_to_next_slot = wrapping_sub (slot_timestamp c next_slot) now in
      u64 (time_to_next_slot + 4)
