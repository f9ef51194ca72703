-- ===== src/Client/Clock.antt =====
-- The waiting time between polls, and the age of a checkpoint.
use sp1_helios.Prelude.{ℕ, ◌+◌, ◌-◌, ◌*◌, ◌/◌, ◌^◌, ◌≤◌, ◌<◌, ◌≡◌, ◌↔◌, true, arith}
use sp1_helios.Helios.{Core}
use sp1_helios.Client.Time.{Config, is_valid_checkpoint, duration_until_next_update}

module _ (h : Core) where
  open h use {spec}

  -- helios counts 12-second slots from genesis, and the clock is read from genesis on and within
  -- `u64`, first for the slot and then, no earlier, for the time. If the second reading is at most 4
  -- seconds past the start of the next slot, then the next poll is 4 seconds into that slot, and 5 to
  -- 16 seconds away where both readings are in one slot. Later than that the subtraction wraps around.
  pub duration_until_next_update_lem :
      (c : Config spec) (read now : ℕ)
      → h.expected_current_slot read c.genesis_time ≡ (read - c.genesis_time) / 12
      → c.genesis_time ≤ read
      → read ≤ now
      → now < 2 ^ 63
      → let next = ((read - c.genesis_time) / 12 + 1) * 12 + c.genesis_time in
        (now ≤ next + 4 → now + duration_until_next_update h c read now ≡ next + 4)
        × (now < next
            → (5 ≤ duration_until_next_update h c read now)
              × (duration_until_next_update h c read now ≤ 16))
        × (next + 4 < now → duration_until_next_update h c read now ≡ 2 ^ 64 - (now - (next + 4)))
  unfolding duration_until_next_update
  duration_until_next_update_lem c read now e g o b =
      (λ le. ground (arith, le), λ lt. ground (arith, lt), λ lt. ground (arith, lt))

  -- helios counts 12-second slots from genesis. Then, from genesis on and within `u64`, and for a slot
  -- within it, a checkpoint is valid exactly while its slot began less than
  -- `max_checkpoint_age` seconds before the current slot began; a slot of the future is, unless that age is 0.
  pub is_valid_checkpoint_iff :
      (c : Config spec) (now slot : ℕ)
      → h.expected_current_slot now c.genesis_time ≡ (now - c.genesis_time) / 12
      → c.genesis_time ≤ now
      → now < 2 ^ 63
      → slot * 12 + c.genesis_time < 2 ^ 64
      → (is_valid_checkpoint h c now slot ≡ true)
        ↔ ((now - c.genesis_time) / 12 * 12 - slot * 12 < c.max_checkpoint_age)
  unfolding is_valid_checkpoint
  is_valid_checkpoint_iff c now slot e g b s = ground arith
