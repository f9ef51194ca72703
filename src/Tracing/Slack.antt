-- ===== src/Tracing/Slack.antt =====
-- zk-api/src/tracing/slack.rs: which events the Slack layer posts, with what text, and the handles
-- of the tasks that post them. tracing's order of levels and the starts of texts are the parameters.
use sp1_helios.Prelude.{
  zero, suc, ◌-◌, ℕ, List, [], ◌∷◌, ◌++◌, Option, none, some, Bool, true, false, not, ◌&&◌, ◌||◌,
  Text, text_eq, codes, starts_with, length, leb, is_empty, if◌then◌else◌,
}
use sp1_helios.Tracing.{Level, error, warn, info, debug, trace, JsonValues, Event, extract_message}

-- `SLACK_PRUNE_THRESHOLD`.
abbrev pub slack_prune_threshold : ℕ
slack_prune_threshold = 16

abbrev is_info : Level → Bool
is_info info = true
is_info _ = false

abbrev is_warn : Level → Bool
is_warn warn = true
is_warn _ = false

-- The warnings that are filtered out.
unfoldable pub is_filtered : Level → Text → Text → Bool
unfolding starts_with
is_filtered level target message =
    is_warn level
    && text_eq target (codes "helios_consensus_core::consensus_core")
    && starts_with message (codes "skipping block with low vote count")

unfoldable pub level_emoji : Level → Text
level_emoji error = codes ":x:"
level_emoji warn = codes ":warning:"
level_emoji info = codes ":white_check_mark:"
level_emoji debug = codes ":mag:"
level_emoji trace = codes ":mag:"

abbrev spaces : ℕ → Text
spaces zero = []
spaces (suc n) = 32 ∷ spaces n

-- `{:<5}`.
abbrev padded : Text → Text
padded s = s ++ spaces (5 - length s)

module _ (at_most : Level → Level → Bool) where
  unfoldable pub should_send : Level → Level → Text → Text → Bool
  unfolding starts_with
  should_send threshold level target message =
      at_most level threshold
      || text_eq target (codes "proof_service::generate") && at_most level debug
      || is_info level
        && (starts_with message (codes "Created request")
            || starts_with message (codes "View request status at:")
            || starts_with message (codes "Proof request assigned"))
      || is_info level
        && text_eq target (codes "proof_service::run")
        && starts_with message (codes "Starting main loop")

  -- The text that `on_event` posts, if it posts.
  unfoldable pub on_event : {j : JsonValues} → Level → Text → Text → Event j → Option Text
  unfolding should_send is_filtered level_emoji
  on_event threshold ts run_id event =
      let message = extract_message event in
      let shown = if is_empty message then codes "Event occurred" else message in
      let text =
        codes "`["
        ++ (ts
            ++ (codes "] ["
                ++ (padded event.level_text
                    ++ (codes "]` "
                        ++ (level_emoji event.level
                            ++ (codes " `["
                                ++ (run_id
                                    ++ (codes "::"
                                        ++ (event.target ++ (codes "]` " ++ shown)))))))))) in
      if should_send threshold event.level event.target message
        && not (is_filtered event.level event.target message)
      then some text
      else none

-- `v.retain(|h| !h.is_finished())`.
unfoldable pub retain : (ℕ → Bool) → List ℕ → List ℕ
retain finished [] = []
retain finished (h ∷ v) = let rest = retain finished v in if finished h then rest else h ∷ rest

-- What `on_event` does with the handle of a post. A task's handle is a number, and `finished` says
-- which tasks have ended by then. A poisoned lock leaves the list alone.
unfoldable pub keep_handle : Bool → (ℕ → Bool) → List ℕ → ℕ → List ℕ
unfolding retain
keep_handle locked finished v handle =
    let grown = v ++ handle ∷ [] in
    if locked
    then (if leb slack_prune_threshold (length grown) then retain finished grown else grown)
    else v

-- One post: whether the lock was taken, the tasks that had ended, and the handle.
pub record Post : Type 0 where
  pub locked : Bool
  pub finished : ℕ → Bool
  pub handle : ℕ

unfoldable pub handles : List ℕ → List Post → List ℕ
unfolding keep_handle
handles v [] = v
handles v (post ∷ posts) = handles (keep_handle post.locked post.finished v post.handle) posts

-- The tasks that `flush` waits for; without the lock it waits for none, but sleeps.
unfoldable pub flush : Bool → List ℕ → List ℕ
flush true v = v
flush false v = []
