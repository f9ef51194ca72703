-- ===== src/Tracing/Posts.antt =====
-- Which events the Slack layer posts, under the threshold that the environment sets.
use sp1_helios.Prelude.{
  ◌≡◌, ◌≢◌, ◌⊎◌, refl, some, none, Bool, not, ◌&&◌, if◌then◌else◌, true, false, Text, codes,
  text_eq, arith, inl, inr, Bool-cases,
}
use sp1_helios.Tracing.{Level, error, info, JsonValues, Event, extract_message}
use sp1_helios.Tracing.Slack.{should_send, is_filtered, on_event}

abbrev generate_target : Text
generate_target = codes "proof_service::generate"

-- What a conditional gave, its condition allowed.
some-guarded :
    {A : Type 0} (c f : Bool) (x : A) {y : A}
    → (if c && not f then some x else none) ≡ some y
    → (c ≡ true) × (f ≡ false)
some-guarded true false x e = (refl, refl)
some-guarded true true x e = absurd (ground (arith, e))
some-guarded false f x e = absurd (ground (arith, e))

module _ (at_most : Level → Level → Bool) where
  -- An event that is sent below the threshold is of the proof generation task, or of the level INFO.
  should_send-below :
      (threshold level : Level) (target message : Text)
      → at_most level threshold ≡ false
      → should_send at_most threshold level target message ≡ true
      → (text_eq target generate_target ≡ true) ⊎ (level ≡ info)
  unfolding should_send
  should_send-below threshold info target message below sent = inr refl
  should_send-below threshold level target message below sent =
      elim (Bool-cases (text_eq target generate_target)) [
        | inl same ↦ inl same
        | inr other ↦ absurd (ground (arith, below, sent, other))
      ]

  is_filtered-error : (target message : Text) → is_filtered error target message ≡ false
  unfolding is_filtered
  is_filtered-error target message = refl

  module _ {j : JsonValues} where
    -- Whatever is posted is at the threshold or above, or of the proof generation task, or of the
    -- level INFO; and it is none of the warnings that are filtered out.
    pub on_event-posted :
        (threshold : Level) (ts run_id text : Text) (event : Event j)
        → on_event at_most threshold ts run_id event ≡ some text
        → ((at_most event.level threshold ≡ true)
            ⊎ ((text_eq event.target generate_target ≡ true) ⊎ (event.level ≡ info)))
          × (is_filtered event.level event.target (extract_message event) ≡ false)
    unfolding on_event
    on_event-posted threshold ts run_id text event e =
        let (sent, unfiltered) =
          some-guarded
            (should_send at_most threshold event.level event.target (extract_message event))
            (is_filtered event.level event.target (extract_message event)) _ e in
        (
          elim (Bool-cases (at_most event.level threshold)) [
            | inl reached ↦ inl reached
            | inr below ↦ inr (
                should_send-below threshold event.level event.target (extract_message event) below
                  sent)
          ],
          unfiltered,
        )

    -- An error is posted wherever the threshold lets errors through, whatever it says.
    pub on_event-error :
        (threshold : Level) (ts run_id : Text) (event : Event j)
        → at_most error threshold ≡ true
        → event.level ≡ error
        → on_event at_most threshold ts run_id event ≢ none
    unfolding on_event should_send
    on_event-error threshold ts run_id event reached e q =
        absurd
          (ground (arith, e, reached, q, is_filtered-error event.target (extract_message event)))
