-- ===== src/Examples/Events.antt =====
-- Events and posts of the logging.
use sp1_helios.Prelude.{
  ℕ, zero, suc, All, ◌≡◌, refl, [], ◌∷◌, List, none, some, true, Text, codes, ◌==◌, inl, inr,
}
use sp1_helios.Tracing.{
  error, JsonValues, Event, debug_value, str_value, format_event, message_of, visited,
}
use sp1_helios.Tracing.Object.{expected, format_event-lookup}
use sp1_helios.Tracing.Slack.{Post, handles, flush}
use sp1_helios.Tracing.Handles.{Has, InOrder, flush-Has}

abbrev texts : JsonValues
texts = record {
  Value = List Text;
  of_text = λ s. s ∷ [];
  of_texts = λ ss. ss;
  of_number = λ n. (n ∷ []) ∷ [];
  as_str = λ v. elim v [ [] ↦ none | s ∷ ss ↦ some s ];
}

-- An error with a field of its own named as the severity.
abbrev event : Event texts
event = record {
  level = error;
  level_text = codes "ERROR";
  target = codes "proof_service::run";
  file = none;
  line = some 7;
  module_path = none;
  fields =
      (codes "message", debug_value (codes "failed"))
      ∷ (codes "severity", str_value (codes "low") (codes "'low'"))
      ∷ [];
  spans = [];
}

format_event-lookup_example :
    format_event (codes "now") (codes "ab12cd") event (codes "severity")
    ≡ expected
        (codes "now")
        (codes "ab12cd")
        event
        (message_of event (visited (λ i. none) event.fields))
        (codes "severity")
format_event-lookup_example =
    format_event-lookup (codes "now") (codes "ab12cd") event (codes "severity")

-- Posts with the handles from `n` on, of which only the first task has ended.
abbrev posts_from : ℕ → ℕ → List Post
posts_from n zero = []
posts_from n (suc k) =
    record { locked = true; finished = λ h. h == 0; handle = n } ∷ posts_from (suc n) k

posts_from-InOrder : (n k : ℕ) → All (InOrder (λ h. h == 0)) (posts_from n k)
posts_from-InOrder n zero = tt
posts_from-InOrder n (suc k) =
    (record { locked = refl; ended = λ h e. e }, posts_from-InOrder (suc n) k)

-- The list is pruned at the 16th.
pruned :
    handles [] (posts_from 0 16)
    ≡ 1 ∷ 2 ∷ 3 ∷ 4 ∷ 5 ∷ 6 ∷ 7 ∷ 8 ∷ 9 ∷ 10 ∷ 11 ∷ 12 ∷ 13 ∷ 14 ∷ 15 ∷ []
unfolding handles
pruned = refl

flush-Has_example : Has 2 (flush true (handles [] (posts_from 0 16)))
flush-Has_example =
    flush-Has (λ h. h == 0) (posts_from 0 16) 2 (posts_from-InOrder 0 16) refl
      (inr (inr (inl refl)))
