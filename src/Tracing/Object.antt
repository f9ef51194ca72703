-- ===== src/Tracing/Object.antt =====
-- What the formatter's object has under each key.
use sp1_helios.Prelude.{
  ◌≡◌, refl, ap, ◌∙◌, fun_ext, List, [], ◌∷◌, Option, none, some, Text, text_eq, codes, Bool-cases,
  Option-cases, inl, inr, if◌then◌else◌,
}
use sp1_helios.Tracing.{
  JsonValues, FieldValue, Event, Object, insert, insert_some, value_of, overlay, field_json,
  visited, severity, message_of, top_level, format_event,
}

-- The value of the last field of a name.
abbrev pub last_field : {j : JsonValues} → Text → List (Text × FieldValue j) → Option j.Value
last_field k [] = none
last_field k ((name, value) ∷ fields) = elim (last_field k fields) [
  | some v ↦ some v
  | none ↦ if text_eq name k then some (field_json value) else none
]

visited-last_field :
    {j : JsonValues} (o : Object j.Value) (fields : List (Text × FieldValue j)) (k : Text)
    → visited o fields k ≡ (elim (last_field k fields) [ some v ↦ some v | none ↦ o k ])
unfolding visited
visited-last_field o [] k = refl
visited-last_field o ((name, value) ∷ fields) k =
    visited-last_field (insert name (field_json value) o) fields k
    ∙ (elim (Option-cases (last_field k fields)) [
      | inl missing ↦ rw missing (elim (Bool-cases (text_eq name k)) [
        | inl same ↦ rw same refl
        | inr other ↦ rw other refl
      ])
      | inr (v, present) ↦ rw present refl
    ])

module _ {V : Type 0} where
  -- The first entry of a name that has a value.
  abbrev pub lookup : List (Text × Option V) → Text → Option V
  lookup [] k = none
  lookup ((name, none) ∷ entries) k = lookup entries k
  lookup ((name, some v) ∷ entries) k = if text_eq name k then some v else lookup entries k

  lookup-insert_some :
      (name : Text) (v : Option V) (entries : List (Text × Option V)) (k : Text)
      → insert_some name v (lookup entries) k ≡ lookup ((name, v) ∷ entries) k
  lookup-insert_some name none entries k = refl
  lookup-insert_some name (some v) entries k = refl

module _ {j : JsonValues} (time run_id : Text) (event : Event j) where
  open j use {Value, of_text, of_texts, of_number}

  abbrev pub spans_value : List Text → Option Value
  spans_value [] = none
  spans_value (s ∷ spans) = some (of_texts (s ∷ spans))

  -- The formatter's own entries, with this message.
  abbrev pub own_entries : Text → List (Text × Option Value)
  own_entries message =
      (codes "spans", spans_value event.spans)
      ∷ (codes "module_path", value_of of_text event.module_path)
      ∷ (codes "line", value_of of_number event.line)
      ∷ (codes "file", value_of of_text event.file)
      ∷ (codes "message", some (of_text message))
      ∷ (codes "run_id", some (of_text run_id))
      ∷ (codes "target", some (of_text event.target))
      ∷ (codes "level", some (of_text event.level_text))
      ∷ (codes "severity", some (of_text (severity event.level)))
      ∷ (codes "time", some (of_text time))
      ∷ []

  top_level-lookup :
      (message k : Text) → top_level time run_id event message k ≡ lookup (own_entries message) k
  unfolding top_level
  top_level-lookup message k = with_spans event.spans
    where
      own : List (Text × Option Value)
      own =
          (codes "message", some (of_text message))
          ∷ (codes "run_id", some (of_text run_id))
          ∷ (codes "target", some (of_text event.target))
          ∷ (codes "level", some (of_text event.level_text))
          ∷ (codes "severity", some (of_text (severity event.level)))
          ∷ (codes "time", some (of_text time))
          ∷ []

      file : Option Value
      file = value_of of_text event.file

      line : Option Value
      line = value_of of_number event.line

      path : Option Value
      path = value_of of_text event.module_path

      with_file : insert_some (codes "file") file (lookup own) ≡ lookup ((codes "file", file) ∷ own)
      with_file = fun_ext (lookup-insert_some (codes "file") file own)

      placed :
          insert_some
            (codes "module_path")
            path
            (insert_some (codes "line") line (insert_some (codes "file") file (lookup own)))
          ≡ lookup ((codes "module_path", path) ∷ (codes "line", line) ∷ (codes "file", file) ∷ own)
      placed =
          ap (λ o. insert_some (codes "module_path") path (insert_some (codes "line") line o))
            with_file
          ∙ ap (insert_some (codes "module_path") path)
              (fun_ext (lookup-insert_some (codes "line") line _))
          ∙ fun_ext (lookup-insert_some (codes "module_path") path _)

      with_spans :
          (spans : List Text)
          → (elim spans as (λ x. Object Value) [
            | [] ↦
                insert_some
                  (codes "module_path")
                  path
                  (insert_some (codes "line") line (insert_some (codes "file") file (lookup own)))
            | s ∷ ss ↦ insert (codes "spans") (of_texts (s ∷ ss)) (
                insert_some
                  (codes "module_path")
                  path
                  (insert_some (codes "line") line (insert_some (codes "file") file (lookup own))))
          ])
              k
            ≡ lookup
                ((codes "spans", spans_value spans)
                  ∷ (codes "module_path", path)
                  ∷ (codes "line", line)
                  ∷ (codes "file", file)
                  ∷ own)
                k
      with_spans [] = ap (λ (o : Object Value). o k) placed
      with_spans (s ∷ ss) =
          ap (λ (o : Object Value). insert (codes "spans") (of_texts (s ∷ ss)) o k) placed

  -- The value of a key, from the event's last field of that name, if it is not the message's.
  abbrev pub expected : Text → Text → Option Value
  expected message k =
      elim (if text_eq (codes "message") k then none else last_field k event.fields) [
        | some v ↦ some v
        | none ↦ lookup (own_entries message) k
      ]

  -- Under each key the object has the value of the event's last field of that name; where there is
  -- none, and for the message, what the formatter sets itself. So a field named as one of the
  -- formatter's own keys, such as the severity, replaces it.
  pub format_event-lookup :
      (k : Text)
      → format_event time run_id event k
        ≡ expected (message_of event (visited (λ i. none) event.fields)) k
  unfolding format_event overlay
  format_event-lookup k =
      let fields = visited (λ i. none) event.fields in
      let seen : fields k ≡ last_field k event.fields =
        visited-last_field (λ i. none) event.fields k
        ∙ (elim (Option-cases (last_field k event.fields)) [
          | inl missing ↦ rw missing refl
          | inr (v, present) ↦ rw present refl
        ]) in
      let own = top_level-lookup (message_of event fields) k in
      ap
        (λ (o : Option Value).
          elim (if text_eq (codes "message") k then none else o) as (λ x. Option Value) [
            | some v ↦ some v
            | none ↦ top_level time run_id event (message_of event fields) k
          ])
        seen
      ∙ ap
          (λ (o : Option Value).
            elim (if text_eq (codes "message") k then none else last_field k event.fields)
              as (λ x. Option Value) [ some v ↦ some v | none ↦ o ])
          own
