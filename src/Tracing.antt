-- ===== src/Tracing.antt =====
-- zk-api/src/tracing/mod.rs: the JSON formatter of events, and the choice of the layers. What
-- tracing gives a visitor, and serde_json's values, are parameters.
pub mod Slack
pub mod Object
pub mod Handles
pub mod Posts
use sp1_helios.Prelude.{
  ℕ, List, [], ◌∷◌, ◌++◌, Option, none, some, Bool, true, false, ◌&&◌, not, Text, text_eq, codes,
  Result, ok, err, is_empty, if◌then◌else◌,
}

-- tracing's levels.
pub data Level : Type 0 where
  error warn info debug trace : Level

-- A serde_json object, by its keys, and what the formatter makes values from.
pub record JsonValues : Type 1 where
  pub Value : Type 0
  pub of_text : Text → Value
  pub of_texts : List Text → Value
  pub of_number : ℕ → Value
  pub as_str : Value → Option Text

-- A field's value as tracing hands it to a visitor: a string with its debug text; a number or a
-- boolean, with its JSON value and its debug text; an error's text; any other value's debug text.
pub data FieldValue (j : JsonValues) : Type 0 where
  str_value : Text → Text → FieldValue j
  json_value : j.Value → Text → FieldValue j
  error_value : Text → FieldValue j
  debug_value : Text → FieldValue j

-- An event with its metadata (the level also as tracing prints it) and fields, and the spans that it
-- is in, from the root.
pub record Event (j : JsonValues) : Type 0 where
  pub level : Level
  pub level_text : Text
  pub target : Text
  pub file : Option Text
  pub line : Option ℕ
  pub module_path : Option Text
  pub fields : List (Text × FieldValue j)
  pub spans : List Text

abbrev pub Object : Type 0 → Type 0
Object V = Text → Option V

module _ {V : Type 0} where
  abbrev pub insert : Text → V → Object V → Object V
  insert k v o i = if text_eq k i then some v else o i

  abbrev pub remove : Text → Object V → Object V
  remove k o i = if text_eq k i then none else o i

  abbrev pub insert_some : Text → Option V → Object V → Object V
  insert_some k none o = o
  insert_some k (some v) o = insert k v o

  -- The last loop of the formatter: every field is inserted over what is there.
  unfoldable pub overlay : Object V → Object V → Object V
  overlay fields top k = elim (fields k) [ some v ↦ some v | none ↦ top k ]

abbrev pub value_of : {A V : Type 0} → (A → V) → Option A → Option V
value_of f none = none
value_of f (some a) = some (f a)

unfoldable pub severity : Level → Text
severity error = codes "ERROR"
severity warn = codes "WARNING"
severity info = codes "INFO"
severity debug = codes "DEBUG"
severity trace = codes "DEBUG"

module _ {j : JsonValues} where
  open j use {Value, of_text, of_texts, of_number, as_str}

  -- The text that `OnlyMessage` takes from a field.
  abbrev pub message_text : FieldValue j → Text
  message_text (str_value raw shown) = raw
  message_text (json_value v shown) = shown
  message_text (error_value shown) = shown
  message_text (debug_value shown) = shown

  -- `extract_message`: the first field of the name that leaves a text.
  unfoldable pub only_message : Text → List (Text × FieldValue j) → Text
  only_message found [] = found
  only_message found ((name, value) ∷ fields) =
      let rest = only_message found fields in
      let taken = only_message (message_text value) fields in
      if text_eq name (codes "message") && is_empty found then taken else rest

  unfoldable pub extract_message : Event j → Text
  unfolding only_message
  extract_message event = only_message [] event.fields

  -- The value that `JsonFieldsVisitor` keeps of a field.
  abbrev pub field_json : FieldValue j → Value
  field_json (str_value raw shown) = of_text shown
  field_json (json_value v shown) = v
  field_json (error_value shown) = of_text shown
  field_json (debug_value shown) = of_text shown

  unfoldable pub visited : Object Value → List (Text × FieldValue j) → Object Value
  visited o [] = o
  visited o ((name, value) ∷ fields) = visited (insert name (field_json value) o) fields

  -- The message: the visited field as a string, else by `extract_message`.
  unfoldable pub message_of : Event j → Object Value → Text
  unfolding extract_message
  message_of event fields = elim (fields (codes "message")) [
    | none ↦ extract_message event
    | some v ↦ elim (as_str v) [ none ↦ [] | some s ↦ s ]
  ]

  -- The keys that the formatter sets itself.
  unfoldable pub top_level : Text → Text → Event j → Text → Object Value
  unfolding severity
  top_level time run_id event message =
      let base = insert (codes "message") (of_text message) (
        insert (codes "run_id") (of_text run_id) (
          insert (codes "target") (of_text event.target) (
            insert (codes "level") (of_text event.level_text) (
              insert (codes "severity") (of_text (severity event.level))
                (insert (codes "time") (of_text time) (λ k. none)))))) in
      let placed = insert_some (codes "module_path") (value_of of_text event.module_path) (
        insert_some (codes "line") (value_of of_number event.line)
          (insert_some (codes "file") (value_of of_text event.file) base)) in
      elim event.spans [
        | [] ↦ placed
        | s ∷ spans ↦ insert (codes "spans") (of_texts (s ∷ spans)) placed
      ]

  -- `format_event`, up to its printing.
  unfoldable pub format_event : Text → Text → Event j → Object Value
  unfolding visited top_level message_of overlay
  format_event time run_id event =
      let fields = visited (λ k. none) event.fields in
      overlay (remove (codes "message") fields)
        (top_level time run_id event (message_of event fields))

-- The Slack layer's webhook and threshold, from `SLACK_WEBHOOK_URL` and `SLACK_LOG_LEVEL`.
-- `level_from_str` and `to_uppercase` are tracing's and the standard library's.
unfoldable pub slack_layer :
    (Text → Option Level) → (Text → Text) → Option Text → Option Text → Option (Text × Level)
slack_layer level_from_str to_uppercase none level = none
slack_layer level_from_str to_uppercase (some webhook_url) level =
    let level_str : Text = elim level [ none ↦ codes "WARN" | some s ↦ s ] in
    let threshold : Level = elim (level_from_str (to_uppercase level_str)) [
      | none ↦ warn
      | some l ↦ l
    ] in
    if is_empty webhook_url then none else some (webhook_url, threshold)

-- How events are printed: by `GcpJson` on Cloud Run, else by tracing's own layer.
pub data Format : Type 0 where
  gcp_json ansi : Format

-- The subscriber that is set up.
pub record Layers (Filter : Type 0) : Type 0 where
  pub filter : Filter
  pub format : Format
  pub slack : Option (Text × Level)

-- `init_tracing`, up to its registration. The filters are tracing's: the one that `RUST_LOG` asks
-- for, and the one of a directive.
unfoldable pub init_tracing :
    {Filter : Type 0}
    → (Text → Option Level)
    → (Text → Text)
    → Result Text Filter
    → (Text → Result Text Filter)
    → (Text → Option Text)
    → Bool
    → Result Text (Layers Filter)
unfolding slack_layer
init_tracing level_from_str to_uppercase from_default_env from_directive env is_cloud_run =
    let layers : _ → _ = λ filter. record {
      filter = filter;
      format = if is_cloud_run then gcp_json else ansi;
      slack =
          slack_layer level_from_str to_uppercase (env (codes "SLACK_WEBHOOK_URL"))
            (env (codes "SLACK_LOG_LEVEL"));
    } in
    elim from_default_env [
      | ok filter ↦ ok (layers filter)
      | err e ↦ elim (from_directive (codes "info")) [
        | ok filter ↦ ok (layers filter)
        | err e' ↦ err e'
      ]
    ]
