-- ===== src/Codec/Parse.antt =====
-- `parseJson` of src/codec_context.cpp and its `DuplicateHandler`. What Boost's parsers do with the
-- text are arguments: the calls of the handler, the errors, and the value.
pub mod Duplicates
use rtt_http.Common.{
  ℕ, Bool, true, false, ◌||◌, not, Option, none, some, List, [], ◌∷◌, ◌++◌, Bytes, ltb, ◌==◌,
  if◌then◌else◌, length,
}
use rtt_http.Common.Map.{Map, emplace, bytes_key}
use rtt_http.Codec.{
  Json, JsonLimits, Outcome, ok, err, CodecErrorCode, depth_limit, type_mismatch, invalid_json,
  document_limit, duplicate_key, invalid_data_source, allocation_limit, internal_error,
}

-- The calls of the handler; those that do nothing are `scalar`.
pub data Event : Type 0 where
  begins ends scalar : Event
  key_part key : Bytes → Event

-- `DuplicateHandler::Frame`.
pub record Scope : Type 0 where
  pub keys : Map Bytes (Unit {0})
  pub key : Bytes

pub record DuplicateHandler : Type 0 where
  pub frames : List Scope
  pub duplicate : Bool

-- A key part with no frame open is not called by the parser.
unfoldable pub on_key_part : Bytes → DuplicateHandler → DuplicateHandler
on_key_part part h = elim h.frames [
  | [] ↦ h
  | frame ∷ frames ↦ record h { frames = record frame { key = frame.key ++ part } ∷ frames }
]

unfoldable pub insert_key : DuplicateHandler → DuplicateHandler
unfolding emplace
insert_key h = elim h.frames [
  | [] ↦ h
  | frame ∷ frames ↦
      let (keys, inserted) = emplace frame.key tt frame.keys in
      record {
        frames = record { keys = keys; key = [] } ∷ frames;
        duplicate = if inserted then h.duplicate else true;
      }
]

unfoldable pub on_event : Event → DuplicateHandler → DuplicateHandler
unfolding on_key_part insert_key
on_event begins h = record h { frames = record { keys = []; key = [] } ∷ h.frames }
on_event ends h = elim h.frames [ [] ↦ h | frame ∷ frames ↦ record h { frames = frames } ]
on_event (key_part part) h = on_key_part part h
on_event (key part) h = insert_key (on_key_part part h)
on_event scalar h = h

unfoldable pub on_events : List Event → DuplicateHandler → DuplicateHandler
unfolding on_event
on_events [] h = h
on_events (e ∷ es) h = on_events es (on_event e h)

-- The errors of Boost that the code tells apart.
pub data ParseFault : Type 0 where
  too_deep exponent_overflow other : ParseFault

unfoldable pub parse_error : ParseFault → CodecErrorCode
parse_error too_deep = depth_limit
parse_error exponent_overflow = type_mismatch
parse_error other = invalid_json

-- What the two parsers answer, and whether they exceed the allocation budget.
pub record Parsers (D : Type 0) : Type 0 where
  pub validator_exhausted : Bool
  pub parser_exhausted : Bool
  pub events : List Event
  pub validator_error : Option ParseFault
  pub consumed : ℕ
  pub parser_error : Option ParseFault
  pub value : Json D
  pub same_storage : Bool

-- `has_value` is whether there is a place for the value.
unfoldable pub parse_json : {D : Type 0} → JsonLimits → Bool → Bytes → Parsers D → Outcome (Json D)
unfolding on_events parse_error
parse_json limits has_value text parsers =
    if not has_value
    then err internal_error
    else if ltb limits.max_document_bytes (length text)
    then err document_limit
    else if parsers.validator_exhausted
    then err allocation_limit
    else elim parsers.validator_error [
      | some e ↦ err (parse_error e)
      | none ↦
          if not (parsers.consumed == length text)
          then err invalid_json
          else if (on_events parsers.events (record { frames = []; duplicate = false })).duplicate
          then err duplicate_key
          else if parsers.parser_exhausted
          then err allocation_limit
          else elim parsers.parser_error [
            | some e ↦ err (parse_error e)
            | none ↦ if parsers.same_storage then ok parsers.value else err invalid_data_source
          ]
    ]
