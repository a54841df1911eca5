-- ===== src/Message.antt =====
-- message/message.py and message/source_type.py: the message object and its own methods.
pub mod Commit
use faststream.Prelude.{
  ℕ, String, Bool, true, false, Option, none, some, List, [], ◌∷◌, ◌==◌, str_eq, if◌then◌else◌,
}
use faststream.Exceptions.{Result, ok, err, raised, assertion_error}
use faststream.Value.{Value}

pub data AckStatus : Type 0 where
  acked nacked rejected : AckStatus

pub data SourceType : Type 0 where
  consume response : SourceType

-- A decoder is known by its number. `message_id` and `correlation_id` are never empty.
pub record StreamMessage : Type 0 where
  pub raw_message : ℕ
  pub body : Value
  pub reply_to : String
  pub content_type : Option String
  pub source_type : SourceType
  pub headers : List (String × Value)
  pub batch_headers : List (List (String × Value))
  pub path : List (String × Value)
  pub correlation_id : String
  pub message_id : String
  pub committed : Option AckStatus
  pub processed : Bool
  pub decoder : Option ℕ
  pub decoded_caches : List (ℕ × Value)

-- `x or y` on an optional text
abbrev pub str_or : Option String → String → String
str_or none y = y
str_or (some x) y = if str_eq x "" then y else x

-- `fresh` is the `str(uuid4())` of this call.
unfoldable pub init :
    (fresh : String) (raw_message : ℕ) (body : Value) (headers : List (String × Value))
    (reply_to : String) (batch_headers : List (List (String × Value)))
    (path : List (String × Value)) (content_type correlation_id message_id : Option String)
    (source_type : SourceType)
    → StreamMessage
init fresh raw_message body headers reply_to batch_headers path content_type correlation_id
      message_id source_type =
    let cor_id = str_or correlation_id fresh in
    record {
      raw_message = raw_message;
      body = body;
      reply_to = reply_to;
      content_type = content_type;
      source_type = source_type;
      headers = headers;
      batch_headers = batch_headers;
      path = path;
      correlation_id = cor_id;
      message_id = str_or message_id cor_id;
      committed = none;
      processed = false;
      decoder = none;
      decoded_caches = [];
    }

unfoldable pub set_decoder : ℕ → StreamMessage → StreamMessage
set_decoder d m = record m { decoder = some d }

clear_cache : StreamMessage → StreamMessage
clear_cache m = record m { decoded_caches = [] }

copy : StreamMessage → StreamMessage
copy m = record m { decoded_caches = [] }

unfoldable pub cached : ℕ → List (ℕ × Value) → Option Value
cached d [] = none
cached d ((e, v) ∷ caches) = if e == d then some v else cached d caches

-- `run d m` is what decoder `d` answers for the message.
decode_by : (ℕ → StreamMessage → Result Value) → ℕ → StreamMessage → Result Value × StreamMessage
unfolding cached
decode_by run d m = elim (cached d m.decoded_caches) [
  | some v ↦ (ok v, m)
  | none ↦ elim (run d m) [
    | ok v ↦ (ok v, record m { decoded_caches = (d, v) ∷ m.decoded_caches })
    | err e ↦ (err e, m)
  ]
]

unfoldable pub decode :
    (ℕ → StreamMessage → Result Value) → StreamMessage → Result Value × StreamMessage
unfolding decode_by
decode run m = elim m.decoder [
  | none ↦ (err (raised assertion_error), m)
  | some d ↦ decode_by run d m
]

abbrev pub commit : AckStatus → Option AckStatus → Option AckStatus
commit status none = some status
commit status (some s) = some s

unfoldable pub ack : StreamMessage → StreamMessage
ack m = record m { committed = commit acked m.committed }

unfoldable pub nack : StreamMessage → StreamMessage
nack m = record m { committed = commit nacked m.committed }

unfoldable pub reject : StreamMessage → StreamMessage
reject m = record m { committed = commit rejected m.committed }
