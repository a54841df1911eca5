-- ===== src/Codec.antt =====
-- message/utils.py: bodies of messages as bytes, with their content type.
pub mod Bodies
use faststream.Prelude.{
  ℕ, Bool, true, false, ◌&&◌, Option, none, some, List, [], ◌∷◌, ◌==◌, if◌then◌else◌,
}
use faststream.Exceptions.{Exc, Result, ok, err}
use faststream.Text.{Text, Bytes, encode_text, decode_text, same_text}

-- What is sent and what is decoded; `value` is anything that is neither `None`, bytes nor a text.
pub data Payload (J : Type 0) : Type 0 where
  nothing : Payload J
  raw : Bytes → Payload J
  text : Text → Payload J
  value : J → Payload J

-- "text/plain" and "application/json"
abbrev pub text_plain : Text
text_plain = 116 ∷ 101 ∷ 120 ∷ 116 ∷ 47 ∷ 112 ∷ 108 ∷ 97 ∷ 105 ∷ 110 ∷ []

abbrev pub application_json : Text
application_json =
    97 ∷ 112 ∷ 112 ∷ 108 ∷ 105 ∷ 99 ∷ 97 ∷ 116 ∷ 105 ∷ 111 ∷ 110 ∷ 47 ∷ 106 ∷ 115 ∷ 111 ∷ 110 ∷ []

unfoldable pub startswith : Text → Text → Bool
startswith t [] = true
startswith [] (p ∷ prefix) = false
startswith (c ∷ t) (p ∷ prefix) = (c == p) && startswith t prefix

-- The serializer or `json_dumps`, `json_loads`, and whether an exception is one that
-- `decode_message` suppresses: `JSONDecodeError` or `UnicodeDecodeError`.
pub record Json (J : Type 0) : Type 0 where
  pub serializer : Option (J → Result Bytes)
  pub dumps : J → Result Bytes
  pub loads : Bytes → Result (Payload J)
  pub is_decode_error : Exc → Bool

module _ {J : Type 0} (json : Json J) where
  abbrev pub encoded_as : Option Text → Result Bytes → Result (Bytes × Option Text)
  encoded_as content_type (ok bytes) = ok (bytes, content_type)
  encoded_as content_type (err e) = err e

  abbrev pub serialized : J → Result Bytes
  serialized j = elim (json.serializer) [ some encode ↦ encode j | none ↦ json.dumps j ]

  unfoldable pub encode_message : Payload J → Result (Bytes × Option Text)
  encode_message nothing = ok ([], none)
  encode_message (raw bytes) = ok (bytes, none)
  encode_message (text t) = encoded_as (some text_plain) (encode_text t)
  encode_message (value j) = encoded_as (some application_json) (serialized j)

  abbrev as_text : Result Text → Result (Payload J)
  as_text (ok t) = ok (text t)
  as_text (err e) = err e

  -- with suppress(json.JSONDecodeError, UnicodeDecodeError): …
  abbrev guessed : Bytes → Result (Payload J) → Result (Payload J)
  guessed body (ok p) = ok p
  guessed body (err e) = if json.is_decode_error e then ok (raw body) else err e

  unfoldable pub decode_message : Bytes → Option Text → Result (Payload J)
  decode_message body none = guessed body (json.loads body)
  decode_message body (some []) = guessed body (json.loads body)
  decode_message body (some (c ∷ content_type)) =
      if same_text (c ∷ content_type) text_plain
      then as_text (decode_text body)
      else if startswith (c ∷ content_type) application_json
      then json.loads body
      else ok (raw body)
