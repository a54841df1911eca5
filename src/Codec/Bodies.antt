-- ===== src/Codec/Bodies.antt =====
-- What is sent is what is decoded.
use faststream.Prelude.{◌≡◌, refl, Option, none, some, [], true, false}
use faststream.Exceptions.{Exc, Result, ok, err}
use faststream.Text.{Text, Bytes, encode_text, same_text}
use faststream.Text.Utf8.{IsText, decode_text-encode_text}
use faststream.Codec.{
  Payload, nothing, raw, text, value, Json, text_plain, application_json, startswith, encoded_as,
  serialized, encode_message, decode_message,
}

module _ {J : Type 0} (json : Json J) where
  -- What the serializer documents: a value is read back from what it was written as.
  abbrev pub IsFaithful : Type 0
  IsFaithful =
      (j : J) (bytes : Bytes) → serialized json j ≡ ok bytes → json.loads bytes ≡ ok (value j)

  -- Bytes are what they are in JSON, or else themselves; an error of another kind is one.
  abbrev pub InJson : Bytes → Result (Payload J) → Type 0
  InJson bytes r =
      ((p : Payload J) → json.loads bytes ≡ ok p → r ≡ ok p)
      × ((e : Exc)
          → json.loads bytes ≡ err e
          → (json.is_decode_error e ≡ true → r ≡ ok (raw bytes))
            × (json.is_decode_error e ≡ false → r ≡ err e))

  -- What comes back, by what was sent.
  abbrev pub Received : Payload J → Result (Payload J) → Type 0
  Received nothing r = InJson [] r
  Received (raw bytes) r = InJson bytes r
  Received (text t) r = r ≡ ok (text t)
  Received (value j) r = r ≡ ok (value j)

  abbrev pub HasText : Payload J → Type 0
  HasText (text t) = IsText t
  HasText _ = Unit

  encoded_as-ok :
      (ct : Text) (r : Result Bytes) (bytes : Bytes) (content_type : Option Text)
      → encoded_as json (some ct) r ≡ ok (bytes, content_type)
      → (r ≡ ok bytes) × (content_type ≡ some ct)
  encoded_as-ok ct (ok bs) bytes content_type h = (cc, cc)
  encoded_as-ok ct (err e) bytes content_type h = cc

  in_json : (bytes : Bytes) → InJson bytes (decode_message json bytes none)
  unfolding decode_message
  in_json bytes = (λ p h. rw h refl, λ e h. (λ d. rw h (rw d refl), λ d. rw h (rw d refl)))

  -- Where the serializer reads a value back from what it writes, what `encode_message` makes is read
  -- back by `decode_message` under the content type that goes with it: a text of valid characters
  -- as the same text, and a value as the same value. Bytes go without a content type, and `None` as
  -- no bytes: they come back as what they are in JSON, or as the same bytes where reading them as
  -- JSON is a decoding error, and any other error of that is raised.
  pub decode_message-encode_message :
      (p : Payload J) (bytes : Bytes) (content_type : Option Text)
      → IsFaithful
      → HasText p
      → encode_message json p ≡ ok (bytes, content_type)
      → Received p (decode_message json bytes content_type)
  unfolding encode_message decode_message same_text startswith
  decode_message-encode_message nothing bytes content_type f q h =
      let b : bytes ≡ [] = cc in
      let c : content_type ≡ none = cc in rw (c, b, decode_message) (in_json [])
  decode_message-encode_message (raw bs) bytes content_type f q h =
      let b : bytes ≡ bs = cc in
      let c : content_type ≡ none = cc in rw (c, b, decode_message) (in_json bs)
  decode_message-encode_message (text t) bytes content_type f q h =
      let (e, c) = encoded_as-ok text_plain (encode_text t) bytes content_type h in
      rw c (rw (decode_text-encode_text t bytes q e))
  decode_message-encode_message (value j) bytes content_type f q h =
      let (e, c) = encoded_as-ok application_json (serialized json j) bytes content_type h in
      rw c (f j bytes e)
