-- ===== src/Tests/Formats.antt =====
-- Formats of messages and their keys.
use faststream.Prelude.{
  Bool, true, false, none, ℕ, ◌≡◌, ◌↔◌, refl, Option, some, [], ◌∷◌, ◌++◌, ◌+◌, ◌*◌, length, map,
  get_elem?, arith, if◌then◌else◌,
}
use faststream.Exceptions.{Result, ok, err, raised, value_error}
use faststream.Value.{Value, null, int, str, keyed}
use faststream.Text.{Text, Bytes, IsAscii, encode_text, same_text}
use faststream.BinaryFormat.{
  Headers, encode, parse, characters, write_string, write_short, write_headers, write_int,
  pack_short, pack_int,
}
use faststream.BinaryFormat.Reading.{AsciiHeaders}
use faststream.BinaryFormat.RoundTrip.{parse-encode}
use faststream.BinaryFormat.Lengths.{write_string-length}
use faststream.Kafka.{
  KafkaPublishCommand, batch_bodies, with_keys, has_key, body_of, key_of, key_for, or_default,
}
use faststream.Codec.{Json, text, value, text_plain, encode_message, decode_message}
use faststream.Codec.Bodies.{IsFaithful, Received, decode_message-encode_message}
use faststream.Kafka.Keys.{sent, with_keys-batch_bodies}

abbrev no_envelope : Bytes → Result (Bytes × Option Headers)
no_envelope bs = err (raised value_error)

abbrev two_headers : Headers
two_headers = (107 ∷ [], 118 ∷ 119 ∷ []) ∷ (108 ∷ [], []) ∷ []

abbrev packed : Bytes
packed =
    137 ∷ 66 ∷ 73 ∷ 78 ∷ 13 ∷ 10 ∷ 26 ∷ 10 ∷ 0 ∷ 1 ∷ 0 ∷ 0 ∷ 0 ∷ 18 ∷ 0 ∷ 0 ∷ 0 ∷ 32 ∷ 0 ∷ 2 ∷ 0 ∷ 1
    ∷ 107 ∷ 0 ∷ 2 ∷ 118 ∷ 119 ∷ 0 ∷ 1 ∷ 108 ∷ 0 ∷ 0 ∷ 200 ∷ 201 ∷ []

packed_out : encode two_headers (200 ∷ 201 ∷ []) ≡ ok packed
unfolding encode write_headers write_string write_short write_int pack_short pack_int encode_text
packed_out = refl

two_headers-AsciiHeaders : AsciiHeaders two_headers
two_headers-AsciiHeaders =
    (((omega arith, tt), (omega arith, (omega arith, tt))), (((omega arith, tt), tt), tt))

parse-encode_example : parse no_envelope packed ≡ (200 ∷ 201 ∷ [], two_headers)
parse-encode_example =
    parse-encode no_envelope two_headers (200 ∷ 201 ∷ []) packed two_headers-AsciiHeaders
      (refl, (refl, tt)) packed_out

abbrev accent : Text
accent = 233 ∷ []

-- "é" is one character and two bytes.
accent_out : write_string (characters accent) [] ≡ ok (0 ∷ 1 ∷ 195 ∷ 169 ∷ [])
unfolding write_string write_short pack_short encode_text
accent_out = refl

write_string-length_example :
    (a : ℕ) × (b : ℕ) × (bs : Bytes) × (encode_text accent ≡ ok bs)
    × (0 ∷ 1 ∷ 195 ∷ 169 ∷ [] ≡ [] ++ a ∷ b ∷ bs)
    × (a * 256 + b ≡ length accent)
    × ((a * 256 + b ≡ length bs) ↔ IsAscii accent)
write_string-length_example = write_string-length accent [] (0 ∷ 1 ∷ 195 ∷ 169 ∷ []) accent_out

abbrev batch : KafkaPublishCommand
batch = record {
  body = keyed null (str "k1");
  extra_bodies = int 2 ∷ keyed (int 3) (str "k3") ∷ [];
  key = str "default";
  per_message_keys = [];
}

with_keys-batch_bodies_example :
    (batch_bodies (with_keys batch) ≡ (
      if has_key (batch_bodies batch)
      then sent (map body_of (batch_bodies batch))
      else batch_bodies batch))
    × ((i : ℕ) (item : Value)
        → get_elem? (batch_bodies batch) i ≡ some item
        → key_for i (with_keys batch) ≡ or_default (key_of item) batch.key)
with_keys-batch_bodies_example = with_keys-batch_bodies batch

-- A serializer of truth values.
abbrev flag : Bool → Bytes
flag true = 116 ∷ []
flag false = 102 ∷ []

abbrev euro : Text
euro = 8364 ∷ 33 ∷ []

abbrev flags : Json Bool
flags = record {
  serializer = none;
  dumps = λ b. ok (flag b);
  loads = λ bs. if same_text bs (flag true) then ok (value true) else ok (value false);
  is_decode_error = λ e. true;
}

flags-IsFaithful : IsFaithful flags
unfolding same_text
flags-IsFaithful true bytes h = let e : bytes ≡ flag true = cc in rw e
flags-IsFaithful false bytes h = let e : bytes ≡ flag false = cc in rw e

euro_out : encode_message flags (text euro) ≡ ok (226 ∷ 130 ∷ 172 ∷ 33 ∷ [], some text_plain)
unfolding encode_message encode_text
euro_out = refl

decode_message-encode_message_example :
    Received flags (text euro) (decode_message flags (226 ∷ 130 ∷ 172 ∷ 33 ∷ []) (some text_plain))
decode_message-encode_message_example =
    decode_message-encode_message flags (text euro) (226 ∷ 130 ∷ 172 ∷ 33 ∷ []) (some text_plain)
      flags-IsFaithful (omega arith, (omega arith, tt)) euro_out
