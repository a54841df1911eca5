-- ===== src/BinaryFormat.antt =====
-- redis/parser/binary.py: the binary format of a message, its writer and its reader.
pub mod Packing
pub mod Reading
pub mod Lengths
pub mod RoundTrip
use faststream.Prelude.{
  ℕ, zero, suc, ◌+◌, ◌-◌, ◌*◌, ◌/◌, ◌%◌, Bool, true, false, ◌&&◌, Option, none, some, List, [], ◌∷◌,
  ◌++◌, ltb, ◌==◌, if◌then◌else◌, length, take, drop,
}
use faststream.Exceptions.{Exc, Result, ok, err, ExcClass, derived, builtin, exception}
use faststream.Text.{Text, Bytes, encode_text, decode_text}

-- struct.error
abbrev pub struct_error : Exc
struct_error = record { cls = derived 1 (builtin exception); extra_options = []; ident = 0 }

abbrev pub and_then : {A B : Type 0} → Result A → (A → Result B) → Result B
and_then (ok a) f = f a
and_then (err e) f = err e

abbrev pub same_bytes : Bytes → Bytes → Bool
same_bytes [] [] = true
same_bytes (a ∷ xs) (b ∷ ys) = (a == b) && same_bytes xs ys
same_bytes _ _ = false

-- pack(">H", number) and pack(">I", number)
unfoldable pub pack_short : ℕ → Result Bytes
pack_short n = if ltb n 65536 then ok ((n / 256) ∷ (n % 256) ∷ []) else err struct_error

unfoldable pub pack_int : ℕ → Result Bytes
pack_int n =
    if ltb n 4294967296
    then ok ((n / 16777216) ∷ (n / 65536) % 256 ∷ (n / 256) % 256 ∷ (n % 256) ∷ [])
    else err struct_error

unfoldable pub unpack_short : Bytes → Result ℕ
unpack_short (a ∷ b ∷ []) = ok (a * 256 + b)
unpack_short _ = err struct_error

unfoldable pub unpack_int : Bytes → Result ℕ
unpack_int (a ∷ b ∷ c ∷ d ∷ []) = ok (a * 16777216 + b * 65536 + c * 256 + d)
unpack_int _ = err struct_error

-- A `BinaryWriter` is what it has written.
abbrev pub write : Bytes → Bytes → Bytes
write w content = w ++ content

unfoldable pub write_short : ℕ → Bytes → Result Bytes
write_short number w = and_then (pack_short number) (λ int_bytes. ok (write w int_bytes))

unfoldable pub write_int : ℕ → Bytes → Result Bytes
write_int number w = and_then (pack_int number) (λ int_bytes. ok (write w int_bytes))

-- `str | bytes`
pub data StringData : Type 0 where
  characters : Text → StringData
  octets : Bytes → StringData

-- The length that is written is that of the data as it is given: of a text, in characters.
unfoldable pub write_string : StringData → Bytes → Result Bytes
write_string (characters content) w =
    and_then (write_short (length content) w)
      (λ w'. and_then (encode_text content) (λ encoded. ok (write w' encoded)))
write_string (octets content) w =
    and_then (write_short (length content) w) (λ w'. ok (write w' content))

abbrev pub Headers : Type 0
Headers = List (Text × Text)

unfoldable pub write_headers : Headers → Bytes → Result Bytes
write_headers [] w = ok w
write_headers ((key, value) ∷ headers) w =
    and_then (write_string (characters key) w)
      (λ w'. and_then (write_string (characters value) w') (λ w''. write_headers headers w''))

abbrev pub identity_header : Bytes
identity_header = 137 ∷ 66 ∷ 73 ∷ 78 ∷ 13 ∷ 10 ∷ 26 ∷ 10 ∷ []

-- BinaryMessageFormatV1.encode, from the data and the headers that `build` made
unfoldable pub encode : Headers → Bytes → Result Bytes
encode headers content = and_then (write_headers headers []) (λ headers_data.
    and_then (write_short 1 (write [] identity_header)) (λ w1.
      let headers_start = length w1 + 8 in
      let data_start = 2 + headers_start + length headers_data in
      and_then (write_int headers_start w1) (λ w2. and_then (write_int data_start w2) (λ w3.
        and_then (write_short (length headers) w3)
          (λ w4. ok (write (write w4 headers_data) content))))))

pub record BinaryReader : Type 0 where
  pub content : Bytes
  pub offset : ℕ

abbrev pub slice : ℕ → BinaryReader → Bytes
slice n r = take n (drop r.offset r.content)

abbrev pub shift_offset_to : ℕ → BinaryReader → BinaryReader
shift_offset_to offset r = record r { offset = offset }

abbrev pub advance : ℕ → BinaryReader → BinaryReader
advance n r = record r { offset = r.offset + n }

abbrev pub read_until : ℕ → BinaryReader → Bytes × BinaryReader
read_until n r = (slice n r, advance n r)

unfoldable pub read_short : BinaryReader → Result (ℕ × BinaryReader)
read_short r = and_then (unpack_short (slice 2 r)) (λ n. ok (n, advance 2 r))

unfoldable pub read_int : BinaryReader → Result (ℕ × BinaryReader)
read_int r = and_then (unpack_int (slice 4 r)) (λ n. ok (n, advance 4 r))

unfoldable pub read_string : BinaryReader → Result (Text × BinaryReader)
read_string r =
    and_then (read_short r)
      (λ p. and_then (decode_text (slice p.0 p.1)) (λ text. ok (text, advance p.0 p.1)))

abbrev pub read_bytes : BinaryReader → Bytes
read_bytes r = drop r.offset r.content

-- headers[key] = value
abbrev pub put_header : Text → Text → Headers → Headers
put_header k v [] = (k, v) ∷ []
put_header k v ((j, u) ∷ hs) =
    let rest = put_header k v hs in if same_bytes k j then (j, v) ∷ hs else (j, u) ∷ rest

unfoldable pub read_headers : ℕ → Headers → BinaryReader → Result (Headers × BinaryReader)
read_headers zero headers r = ok (headers, r)
read_headers (suc n) headers r =
    and_then (read_string r)
      (λ k. and_then (read_string k.1) (λ v. read_headers n (put_header k.0 v.0 headers) v.1))

read_binary : BinaryReader → Result (Bytes × Headers)
read_binary r = and_then (read_int r) (λ headers_start.
    and_then (read_int headers_start.1) (λ data_start.
      and_then (read_short (shift_offset_to headers_start.0 data_start.1)) (λ header_count.
        and_then (read_headers header_count.0 [] header_count.1)
          (λ p. ok (read_bytes (shift_offset_to data_start.0 p.1), p.0)))))

-- `envelope data` is what `json_loads(data)` holds under "data", encoded, and under "headers".
module _ (envelope : Bytes → Result (Bytes × Option Headers)) where
  -- the `except` clause
  parse_raw : Bytes → Bytes × Headers
  parse_raw content = elim (envelope content) [
    | ok (final_data, some headers) ↦ (final_data, headers)
    | ok (final_data, none) ↦ (final_data, [])
    | err _ ↦ (content, [])
  ]

  -- the `else` clause: an envelope without headers is a `KeyError`, and is read again
  parse_json : Bytes → Bytes × Headers
  unfolding parse_raw
  parse_json content = elim (envelope content) [
    | ok (final_data, some headers) ↦ (final_data, headers)
    | _ ↦ parse_raw content
  ]

  parse_versioned : Bytes → Bytes × (ℕ × BinaryReader) → Bytes × Headers
  unfolding read_binary parse_json
  parse_versioned content (magic_header, (message_version, r)) =
      if same_bytes magic_header identity_header && (message_version == 1)
      then elim (read_binary r) [ ok p ↦ p | err _ ↦ parse_raw content ]
      else parse_json content

  unfoldable pub parse : Bytes → Bytes × Headers
  unfolding parse_versioned
  parse content =
      let (magic_header, r) = read_until 8 (record { content = content; offset = 0 }) in
      elim (read_short r) [
        | ok p ↦ parse_versioned content (magic_header, p)
        | err _ ↦ parse_raw content
      ]
