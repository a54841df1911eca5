-- ===== src/BinaryFormat/RoundTrip.antt =====
-- A message in the binary format is parsed to the headers and the data that it was made of.
use faststream.Prelude.{
  ℕ, ◌+◌, ◌*◌, ◌≡◌, refl, sym, ap, ◌∙◌, Option, [], ◌∷◌, ◌++◌, length, drop, drop-append,
}
use faststream.Exceptions.{Result, ok}
use faststream.Text.{Bytes}
use faststream.BinaryFormat.{
  write, write_short, write_int, write_headers, pack_short, pack_int, unpack_int, unpack_short,
  Headers, BinaryReader, identity_header, encode, parse, read_headers, read_short, read_int,
  read_binary,
}
use faststream.BinaryFormat.Packing.{pack_int-bytes}
use faststream.BinaryFormat.Reading.{
  and_then-ok, drop-drop, remaining, Next, write_short-bytes, Fresh, AsciiHeaders,
  write_headers-WrittenHeaders,
}

-- The frame of a message whose header block is `hd`.
abbrev framed : (a b c d e f : ℕ) → Bytes → Bytes → Bytes
framed a b c d e f hd content =
    137 ∷ 66 ∷ 73 ∷ 78 ∷ 13 ∷ 10 ∷ 26 ∷ 10 ∷ 0 ∷ 1 ∷ 0 ∷ 0 ∷ 0 ∷ 18 ∷ a ∷ b ∷ c ∷ d ∷ e ∷ f ∷ hd
    ++ content

abbrev start_bytes : Bytes
start_bytes = write identity_header (0 ∷ 1 ∷ 0 ∷ 0 ∷ 0 ∷ 18 ∷ [])

framed_of :
    (w3 w4 hd content bs : Bytes) (a b c d e f : ℕ)
    → w3 ≡ start_bytes ++ a ∷ b ∷ c ∷ d ∷ []
    → w4 ≡ w3 ++ e ∷ f ∷ []
    → ok ((w4 ++ hd) ++ content) ≡ ok bs
    → bs ≡ framed a b c d e f hd content
framed_of w3 w4 hd content bs a b c d e f e3 e4 h =
    let e34 = e4 ∙ ap (λ (w : Bytes). w ++ e ∷ f ∷ []) e3 in
    let whole : (w4 ++ hd) ++ content ≡ framed a b c d e f hd content =
      ap (λ (w : Bytes). (w ++ hd) ++ content) e34 in
    cc

write_int-bytes :
    (n : ℕ) (w w' : Bytes)
    → write_int n w ≡ ok w'
    → (a : ℕ) × (b : ℕ) × (c : ℕ) × (d : ℕ) × (w' ≡ w ++ a ∷ b ∷ c ∷ d ∷ [])
      × (a * 16777216 + b * 65536 + c * 256 + d ≡ n)
unfolding write_int
write_int-bytes n w w' h =
    let (bs, packed, wrote) = and_then-ok (pack_int n) _ w' h in
    let (a, b, c, d, e, value) = pack_int-bytes n bs packed in (a, b, c, d, cc, value)

-- What `encode` gives.
record Encoded (hs : Headers) (content bs : Bytes) : Type 0 where
  hd : Bytes
  wrote : write_headers hs [] ≡ ok hd
  a : ℕ
  b : ℕ
  c : ℕ
  d : ℕ
  e : ℕ
  f : ℕ
  start : a * 16777216 + b * 65536 + c * 256 + d ≡ 20 + length hd
  count : e * 256 + f ≡ length hs
  frame : bs ≡ framed a b c d e f hd content

encode-Encoded :
    (hs : Headers) (content bs : Bytes) → encode hs content ≡ ok bs → Encoded hs content bs
unfolding encode write_short write_int pack_short pack_int
encode-Encoded hs content bs h =
    let (hd, wrote, h1) = and_then-ok (write_headers hs []) _ bs h in
    let (w3, placed, h2) = and_then-ok (write_int (20 + length hd) start_bytes) _ bs h1 in
    let (w4, counted, h3) = and_then-ok (write_short (length hs) w3) _ bs h2 in
    let (a, b, c, d, e3, value) = write_int-bytes (20 + length hd) start_bytes w3 placed in
    let (e, f, e4, count) = write_short-bytes (length hs) w3 w4 counted in
    record {
      hd = hd;
      wrote = wrote;
      a = a;
      b = b;
      c = c;
      d = d;
      e = e;
      f = f;
      start = value;
      count = count;
      frame = framed_of w3 w4 hd content bs a b c d e f e3 e4 h3;
    }

-- `envelope` stands for the reader of the other format, which is not asked.
parse-framed :
    (envelope : Bytes → Result (Bytes × Option Headers)) (a b c d e f : ℕ) (hs : Headers)
    (hd content : Bytes)
    → a * 16777216 + b * 65536 + c * 256 + d ≡ 20 + length hd
    → e * 256 + f ≡ length hs
    → ((r : BinaryReader)
        → remaining r ≡ hd ++ content
        → (r' : BinaryReader) × (read_headers (length hs) [] r ≡ ok (hs, r')) × Next r content r')
    → parse envelope (framed a b c d e f hd content) ≡ (content, hs)
unfolding parse read_binary read_int read_short unpack_int unpack_short
parse-framed envelope a b c d e f hs hd content start count readable =
    let whole = framed a b c d e f hd content in
    let (r', read, next) = readable (record { content = whole; offset = 20 }) refl in
    let skipped : drop (20 + length hd) whole ≡ content =
      sym (drop-drop (length hd) 20 whole) ∙ drop-append hd content in
    rw (start, count, read, next.same, skipped)

-- What `encode` makes of headers and data, `parse` takes apart into the same headers and data, if
-- the texts of the headers are ASCII and no key stands twice. The other format is not tried.
pub parse-encode :
    (envelope : Bytes → Result (Bytes × Option Headers)) (hs : Headers) (content bs : Bytes)
    → AsciiHeaders hs
    → Fresh [] hs
    → encode hs content ≡ ok bs
    → parse envelope bs ≡ (content, hs)
parse-encode envelope hs content bs ascii distinct h =
    let x = encode-Encoded hs content bs h in
    let written = write_headers-WrittenHeaders hs [] x.hd ascii x.wrote in
    let readable : (r : BinaryReader)
        → remaining r ≡ x.hd ++ content
        → (r' : BinaryReader) × (read_headers (length hs) [] r ≡ ok (hs, r')) × Next r content r' =
      λ r before.
        written.read_back [] content r distinct
          (before ∙ ap (λ (w : Bytes). w ++ content) written.appended) in
    rw x.frame
      (parse-framed envelope x.a x.b x.c x.d x.e x.f hs x.hd content x.start x.count readable)
