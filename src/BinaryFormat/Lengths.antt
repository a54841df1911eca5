-- ===== src/BinaryFormat/Lengths.antt =====
-- The length that the writer writes before a text.
use faststream.Prelude.{
  ℕ, ◌+◌, ◌*◌, ◌≤◌, ◌<◌, ◌≡◌, sym, ◌∙◌, ◌↔◌, Bool-cases, inl, inr, [], ◌∷◌, ◌++◌, length, arith,
  length-append, append_assoc, ap, ltb, ltb→lt,
}
use faststream.Exceptions.{ok}
use faststream.Text.{Text, Bytes, encode_text, IsAscii, encode_text-IsAscii, utf8}
use faststream.Text.Utf8.{encode_text-cons}
use faststream.BinaryFormat.{characters, write_string, write_short}
use faststream.BinaryFormat.Reading.{and_then-ok, write_short-bytes}

utf8-length : (c : ℕ) → (1 ≤ length (utf8 c)) × (length (utf8 c) ≡ 1 → c < 128)
utf8-length c = elim (Bool-cases (ltb c 128)) [
  | inl one ↦ (ground arith, λ h. ltb→lt c 128 one)
  | inr more ↦ (ground arith, λ h. ground arith)
]

encode_text-length : (t : Text) (bs : Bytes) → encode_text t ≡ ok bs → length t ≤ length bs
unfolding encode_text
encode_text-length [] bs h = ground arith
encode_text-length (c ∷ cs) bs h =
    let (rest, tail, e) = encode_text-cons c cs bs h in
    let shorter = encode_text-length cs rest tail in
    let (some_bytes, _) = utf8-length c in
    let sum = length-append (utf8 c) rest in
    let total = ap (λ (xs : Bytes). length xs) e in omega (arith, shorter, some_bytes, sum, total)

length-IsAscii : (t : Text) (bs : Bytes) → encode_text t ≡ ok bs → length bs ≡ length t → IsAscii t
length-IsAscii [] bs h same = tt
length-IsAscii (c ∷ cs) bs h same =
    let (rest, tail, e) = encode_text-cons c cs bs h in
    let shorter = encode_text-length cs rest tail in
    let (some_bytes, single) = utf8-length c in
    let sum = length-append (utf8 c) rest in
    let total = ap (λ (xs : Bytes). length xs) e in
    (
      single (omega (arith, shorter, some_bytes, sum, total, same)),
      length-IsAscii cs rest tail (omega (arith, shorter, some_bytes, sum, total, same)),
    )

-- `write_string` writes the number of characters of a text and then its bytes. The number is that
-- of the bytes, which the reader takes it for, exactly if the text is ASCII.
pub write_string-length :
    (t : Text) (w w' : Bytes)
    → write_string (characters t) w ≡ ok w'
    → (a : ℕ) × (b : ℕ) × (bs : Bytes) × (encode_text t ≡ ok bs)
      × (w' ≡ w ++ a ∷ b ∷ bs)
      × (a * 256 + b ≡ length t)
      × ((a * 256 + b ≡ length bs) ↔ IsAscii t)
unfolding write_string
write_string-length t w w' h =
    let (w1, wrote, h1) = and_then-ok (write_short (length t) w) _ w' h in
    let (bs, encoded, h2) = and_then-ok (encode_text t) _ w' h1 in
    let (a, b, e1, value) = write_short-bytes (length t) w w1 wrote in
    let joined = append_assoc w (a ∷ b ∷ []) bs in
    (
      a,
      b,
      bs,
      encoded,
      cc,
      value,
      (
        λ same. length-IsAscii t bs encoded (sym same ∙ value),
        λ small.
            let e : t ≡ bs = let ascii = encode_text-IsAscii t small in cc in
            value ∙ ap (λ (xs : Bytes). length xs) e,
      ),
    )
