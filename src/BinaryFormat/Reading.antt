-- ===== src/BinaryFormat/Reading.antt =====
-- What was written is read back, wherever it stands.
use native.Mathlib.Numerals.{unary_clauses}
use faststream.Prelude.{
  ℕ, zero, suc, ◌+◌, ◌*◌, ◌≡◌, refl, sym, ap, ◌∙◌, Bool, false, ◌||◌, Bool-cases, inl, inr, All, [],
  ◌∷◌, ◌++◌, length, take, drop, take-append, drop-append, append_assoc, append-nil, arith,
}
use faststream.Exceptions.{Result, ok, err}
use faststream.Text.{Text, Bytes, encode_text, IsAscii, encode_text-IsAscii, decode_text-IsAscii}
use faststream.BinaryFormat.{
  and_then, same_bytes, pack_short, unpack_short, write_short, characters, write_string,
  write_headers, Headers, BinaryReader, slice, advance, read_short, read_string, read_headers,
  put_header,
}
use faststream.BinaryFormat.Packing.{pack_short-bytes}

pub and_then-ok :
    {A B : Type 0} (r : Result A) (f : A → Result B) (b : B)
    → and_then r f ≡ ok b
    → (a : A) × (r ≡ ok a) × (f a ≡ ok b)
and_then-ok (ok a) f b h = (a, refl, h)
and_then-ok (err e) f b h = cc

pub drop-drop : (n m : ℕ) (xs : Bytes) → drop n (drop m xs) ≡ drop (m + n) xs
drop-drop n zero xs = let e : n ≡ 0 + n = omega arith in ap (λ (k : ℕ). drop k xs) e
drop-drop zero (suc m) [] = simp unary_clauses refl
drop-drop (suc n) (suc m) [] = simp unary_clauses refl
drop-drop n (suc m) (x ∷ xs) =
    let e : suc (m + n) ≡ suc m + n = omega arith in
    drop-drop n m xs ∙ ap (λ (k : ℕ). drop k (x ∷ xs)) e

-- The bytes that a reader has before it.
abbrev pub remaining : BinaryReader → Bytes
remaining r = drop r.offset r.content

pub remaining-advance : (n : ℕ) (r : BinaryReader) → remaining (advance n r) ≡ drop n (remaining r)
remaining-advance n r = sym (drop-drop n r.offset r.content)

-- A reader of the same bytes, which has `rest` before it.
pub record Next (r : BinaryReader) (rest : Bytes) (r' : BinaryReader) : Type 0 where
  pub same : r'.content ≡ r.content
  pub left : remaining r' ≡ rest

Next-advance :
    (bs rest : Bytes) (r : BinaryReader)
    → remaining r ≡ bs ++ rest
    → Next r rest (advance (length bs) r)
Next-advance bs rest r h = record {
  same = refl;
  left =
      remaining-advance (length bs) r
      ∙ ap (λ (xs : Bytes). drop (length bs) xs) h
      ∙ drop-append bs rest;
}

pub read_short-Next :
    (a b n : ℕ) (rest : Bytes) (r : BinaryReader)
    → a * 256 + b ≡ n
    → remaining r ≡ a ∷ b ∷ rest
    → (read_short r ≡ ok (n, advance 2 r)) × Next r rest (advance 2 r)
unfolding read_short unpack_short
read_short-Next a b n rest r e h = (rw (h, e), Next-advance (a ∷ b ∷ []) rest r h)

pub write_short-bytes :
    (n : ℕ) (w w' : Bytes)
    → write_short n w ≡ ok w'
    → (a : ℕ) × (b : ℕ) × (w' ≡ w ++ a ∷ b ∷ []) × (a * 256 + b ≡ n)
unfolding write_short
write_short-bytes n w w' h =
    let (bs, packed, wrote) = and_then-ok (pack_short n) _ w' h in
    let (a, b, e, value) = pack_short-bytes n bs packed in (a, b, cc, value)

-- What a writer appended for a text, a reader reads as that text.
pub record Written (t : Text) (w w' : Bytes) : Type 0 where
  pub bytes : Bytes
  pub appended : w' ≡ w ++ bytes
  pub read_back :
      (rest : Bytes) (r : BinaryReader)
      → remaining r ≡ bytes ++ rest
      → (r' : BinaryReader) × (read_string r ≡ ok (t, r')) × Next r rest r'

string-Next :
    (a b : ℕ) (t rest : Bytes) (r : BinaryReader)
    → IsAscii t
    → a * 256 + b ≡ length t
    → remaining r ≡ a ∷ b ∷ t ++ rest
    → (read_string r ≡ ok (t, advance (length t) (advance 2 r)))
      × Next r rest (advance (length t) (advance 2 r))
unfolding read_string
string-Next a b t rest r small e h =
    let (read, next) = read_short-Next a b (length t) (t ++ rest) r e h in
    let cut : slice (length t) (advance 2 r) ≡ t =
      ap (λ (xs : Bytes). take (length t) xs) next.left ∙ take-append t rest in
    let after = Next-advance t rest (advance 2 r) next.left in
    (rw (read, cut, decode_text-IsAscii t small), record { same = refl; left = after.left })

pub write_string-Written :
    (t : Text) (w w' : Bytes) → IsAscii t → write_string (characters t) w ≡ ok w' → Written t w w'
unfolding write_string
write_string-Written t w w' small h =
    let (w1, wrote, h1) = and_then-ok (write_short (length t) w) _ w' h in
    let (bs, encoded, h2) = and_then-ok (encode_text t) _ w' h1 in
    let (a, b, e1, value) = write_short-bytes (length t) w w1 wrote in
    let ascii = encode_text-IsAscii t small in
    let joined = append_assoc w (a ∷ b ∷ []) t in
    record {
      bytes = a ∷ b ∷ t;
      appended = cc;
      read_back = λ rest r before.
          let (read, next) = string-Next a b t rest r small value before in (_, read, next);
    }

-- No key of the headers stands among those that were read before it.
abbrev pub has_header : Text → Headers → Bool
has_header k [] = false
has_header k ((j, u) ∷ hs) = same_bytes k j || has_header k hs

abbrev pub Fresh : Headers → Headers → Type 0
Fresh seen [] = Unit
Fresh seen ((k, v) ∷ hs) = (has_header k seen ≡ false) × Fresh (seen ++ (k, v) ∷ []) hs

abbrev pub AsciiHeaders : Headers → Type 0
AsciiHeaders hs = All (λ (h : Text × Text). IsAscii h.0 × IsAscii h.1) hs

put_header_new :
    (k v : Text) (hs : Headers) → has_header k hs ≡ false → put_header k v hs ≡ hs ++ (k, v) ∷ []
put_header_new k v [] h = refl
put_header_new k v ((j, u) ∷ hs) h = elim (Bool-cases (same_bytes k j)) [
  | inl same ↦ ground arith
  | inr other ↦
      let later : has_header k hs ≡ false = ground arith in
      let rest = put_header_new k v hs later in ground arith
]

-- What a writer appended for some headers, a reader adds to those that it has.
pub record WrittenHeaders (hs : Headers) (w w' : Bytes) : Type 0 where
  pub bytes : Bytes
  pub appended : w' ≡ w ++ bytes
  pub read_back :
      (seen : Headers) (rest : Bytes) (r : BinaryReader)
      → Fresh seen hs
      → remaining r ≡ bytes ++ rest
      → (r' : BinaryReader) × (read_headers (length hs) seen r ≡ ok (seen ++ hs, r'))
        × Next r rest r'

cons-WrittenHeaders :
    (k v : Text) (hs : Headers) (w w1 w2 w' : Bytes)
    → Written k w w1
    → Written v w1 w2
    → WrittenHeaders hs w2 w'
    → WrittenHeaders ((k, v) ∷ hs) w w'
unfolding read_headers
cons-WrittenHeaders k v hs w w1 w2 w' key value more =
    let joined = append_assoc w key.bytes (value.bytes ++ more.bytes) in
    let joined_v = append_assoc (w ++ key.bytes) value.bytes more.bytes in
    record {
      bytes = key.bytes ++ (value.bytes ++ more.bytes);
      appended = cc;
      read_back = λ seen rest r (fresh, distinct) before.
          let split = append_assoc key.bytes (value.bytes ++ more.bytes) rest in
          let split_v = append_assoc value.bytes more.bytes rest in
          let (r1, read_k, n1) =
            key.read_back (value.bytes ++ (more.bytes ++ rest)) r
              (before ∙ split ∙ ap (λ (xs : Bytes). key.bytes ++ xs) split_v) in
          let (r2, read_v, n2) = value.read_back (more.bytes ++ rest) r1 n1.left in
          let (r3, read, n3) = more.read_back (seen ++ (k, v) ∷ []) rest r2 distinct n2.left in
          (
            r3,
            rw (read_k, read_headers, read_v, put_header_new k v seen fresh, read)
                (ap (λ (xs : Headers). ok (xs, r3)) (append_assoc seen ((k, v) ∷ []) hs)),
            record { same = n3.same ∙ n2.same ∙ n1.same; left = n3.left },
          );
    }

pub write_headers-WrittenHeaders :
    (hs : Headers) (w w' : Bytes)
    → AsciiHeaders hs
    → write_headers hs w ≡ ok w'
    → WrittenHeaders hs w w'
unfolding write_headers read_headers
write_headers-WrittenHeaders [] w w' small h = record {
  bytes = [];
  appended = let e = append-nil w in cc;
  read_back = λ seen rest r fresh before.
      (r, rw (append-nil seen) refl, record { same = refl; left = before });
}
write_headers-WrittenHeaders ((k, v) ∷ hs) w w' ((small_k, small_v), small) h =
    let (w1, wrote_k, h1) = and_then-ok (write_string (characters k) w) _ w' h in
    let (w2, wrote_v, h2) = and_then-ok (write_string (characters v) w1) _ w' h1 in
    cons-WrittenHeaders k v hs w w1 w2 w' (write_string-Written k w w1 small_k wrote_k)
      (write_string-Written v w1 w2 small_v wrote_v)
      (write_headers-WrittenHeaders hs w2 w' small h2)
