-- ===== src/Text.antt =====
-- Python texts as their code points, and the codec that `str.encode()` and `bytes.decode()` use.
pub mod Utf8
use faststream.Prelude.{
  ℕ, ◌+◌, ◌-◌, ◌*◌, ◌/◌, ◌%◌, ◌<◌, ◌≡◌, ◌≢◌, refl, Bool-cases, inl, inr, Bool, true, false, ◌&&◌,
  not, Option, none, some, ◌↔◌, ==_iff, List, [], ◌∷◌, ◌++◌, ltb, leb, ◌==◌, if◌then◌else◌, All,
  lt→ltb, arith,
}
use faststream.Exceptions.{Result, ok, err, raised, value_error}

abbrev pub Text : Type 0
Text = List ℕ

abbrev pub Bytes : Type 0
Bytes = List ℕ

abbrev pub is_surrogate : ℕ → Bool
is_surrogate c = leb 55296 c && ltb c 57344

abbrev pub utf8 : ℕ → Bytes
utf8 c =
    if ltb c 128
    then c ∷ []
    else if ltb c 2048
    then (192 + c / 64) ∷ (128 + c % 64) ∷ []
    else if ltb c 65536
    then (224 + c / 4096) ∷ (128 + (c / 64) % 64) ∷ (128 + c % 64) ∷ []
    else (240 + c / 262144) ∷ (128 + (c / 4096) % 64) ∷ (128 + (c / 64) % 64) ∷ (128 + c % 64) ∷ []

abbrev pub prepended : Bytes → Result Bytes → Result Bytes
prepended front (ok back) = ok (front ++ back)
prepended front (err e) = err e

-- A lone surrogate has no encoding; a `UnicodeEncodeError` is a `ValueError`.
unfoldable pub encode_text : Text → Result Bytes
encode_text [] = ok []
encode_text (c ∷ cs) =
    let rest = encode_text cs in
    if is_surrogate c then err (raised value_error) else prepended (utf8 c) rest

-- The character that is being read: how many bytes are to come, its value so far, and the least
-- value that needs as many bytes as it has.
pub record Decoder : Type 0 where
  pub pending : ℕ
  pub so_far : ℕ
  pub least : ℕ

abbrev between : Decoder
between = record { pending = 0; so_far = 0; least = 0 }

abbrev lead : ℕ → Option (Decoder × Text)
lead b =
    if ltb b 128
    then some (between, b ∷ [])
    else if leb 192 b && ltb b 224
    then some (record { pending = 1; so_far = b - 192; least = 128 }, [])
    else if leb 224 b && ltb b 240
    then some (record { pending = 2; so_far = b - 224; least = 2048 }, [])
    else if leb 240 b && ltb b 248
    then some (record { pending = 3; so_far = b - 240; least = 65536 }, [])
    else none

abbrev finish : Decoder → ℕ → Option (Decoder × Text)
finish d c =
    if leb d.least c && ltb c 1114112 && not (is_surrogate c) then some (between, c ∷ []) else none

feed : Decoder → ℕ → Option (Decoder × Text)
feed d b =
    if d.pending == 0
    then lead b
    else if not (leb 128 b && ltb b 192)
    then none
    else if d.pending == 1
    then finish d (d.so_far * 64 + (b - 128))
    else some (record d { pending = d.pending - 1; so_far = d.so_far * 64 + (b - 128) }, [])

decode_from : Decoder → Bytes → Option Text
unfolding feed
decode_from d [] = if d.pending == 0 then some [] else none
decode_from d (b ∷ bs) = elim (feed d b) [
  | none ↦ none
  | some (d', out) ↦ elim (decode_from d' bs) [ none ↦ none | some t ↦ some (out ++ t) ]
]

-- A `UnicodeDecodeError` is a `ValueError`.
unfoldable pub decode_text : Bytes → Result Text
unfolding decode_from
decode_text bs = elim (decode_from between bs) [ none ↦ err (raised value_error) | some t ↦ ok t ]

abbrev pub IsAscii : Text → Type 0
IsAscii t = All (λ c. c < 128) t

pub encode_text-IsAscii : (t : Text) → IsAscii t → encode_text t ≡ ok t
unfolding encode_text
encode_text-IsAscii [] h = refl
encode_text-IsAscii (c ∷ cs) (small, h) =
    ground (arith, lt→ltb c 128 small, encode_text-IsAscii cs h)

decode_from-IsAscii : (t : Text) → IsAscii t → decode_from between t ≡ some t
unfolding decode_from
decode_from-IsAscii [] h = refl
decode_from-IsAscii (c ∷ cs) (small, h) =
    ground (arith, lt→ltb c 128 small, decode_from-IsAscii cs h)

pub decode_text-IsAscii : (t : Text) → IsAscii t → decode_text t ≡ ok t
unfolding decode_text
decode_text-IsAscii t h = rw (decode_from-IsAscii t h, decode_text)

unfoldable pub same_text : Text → Text → Bool
same_text [] [] = true
same_text (a ∷ xs) (b ∷ ys) = (a == b) && same_text xs ys
same_text [] (_ ∷ _) = false
same_text (_ ∷ _) [] = false

pub same_text_iff : (s t : Text) → (same_text s t ≡ true) ↔ (s ≡ t)
unfolding same_text
same_text_iff [] [] = (λ h. refl, λ h. refl)
same_text_iff [] (_ ∷ _) = (λ h. cc, λ h. cc)
same_text_iff (_ ∷ _) [] = (λ h. cc, λ h. cc)
same_text_iff (a ∷ xs) (b ∷ ys) = (
  λ h. let e = (same_text_iff xs ys).0 in ground (arith, h, e, ==_iff a b),
  λ h. let e = (same_text_iff xs ys).1 in ground (arith, h, e, ==_iff a b),
)

pub same_text_refl : (s : Text) → same_text s s ≡ true
same_text_refl s = (same_text_iff s s).1 refl

pub different : (s t : Text) → s ≢ t → same_text s t ≡ false
different s t h = elim (Bool-cases (same_text s t)) [
  | inl same ↦ absurd (h ((same_text_iff s t).0 same))
  | inr apart ↦ apart
]

abbrev cons_first : ℕ → List Text → List Text
cons_first c [] = (c ∷ []) ∷ []
cons_first c (t ∷ ts) = (c ∷ t) ∷ ts

-- text.split(sep), for a separator of one character
unfoldable pub split : ℕ → Text → List Text
split sep [] = [] ∷ []
split sep (c ∷ cs) = let rest = split sep cs in if c == sep then [] ∷ rest else cons_first c rest
