-- ===== src/Text/Utf8.antt =====
-- What `encode` gives, `decode` reads back.
use faststream.Prelude.{
  ℕ, ◌+◌, ◌-◌, ◌*◌, ◌/◌, ◌%◌, ◌<◌, ◌≤◌, ◌≡◌, refl, ap, ◌∙◌, true, false, Option, none, some, [],
  ◌∷◌, ◌++◌, ltb, leb, All, lt→ltb, ltb→lt, le→leb, arith, Bool-cases, inl, inr,
}
use faststream.Exceptions.{Result, ok, err}
use faststream.Text.{
  Text, Bytes, is_surrogate, utf8, prepended, encode_text, Decoder, between, lead, feed,
  decode_from, decode_text,
}

abbrev behind : Text → Option Text → Option Text
behind out none = none
behind out (some t) = some (out ++ t)

decode_from-feed :
    (d d' : Decoder) (b : ℕ) (bs : Bytes) (out : Text)
    → feed d b ≡ some (d', out)
    → decode_from d (b ∷ bs) ≡ behind out (decode_from d' bs)
unfolding decode_from
decode_from-feed d d' b bs out h = ground (arith, h)

continues :
    (x : ℕ) → x < 64 → (leb 128 (128 + x) ≡ true) × (ltb (128 + x) 192 ≡ true) × (128 + x - 128 ≡ x)
continues x h =
    (le→leb 128 (128 + x) (omega arith), lt→ltb (128 + x) 192 (omega (arith, h)), omega arith)

-- A byte that continues a character, and the last of one.
feed_second :
    (acc least x : ℕ)
    → x < 64
    → feed (record { pending = 2; so_far = acc; least = least }) (128 + x)
      ≡ some (record { pending = 1; so_far = acc * 64 + x; least = least }, [])
unfolding feed
feed_second acc least x h = let (l, u, e) = continues x h in rw (l, u, e)

feed_third :
    (acc least x : ℕ)
    → x < 64
    → feed (record { pending = 3; so_far = acc; least = least }) (128 + x)
      ≡ some (record { pending = 2; so_far = acc * 64 + x; least = least }, [])
unfolding feed
feed_third acc least x h = let (l, u, e) = continues x h in rw (l, u, e)

feed_last :
    (acc least x c : ℕ)
    → x < 64
    → acc * 64 + x ≡ c
    → least ≤ c
    → c < 1114112
    → is_surrogate c ≡ false
    → feed (record { pending = 1; so_far = acc; least = least }) (128 + x) ≡ some (between, c ∷ [])
unfolding feed
feed_last acc least x c h e lo hi s =
    let (l, u, back) = continues x h in
    rw (l, u, back, e, le→leb least c lo, lt→ltb c 1114112 hi, s)

lead_two :
    (x : ℕ) → x < 32 → lead (192 + x) ≡ some (record { pending = 1; so_far = x; least = 128 }, [])
lead_two x h = let e : 192 + x - 192 ≡ x = omega arith in ground (arith, e, h)

lead_three :
    (x : ℕ) → x < 16 → lead (224 + x) ≡ some (record { pending = 2; so_far = x; least = 2048 }, [])
lead_three x h = let e : 224 + x - 224 ≡ x = omega arith in ground (arith, e, h)

lead_four :
    (x : ℕ) → x < 8 → lead (240 + x) ≡ some (record { pending = 3; so_far = x; least = 65536 }, [])
lead_four x h = let e : 240 + x - 240 ≡ x = omega arith in ground (arith, e, h)

behind_nil : (o : Option Text) → behind [] o ≡ o
behind_nil none = refl
behind_nil (some t) = refl

-- A byte that yields no character yet.
skip :
    (d d' : Decoder) (b : ℕ) (bs : Bytes)
    → feed d b ≡ some (d', [])
    → decode_from d (b ∷ bs) ≡ decode_from d' bs
skip d d' b bs h = decode_from-feed d d' b bs [] h ∙ behind_nil (decode_from d' bs)

abbrev reading : ℕ → ℕ → ℕ → Decoder
reading pending so_far least = record { pending = pending; so_far = so_far; least = least }

three_bytes :
    (c : ℕ) (rest : Bytes)
    → 2048 ≤ c
    → c < 65536
    → is_surrogate c ≡ false
    → decode_from between ((224 + c / 4096) ∷ (128 + (c / 64) % 64) ∷ (128 + c % 64) ∷ rest)
      ≡ behind (c ∷ []) (decode_from between rest)
unfolding feed
three_bytes c rest lo hi s =
    let e : (c / 4096) * 64 + (c / 64) % 64 ≡ c / 64 = omega arith in
    skip between (reading 2 (c / 4096) 2048) (224 + c / 4096) _
      (lead_three (c / 4096) (omega (arith, hi)))
    ∙ skip (reading 2 (c / 4096) 2048) (reading 1 (c / 64) 2048) (128 + (c / 64) % 64) _
        (rw e at (feed_second (c / 4096) 2048 ((c / 64) % 64) (omega arith)))
    ∙ decode_from-feed (reading 1 (c / 64) 2048) between (128 + c % 64) rest (c ∷ [])
        (feed_last (c / 64) 2048 (c % 64) c (omega arith) (omega arith) lo (omega (arith, hi)) s)

four_bytes :
    (c : ℕ) (rest : Bytes)
    → 65536 ≤ c
    → c < 1114112
    → is_surrogate c ≡ false
    → decode_from between (
        (240 + c / 262144)
        ∷ (128 + (c / 4096) % 64)
        ∷ (128 + (c / 64) % 64)
        ∷ (128 + c % 64)
        ∷ rest)
      ≡ behind (c ∷ []) (decode_from between rest)
unfolding feed
four_bytes c rest lo hi s =
    let e : (c / 262144) * 64 + (c / 4096) % 64 ≡ c / 4096 = omega arith in
    let f : (c / 4096) * 64 + (c / 64) % 64 ≡ c / 64 = omega arith in
    skip between (reading 3 (c / 262144) 65536) (240 + c / 262144) _
      (lead_four (c / 262144) (omega (arith, hi)))
    ∙ skip (reading 3 (c / 262144) 65536) (reading 2 (c / 4096) 65536) (128 + (c / 4096) % 64) _
        (rw e at (feed_third (c / 262144) 65536 ((c / 4096) % 64) (omega arith)))
    ∙ skip (reading 2 (c / 4096) 65536) (reading 1 (c / 64) 65536) (128 + (c / 64) % 64) _
        (rw f at (feed_second (c / 4096) 65536 ((c / 64) % 64) (omega arith)))
    ∙ decode_from-feed (reading 1 (c / 64) 65536) between (128 + c % 64) rest (c ∷ [])
        (feed_last (c / 64) 65536 (c % 64) c (omega arith) (omega arith) lo hi s)

decode_from-utf8 :
    (c : ℕ) (rest : Bytes)
    → c < 1114112
    → is_surrogate c ≡ false
    → decode_from between (utf8 c ++ rest) ≡ behind (c ∷ []) (decode_from between rest)
unfolding feed
decode_from-utf8 c rest hi s = elim (Bool-cases (ltb c 128)) [
  | inl one ↦ rw one (decode_from-feed between between c rest (c ∷ []) (rw one))
  | inr more ↦ elim (Bool-cases (ltb c 2048)) [
    | inl two ↦
        rw (more, two)
          (skip between (reading 1 (c / 64) 128) (192 + c / 64) ((128 + c % 64) ∷ rest)
              (lead_two (c / 64) (let b = ltb→lt c 2048 two in omega (arith, b)))
            ∙ decode_from-feed (reading 1 (c / 64) 128) between (128 + c % 64) rest (c ∷ []) (
                feed_last (c / 64) 128 (c % 64) c (omega arith) (omega arith) (ground (arith, more))
                  hi s))
    | inr many ↦ elim (Bool-cases (ltb c 65536)) [
      | inl three ↦
          rw (more, many, three)
            (three_bytes c rest (ground (arith, many)) (ltb→lt c 65536 three) s)
      | inr four ↦ rw (more, many, four) (four_bytes c rest (ground (arith, four)) hi s)
    ]
  ]
]

prepended-ok :
    (front : Bytes) (r : Result Bytes) (bs : Bytes)
    → prepended front r ≡ ok bs
    → (rest : Bytes) × (r ≡ ok rest) × (bs ≡ front ++ rest)
prepended-ok front (ok rest) bs h = (rest, refl, cc)
prepended-ok front (err e) bs h = cc

pub encode_text-cons :
    (c : ℕ) (cs : Text) (bs : Bytes)
    → encode_text (c ∷ cs) ≡ ok bs
    → (rest : Bytes) × (encode_text cs ≡ ok rest) × (bs ≡ utf8 c ++ rest)
unfolding encode_text
encode_text-cons c cs bs h = elim (Bool-cases (is_surrogate c)) [
  | inl lone ↦ ground arith
  | inr other ↦ prepended-ok (utf8 c) (encode_text cs) bs (ground arith)
]

encode_text-scalar :
    (c : ℕ) (cs : Text) (bs : Bytes) → encode_text (c ∷ cs) ≡ ok bs → is_surrogate c ≡ false
unfolding encode_text
encode_text-scalar c cs bs h = elim (Bool-cases (is_surrogate c)) [
  | inl lone ↦ absurd (ground (arith, lone))
  | inr other ↦ other
]

-- The characters of a Python text.
abbrev pub IsText : Text → Type 0
IsText t = All (λ c. c < 1114112) t

decode_from-encode_text :
    (t : Text) (bs : Bytes) → IsText t → encode_text t ≡ ok bs → decode_from between bs ≡ some t
unfolding encode_text decode_from
decode_from-encode_text [] bs q h = ground (arith, h)
decode_from-encode_text (c ∷ cs) bs (qc, q) h =
    let (rest, tail, e) = encode_text-cons c cs bs h in
    let scalar = encode_text-scalar c cs bs h in
    let later = decode_from-encode_text cs rest q tail in
    rw e (decode_from-utf8 c rest qc scalar ∙ ap (behind (c ∷ [])) later)

-- Every text that has an encoding is read back from it.
pub decode_text-encode_text :
    (t : Text) (bs : Bytes) → IsText t → encode_text t ≡ ok bs → decode_text bs ≡ ok t
unfolding decode_text
decode_text-encode_text t bs q h = rw (decode_from-encode_text t bs q h, decode_text)
