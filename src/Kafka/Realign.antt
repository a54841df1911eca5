-- ===== src/Kafka/Realign.antt =====
-- _internal/kafka/keys.py, `realign_keys`: the keys of a batch whose bodies were rewritten.
pub mod Aligned
pub mod Places
pub mod Unchanged
use faststream.Prelude.{
  ℕ, zero, suc, ◌+◌, ◌≡◌, refl, sym, ap, ◌∙◌, Bool, true, false, not, ◌||◌, ◌&&◌, Option, none,
  some, List, [], ◌∷◌, ◌++◌, ◌==◌, drop, get_elem?, length, if◌then◌else◌, arith, Bool-cases, inl,
  inr, ==_iff, All,
}
use faststream.Exceptions.{Exc, Result, ok, err, raised, value_error, derived, builtin, exception}
use faststream.Value.{Value, is_none}

-- bodies_seen: indices of the current bodies, with the new bodies that were put there
abbrev pub Seen : Type 0
Seen = List (ℕ × Value)

-- bodies_seen.get(index) is None
abbrev pub is_unseen : ℕ → Seen → Bool
is_unseen index [] = true
is_unseen index ((i, body) ∷ seen) = if i == index then is_none body else is_unseen index seen

-- bodies_seen.update({index: body})
unfoldable pub put : ℕ → Value → Seen → Seen
put index body [] = (index, body) ∷ []
put index body ((i, b) ∷ seen) =
    let rest = put index body seen in if i == index then (i, body) ∷ seen else (i, b) ∷ rest

abbrev pub index_error : Exc
index_error = record { cls = derived 2 (builtin exception); extra_options = []; ident = 0 }

-- tuple(keys[i] for i in bodies_seen)
unfoldable pub keys_at : List Value → Seen → Result (List Value)
keys_at keys [] = ok []
keys_at keys ((i, body) ∷ seen) =
    let rest = keys_at keys seen in
    elim (get_elem? keys i) [
      | none ↦ err index_error
      | some key ↦ elim rest [ err e ↦ err e | ok others ↦ ok (key ∷ others) ]
    ]

-- `same` is the equality of bodies.
module _ (same : Value → Value → Bool) where
  -- current_bodies.index(body), counted from `index`
  unfoldable pub index_of : Value → ℕ → List Value → Result ℕ
  index_of body index [] = err (raised value_error)
  index_of body index (c ∷ current) =
      let rest = index_of body (suc index) current in if same c body then ok index else rest

  -- the `while` loop, on the current bodies from `index` on
  unfoldable pub next_free : Seen → Value → ℕ → List Value → Result ℕ
  next_free seen body index [] = err index_error
  next_free seen body index (c ∷ current) =
      let rest = next_free seen body (suc index) current in
      if is_unseen index seen && same c body then ok index else rest

  unfoldable pub place : Value → List Value → Seen → Result Seen
  place body current seen = elim (index_of body 0 current) [
    | err e ↦ err e
    | ok index ↦
        if is_unseen index seen
        then ok (put index body seen)
        else elim (next_free seen body index (drop index current)) [
          | err e ↦ err e
          | ok free ↦ ok (put free body seen)
        ]
  ]

  unfoldable pub place_all : List Value → List Value → Seen → Result Seen
  unfolding place
  place_all [] current seen = ok seen
  place_all (body ∷ bodies) current seen = elim (place body current seen) [
    | err e ↦ err e
    | ok seen' ↦ place_all bodies current seen'
  ]

  unfoldable pub realign_keys : List Value → List Value → List Value → Result (List Value)
  realign_keys keys current_bodies new_bodies = elim (place_all new_bodies current_bodies []) [
    | err e ↦ err e
    | ok seen ↦ keys_at keys seen
  ]
