-- ===== src/Kafka/Keys.antt =====
-- Which key and which body each message of a batch gets.
use faststream.Prelude.{
  ℕ, zero, suc, ◌≡◌, refl, true, false, Option, none, some, List, [], ◌∷◌, map, get_elem?, arith,
  Bool-cases, inl, inr, if◌then◌else◌,
}
use faststream.Value.{Value, is_none}
use faststream.Kafka.{
  body_of, key_of, has_key, extract_keys_and_bodies, or_default, key_for_index, KafkaPublishCommand,
  batch_bodies, set_batch_bodies, with_keys, normalized, key_for,
}

-- The messages that are sent: a first one that is `None` is not.
abbrev pub sent : List Value → List Value
sent [] = []
sent (v ∷ vs) = if is_none v then vs else v ∷ vs

get_elem?-map :
    (items : List Value) (i : ℕ) (item : Value)
    → get_elem? items i ≡ some item
    → get_elem? (map key_of items) i ≡ some (key_of item)
get_elem?-map [] i item h = ground arith
get_elem?-map (x ∷ items) zero item h = ground arith
get_elem?-map (x ∷ items) (suc i) item h = get_elem?-map items i item h

unkeyed :
    (items : List Value) (i : ℕ) (item : Value)
    → get_elem? items i ≡ some item
    → has_key items ≡ false
    → is_none (key_of item) ≡ true
unkeyed [] i item h no_key = ground arith
unkeyed (x ∷ items) zero item h no_key = ground arith
unkeyed (x ∷ items) (suc i) item h no_key = unkeyed items i item h (ground arith)

module _ (c : KafkaPublishCommand) where
  bodies_with :
      (items : List Value)
      → batch_bodies c ≡ items
      → batch_bodies (record (normalized c (extract_keys_and_bodies items).1) {
        per_message_keys = (extract_keys_and_bodies items).0;
      })
        ≡ (if has_key items then sent (map body_of items) else items)
  unfolding batch_bodies extract_keys_and_bodies set_batch_bodies
  bodies_with [] e = e
  bodies_with (x ∷ items) e = elim (Bool-cases (has_key (x ∷ items))) [
    | inl keyed_batch ↦ ground (arith, e)
    | inr plain_batch ↦ ground (arith, e)
  ]

  key_at :
      (items : List Value) (i : ℕ) (item : Value)
      → get_elem? items i ≡ some item
      → key_for_index (extract_keys_and_bodies items).0 c.key i ≡ or_default (key_of item) c.key
  unfolding key_for_index extract_keys_and_bodies
  key_at [] i item h = ground arith
  key_at (x ∷ items) i item h = elim (Bool-cases (has_key (x ∷ items))) [
    | inl keyed_batch ↦ let found = get_elem?-map (x ∷ items) i item h in rw (keyed_batch, found)
    | inr plain_batch ↦
        let none_given = unkeyed (x ∷ items) i item h plain_batch in rw (plain_batch, none_given)
  ]

key_kept :
    (c : KafkaPublishCommand) (bodies : Option (List Value)) → (normalized c bodies).key ≡ c.key
unfolding set_batch_bodies
key_kept c none = refl
key_kept c (some []) = refl
key_kept c (some (v ∷ vs)) = refl

-- For each place of the batch as it was given, `key_for` is the key of the message there, or else
-- that of the command. The bodies that are sent are those of the messages where some message has a
-- key, less a first body of `None`; where none has one, `Response` objects are left as they are. So
-- each message that is sent has its own key unless the first body was `None`: the places of the
-- others are then one less than those of their keys.
pub with_keys-batch_bodies :
    (c : KafkaPublishCommand)
    → (batch_bodies (with_keys c) ≡ (
        if has_key (batch_bodies c) then sent (map body_of (batch_bodies c)) else batch_bodies c))
      × ((i : ℕ) (item : Value)
          → get_elem? (batch_bodies c) i ≡ some item
          → key_for i (with_keys c) ≡ or_default (key_of item) c.key)
unfolding with_keys key_for
with_keys-batch_bodies c = (
  bodies_with c (batch_bodies c) refl,
  λ i item h.
      rw (key_kept c (extract_keys_and_bodies (batch_bodies c)).1)
        (key_at c (batch_bodies c) i item h),
)
