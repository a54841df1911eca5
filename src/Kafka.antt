-- ===== src/Kafka.antt =====
-- _internal/kafka/keys.py and kafka/response.py: the keys of the messages of a batch.
pub mod Keys
pub mod Realign
pub mod Rewriting
use faststream.Prelude.{
  ℕ, Bool, true, false, not, ◌||◌, Option, none, some, List, [], ◌∷◌, map, any, get_elem?,
  if◌then◌else◌,
}
use faststream.Value.{Value, null, keyed, is_none}

-- _extract_body_and_key: a `Response` has a body and a publish key, which may be `None`.
abbrev pub body_of : Value → Value
body_of (keyed body key) = body
body_of item = item

abbrev pub key_of : Value → Value
key_of (keyed body key) = key
key_of _ = null

abbrev pub has_key : List Value → Bool
has_key items = any (λ item. not (is_none (key_of item))) items

-- extract_per_message_keys_and_bodies
unfoldable pub extract_keys_and_bodies : List Value → List Value × Option (List Value)
extract_keys_and_bodies [] = ([], none)
extract_keys_and_bodies (item ∷ items) =
    if has_key (item ∷ items)
    then (map key_of (item ∷ items), some (map body_of (item ∷ items)))
    else ([], none)

abbrev pub or_default : Value → Value → Value
or_default key default_key = if is_none key then default_key else key

abbrev pub effective : Option Value → Value → Value
effective none default_key = default_key
effective (some key) default_key = or_default key default_key

-- key_for_index, for an index that is not negative
unfoldable pub key_for_index : List Value → Value → ℕ → Value
key_for_index keys default_key index = effective (get_elem? keys index) default_key

pub record KafkaPublishCommand : Type 0 where
  pub body : Value
  pub extra_bodies : List Value
  pub key : Value
  pub per_message_keys : List Value

unfoldable pub batch_bodies : KafkaPublishCommand → List Value
batch_bodies c = if is_none c.body then c.extra_bodies else c.body ∷ c.extra_bodies

-- the setter, while there are no keys to align
unfoldable pub set_batch_bodies : List Value → KafkaPublishCommand → KafkaPublishCommand
set_batch_bodies [] c = record c { body = null; extra_bodies = [] }
set_batch_bodies (v ∷ vs) c = record c { body = v; extra_bodies = vs }

abbrev pub normalized : KafkaPublishCommand → Option (List Value) → KafkaPublishCommand
normalized c none = c
normalized c (some bodies) = set_batch_bodies bodies c

-- the last lines of `__init__`
unfoldable pub with_keys : KafkaPublishCommand → KafkaPublishCommand
with_keys c =
    let (keys, bodies) = extract_keys_and_bodies (batch_bodies c) in
    record (normalized c bodies) { per_message_keys = keys }

-- KafkaPublishCommand.__init__
unfoldable pub init : Value → List Value → Value → KafkaPublishCommand
unfolding with_keys
init body extra_bodies key =
    with_keys
      (record { body = body; extra_bodies = extra_bodies; key = key; per_message_keys = [] })

unfoldable pub key_for : ℕ → KafkaPublishCommand → Value
key_for index c = key_for_index c.per_message_keys c.key index
