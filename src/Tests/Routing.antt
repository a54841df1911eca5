-- ===== src/Tests/Routing.antt =====
-- Routers and the delivery of messages.
use faststream.Prelude.{
  ◌+◌, ℕ, ◌≡◌, ◌↔◌, refl, true, false, Option, none, some, List, [], ◌∷◌, ◌==◌, all, All,
  if◌then◌else◌,
}
use faststream.Exceptions.{ok}
use faststream.Text.{Text, split}
use faststream.Configs.{
  BrokerConfig, Config, broker_config, composition, nil, cons, merged, first_valuable, ack_policy,
  include_in_schema,
}
use faststream.Configs.Leaves.{
  leaves, concatenated, first_with, last_with, own_policy, included, config-leaves,
}
use faststream.Middleware.Acknowledgement.{manual}
use faststream.Registrator.{own, composed, Store, include_router, is_parent}
use faststream.Registrator.Linking.{IsLinked, option_entries}
use faststream.Registrator.Inclusion.{
  alone, IsComposed, include_router-IsLinked, include_router-IsComposed,
}
use faststream.Nats.{
  LogicSubscriber, is_subject_match_wildcard, find_handler, is_handler_matches, is_empty,
}
use faststream.Nats.Wildcards.{is_subject_match_wildcard_iff}
use faststream.Nats.Delivery.{find_handler-delivered, ungrouped, matching, count_queue, has_group}
use faststream.Rabbit.{apply_pattern, dot}
use faststream.Rabbit.Topics.{apply_pattern-Matches, HasNoHash, IsWord}

abbrev prefixed : Text → BrokerConfig
prefixed t = record {
  prefix = t;
  include_in_schema = none;
  broker_middlewares = [];
  broker_parser = none;
  broker_decoder = none;
  broker_codec = none;
  broker_dependencies = [];
  ack_policy = some manual;
  extra_context = [];
}

abbrev nested : Config
nested = composition (
    cons (composition (cons (broker_config (prefixed (97 ∷ []))) nil))
      (cons (broker_config (prefixed (98 ∷ []))) nil))

abbrev prefix_of : BrokerConfig → Text
prefix_of c = c.prefix

abbrev parser_of : BrokerConfig → Option ℕ
parser_of c = c.broker_parser

config-leaves_example :
    (merged prefix_of nested ≡ concatenated prefix_of (leaves nested))
    × (first_valuable parser_of nested ≡ first_with parser_of (leaves nested))
    × (ack_policy nested ≡ last_with own_policy (leaves nested))
    × (include_in_schema nested ≡ all included (leaves nested))
config-leaves_example = config-leaves nested prefix_of parser_of

abbrev fresh : Store
fresh n = record {
  configs = own (prefixed (n ∷ [])) ∷ [];
  parent = none;
  routers = [];
  own_subscribers = (10 + n) ∷ [];
  own_publishers = [];
  persistent_subscribers = (10 + n) ∷ [];
  persistent_publishers = [];
}

fresh-IsLinked : IsLinked fresh
fresh-IsLinked = record { at = λ m n. refl }

abbrev owns : ℕ → BrokerConfig
owns n = prefixed (n ∷ [])

include_router-IsLinked_example :
    (after : Store) × (include_router 1 2 (prefixed (97 ∷ [])) fresh ≡ ok after)
    × IsLinked after
    × (is_parent (after 2).parent 1 ≡ true)
include_router-IsLinked_example =
    include_router-IsLinked 1 2 (prefixed (97 ∷ [])) fresh fresh-IsLinked

include_router-IsComposed_example :
    (after : Store) × (include_router 1 2 (prefixed (97 ∷ [])) fresh ≡ ok after)
    × IsComposed owns after
    × ((n : ℕ)
        → (after n).configs ≡ (
            if n == 2
            then composed 1 ∷ option_entries (prefixed (97 ∷ [])) (own (owns 2) ∷ [])
            else (fresh n).configs))
include_router-IsComposed_example =
    include_router-IsComposed owns 1 2 (prefixed (97 ∷ [])) fresh fresh-IsLinked
      (record { at = λ n. alone }) refl

-- "a.b", "a.*" and "b.#"
abbrev a_b : Text
a_b = 97 ∷ 46 ∷ 98 ∷ []

abbrev a_star : Text
a_star = 97 ∷ 46 ∷ 42 ∷ []

is_subject_match_wildcard_iff_example :
    (is_subject_match_wildcard a_b a_star ≡ true)
    ↔ faststream.Nats.Wildcards.Matches
        (split faststream.Nats.dot a_b)
        (split faststream.Nats.dot a_star)
is_subject_match_wildcard_iff_example = is_subject_match_wildcard_iff a_b a_star

abbrev worker : Text → LogicSubscriber
worker queue = record {
  broker_address = a_star;
  filter_subjects = [];
  queue = queue;
  stream = none;
}

abbrev workers : List LogicSubscriber
workers = worker (113 ∷ []) ∷ worker (113 ∷ []) ∷ worker [] ∷ []

find_handler-delivered_example :
    All (λ h. is_handler_matches h a_b [] ≡ true) (find_handler workers a_b [] [])
    × (ungrouped (find_handler workers a_b [] []) ≡ ungrouped (matching a_b [] workers))
    × ((q : Text)
        → is_empty q ≡ false
        → count_queue q (find_handler workers a_b [] [])
          ≡ (if has_group a_b [] q workers then 1 else 0))
find_handler-delivered_example = find_handler-delivered a_b [] workers

a_star_words : All IsWord (split dot a_star)
unfolding split
a_star_words = (refl, (refl, tt))

apply_pattern-Matches_example :
    (apply_pattern a_star a_b ≡ true
      → faststream.Rabbit.Topics.Matches (split dot a_star) (split dot a_b))
    × (HasNoHash (split dot a_star)
        → faststream.Rabbit.Topics.Matches (split dot a_star) (split dot a_b)
        → apply_pattern a_star a_b ≡ true)
apply_pattern-Matches_example = apply_pattern-Matches a_star a_b (λ e. cc) a_star_words
