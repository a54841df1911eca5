-- ===== src/Configs.antt =====
-- _internal/configs/broker.py: the options of a broker or router, and how nested ones compose.
pub mod Leaves
use faststream.Prelude.{
  ℕ, String, Bool, true, false, not, ◌&&◌, ◌||◌, Option, none, some, List, [], ◌∷◌, ◌++◌, reverse,
  update,
}
use faststream.Value.{Value}
use faststream.Text.{Text}
use faststream.Middleware.Acknowledgement.{AckPolicy}

-- Objects of the application (middlewares, parsers, dependencies) are known by their numbers. An
-- `ack_policy` of EMPTY is `none`.
pub record BrokerConfig : Type 0 where
  pub prefix : Text
  pub include_in_schema : Option Bool
  pub broker_middlewares : List ℕ
  pub broker_parser : Option ℕ
  pub broker_decoder : Option ℕ
  pub broker_codec : Option ℕ
  pub broker_dependencies : List ℕ
  pub ack_policy : Option AckPolicy
  pub extra_context : List (String × Value)

abbrev is_some {ℓ} : {A : Type ℓ} → Option A → Bool
is_some none = false
is_some (some a) = true

abbrev is_filled {ℓ} : {A : Type ℓ} → List A → Bool
is_filled [] = false
is_filled (_ ∷ _) = true

-- BrokerConfig.__bool__
unfoldable pub is_valuable : BrokerConfig → Bool
is_valuable c =
    is_some c.include_in_schema
    || is_filled c.broker_middlewares
    || is_filled c.broker_dependencies
    || is_filled c.prefix

unfoldable pub add_middleware : ℕ → BrokerConfig → BrokerConfig
add_middleware m c = record c { broker_middlewares = c.broker_middlewares ++ m ∷ [] }

unfoldable pub insert_middleware : ℕ → BrokerConfig → BrokerConfig
insert_middleware m c = record c { broker_middlewares = m ∷ c.broker_middlewares }

-- What stands in `ConfigComposition.configs`: configurations, and other compositions.
mutual
  pub data Config : Type 0 where
    broker_config : BrokerConfig → Config
    composition : Configs → Config

  pub data Configs : Type 0 where
    nil : Configs
    cons : Config → Configs → Configs

-- is not False
abbrev pub is_not_false : Option Bool → Bool
is_not_false none = true
is_not_false (some b) = b

abbrev pub or_next {ℓ} : {A : Type ℓ} → Option A → Option A → Option A
or_next none next = next
or_next (some a) next = some a

-- "".join(…), and the comprehensions over the middlewares and the dependencies
unfoldable mutual
  pub merged : (BrokerConfig → List ℕ) → Config → List ℕ
  merged field (broker_config c) = field c
  merged field (composition cs) = merged_all field cs

  pub merged_all : (BrokerConfig → List ℕ) → Configs → List ℕ
  merged_all field nil = []
  merged_all field (cons c cs) = merged field c ++ merged_all field cs

-- the first config with a value: parser, decoder and codec
unfoldable mutual
  pub first_valuable : (BrokerConfig → Option ℕ) → Config → Option ℕ
  first_valuable field (broker_config c) = field c
  first_valuable field (composition cs) = first_of field cs

  pub first_of : (BrokerConfig → Option ℕ) → Configs → Option ℕ
  first_of field nil = none
  first_of field (cons c cs) = or_next (first_valuable field c) (first_of field cs)

-- for c in reversed(self.configs): …
unfoldable mutual
  pub ack_policy : Config → Option AckPolicy
  ack_policy (broker_config c) = c.ack_policy
  ack_policy (composition cs) = last_policy cs

  pub last_policy : Configs → Option AckPolicy
  last_policy nil = none
  last_policy (cons c cs) = or_next (last_policy cs) (ack_policy c)

unfoldable mutual
  pub include_in_schema : Config → Bool
  include_in_schema (broker_config c) = is_not_false c.include_in_schema
  include_in_schema (composition cs) = all_included cs

  pub all_included : Configs → Bool
  all_included nil = true
  all_included (cons c cs) = include_in_schema c && all_included cs

-- context |= c.extra_context
unfoldable mutual
  pub extra_context : Config → List (String × Value)
  extra_context (broker_config c) = c.extra_context
  extra_context (composition cs) = merged_context [] cs

  pub merged_context : List (String × Value) → Configs → List (String × Value)
  merged_context context nil = context
  merged_context context (cons c cs) = merged_context (update context (extra_context c)) cs

-- self.configs[0] of the innermost composition that stands first
unfoldable mutual
  pub first_config : Config → Option BrokerConfig
  first_config (broker_config c) = some c
  first_config (composition cs) = first_configs cs

  pub first_configs : Configs → Option BrokerConfig
  first_configs nil = none
  first_configs (cons c cs) = first_config c

unfoldable pub add_config : Config → Configs → Configs
add_config config configs = cons config configs

-- (self.configs[-1],)
unfoldable pub reset : Configs → Configs
reset nil = nil
reset (cons c nil) = cons c nil
reset (cons c (cons d cs)) = reset (cons d cs)
