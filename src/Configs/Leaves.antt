-- ===== src/Configs/Leaves.antt =====
-- A composition is worth what the configurations in it are, in their order.
use faststream.Prelude.{
  ℕ, ◌≡◌, refl, sym, ap, ◌∙◌, Bool, ◌&&◌, Option, none, some, List, [], ◌∷◌, ◌++◌, all,
  append_assoc, append-nil, arith,
}
use faststream.Middleware.Acknowledgement.{AckPolicy}
use faststream.Configs.{
  BrokerConfig, Config, broker_config, composition, Configs, nil, cons, merged, merged_all,
  first_valuable, first_of, ack_policy, last_policy, include_in_schema, all_included, or_next,
  is_not_false,
}

mutual
  pub leaves : Config → List BrokerConfig
  leaves (broker_config c) = c ∷ []
  leaves (composition cs) = leaves_all cs

  pub leaves_all : Configs → List BrokerConfig
  leaves_all nil = []
  leaves_all (cons c cs) = leaves c ++ leaves_all cs

module _ (field : BrokerConfig → List ℕ) where
  abbrev pub concatenated : List BrokerConfig → List ℕ
  concatenated [] = []
  concatenated (c ∷ cs) = field c ++ concatenated cs

  concatenated_append :
      (xs ys : List BrokerConfig) → concatenated (xs ++ ys) ≡ concatenated xs ++ concatenated ys
  concatenated_append [] ys = refl
  concatenated_append (x ∷ xs) ys =
      ap (λ (zs : List ℕ). field x ++ zs) (concatenated_append xs ys)
      ∙ sym (append_assoc (field x) (concatenated xs) (concatenated ys))

module _ {ℓ} {A : Type ℓ} (field : BrokerConfig → Option A) where
  abbrev pub first_with : List BrokerConfig → Option A
  first_with [] = none
  first_with (c ∷ cs) = or_next (field c) (first_with cs)

  abbrev pub last_with : List BrokerConfig → Option A
  last_with [] = none
  last_with (c ∷ cs) = or_next (last_with cs) (field c)

  or_next_assoc : (a b c : Option A) → or_next (or_next a b) c ≡ or_next a (or_next b c)
  or_next_assoc none b c = refl
  or_next_assoc (some a) b c = refl

  first_with_append :
      (xs ys : List BrokerConfig) → first_with (xs ++ ys) ≡ or_next (first_with xs) (first_with ys)
  first_with_append [] ys = refl
  first_with_append (x ∷ xs) ys =
      ap (or_next (field x)) (first_with_append xs ys)
      ∙ sym (or_next_assoc (field x) (first_with xs) (first_with ys))

  or_next-none : (a : Option A) → or_next a none ≡ a
  or_next-none none = refl
  or_next-none (some a) = refl

  last_with_append :
      (xs ys : List BrokerConfig) → last_with (xs ++ ys) ≡ or_next (last_with ys) (last_with xs)
  last_with_append [] ys = sym (or_next-none (last_with ys))
  last_with_append (x ∷ xs) ys =
      ap (λ (o : Option A). or_next o (field x)) (last_with_append xs ys)
      ∙ or_next_assoc (last_with ys) (last_with xs) (field x)

abbrev pub included : BrokerConfig → Bool
included c = is_not_false c.include_in_schema

all_append :
    (xs ys : List BrokerConfig) → all included (xs ++ ys) ≡ (all included xs && all included ys)
all_append [] ys = refl
all_append (x ∷ xs) ys = ground (arith, all_append xs ys)

mutual
  unfolding merged merged_all leaves leaves_all

  merged-leaves :
      (field : BrokerConfig → List ℕ) (c : Config) → merged field c ≡ concatenated field (leaves c)
  merged-leaves field (broker_config c) = sym (append-nil (field c))
  merged-leaves field (composition cs) = merged_all-leaves field cs

  merged_all-leaves :
      (field : BrokerConfig → List ℕ) (cs : Configs)
      → merged_all field cs ≡ concatenated field (leaves_all cs)
  merged_all-leaves field nil = refl
  merged_all-leaves field (cons c cs) =
      rw (merged-leaves field c, merged_all-leaves field cs)
        (sym (concatenated_append field (leaves c) (leaves_all cs)))

mutual
  unfolding first_valuable first_of leaves leaves_all

  first_valuable-leaves :
      (field : BrokerConfig → Option ℕ) (c : Config)
      → first_valuable field c ≡ first_with field (leaves c)
  first_valuable-leaves field (broker_config c) = sym (or_next-none field (field c))
  first_valuable-leaves field (composition cs) = first_of-leaves field cs

  first_of-leaves :
      (field : BrokerConfig → Option ℕ) (cs : Configs)
      → first_of field cs ≡ first_with field (leaves_all cs)
  first_of-leaves field nil = refl
  first_of-leaves field (cons c cs) =
      rw (first_valuable-leaves field c, first_of-leaves field cs)
        (sym (first_with_append field (leaves c) (leaves_all cs)))

abbrev pub own_policy : BrokerConfig → Option AckPolicy
own_policy c = c.ack_policy

mutual
  unfolding ack_policy last_policy leaves leaves_all

  ack_policy-leaves : (c : Config) → ack_policy c ≡ last_with own_policy (leaves c)
  ack_policy-leaves (broker_config c) = refl
  ack_policy-leaves (composition cs) = last_policy-leaves cs

  last_policy-leaves : (cs : Configs) → last_policy cs ≡ last_with own_policy (leaves_all cs)
  last_policy-leaves nil = refl
  last_policy-leaves (cons c cs) =
      rw (ack_policy-leaves c, last_policy-leaves cs)
        (sym (last_with_append own_policy (leaves c) (leaves_all cs)))

mutual
  unfolding include_in_schema all_included leaves leaves_all

  include_in_schema-leaves : (c : Config) → include_in_schema c ≡ all included (leaves c)
  include_in_schema-leaves (broker_config c) = ground arith
  include_in_schema-leaves (composition cs) = all_included-leaves cs

  all_included-leaves : (cs : Configs) → all_included cs ≡ all included (leaves_all cs)
  all_included-leaves nil = refl
  all_included-leaves (cons c cs) =
      rw (include_in_schema-leaves c, all_included-leaves cs)
        (sym (all_append (leaves c) (leaves_all cs)))

-- The options of a composition depend on the configurations in it and their order alone, however
-- they are nested: prefixes, middlewares and dependencies are joined, the first parser, decoder or
-- codec counts, the last acknowledgement policy does, and one configuration that is kept out of
-- the schema keeps out all.
pub config-leaves :
    (c : Config) (joined : BrokerConfig → List ℕ) (valued : BrokerConfig → Option ℕ)
    → (merged joined c ≡ concatenated joined (leaves c))
      × (first_valuable valued c ≡ first_with valued (leaves c))
      × (ack_policy c ≡ last_with own_policy (leaves c))
      × (include_in_schema c ≡ all included (leaves c))
config-leaves c joined valued = (
  merged-leaves joined c,
  first_valuable-leaves valued c,
  ack_policy-leaves c,
  include_in_schema-leaves c,
)
