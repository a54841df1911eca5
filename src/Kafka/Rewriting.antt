-- ===== src/Kafka/Rewriting.antt =====
-- kafka/response.py and confluent/response.py: the bodies of a command that a middleware rewrites.
use faststream.Prelude.{
  ℕ, zero, suc, ◌≤◌, ◌≡◌, ◌⊎◌, inl, inr, refl, sym, ap, ◌∙◌, Bool, Option, some, List, [], ◌∷◌,
  get_elem?, length, arith, All,
}
use faststream.Exceptions.{Result, ok, err}
use faststream.Value.{Value}
use faststream.Kafka.{
  KafkaPublishCommand, batch_bodies, set_batch_bodies, key_for, key_for_index, effective,
}
use faststream.Kafka.Realign.{realign_keys}
use faststream.Kafka.Realign.Unchanged.{IsBody}
use faststream.Kafka.Realign.Places.{IsEquality, count}
use faststream.Kafka.Realign.Aligned.{Picks, Distinct, realign_keys-Aligned}

module _ (same : Value → Value → Bool) where
  -- _align_keys, where `aligned` are the keys that are found for the new bodies
  abbrev with_aligned : Result (List Value) → KafkaPublishCommand → Result KafkaPublishCommand
  with_aligned (err e) c = err e
  with_aligned (ok aligned) c = ok (record c { per_message_keys = aligned })

  abbrev realigned : List Value → List Value → KafkaPublishCommand → Result KafkaPublishCommand
  realigned [] value c = ok c
  realigned (k ∷ keys) value c =
      with_aligned (realign_keys same (k ∷ keys) (batch_bodies c) value) c

  unfoldable pub align_keys : List Value → KafkaPublishCommand → Result KafkaPublishCommand
  align_keys value c = realigned c.per_message_keys value c

  abbrev with_bodies : List Value → Result KafkaPublishCommand → Result KafkaPublishCommand
  with_bodies value (err e) = err e
  with_bodies value (ok c) = ok (set_batch_bodies value c)

  -- the setter of `batch_bodies`, once the command is made
  unfoldable pub rewrite_bodies : List Value → KafkaPublishCommand → Result KafkaPublishCommand
  unfolding align_keys
  rewrite_bodies [] c = ok (set_batch_bodies [] c)
  rewrite_bodies (v ∷ vs) c = with_bodies (v ∷ vs) (align_keys (v ∷ vs) c)

-- There is a key for each body, which may be `None`, or none at all.
abbrev pub HasKeys : KafkaPublishCommand → Type 0
HasKeys c = (c.per_message_keys ≡ []) ⊎ (length c.per_message_keys ≡ length (batch_bodies c))

-- A command after its bodies were rewritten.
pub record Rewritten (c : KafkaPublishCommand) (bodies : List Value) (c' : KafkaPublishCommand)
    : Type 0 where
  pub bodies_are : batch_bodies c' ≡ bodies
  pub places : List ℕ
  pub bodies_there : Picks (batch_bodies c) places bodies
  pub distinct : Distinct places
  pub keys_are : (n i : ℕ) → get_elem? places n ≡ some i → key_for n c' ≡ key_for i c
  pub keys_kept : HasKeys c'

length-Picks :
    (from : List Value) (places : List ℕ) (xs : List Value)
    → Picks from places xs
    → length xs ≡ length places
length-Picks from [] [] p = refl
length-Picks from [] (x ∷ xs) p = absurd p
length-Picks from (i ∷ places) [] p = absurd p
length-Picks from (i ∷ places) (x ∷ xs) (f, p) = ap suc (length-Picks from places xs p)

get_elem?-Picks :
    (from : List Value) (places : List ℕ) (xs : List Value) (n i : ℕ)
    → Picks from places xs
    → get_elem? places n ≡ some i
    → get_elem? xs n ≡ get_elem? from i
get_elem?-Picks from [] xs n i p h = ground (arith, h)
get_elem?-Picks from (j ∷ places) [] n i p h = absurd p
get_elem?-Picks from (j ∷ places) (x ∷ xs) zero i (f, p) h = ground (arith, f, h)
get_elem?-Picks from (j ∷ places) (x ∷ xs) (suc n) i (f, p) h =
    get_elem?-Picks from places xs n i p h

bodies_of_set :
    (v : Value) (vs : List Value) (c : KafkaPublishCommand)
    → IsBody v
    → batch_bodies (set_batch_bodies (v ∷ vs) c) ≡ v ∷ vs
unfolding batch_bodies set_batch_bodies
bodies_of_set v vs c q = rw q

align-realigned :
    (same : Value → Value → Bool) (keys : List Value) (k : Value) (ks value : List Value)
    (c : KafkaPublishCommand) (aligned : List Value)
    → keys ≡ k ∷ ks
    → realign_keys same (k ∷ ks) (batch_bodies c) value ≡ ok aligned
    → realigned same keys value c ≡ ok (record c { per_message_keys = aligned })
align-realigned same keys k ks value c aligned e found = rw (e, found)

module _ (same : Value → Value → Bool) (equality : IsEquality same) (c : KafkaPublishCommand)
    (v : Value) (vs : List Value) (q : All IsBody (v ∷ vs))
    (h : (w : Value)
      → count same equality w (v ∷ vs) ≤ count same equality w (batch_bodies c)) where
  plain :
      c.per_message_keys ≡ []
      → (c' : KafkaPublishCommand) × (rewrite_bodies same (v ∷ vs) c ≡ ok c')
        × Rewritten c (v ∷ vs) c'
  unfolding rewrite_bodies align_keys set_batch_bodies key_for key_for_index
  plain none_there =
      let (_, _, there) =
        realign_keys-Aligned same equality (batch_bodies c) (batch_bodies c) (v ∷ vs) refl q h in
      (
        set_batch_bodies (v ∷ vs) c,
        rw none_there,
        record {
          bodies_are = bodies_of_set v vs c q.0;
          places = there.places;
          bodies_there = there.bodies_there;
          distinct = there.distinct;
          keys_are = λ n i f. rw none_there;
          keys_kept = inl none_there;
        },
      )

  keyed_each :
      (k : Value) (ks : List Value)
      → c.per_message_keys ≡ k ∷ ks
      → length (k ∷ ks) ≡ length (batch_bodies c)
      → (c' : KafkaPublishCommand) × (rewrite_bodies same (v ∷ vs) c ≡ ok c')
        × Rewritten c (v ∷ vs) c'
  unfolding rewrite_bodies align_keys set_batch_bodies key_for key_for_index
  keyed_each k ks keys e =
      let (aligned, found, there) =
        realign_keys-Aligned same equality (k ∷ ks) (batch_bodies c) (v ∷ vs) e q h in
      let c' : KafkaPublishCommand =
        set_batch_bodies (v ∷ vs) (record c { per_message_keys = aligned }) in
      let bodies : batch_bodies c' ≡ v ∷ vs =
        bodies_of_set v vs (record c { per_message_keys = aligned }) q.0 in
      let as_many : length aligned ≡ length (v ∷ vs) =
        length-Picks (k ∷ ks) there.places aligned there.keys_there
        ∙ sym (length-Picks (batch_bodies c) there.places (v ∷ vs) there.bodies_there) in
      (
        c',
        rw (align-realigned same c.per_message_keys k ks (v ∷ vs) c aligned keys found),
        record {
          bodies_are = bodies;
          places = there.places;
          bodies_there = there.bodies_there;
          distinct = there.distinct;
          keys_are = λ n i f.
              ap (λ (o : Option Value). effective o c.key)
                (get_elem?-Picks (k ∷ ks) there.places aligned n i there.keys_there f
                  ∙ ap (λ (l : List Value). get_elem? l i) (sym keys));
          keys_kept = inr (as_many ∙ ap length (sym bodies));
        },
      )

  given :
      (keys : List Value)
      → c.per_message_keys ≡ keys
      → HasKeys c
      → (c' : KafkaPublishCommand) × (rewrite_bodies same (v ∷ vs) c ≡ ok c')
        × Rewritten c (v ∷ vs) c'
  given [] e has = plain e
  given (k ∷ ks) e (inl none_there) = plain none_there
  given (k ∷ ks) e (inr each) = keyed_each k ks e (ap length (sym e) ∙ each)

-- The bodies of a command that has none of them `None` can be put in another order, and some can be
-- taken out, but not all: the setter raises nothing, each body that is left gets the key with which
-- it would have been sent before, equal bodies those of different places, and a key is kept for
-- each body, so that the same holds for the next rewriting.
pub rewrite_bodies-Rewritten :
    (same : Value → Value → Bool) (equality : IsEquality same) (c : KafkaPublishCommand) (v : Value)
    (vs : List Value)
    → HasKeys c
    → All IsBody (v ∷ vs)
    → ((w : Value) → count same equality w (v ∷ vs) ≤ count same equality w (batch_bodies c))
    → (c' : KafkaPublishCommand) × (rewrite_bodies same (v ∷ vs) c ≡ ok c')
      × Rewritten c (v ∷ vs) c'
rewrite_bodies-Rewritten same equality c v vs has q h =
    given same equality c v vs q h c.per_message_keys refl has
