-- ===== src/Tests/Rewriting.antt =====
-- A batch of three messages whose bodies are rewritten.
use native.Mathlib.Decide.{ℕ_discrete}
use faststream.Prelude.{
  ◌≡◌, refl, String, Bool, true, false, [], ◌∷◌, str_eq, eq_iff, arith, Bool-cases, inl, inr,
}
use faststream.Exceptions.{ok}
use faststream.Value.{Value, int, str, null}
use faststream.Kafka.{KafkaPublishCommand, batch_bodies}
use faststream.Kafka.Realign.Places.{IsEquality}
use faststream.Kafka.Rewriting.{rewrite_bodies, Rewritten, rewrite_bodies-Rewritten}

String-Discrete : Discrete String
String-Discrete s t = elim (Bool-cases (str_eq s t)) [
  | inl e ↦ yes (ground (arith, e, eq_iff s t))
  | inr e ↦ no (λ p. ground (arith, e, eq_iff s t, p))
]

Value-Discrete : Discrete Value
Value-Discrete = hlevel (ℕ_discrete, String-Discrete)

unfoldable is_same : Value → Value → Bool
unfolding Value-Discrete String-Discrete
is_same v w = elim (Value-Discrete v w) [ yes e ↦ true | no e ↦ false ]

is_same-IsEquality : IsEquality is_same
unfolding is_same
is_same-IsEquality = record { reflexive = λ v. ground arith; sound = λ v w h. ground arith }

abbrev command : KafkaPublishCommand
command = record {
  body = int 1;
  extra_bodies = int 2 ∷ int 2 ∷ [];
  key = str "default";
  per_message_keys = str "a" ∷ str "b" ∷ null ∷ [];
}

rewrite_bodies-Rewritten_example :
    (c' : KafkaPublishCommand) × (rewrite_bodies is_same (int 2 ∷ int 1 ∷ int 2 ∷ []) command
      ≡ ok c')
    × Rewritten command (int 2 ∷ int 1 ∷ int 2 ∷ []) c'
unfolding batch_bodies
rewrite_bodies-Rewritten_example =
    rewrite_bodies-Rewritten is_same is_same-IsEquality command (int 2) (int 1 ∷ int 2 ∷ [])
      (inr refl) (refl, (refl, (refl, tt))) (λ w. omega arith)

-- The command that is made of one message with a key and the body `None`.
abbrev tombstone : KafkaPublishCommand
tombstone = record { body = null; extra_bodies = []; key = null; per_message_keys = str "k" ∷ [] }
