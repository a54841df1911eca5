-- ===== src/Nats.antt =====
-- nats/schemas/js_stream.py and nats/testing.py: which subscribers a subject is delivered to.
pub mod Wildcards
pub mod Delivery
use faststream.Prelude.{
  ℕ, Bool, true, false, ◌&&◌, ◌||◌, not, Option, none, some, List, [], ◌∷◌, ◌==◌, any, length,
  if◌then◌else◌,
}
use faststream.Text.{Text, same_text, split}

-- "." and the two wildcards
abbrev pub dot : ℕ
dot = 46

abbrev pub star : Text
star = 42 ∷ []

abbrev pub tail : Text
tail = 62 ∷ []

-- the loop over `zip(subject_parts, pattern_parts)`: what it returns, if it does
unfoldable pub match_parts : List Text → List Text → Option Bool
match_parts [] pattern = none
match_parts (_ ∷ _) [] = none
match_parts (s ∷ ss) (p ∷ ps) =
    let rest = match_parts ss ps in
    if same_text p tail
    then some true
    else if same_text p star
    then (if same_text s tail then some false else rest)
    else if same_text s p
    then rest
    else some false

unfoldable pub is_subject_match_wildcard : Text → Text → Bool
is_subject_match_wildcard subject pattern =
    let subject_parts = split dot subject in
    let pattern_parts = split dot pattern in
    elim (match_parts subject_parts pattern_parts) [
      | some answer ↦ answer
      | none ↦ length subject_parts == length pattern_parts
    ]

-- `broker_address` is what the address of the subscriber compiles to. The name of the stream is
-- `none` where there is no stream, and a queue of no group is empty.
pub record LogicSubscriber : Type 0 where
  pub broker_address : Text
  pub filter_subjects : List Text
  pub queue : Text
  pub stream : Option Text

abbrev pub is_empty : Text → Bool
is_empty [] = true
is_empty (_ ∷ _) = false

abbrev in_stream : Text → Option Text → Bool
in_stream stream none = false
in_stream stream (some name) = same_text stream name

unfoldable pub is_handler_matches : LogicSubscriber → Text → Text → Bool
is_handler_matches handler subject stream =
    if not (is_empty stream) && not (in_stream stream handler.stream)
    then false
    else is_subject_match_wildcard subject handler.broker_address
      || any (λ f. is_subject_match_wildcard subject f) handler.filter_subjects

-- not yielded yet under its queue
abbrev pub is_fresh : LogicSubscriber → List Text → Bool
is_fresh h published_queues =
    is_empty h.queue || not (any (λ q. same_text h.queue q) published_queues)

-- published_queues.add(queue), for a handler with a queue
abbrev pub published_with : LogicSubscriber → List Text → List Text
published_with h published_queues =
    if is_empty h.queue then published_queues else h.queue ∷ published_queues

-- _find_handler, with the set of the queues that were published to
unfoldable pub find_handler : List LogicSubscriber → Text → Text → List Text → List LogicSubscriber
find_handler [] subject stream published_queues = []
find_handler (h ∷ hs) subject stream published_queues =
    let yielded = is_handler_matches h subject stream && is_fresh h published_queues in
    let published = if yielded then published_with h published_queues else published_queues in
    let rest = find_handler hs subject stream published in if yielded then h ∷ rest else rest
