-- ===== src/Rabbit/Delivery.antt =====
-- What the in-memory broker delivers, and to whom.
use faststream.Prelude.{
  ◌≡◌, refl, ap, ◌∙◌, Bool, true, false, not, ◌&&◌, ◌||◌, List, [], ◌∷◌, any, all, arith,
  Bool-cases, inl, inr, if◌then◌else◌,
}
use faststream.Text.{Text, same_text}
use faststream.Exceptions.{Result, ok, err, raised, subscriber_not_found}
use faststream.Exec.{Exec, pure, raise, continue, ◌>>◌}
use faststream.Rabbit.{apply_pattern}
use faststream.Rabbit.Testing.{
  ExchangeType, direct, fanout, topic, headers, other, Headers, RabbitSubscriber, pop_header,
  agrees, match_headers, by_type, x_match, all_rule, any_rule, headers_match, is_handler_matches,
  publish_each, request_first,
}

-- Whether a message with these headers goes to a queue bound with these: without any it does, and
-- else some header agrees, and all of them unless the rule is "any".
abbrev pub takes : Headers → Headers → Bool
takes given [] = true
takes given (pair ∷ more) =
    let (rule, queue_headers) = pop_header x_match all_rule (pair ∷ more) in
    any (agrees given) queue_headers
    && (same_text rule any_rule || all (agrees given) queue_headers)

looked_through :
    (given : Headers) (full empty : Bool) (queue_headers : Headers)
    → match_headers given full empty queue_headers
      ≡ (full && all (agrees given) queue_headers, empty && not (any (agrees given) queue_headers))
unfolding match_headers
looked_through given full empty [] = ground arith
looked_through given full empty (pair ∷ more) = elim (Bool-cases (agrees given pair)) [
  | inl agreed ↦
      let rest = looked_through given full false more in
      rw (agreed, match_headers, rest) (ground arith)
  | inr differs ↦
      let rest = looked_through given false empty more in
      rw (differs, match_headers, rest) (ground arith)
]

headers_match-takes : (given bound : Headers) → headers_match given bound ≡ takes given bound
unfolding headers_match
headers_match-takes given [] = refl
headers_match-takes given (pair ∷ more) =
    let (rule, queue_headers) = pop_header x_match all_rule (pair ∷ more) in
    let looped = looked_through given true true queue_headers in rw looped (ground arith)

-- The exchange types that the broker knows.
abbrev pub is_known : ExchangeType → Bool
is_known direct = true
is_known fanout = true
is_known topic = true
is_known headers = true
is_known other = false

abbrev pub AllKnown : List RabbitSubscriber → Type 0
AllKnown [] = Unit
AllKnown (h ∷ hs) = (is_known h.exchange_type ≡ true) × AllKnown hs

-- Whether a message goes to a subscriber of this exchange.
abbrev pub routed : ExchangeType → RabbitSubscriber → Text → Headers → Bool
routed direct h routing_key given = same_text h.routing routing_key
routed fanout h routing_key given = true
routed topic h routing_key given = apply_pattern h.routing routing_key
routed headers h routing_key given = takes given h.bind_arguments
routed other h routing_key given = false

module _ (routing_key : Text) (given : Headers) (exchange : Text) where
  abbrev pub is_for : RabbitSubscriber → Bool
  is_for h = same_text h.exchange_name exchange && routed h.exchange_type h routing_key given

  by_type-routed :
      (t : ExchangeType) (h : RabbitSubscriber)
      → is_known t ≡ true
      → by_type t h routing_key given ≡ ok (routed t h routing_key given)
  by_type-routed direct h k = refl
  by_type-routed fanout h k = refl
  by_type-routed topic h k = refl
  by_type-routed headers h k = ap ok (headers_match-takes given h.bind_arguments)
  by_type-routed other h k = absurd (ground (arith, k))

  matches-is_for :
      (h : RabbitSubscriber)
      → is_known h.exchange_type ≡ true
      → is_handler_matches h routing_key given exchange ≡ ok (is_for h)
  unfolding is_handler_matches
  matches-is_for h k = let typed = by_type-routed h.exchange_type h k in ground (arith, typed)

  -- The subscribers that the message is for, in their order.
  abbrev pub chosen : List RabbitSubscriber → List RabbitSubscriber
  chosen [] = []
  chosen (h ∷ hs) = if is_for h then h ∷ chosen hs else chosen hs

  module _ {S A : Type 0} (execute_handler : RabbitSubscriber → Exec S A) where
    -- Each is executed after the one before it returned.
    abbrev pub execute_all : List RabbitSubscriber → Exec S (Unit {0})
    execute_all [] = pure tt
    execute_all (h ∷ hs) = do execute_handler h; execute_all hs

    abbrev pub execute_first : List RabbitSubscriber → Exec S A
    execute_first [] = raise (raised subscriber_not_found)
    execute_first (h ∷ hs) = execute_handler h

    abbrev pub or_not_found : Bool → Exec S (Unit {0}) → Exec S (Unit {0})
    or_not_found true done = done
    or_not_found false done = raise (raised subscriber_not_found)

    or_true : (a b : Bool) → (a || (true || b)) ≡ true
    or_true a b = ground arith

    continue_same :
        (r : Result A) (f g : Exec S (Unit {0})) (s : S)
        → ((t : S) → f t ≡ g t)
        → continue r (λ _. f) s ≡ continue r (λ _. g) s
    continue_same (ok a) f g s h = h s
    continue_same (err e) f g s h = refl

    publish_each-mine :
        (called : Bool) (h : RabbitSubscriber) (hs : List RabbitSubscriber) (s : S)
        → is_handler_matches h routing_key given exchange ≡ ok true
        → publish_each execute_handler routing_key given exchange called (h ∷ hs) s
          ≡ continue
              (execute_handler h s).0
              (λ _. publish_each execute_handler routing_key given exchange true hs)
              (execute_handler h s).1
    unfolding publish_each
    publish_each-mine called h hs s e = rw (publish_each, e)

    publish_each-other :
        (called : Bool) (h : RabbitSubscriber) (hs : List RabbitSubscriber) (s : S)
        → is_handler_matches h routing_key given exchange ≡ ok false
        → publish_each execute_handler routing_key given exchange called (h ∷ hs) s
          ≡ publish_each execute_handler routing_key given exchange called hs s
    unfolding publish_each
    publish_each-other called h hs s e = rw (publish_each, e)

    publish_each-chosen :
        (called : Bool) (hs : List RabbitSubscriber) (s : S)
        → AllKnown hs
        → publish_each execute_handler routing_key given exchange called hs s
          ≡ or_not_found (called || any is_for hs) (execute_all (chosen hs)) s
    unfolding publish_each
    publish_each-chosen true [] s k = refl
    publish_each-chosen false [] s k = refl
    publish_each-chosen called (h ∷ hs) s (k, ks) = elim (Bool-cases (is_for h)) [
      | inl mine ↦
          let step = publish_each-mine called h hs s (matches-is_for h k ∙ ap ok mine) in
          let rest =
            continue_same (execute_handler h s).0
              (publish_each execute_handler routing_key given exchange true hs)
              (execute_all (chosen hs)) (execute_handler h s).1
              (λ t. publish_each-chosen true hs t ks) in
          step ∙ rest ∙ (rw (mine, or_true called (any is_for hs)))
      | inr other_one ↦
          let step = publish_each-other called h hs s (matches-is_for h k ∙ ap ok other_one) in
          step ∙ publish_each-chosen called hs s ks ∙ (rw other_one)
    ]

    request_first-chosen :
        (hs : List RabbitSubscriber) (s : S)
        → AllKnown hs
        → request_first execute_handler routing_key given exchange hs s
          ≡ execute_first (chosen hs) s
    unfolding request_first
    request_first-chosen [] s k = refl
    request_first-chosen (h ∷ hs) s (k, ks) = elim (Bool-cases (is_for h)) [
      | inl mine ↦ let e = matches-is_for h k ∙ ap ok mine in rw (request_first, e, mine)
      | inr other_one ↦
          let e = matches-is_for h k ∙ ap ok other_one in
          let rest = request_first-chosen hs s ks in rw (request_first, e, other_one) rest
    ]

    -- Where the exchange of every subscriber is of the type direct, fanout, topic or headers, a
    -- message is handed to each subscriber that it is for, in their order and once, each after the
    -- one before it returned, and to no other; a message that is for none of them is an error. The
    -- answer to a request is that of the first one it is for. On an exchange by headers a message is
    -- for a queue without any, and else if some of them agree, all of them unless the rule is "any".
    pub publish_each-delivered :
        (hs : List RabbitSubscriber) (s : S)
        → AllKnown hs
        → (publish_each execute_handler routing_key given exchange false hs s
            ≡ or_not_found (any is_for hs) (execute_all (chosen hs)) s)
          × (request_first execute_handler routing_key given exchange hs s
              ≡ execute_first (chosen hs) s)
    publish_each-delivered hs s k = (publish_each-chosen false hs s k, request_first-chosen hs s k)
