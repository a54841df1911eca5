-- ===== src/Endpoint/Publishing.antt =====
-- The order in which the publish scopes wrap a producer.
use mathlib.Core.List.{reverse-cons}
use faststream.Prelude.{ℕ, ◌≡◌, refl, ap, ◌∙◌, none, List, [], ◌∷◌, ◌++◌, reverse}
use faststream.Exceptions.{Result, ok, err}
use faststream.Value.{Value}
use faststream.Response.{PublishCommand}
use faststream.Runtime.{World}
use faststream.Exec.{Exec, pure, continue, ◌>>=◌}
use faststream.Middleware.{Middleware}
use faststream.Endpoint.{Factory, Sending, publish_under, publish_with, basic_publish}

module _ {U : Type 0} where
  -- The publish scope of the first middleware, around that of the second, and so on inwards.
  abbrev pub publish_onion : List (Middleware U ℕ) → Sending U Value → Sending U Value
  publish_onion [] producer = producer
  publish_onion (m ∷ ms) producer = m.publish_scope (publish_onion ms producer)

  -- The middlewares that the factories make, one after the other, the newest in front.
  abbrev pub make_all :
      List (Factory U) → List (Middleware U ℕ) → Exec (World U) (List (Middleware U ℕ))
  make_all [] made = pure made
  make_all (f ∷ fs) made = do m ← f none; make_all fs (m ∷ made)

  -- The first scope outermost.
  abbrev pub nested : List (Sending U Value → Sending U Value) → Sending U Value → Sending U Value
  nested [] producer = producer
  nested (scope ∷ scopes) producer = scope (nested scopes producer)

  after_made :
      (fs : List (Factory U)) (made : List (Middleware U ℕ)) (producer : Sending U Value)
      (cmd : PublishCommand) (r : Result (Middleware U ℕ)) (w : World U)
      → ((m : Middleware U ℕ) (v : World U)
          → publish_under fs (publish_onion (m ∷ made) producer) cmd v
            ≡ (do ms ← make_all fs (m ∷ made); publish_onion ms producer cmd) v)
      → continue r (λ m. publish_under fs (m.publish_scope (publish_onion made producer)) cmd) w ≡ (
          let made_all = continue r (λ m. make_all fs (m ∷ made)) w in
          continue made_all.0 (λ ms. publish_onion ms producer cmd) made_all.1)
  after_made fs made producer cmd (ok m) w ih = ih m w
  after_made fs made producer cmd (err e) w ih = refl

  publish_under-onion :
      (fs : List (Factory U)) (made : List (Middleware U ℕ)) (producer : Sending U Value)
      (cmd : PublishCommand) (w : World U)
      → publish_under fs (publish_onion made producer) cmd w
        ≡ (do ms ← make_all fs made; publish_onion ms producer cmd) w
  unfolding publish_under
  publish_under-onion [] made producer cmd w = refl
  publish_under-onion (f ∷ fs) made producer cmd w =
      after_made fs made producer cmd (f none w).0 (f none w).1
        (λ m v. publish_under-onion fs (m ∷ made) producer cmd v)

  nested-append :
      (xs ys : List (Sending U Value → Sending U Value)) (producer : Sending U Value)
      → nested (xs ++ ys) producer ≡ nested xs (nested ys producer)
  nested-append [] ys producer = refl
  nested-append (x ∷ xs) ys producer = rw (nested-append xs ys producer)

  publish_with-nested :
      (scopes : List (Sending U Value → Sending U Value)) (producer : Sending U Value)
      (cmd : PublishCommand)
      → publish_with scopes producer cmd ≡ nested (reverse scopes) producer cmd
  unfolding publish_with
  publish_with-nested [] producer cmd = refl
  publish_with-nested (scope ∷ scopes) producer cmd =
      publish_with-nested scopes (scope producer) cmd ∙ (rw (reverse-cons, nested-append))

  abbrev pub published :
      List (Factory U)
      → List (Sending U Value → Sending U Value)
      → Sending U Value
      → Sending U Value
  published broker_middlewares [] producer cmd = do
    ms ← make_all (reverse broker_middlewares) []
    publish_onion ms producer cmd
  published broker_middlewares (scope ∷ scopes) producer cmd =
      nested (reverse (scope ∷ scopes)) producer cmd

  -- A command goes to the producer through one stack of publish scopes. A call that brings none,
  -- outside of a handler, goes through those of the broker's middlewares: these are made from the
  -- last to the first, and the first one's scope is the outermost. A call that brings scopes goes
  -- through these alone, the last one of them outermost.
  pub basic_publish-published :
      (broker_middlewares : List (Factory U)) (scopes : List (Sending U Value → Sending U Value))
      (producer : Sending U Value) (cmd : PublishCommand) (w : World U)
      → basic_publish broker_middlewares scopes producer cmd w
        ≡ published broker_middlewares scopes producer cmd w
  unfolding basic_publish
  basic_publish-published broker_middlewares [] producer cmd w =
      publish_under-onion (reverse broker_middlewares) [] producer cmd w
  basic_publish-published broker_middlewares (scope ∷ scopes) producer cmd w =
      ap (λ (call : Exec (World U) Value). call w)
        (publish_with-nested (scope ∷ scopes) producer cmd)
