-- ===== src/Subscriber/Frames.antt =====
-- What the parts of a message's processing leave alone, if the application's code does.
use faststream.Prelude.{ℕ, String, Option, none, some, List, [], ◌∷◌, All, if◌then◌else◌}
use faststream.Message.{set_decoder, AckStatus}
use faststream.Response.{Response, Returned, PublishCommand, as_publish_command}
use faststream.Exec.{Exec, modify}
use faststream.Exec.Keeps.{Keeps-pure, Keeps-raise, Keeps-bind}
use faststream.Runtime.{World, on_message}
use faststream.Runtime.Frames.{IsQuiet, Keeps-modify, on_message-Frame}
use faststream.Middleware.{Middleware}
use faststream.Middleware.Quiet.{QuietMiddleware, QuietMaker}
use faststream.Subscriber.{
  Subscriber, HandlerItem, Publisher, Publish, is_suitable, set_up, filtered, parse_cached,
  publish_all, cached_message,
}
use faststream.Subscriber.Onion.{onion}

abbrev pub QuietScope : {U : Type 0} → (Publish U → Publish U) → Type 0
QuietScope {U} scope =
    (f : Publish U)
    → ((cmd : PublishCommand) → IsQuiet (f cmd))
    → (cmd : PublishCommand) → IsQuiet (scope f cmd)

abbrev pub QuietPublisher : {U : Type 0} → Publisher U → Type 0
QuietPublisher {U} p =
    (scopes : List (Publish U → Publish U))
    → All QuietScope scopes
    → (cmd : PublishCommand) → IsQuiet (p.publish scopes cmd)

pub record QuietItem {U : Type 0} (h : HandlerItem U) : Type 0 where
  pub filter : (m : ℕ) → IsQuiet (h.filter m)
  pub handler : (m : ℕ) → IsQuiet (h.handler m)
  pub publishers : All QuietPublisher h.publishers

-- The code of the application and of the broker leaves the lock of the subscriber, the message
-- scope and the answers of the context as it found them, when it returns and when it raises.
pub record QuietApp {U : Type 0} (s : Subscriber U) : Type 0 where
  pub parse : (p raw : ℕ) → IsQuiet (s.parse p raw)
  pub driver :
      (status : AckStatus) (options : List (String × ℕ)) (i : ℕ)
      → IsQuiet (s.driver.call status options i)
  pub middlewares : All QuietMaker s.broker_middlewares
  pub calls : All QuietItem s.calls
  pub replies : (m : ℕ) → All QuietPublisher (s.make_response_publisher m)

module _ {U : Type 0} where
  pub onion-Quiet :
      (ms : List (Middleware U Returned)) (handler : ℕ → Exec (World U) Returned)
      → All QuietMiddleware ms
      → ((m : ℕ) → IsQuiet (handler m))
      → (m : ℕ) → IsQuiet (onion ms handler m)
  onion-Quiet [] handler q h m = h m
  onion-Quiet (x ∷ ms) handler (qx, q) h m =
      qx.consume_scope (onion ms handler) (onion-Quiet ms handler q h) m

  pub publish_all-Quiet :
      (ps : List (Publisher U)) (r : Response) (scopes : List (Publish U → Publish U))
      → All QuietPublisher ps
      → All QuietScope scopes
      → IsQuiet (publish_all ps r scopes)
  unfolding publish_all
  publish_all-Quiet [] r scopes q qs = record { at = λ w. Keeps-pure tt }
  publish_all-Quiet (p ∷ ps) r scopes (qp, q) qs = record {
    at = λ w.
        Keeps-bind (p.publish scopes (as_publish_command r)) _
          ((qp scopes qs (as_publish_command r)).at w)
          (λ _. (publish_all-Quiet ps r scopes q qs).at w);
  }

  on_message-Quiet : (m d : ℕ) → IsQuiet (modify (on_message {U = U} m (set_decoder d)))
  on_message-Quiet m d = record { at = λ w. Keeps-modify w _ (on_message-Frame m (set_decoder d)) }

module _ {U : Type 0} (parse : ℕ → ℕ → Exec (World U) ℕ)
    (quiet : (p raw : ℕ) → IsQuiet (parse p raw)) where
  parse_cached-Quiet : (p raw : ℕ) (o : Option ℕ) → IsQuiet (parse_cached parse p raw o)
  unfolding parse_cached
  parse_cached-Quiet p raw none = quiet p raw
  parse_cached-Quiet p raw (some m) = record { at = λ w. Keeps-pure m }

  set_up-Quiet :
      (h : HandlerItem U)
      → QuietItem h
      → (raw : ℕ) (cache : List (ℕ × ℕ)) (p d : Option ℕ) → IsQuiet (set_up parse h raw cache p d)
  unfolding set_up filtered
  set_up-Quiet h q raw cache (some p) (some d) = record {
    at = λ w.
        Keeps-bind (parse_cached parse p raw (cached_message p cache)) _
          ((parse_cached-Quiet p raw (cached_message p cache)).at w)
          (λ m.
            Keeps-bind (modify (on_message m (set_decoder d))) _ ((on_message-Quiet m d).at w) (λ _.
              Keeps-bind (h.filter m) _ ((q.filter m).at w)
                (λ b. Keeps-pure ((if b then some m else none), (p, m) ∷ cache))));
  }
  set_up-Quiet h q raw cache (some p) none = record { at = λ w. Keeps-raise _ }
  set_up-Quiet h q raw cache none d = record { at = λ w. Keeps-raise _ }

  pub is_suitable-Quiet :
      (h : HandlerItem U)
      → QuietItem h
      → (raw : ℕ) (cache : List (ℕ × ℕ)) → IsQuiet (is_suitable parse h raw cache)
  unfolding is_suitable
  is_suitable-Quiet h q raw cache = set_up-Quiet h q raw cache h.parser h.decoder
