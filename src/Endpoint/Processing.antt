-- ===== src/Endpoint/Processing.antt =====
-- The order in which the consume scopes wrap a message that was asked for.
use mathlib.Core.List.{reverse-append}
use mathlib.Core.Path.{fun_ext}
use faststream.Prelude.{ℕ, ◌≡◌, refl, ap, ◌∙◌, Option, some, List, [], ◌∷◌, ◌++◌, reverse, map}
use faststream.Exceptions.{Result, ok, err}
use faststream.Message.{SourceType}
use faststream.Runtime.{World}
use faststream.Exec.{Exec, pure, continue, ◌>>=◌}
use faststream.Middleware.{Middleware, within, enter_all}
use faststream.Endpoint.{Factory, enter_wrapping, parsed, or_unreachable, process_msg}

module _ {U : Type 0} where
  -- The consume scope of the first middleware outermost.
  abbrev pub consume_onion : List (Middleware U ℕ) → (ℕ → Exec (World U) ℕ) → ℕ → Exec (World U) ℕ
  consume_onion [] return_msg = return_msg
  consume_onion (m ∷ ms) return_msg = m.consume_scope (consume_onion ms return_msg)

  abbrev pub for_message : List (Factory U) → List (ℕ → Exec (World U) (Middleware U ℕ))
  for_message fs = map (λ f raw. f (some raw)) fs

  consume_onion-snoc :
      (ms : List (Middleware U ℕ)) (m : Middleware U ℕ)
      → m.consume_scope (consume_onion (reverse ms) pure)
        ≡ consume_onion (reverse (ms ++ m ∷ [])) pure
  consume_onion-snoc ms m = rw (reverse-append ms (m ∷ [])) refl

  module _ (raw : ℕ) (body : (ℕ → Exec (World U) ℕ) → Exec (World U) (Option ℕ)) where
    abbrev inside : List (Middleware U ℕ) → Exec (World U) (Option ℕ)
    inside ms = body (consume_onion (reverse ms) pure)

    after_made :
        (fs : List (Factory U)) (ms : List (Middleware U ℕ)) (r : Result (Middleware U ℕ))
        (w : World U)
        → ((m : Middleware U ℕ)
            → enter_wrapping fs raw (m.consume_scope (consume_onion (reverse ms) pure)) body
              ≡ enter_all (for_message fs) raw (ms ++ m ∷ []) inside)
        → continue r
            (λ m.
              within m
                (enter_wrapping fs raw (m.consume_scope (consume_onion (reverse ms) pure)) body))
            w
          ≡ continue r (λ m. within m (enter_all (for_message fs) raw (ms ++ m ∷ []) inside)) w
    after_made fs ms (ok m) w ih =
        ap (λ (block : Exec (World U) (Option ℕ)). within m block w) (ih m)
    after_made fs ms (err e) w ih = refl

    enter_wrapping-onion :
        (fs : List (Factory U)) (ms : List (Middleware U ℕ))
        → enter_wrapping fs raw (consume_onion (reverse ms) pure) body
          ≡ enter_all (for_message fs) raw ms inside
    unfolding enter_wrapping enter_all
    enter_wrapping-onion [] ms = refl
    enter_wrapping-onion (f ∷ fs) ms = fun_ext (λ w.
        after_made fs ms (f (some raw) w).0 (f (some raw) w).1 (λ m.
          ap (λ (c : ℕ → Exec (World U) ℕ). enter_wrapping fs raw c body) (consume_onion-snoc ms m)
          ∙ enter_wrapping-onion fs (ms ++ m ∷ [])))

  -- `process_msg` enters the middlewares in the order in which it is given them, leaves them in the
  -- opposite order, and runs their consume scopes with the one of the last middleware outermost,
  -- around the parsed message. A block that an exception left, which a middleware suppressed, is an
  -- `AssertionError`.
  pub process_msg-onion :
      (middlewares : List (Factory U)) (parser : ℕ → Exec (World U) ℕ) (decoder : ℕ)
      (source_type : SourceType) (raw : ℕ)
      → process_msg middlewares parser decoder source_type (some raw) ≡ (do
        out ← enter_all (for_message middlewares) raw [] (λ ms. do
          m ← parsed parser decoder source_type raw
          result ← consume_onion (reverse ms) pure m
          pure (some result))
        or_unreachable out)
  unfolding process_msg
  process_msg-onion middlewares parser decoder source_type raw =
      ap (λ (block : Exec (World U) (Option ℕ)). block >>= or_unreachable)
        (enter_wrapping-onion raw _ middlewares [])
