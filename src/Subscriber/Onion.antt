-- ===== src/Subscriber/Onion.antt =====
-- The order in which the scopes of the middlewares wrap a call.
use mathlib.Core.List.{reverse-cons, map-append}
use faststream.Prelude.{ℕ, ◌≡◌, refl, List, [], ◌∷◌, ◌++◌, ap}
use faststream.Exec.{Exec}
use faststream.Runtime.{World}
use faststream.Response.{Returned}
use faststream.Middleware.{Middleware}
use faststream.Subscriber.{HandlerItem, scoped, call, consume_scopes}

scoped-append :
    {C : Type 0} (xs ys : List (C → C)) (c : C) → scoped (xs ++ ys) c ≡ scoped ys (scoped xs c)
unfolding scoped
scoped-append [] ys c = refl
scoped-append (x ∷ xs) ys c = scoped-append xs ys (x c)

module _ {U : Type 0} where
  -- The consume scope of the first middleware, around that of the second, and so on inwards.
  abbrev pub onion :
      List (Middleware U Returned) → (ℕ → Exec (World U) Returned) → ℕ → Exec (World U) Returned
  onion [] handler = handler
  onion (m ∷ ms) handler = m.consume_scope (onion ms handler)

  scoped-onion :
      (ms : List (Middleware U Returned)) (handler : ℕ → Exec (World U) Returned)
      → scoped (consume_scopes ms) handler ≡ onion ms handler
  unfolding scoped
  scoped-onion [] handler = refl
  scoped-onion (m ∷ ms) handler =
      simp (reverse-cons, map-append, scoped-append)
        (ap (λ (f : ℕ → Exec (World U) Returned). m.consume_scope f) (scoped-onion ms handler))

  -- The loop over the reversed middlewares nests their consume scopes in the order in which they
  -- were entered: the first one entered is the outermost, and the handler is innermost.
  pub call-onion :
      (h : HandlerItem U) (msg : ℕ) (ms : List (Middleware U Returned))
      → call h msg (consume_scopes ms) ≡ onion ms h.handler msg
  unfolding call
  call-onion h msg ms = ap (λ (f : ℕ → Exec (World U) Returned). f msg) (scoped-onion ms h.handler)
