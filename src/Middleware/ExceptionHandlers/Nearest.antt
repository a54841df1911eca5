-- ===== src/Middleware/ExceptionHandlers/Nearest.antt =====
-- Which handler is chosen, and what happens without one.
use faststream.Prelude.{
  ℕ, ◌≡◌, ◌↔◌, refl, Bool, true, false, Option, none, some, List, [], ◌∷◌, arith, Option-cases, inl,
  inr, Bool-cases, not, All, ap, ◌++◌, ◌∙◌, if◌then◌else◌,
}
use faststream.Exceptions.{
  Exc, ExcClass, builtin, Result, ok, err, isinstance, exception, ignored_exception, mro,
  same_class, same_class_refl, same_class_trans, same_class_comm, mro_head,
}
use faststream.Runtime.{World}
use faststream.Exec.{Exec, raise}
use faststream.Middleware.ExceptionHandlers.{
  Handlers, Handler, handler_of, put_handler, first_handler, ExceptionMiddleware, init, add_handler,
  consume_scope, ignore_handler, run_or_raise, recover,
}

module _ {H : Type 0} where
  abbrev pub HasNone : Handlers H → ExcClass → Type 0
  HasNone hs c = handler_of c hs ≡ none

  -- `h` is the handler of a class of the list, and no class before that one has a handler.
  pub record Nearest (hs : Handlers H) (h : H) (cs : List ExcClass) : Type 0 where
    pub before : List ExcClass
    pub class : ExcClass
    pub behind : List ExcClass
    pub place : cs ≡ before ++ class ∷ behind
    pub missing : All (HasNone hs) before
    pub found : handler_of class hs ≡ some h

  first_handler-Nearest :
      (cs : List ExcClass) (hs : Handlers H) (h : H)
      → first_handler cs hs ≡ some h
      → Nearest hs h cs
  unfolding first_handler
  first_handler-Nearest [] hs h e = cc
  first_handler-Nearest (c ∷ cs) hs h e = elim (Option-cases (handler_of c hs)) [
    | inl missing ↦
        let n = first_handler-Nearest cs hs h (rw (missing, first_handler) at e) in
        record {
          before = c ∷ n.before;
          class = n.class;
          behind = n.behind;
          place = ap (λ (l : List ExcClass). c ∷ l) n.place;
          missing = (missing, n.missing);
          found = n.found;
        }
    | inr (g, found) ↦ record {
      before = [];
      class = c;
      behind = cs;
      place = refl;
      missing = tt;
      found = ground arith;
    }
  ]

  first_handler-behind :
      (before cs : List ExcClass) (hs : Handlers H)
      → All (HasNone hs) before
      → first_handler (before ++ cs) hs ≡ first_handler cs hs
  unfolding first_handler
  first_handler-behind [] cs hs m = refl
  first_handler-behind (c ∷ before) cs hs (m, ms) =
      rw (m, first_handler) (first_handler-behind before cs hs ms)

  first_handler-class :
      (c : ExcClass) (cs : List ExcClass) (hs : Handlers H) (h : H)
      → handler_of c hs ≡ some h
      → first_handler (c ∷ cs) hs ≡ some h
  unfolding first_handler
  first_handler-class c cs hs h e = rw (e, first_handler)

  Nearest-first_handler :
      (cs : List ExcClass) (hs : Handlers H) (h : H)
      → Nearest hs h cs
      → first_handler cs hs ≡ some h
  Nearest-first_handler cs hs h n =
      ap (λ (l : List ExcClass). first_handler l hs) n.place
      ∙ first_handler-behind n.before (n.class ∷ n.behind) hs n.missing
      ∙ first_handler-class n.class n.behind hs h n.found

  first_handler-none :
      (cs : List ExcClass) (hs : Handlers H) → first_handler cs hs ≡ none → All (HasNone hs) cs
  unfolding first_handler
  first_handler-none [] hs e = tt
  first_handler-none (c ∷ cs) hs e = elim (Option-cases (handler_of c hs)) [
    | inl missing ↦ (missing, first_handler-none cs hs (rw (missing, first_handler) at e))
    | inr (g, found) ↦ absurd (ground arith)
  ]

  none-first_handler :
      (cs : List ExcClass) (hs : Handlers H) → All (HasNone hs) cs → first_handler cs hs ≡ none
  unfolding first_handler
  none-first_handler [] hs m = refl
  none-first_handler (c ∷ cs) hs (m, ms) = rw (m, first_handler) (none-first_handler cs hs ms)

  -- The handler that is chosen for an exception is that of a class in its method resolution order
  -- before which no class has one; and none is chosen exactly if no class of the order has one.
  pub first_handler_iff :
      (cs : List ExcClass) (hs : Handlers H) (h : H)
      → ((first_handler cs hs ≡ some h) ↔ Nearest hs h cs)
        × ((first_handler cs hs ≡ none) ↔ All (HasNone hs) cs)
  first_handler_iff cs hs h = (
    (first_handler-Nearest cs hs h, Nearest-first_handler cs hs h),
    (first_handler-none cs hs, none-first_handler cs hs),
  )

module _ {H : Type 0} where
  handler_of-put_handler :
      (d c : ExcClass) (h : H) (hs : Handlers H)
      → handler_of d (put_handler c h hs) ≡ (if same_class d c then some h else handler_of d hs)
  unfolding handler_of put_handler
  handler_of-put_handler d c h [] = refl
  handler_of-put_handler d c h ((b, g) ∷ hs) = ground (
    arith,
    handler_of-put_handler d c h hs,
    same_class_trans c b d,
    same_class_trans d c b,
    same_class_comm c d,
    same_class_comm b d,
  )

abbrev pub chosen :
    {U A : Type 0} → Bool → ExceptionMiddleware U A → ExcClass → Option (Handler U A)
chosen true m c = first_handler (mro c) m.publish_handlers
chosen false m c = first_handler (mro c) m.handlers

-- A handler that was added for a class is the one chosen for exceptions of exactly that class,
-- whatever was registered before, in the table that `publish` names; the other table is unchanged.
pub add_handler-chosen :
    {U A : Type 0} (c : ExcClass) (publish : Bool) (h : Handler U A) (m : ExceptionMiddleware U A)
    → (chosen publish (add_handler c publish h m) c ≡ some h)
      × (chosen (not publish) (add_handler c publish h m) c ≡ chosen (not publish) m c)
unfolding add_handler first_handler
add_handler-chosen c true h m =
    let (rest, e) = mro_head c in
    (rw (e, first_handler) (rw (handler_of-put_handler c c h _, same_class_refl c)), refl)
add_handler-chosen c false h m =
    let (rest, e) = mro_head c in
    (rw (e, first_handler) (rw (handler_of-put_handler c c h _, same_class_refl c)), refl)

module _ {U A : Type 0} where
  only_ignored :
      (cs : List ExcClass) (e : Exc)
      → run_or_raise
          (first_handler cs ((builtin ignored_exception, ignore_handler {U = U} {A = A}) ∷ []))
          e
        ≡ raise e
  unfolding first_handler handler_of run_or_raise
  only_ignored [] e = refl
  only_ignored (c ∷ cs) e = ground (arith, only_ignored cs e)

  recover-ignored :
      (r : Result A) (w : World U)
      → recover ((builtin ignored_exception, ignore_handler) ∷ []) r w ≡ (r, w)
  unfolding recover
  recover-ignored (ok v) w = refl
  recover-ignored (err e) w = elim (Bool-cases (isinstance e exception)) [
    | inl t ↦ rw t (rw (only_ignored (mro e.cls) e))
    | inr f ↦ rw f
  ]

  -- Without handlers of its own the middleware changes no outcome and no state of the call.
  pub consume_scope-init :
      (call_next : ℕ → Exec (World U) A) (msg : ℕ) (w : World U)
      → consume_scope (init [] []) call_next msg w ≡ call_next msg w
  unfolding consume_scope init
  consume_scope-init call_next msg w = recover-ignored (call_next msg w).0 (call_next msg w).1
