-- ===== src/Subscriber/Isolation.antt =====
-- After a message the lock and the context are as before it, whatever came of the message.
use mathlib.Core.List.{reverse_aux}
use faststream.Prelude.{
  ℕ, String, ◌≡◌, refl, Bool, true, false, Option, none, some, List, [], ◌∷◌, ◌++◌, ◌+◌, map, All,
  get_elem?, str_eq, if◌then◌else◌,
}
use faststream.Exceptions.{Exc, Result, ok, err}
use faststream.Value.{message}
use faststream.Context.{enter}
use faststream.Response.{Response, Returned, ensure_response}
use faststream.Exec.{Exec, pure, raise, gets, continue}
use faststream.Exec.Keeps.{Keeps, Keeps-pure, Keeps-raise, Keeps-gets, Keeps-bind}
use faststream.Runtime.{World, enter_message_scope}
use faststream.Runtime.Frames.{Frame, Frame-refl, Frame-trans, IsQuiet, IsQuiet-Frame}
use faststream.Runtime.Blocks.{
  End, Frame-End, Keeps-End, bind-End, enter_message_scope-End, with_message_scope-Frame,
  with_scope-Frame, with_lock-Frame,
}
use faststream.Runtime.{with_lock, with_scope, with_message_scope}
use faststream.Middleware.Logging.{logging_middleware}
use faststream.Middleware.Acknowledgement.{acknowledgement_middleware}
use faststream.Subscriber.{or_empty}
use faststream.Middleware.{Middleware, enter_all, within, leave}
use faststream.Middleware.Quiet.{QuietMiddleware, QuietMaker, Made}
use faststream.Middleware.Acknowledgement.Quiet.{acknowledgement_middleware-Quiet}
use faststream.Middleware.Logging.Quiet.{logging_middleware-Quiet}
use faststream.Subscriber.{
  Subscriber, HandlerItem, is_suitable, call, consume_scopes, publish_scopes, publish_all, handle,
  try_calls, process_message, get_response_publisher, build_middlewares_stack, correlation_id_of,
  reply_to_of, with_correlation_id,
}
use faststream.Subscriber.Onion.{call-onion}
use faststream.Subscriber.Frames.{
  QuietScope, QuietPublisher, QuietItem, QuietApp, onion-Quiet, publish_all-Quiet,
  is_suitable-Quiet,
}

module _ {ℓ μ} {A : Type ℓ} (P : A → Type μ) where
  All-append : (xs ys : List A) → All P xs → All P ys → All P (xs ++ ys)
  All-append [] ys p q = q
  All-append (x ∷ xs) ys (p, ps) q = (p, All-append xs ys ps q)

module _ {U : Type 0} where
  -- The scopes of quiet middlewares, reversed, are quiet.
  scopes_aux :
      (ms seen : List (Middleware U Returned))
      → All QuietMiddleware ms
      → All QuietScope (map (λ m. m.publish_scope) seen)
      → All QuietScope (map (λ m. m.publish_scope) (reverse_aux ms seen))
  scopes_aux [] seen q qs = qs
  scopes_aux (m ∷ ms) seen (qm, q) qs = scopes_aux ms (m ∷ seen) q (qm.publish_scope, qs)

  suppress-End :
      (w0 : World U) (e : Exc) (b : Bool)
      → Keeps {A = Option Response}
          (End w0)
          (elim b [ true ↦ pure {S = World U} none | false ↦ raise {S = World U} e ])
  suppress-End w0 e true = Keeps-pure none
  suppress-End w0 e false = Keeps-raise e

  leave-End :
      (w0 : World U) (m : Middleware U Returned)
      → QuietMiddleware m
      → (r : Result (Option Response)) → Keeps (End w0) (leave m r)
  unfolding leave
  leave-End w0 m q (ok r) =
      Keeps-bind (m.on_exit none) _ (Keeps-End w0 (q.on_exit none)) (λ _. Keeps-pure r)
  leave-End w0 m q (err e) =
      Keeps-bind (m.on_exit (some e)) _ (Keeps-End w0 (q.on_exit (some e))) (suppress-End w0 e)

  within-End :
      (w0 : World U)
      → w0.message_scope ≡ []
      → (m : Middleware U Returned) → QuietMiddleware m
      → (body : Exec (World U) (Option Response)) → ((w : World U) → Frame w0 w → End w0 (body w).1)
      → (w : World U) → Frame w0 w
      → End w0 (within m body w).1
  unfolding within
  within-End w0 empty m q body h =
      bind-End w0 empty m.on_enter _ q.on_enter
        (λ _ w p. (leave-End w0 m q (body w).0).at (body w).1 (h w p))

  Made-End :
      (w0 : World U)
      → w0.message_scope ≡ []
      → (rest : List (Middleware U Returned)
          → (List (Middleware U Returned) → Exec (World U) (Option Response))
          → Exec (World U) (Option Response))
      → (entered : List (Middleware U Returned)) → All QuietMiddleware entered
      → (body : List (Middleware U Returned) → Exec (World U) (Option Response))
      → ((es : List (Middleware U Returned))
          → All QuietMiddleware es
          → (w : World U) → Frame w0 w
          → End w0 (rest es body w).1)
      → (r : Result (Middleware U Returned)) → Made r
      → (w : World U) → Frame w0 w
      → End w0 (continue r (λ m. within m (rest (entered ++ m ∷ []) body)) w).1
  Made-End w0 empty rest entered qe body h (ok m) qm w p =
      within-End w0 empty m qm (rest (entered ++ m ∷ []) body)
        (h (entered ++ m ∷ []) (All-append QuietMiddleware entered (m ∷ []) qe (qm, tt))) w p
  Made-End w0 empty rest entered qe body h (err e) qm w p = Frame-End empty p

  enter_all-End :
      (w0 : World U)
      → w0.message_scope ≡ []
      → (stack : List (ℕ → Exec (World U) (Middleware U Returned))) → All QuietMaker stack
      → (raw : ℕ) (entered : List (Middleware U Returned)) → All QuietMiddleware entered
      → (body : List (Middleware U Returned) → Exec (World U) (Option Response))
      → ((ms : List (Middleware U Returned))
          → All QuietMiddleware ms
          → (w : World U) → Frame w0 w
          → End w0 (body ms w).1)
      → (w : World U) → Frame w0 w
      → End w0 (enter_all stack raw entered body w).1
  unfolding enter_all
  enter_all-End w0 empty [] q raw entered qe body h w p = h entered qe w p
  enter_all-End w0 empty (b ∷ stack) (qb, q) raw entered qe body h w p =
      Made-End w0 empty (enter_all stack raw) entered qe body
        (λ es qs v pv. enter_all-End w0 empty stack q raw es qs body h v pv) (b raw w).0
        (qb.made raw w) (b raw w).1 (Frame-trans p (IsQuiet-Frame (qb.quiet raw) w))

  replies-Quiet :
      (s : Subscriber U)
      → QuietApp s
      → (m : ℕ) (reply_to : String) → All QuietPublisher (get_response_publisher s m reply_to)
  unfolding get_response_publisher
  replies-Quiet s qs m reply_to =
      elim (str_eq reply_to "")
        as (λ b.
          All QuietPublisher
            (if b then [] else if s.no_reply then [] else s.make_response_publisher m)) [
              | true ↦ tt
              | false ↦
                  elim (s.no_reply)
                    as (λ b. All QuietPublisher (if b then [] else s.make_response_publisher m)) [
                      | true ↦ tt
                      | false ↦ qs.replies m
                    ]
            ]

  call-Quiet :
      (h : HandlerItem U)
      → QuietItem h
      → (m : ℕ) (ms : List (Middleware U Returned)) → All QuietMiddleware ms
      → IsQuiet (call h m (consume_scopes ms))
  call-Quiet h q m ms qms = rw (call-onion h m ms) (onion-Quiet ms h.handler qms q.handler m)

  handle-End :
      (s : Subscriber U)
      → QuietApp s
      → (w0 : World U) → w0.message_scope ≡ []
      → (h : HandlerItem U) → QuietItem h
      → (m : ℕ) (ms : List (Middleware U Returned)) → All QuietMiddleware ms
      → (w : World U) → Frame w0 w
      → End w0 (handle s h m ms w).1
  unfolding handle enter_message_scope
  handle-End s qs w0 empty h q m ms qms w p =
      (Keeps-bind (call h m (consume_scopes ms)) _ (Keeps-End w0 (call-Quiet h q m ms qms))
          (λ returned. Keeps-bind (gets (λ v. get_elem? v.messages m)) _ (Keeps-gets _) (λ sent.
            Keeps-bind
              (pure (with_correlation_id (correlation_id_of sent) (ensure_response returned))) _
              (Keeps-pure _)
              (λ result.
                Keeps-bind
                  (publish_all (get_response_publisher s m (reply_to_of sent) ++ h.publishers)
                    result (publish_scopes ms))
                  _
                  (Keeps-End w0 (
                    publish_all-Quiet
                      (get_response_publisher s m (reply_to_of sent) ++ h.publishers) result
                      (publish_scopes ms)
                      (All-append QuietPublisher (get_response_publisher s m (reply_to_of sent))
                        h.publishers (replies-Quiet s qs m (reply_to_of sent)) q.publishers)
                      (scopes_aux ms [] qms tt)))
                  (λ _. Keeps-pure (some result)))))).at
        _
        (enter_message_scope-End
          (("log_context", some (s.get_log_context m)) ∷ ("message", some (message m)) ∷ []) empty
          p)

  found_End :
      (s : Subscriber U)
      → QuietApp s
      → (w0 : World U) → w0.message_scope ≡ []
      → (h : HandlerItem U) → QuietItem h
      → (ms : List (Middleware U Returned)) → All QuietMiddleware ms
      → (found : Option ℕ) (rest : Exec (World U) (Option Response))
      → ((w : World U) → Frame w0 w → End w0 (rest w).1)
      → (w : World U) → Frame w0 w
      → End w0
          ((elim found as (λ _. Exec (World U) (Option Response)) [
            | some m ↦ handle s h m ms
            | none ↦ rest
          ])
            w).1
  found_End s qs w0 empty h q ms qms (some m) rest hr w p =
      handle-End s qs w0 empty h q m ms qms w p
  found_End s qs w0 empty h q ms qms none rest hr w p = hr w p

  try_calls-End :
      (s : Subscriber U)
      → QuietApp s
      → (w0 : World U) → w0.message_scope ≡ []
      → (raw : ℕ) (hs : List (HandlerItem U)) → All QuietItem hs
      → (cache : List (ℕ × ℕ)) (ms : List (Middleware U Returned)) → All QuietMiddleware ms
      → (w : World U) → Frame w0 w
      → End w0 (try_calls s hs raw cache ms w).1
  unfolding try_calls
  try_calls-End s qs w0 empty raw [] q cache ms qms w p = Frame-End empty p
  try_calls-End s qs w0 empty raw (h ∷ hs) (qh, q) cache ms qms w p =
      bind-End w0 empty (is_suitable s.parse h raw cache) _
        (is_suitable-Quiet s.parse qs.parse h qh raw cache)
        (λ found.
          found_End s qs w0 empty h qh ms qms found.0 (try_calls s hs raw found.1 ms)
            (try_calls-End s qs w0 empty raw hs q found.1 ms qms))
        w p

  stack-Quiet : (s : Subscriber U) → QuietApp s → All QuietMaker (build_middlewares_stack s)
  unfolding build_middlewares_stack
  stack-Quiet s qs =
      elim (s.auto_ack_disabled)
        as (λ b. All QuietMaker (
          if b
          then logging_middleware ∷ s.broker_middlewares
          else acknowledgement_middleware s.driver s.extra_watcher_options s.ack_policy
            ∷ logging_middleware
            ∷ s.broker_middlewares)) [
              | true ↦ (logging_middleware-Quiet, qs.middlewares)
              | false ↦ (
                acknowledgement_middleware-Quiet s.driver s.extra_watcher_options qs.driver
                    s.ack_policy,
                (logging_middleware-Quiet, qs.middlewares),
              )
            ]

  attempt_all-End :
      (s : Subscriber U)
      → QuietApp s
      → (raw : ℕ) (w0 : World U) → w0.message_scope ≡ []
      → (w : World U) → Frame w0 w
      → End w0
          (enter_all
            (build_middlewares_stack s)
            raw
            []
            (λ middlewares. try_calls s s.calls raw [] middlewares)
            w).1
  attempt_all-End s qs raw w0 empty w p =
      enter_all-End w0 empty (build_middlewares_stack s) (stack-Quiet s qs) raw [] tt
        (λ middlewares. try_calls s s.calls raw [] middlewares)
        (λ ms qms v pv. try_calls-End s qs w0 empty raw s.calls qs.calls [] ms qms v pv) w p

  settled-Frame :
      {A B : Type 0} (f : A → B) {w : World U} (r : Result A) (v : World U)
      → Frame w v
      → Frame w (continue r (λ a. pure (f a)) v).1
  settled-Frame f (ok a) v p = p
  settled-Frame f (err e) v p = p

  -- Where the code of the application and of the broker leaves the lock, the message scope and
  -- the answers of the context as it finds them, keeps the variables of its names and uses no token
  -- of others, so does the whole processing of a message: whether it returns or raises, the lock of
  -- the subscriber is as it was, and the context answers every name as it did, without the message,
  -- its log context and the outer scope.
  pub process_message-Frame :
      (s : Subscriber U)
      → QuietApp s
      → (raw : ℕ) (w : World U) → Frame w (process_message s raw w).1
  unfolding process_message
  process_message-Frame s qs raw w =
      let body : Exec (World U) (Option Response) =
        enter_all (build_middlewares_stack s) raw []
          (λ middlewares. try_calls s s.calls raw [] middlewares) in
      let locked : World U = record w { lock = w.lock + 1 } in
      let scoped_in : World U = record locked {
        context = (enter s.outer_items locked.context).1;
      } in
      let inner : World U = record scoped_in { message_scope = [] } in
      let result = with_lock (with_scope s.outer_items (with_message_scope body)) w in
      settled-Frame or_empty result.0 result.1 (
        with_lock-Frame (with_scope s.outer_items (with_message_scope body)) w (
          with_scope-Frame s.outer_items (with_message_scope body) locked (
            with_message_scope-Frame body scoped_in
              (attempt_all-End s qs raw inner refl inner (Frame-refl inner)))))
