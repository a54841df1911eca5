-- ===== src/Runtime/Blocks.antt =====
-- The blocks of a message's processing undo what they did, if their bodies are quiet.
use faststream.Prelude.{String, ◌≡◌, refl, ◌∙◌, ap, List, [], ◌++◌, ◌+◌, arith}
use faststream.Exceptions.{Result, ok, err}
use faststream.Context.{ContextRepo, Slot, Token, enter, exit}
use faststream.Context.Scopes.{Same, Same-refl, Same-trans, exit-enter}
use faststream.Exec.{Exec, continue, ◌>>=◌}
use faststream.Exec.Keeps.{Keeps}
use faststream.Runtime.{World, with_scope, with_lock, with_message_scope, enter_message_scope}
use faststream.Runtime.Frames.{Frame, Frame-trans, IsQuiet, IsQuiet-Frame}

-- An exit stack whose message scope is still empty, or holds what one `enter` left to undo.
pub record Entered (c : ContextRepo) (tokens : List (String × Token)) (now : ContextRepo)
    : Type 0 where
  pub items : List (String × Slot)
  pub before : ContextRepo
  pub same_before : Same c before
  pub held : tokens ≡ (enter items before).0
  pub same_now : Same (enter items before).1 now

module _ {U : Type 0} where
  pub record End (w0 w : World U) : Type 0 where
    pub lock : w.lock ≡ w0.lock
    pub entered : Entered w0.context w.message_scope w.context

  pub Frame-End : {w0 w : World U} → w0.message_scope ≡ [] → Frame w0 w → End w0 w
  unfolding enter
  Frame-End {w0} empty p = record {
    lock = p.lock;
    entered = record {
      items = [];
      before = w0.context;
      same_before = Same-refl w0.context;
      held = p.scope ∙ empty;
      same_now = p.same;
    };
  }

  pub End-Frame : {w0 w v : World U} → End w0 w → Frame w v → End w0 v
  End-Frame e p = record {
    lock = p.lock ∙ e.lock;
    entered = record {
      items = e.entered.items;
      before = e.entered.before;
      same_before = e.entered.same_before;
      held = p.scope ∙ e.entered.held;
      same_now = Same-trans e.entered.same_now p.same;
    };
  }

  pub Keeps-End : {A : Type 0} (w0 : World U) {m : Exec (World U) A} → IsQuiet m → Keeps (End w0) m
  Keeps-End w0 q = record { at = λ w e. End-Frame e (IsQuiet-Frame q w) }

  pub enter_message_scope-End :
      (items : List (String × Slot)) {w0 w : World U}
      → w0.message_scope ≡ []
      → Frame w0 w
      → End w0 (enter_message_scope items w).1
  unfolding enter_message_scope
  enter_message_scope-End items {w0} {w} empty p = record {
    lock = p.lock;
    entered = record {
      items = items;
      before = w.context;
      same_before = p.same;
      held = ap (λ (t : List (String × Token)). t ++ (enter items w.context).0) (p.scope ∙ empty);
      same_now = Same-refl _;
    };
  }

  pub with_message_scope-Frame :
      {A : Type 0} (body : Exec (World U) A) (w : World U)
      → End (record w { message_scope = [] }) (body (record w { message_scope = [] })).1
      → Frame w (with_message_scope body w).1
  unfolding with_message_scope
  with_message_scope-Frame body w e =
      let inside = (body (record w { message_scope = [] })).1 in
      let x = e.entered in
      let (left, done, same, _) = exit-enter x.items x.before inside.context x.same_now in
      let undone : exit inside.message_scope inside.context ≡ ok left =
        ap (λ (tokens : List (String × Token)). exit tokens inside.context) x.held ∙ done in
      rw (undone, with_message_scope)
        (record { lock = e.lock; scope = refl; same = Same-trans x.same_before same })

  pub with_lock-Frame :
      {A : Type 0} (body : Exec (World U) A) (w : World U)
      → Frame (record w { lock = w.lock + 1 }) (body (record w { lock = w.lock + 1 })).1
      → Frame w (with_lock body w).1
  unfolding with_lock
  with_lock-Frame body w p = record { lock = omega (arith, p.lock); scope = p.scope; same = p.same }

  pub with_scope-Frame :
      {A : Type 0} (items : List (String × Slot)) (body : Exec (World U) A) (w : World U)
      → Frame
          (record w { context = (enter items w.context).1 })
          (body (record w { context = (enter items w.context).1 })).1
      → Frame w (with_scope items body w).1
  unfolding with_scope
  with_scope-Frame items body w p =
      let inside = (body (record w { context = (enter items w.context).1 })).1 in
      let (left, done, same, _) = exit-enter items w.context inside.context p.same in
      rw (done, with_scope) (record { lock = p.lock; scope = p.scope; same = same })

  continue-End :
      {A B : Type 0} (w0 : World U)
      → w0.message_scope ≡ []
      → (f : A → Exec (World U) B) → ((a : A) (w : World U) → Frame w0 w → End w0 (f a w).1)
      → (r : Result A) (w : World U) → Frame w0 w
      → End w0 (continue r f w).1
  continue-End w0 empty f h (ok a) w p = h a w p
  continue-End w0 empty f h (err e) w p = Frame-End empty p

  -- Quiet code, and then code that may enter the message scope.
  pub bind-End :
      {A B : Type 0} (w0 : World U)
      → w0.message_scope ≡ []
      → (m : Exec (World U) A) (f : A → Exec (World U) B) → IsQuiet m
      → ((a : A) (w : World U) → Frame w0 w → End w0 (f a w).1)
      → (w : World U) → Frame w0 w
      → End w0 ((m >>= f) w).1
  bind-End w0 empty m f q h w p =
      continue-End w0 empty f h (m w).0 (m w).1 (Frame-trans p (IsQuiet-Frame q w))
