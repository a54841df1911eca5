-- ===== src/Runtime/Frames.antt =====
-- What code leaves alone that is no part of the framework: the lock, the message scope, and what
-- the context answers, with its variables and the tokens that were made before.
use faststream.Prelude.{ℕ, ◌≡◌, ◌∙◌, refl}
use faststream.Context.Scopes.{Same, Same-refl, Same-trans}
use faststream.Exec.{Exec, modify}
use faststream.Exec.Keeps.{Keeps}
use faststream.Message.{StreamMessage}
use faststream.Runtime.{World, on_message, apply_at, write_log, LogRecord}
use faststream.Prelude.{get_elem?, Option, none, some}

pub record Frame {U : Type 0} (w v : World U) : Type 0 where
  pub lock : v.lock ≡ w.lock
  pub scope : v.message_scope ≡ w.message_scope
  pub same : Same w.context v.context

-- Whatever state it is run in, and however it ends.
pub record IsQuiet {U A : Type 0} (m : Exec (World U) A) : Type 0 where
  pub at : (w : World U) → Keeps (Frame w) m

module _ {U : Type 0} where
  pub Frame-refl : (w : World U) → Frame w w
  Frame-refl w = record { lock = refl; scope = refl; same = Same-refl w.context }

  pub Frame-trans : {u v w : World U} → Frame u v → Frame v w → Frame u w
  Frame-trans p q = record {
    lock = q.lock ∙ p.lock;
    scope = q.scope ∙ p.scope;
    same = Same-trans p.same q.same;
  }

  pub IsQuiet-Frame :
      {A : Type 0} {m : Exec (World U) A} → IsQuiet m → (w : World U) → Frame w (m w).1
  IsQuiet-Frame q w = (q.at w).at w (Frame-refl w)

  pub Keeps-modify :
      (w0 : World U) (f : World U → World U)
      → ((w : World U) → Frame w (f w))
      → Keeps (Frame w0) (modify f)
  Keeps-modify w0 f h = record { at = λ w p. Frame-trans p (h w) }

  pub write_log-Frame : (w0 : World U) (l : LogRecord) → Keeps (Frame w0) (write_log l)
  write_log-Frame w0 l =
      Keeps-modify w0 _ (λ w. record { lock = refl; scope = refl; same = Same-refl w.context })

  apply_at-Frame :
      (o : Option StreamMessage) (i : ℕ) (f : StreamMessage → StreamMessage) (w : World U)
      → Frame w (apply_at o i f w)
  apply_at-Frame none i f w = Frame-refl w
  apply_at-Frame (some m) i f w = record { lock = refl; scope = refl; same = Same-refl w.context }

  pub on_message-Frame :
      (i : ℕ) (f : StreamMessage → StreamMessage) (w : World U) → Frame w (on_message i f w)
  unfolding on_message
  on_message-Frame i f w = apply_at-Frame (get_elem? w.messages i) i f w
