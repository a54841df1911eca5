-- ===== src/Runtime/Scoping.antt =====
-- Blocks that leave the context as they found it.
use faststream.Prelude.{◌≡◌, String, List}
use faststream.Context.{Slot, enter}
use faststream.Context.Scopes.{Same, exit-enter}
use faststream.Exec.{Exec}
use faststream.Runtime.{World, with_scope}

module _ {ℓ} {U : Type 0} {A : Type ℓ} where
  -- A `with context.scopes(items):` block passes on the outcome of its body, and leaves the context
  -- as before, if the body leaves the context that it starts in.
  pub with_scope-Same :
      (items : List (String × Slot)) (body : Exec (World U) A) (w : World U)
      → (let inside = record w { context = (enter items w.context).1 } in
          Same inside.context (body inside).1.context)
      → ((with_scope items body w).0 ≡ (body (record w { context = (enter items w.context).1 })).0)
        × Same w.context (with_scope items body w).1.context
  unfolding with_scope
  with_scope-Same items body w h =
      let (left, done, same, _) = exit-enter items w.context _ h in
      (rw (done, with_scope), rw (done, with_scope) same)
