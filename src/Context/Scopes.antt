-- ===== src/Context/Scopes.antt =====
-- Leaving a scope restores every local value that entering it covered.
use mathlib.Core.List.{reverse-cons}
use faststream.Prelude.{
  ℕ, ◌<◌, ◌≤◌, ◌==◌, ==-refl, String, str_eq, ◌≡◌, ◌∙◌, refl, true, false, Option, none, some, List,
  [], ◌∷◌, ◌++◌, reverse, lookup, insert, arith, lookup-insert, eq_iff, eq_refl, Bool-cases, inl,
  inr, if◌then◌else◌, ap,
}
use faststream.Exceptions.{Result, ok, err}
use faststream.Context.{
  ContextRepo, ContextVar, Token, Slot, var_value, variable_or_new, next_reset, set_local,
  reset_local, enter, reset_all, exit, get, get_local, answered, global_value, or_default,
}

-- The two repositories answer alike, a name that is known to the first has the same variable in the
-- second, and no token of the first was used on the way to the second.
pub record Same (r s : ContextRepo) : Type 0 where
  pub globals : s.global_context ≡ r.global_context
  pub values :
      (k : String) → var_value (lookup k s.scope_context) ≡ var_value (lookup k r.scope_context)
  pub kept :
      (k : String) (v : ContextVar)
      → lookup k r.scope_context ≡ some v
      → (w : ContextVar) × (lookup k s.scope_context ≡ some w) × (w.identity ≡ v.identity)
  pub more_tokens : r.tokens ≤ s.tokens
  pub unused : (token : ℕ) → token < r.tokens → s.unused token ≡ r.unused token

pub Same-refl : (r : ContextRepo) → Same r r
Same-refl r = record {
  globals = refl;
  values = λ k. refl;
  kept = λ k v h. (v, h, refl);
  more_tokens = omega arith;
  unused = λ token h. refl;
}

pub Same-trans : {r s t : ContextRepo} → Same r s → Same s t → Same r t
Same-trans p q = record {
  globals = q.globals ∙ p.globals;
  values = λ k. q.values k ∙ p.values k;
  kept = λ k v h.
      let (w, found, e) = p.kept k v h in let (u, there, f) = q.kept k w found in (u, there, f ∙ e);
  more_tokens = omega (arith, p.more_tokens, q.more_tokens);
  unused = λ token h. q.unused token (omega (arith, h, p.more_tokens)) ∙ p.unused token h;
}

Same-get : (r s : ContextRepo) → Same r s → (k : String) (d : Slot) → get k d s ≡ get k d r
unfolding get get_local
Same-get r s h k d =
    ap (λ (o : Slot). answered o (or_default (var_value (lookup k s.scope_context)) d))
      (ap (λ (g : List (String × Slot)). global_value (lookup k g)) h.globals)
    ∙ ap (λ (o : Slot). answered (global_value (lookup k r.global_context)) (or_default o d))
        (h.values k)

rest_appended :
    (xs ys : List (String × Token)) (first : Result ContextRepo) (s : ContextRepo)
    → ((r : ContextRepo) → reset_all xs r ≡ ok s → reset_all (xs ++ ys) r ≡ reset_all ys s)
    → next_reset first (λ r. reset_all xs r) ≡ ok s
    → next_reset first (λ r. reset_all (xs ++ ys) r) ≡ reset_all ys s
rest_appended xs ys (ok r) s rest h = rest r h
rest_appended xs ys (err e) s rest h = cc

reset_all-append :
    (xs ys : List (String × Token)) (r s : ContextRepo)
    → reset_all xs r ≡ ok s
    → reset_all (xs ++ ys) r ≡ reset_all ys s
unfolding reset_all
reset_all-append [] ys r s h = ground arith
reset_all-append ((k, t) ∷ xs) ys r s h =
    rest_appended xs ys (reset_local k t r) s (λ r' e. reset_all-append xs ys r' s e) h

var_value-new :
    (found : Option ContextVar) (n : ℕ) → (variable_or_new found n).value ≡ var_value found
var_value-new none n = refl
var_value-new (some v) n = refl

reset-done :
    (k : String) (tag : Token) (w : ContextVar) (s : ContextRepo)
    → lookup k s.scope_context ≡ some w
    → s.unused tag.identity ≡ true
    → w.identity ≡ tag.variable
    → reset_all ((k, tag) ∷ []) s
      ≡ ok (record s {
        scope_context = insert k (record w { value = tag.old_value }) s.scope_context;
        unused = λ token. if token == tag.identity then false else s.unused token;
      })
unfolding reset_all reset_local
reset-done k tag w s known live same =
    let e : (w.identity == tag.variable) ≡ true = rw same (==-refl tag.variable) in
    rw (reset_all, reset_local, known, live, e) refl

-- What a name stands for after it was set, `v`, and after that was undone, `o`, over `s`.
module _ (k : String) (v : Slot) (r s : ContextRepo) (h : Same (set_local k v r).1 s)
    (w : ContextVar) (known : lookup k s.scope_context ≡ some w)
    (same : w.identity ≡ (set_local k v r).0.variable) where
  abbrev undone : ContextRepo
  undone = record s {
    scope_context = insert k (record w { value = (set_local k v r).0.old_value }) s.scope_context;
    unused = λ token. if token == (set_local k v r).0.identity then false else s.unused token;
  }

  undone_value :
      (j : String)
      → var_value (lookup j undone.scope_context) ≡ var_value (lookup j r.scope_context)
  unfolding set_local
  undone_value j =
      let variable = variable_or_new (lookup k r.scope_context) r.variables in
      let set_before = lookup-insert k j (record variable { value = v }) r.scope_context in
      let set_after = lookup-insert k j (record w { value = variable.value }) s.scope_context in
      elim (Bool-cases (str_eq k j)) [
        | inl here ↦
            let e : k ≡ j = (eq_iff k j).0 here in
            rw (set_after, here)
              (var_value-new (lookup k r.scope_context) r.variables
                ∙ ap (λ (i : String). var_value (lookup i r.scope_context)) e)
        | inr other ↦
            let before = rw (set_before, other) at (h.values j) in rw (set_after, other) before
      ]

  undone_kept :
      (j : String) (u : ContextVar)
      → lookup j r.scope_context ≡ some u
      → (x : ContextVar) × (lookup j undone.scope_context ≡ some x) × (x.identity ≡ u.identity)
  unfolding set_local
  undone_kept j u there =
      let variable = variable_or_new (lookup k r.scope_context) r.variables in
      let set_before = lookup-insert k j (record variable { value = v }) r.scope_context in
      let reset_one = record w { value = variable.value } in
      let set_after = lookup-insert k j reset_one s.scope_context in
      elim (Bool-cases (str_eq k j)) [
        | inl here ↦
            let e : k ≡ j = (eq_iff k j).0 here in
            let found : lookup k r.scope_context ≡ some u =
              ap (λ (i : String). lookup i r.scope_context) e ∙ there in
            (
              reset_one,
              rw (set_after, here) refl,
              same ∙ ap (λ (o : Option ContextVar). (variable_or_new o r.variables).identity) found,
            )
        | inr other ↦
            let (x, found, id) = h.kept j u (rw (set_before, other) there) in
            (x, rw (set_after, other) found, id)
      ]

  undone_unused : (token : ℕ) → token < r.tokens → undone.unused token ≡ r.unused token
  unfolding set_local
  undone_unused token old = ground (arith, h.unused token)

  Same-undone : Same r undone
  unfolding set_local
  Same-undone = record {
    globals = h.globals;
    values = undone_value;
    kept = undone_kept;
    more_tokens = omega (arith, h.more_tokens);
    unused = undone_unused;
  }

set_variable :
    (k : String) (v : Slot) (r : ContextRepo)
    → lookup k (set_local k v r).1.scope_context
      ≡ some (record (variable_or_new (lookup k r.scope_context) r.variables) { value = v })
unfolding set_local
set_variable k v r =
    let set_before =
      lookup-insert k k
        (record (variable_or_new (lookup k r.scope_context) r.variables) { value = v })
        r.scope_context in
    rw (set_before, eq_refl k) refl

undo_set :
    (k : String) (v : Slot) (r s : ContextRepo)
    → Same (set_local k v r).1 s
    → (t : ContextRepo) × (reset_all ((k, (set_local k v r).0) ∷ []) s ≡ ok t) × Same r t
unfolding set_local
undo_set k v r s h =
    let (w, known, same) = h.kept k _ (set_variable k v r) in
    let live : s.unused r.tokens ≡ true =
      h.unused r.tokens (omega arith) ∙ (rw (==-refl r.tokens) refl) in
    (
      undone k v r s h w known same,
      reset-done k (set_local k v r).0 w s known live same,
      Same-undone k v r s h w known same,
    )

reset_all-enter :
    (items : List (String × Slot)) (r s : ContextRepo)
    → Same (enter items r).1 s
    → (t : ContextRepo) × (reset_all (reverse (enter items r).0) s ≡ ok t) × Same r t
unfolding enter reset_all
reset_all-enter [] r s h = (s, refl, h)
reset_all-enter ((k, v) ∷ items) r s h =
    let (token, r') = set_local k v r in
    let (s', rest, back) = reset_all-enter items r' s h in
    let (t, first, same) = undo_set k v r s' back in
    (t, rw reverse-cons (rw (reset_all-append _ _ s s' rest) first), same)

-- A `with context.scopes(items):` block, whatever its items (a name may stand among them several
-- times) and whatever it does, if at its end the names have the same variables with the same values
-- as where it started, the global context is the same and no token of before was used, ends without
-- an error and gives back a repository that is as before the block in all of this: `get` answers the
-- same for every name. A name that the block was the first to set keeps its variable, which is unset
-- again.
pub exit-enter :
    (items : List (String × Slot)) (r s : ContextRepo)
    → Same (enter items r).1 s
    → (t : ContextRepo) × (exit (enter items r).0 s ≡ ok t)
      × Same r t
      × ((k : String) (d : Slot) → get k d t ≡ get k d r)
unfolding exit
exit-enter items r s h =
    let (t, done, same) = reset_all-enter items r s h in (t, done, same, Same-get r t same)
