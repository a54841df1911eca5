-- ===== src/Rabbit/Declarer/Binding.antt =====
-- What a successful declaration of an exchange leaves behind: each exchange that it put into the
-- cache was bound to its parent.
use faststream.Prelude.{
  ℕ, Bool, true, false, ◌≡◌, refl, sym, subst, ◌∙◌, Option, none, some, List, [], ◌∷◌, ◌++◌,
  append_assoc, append-nil, All, ap, arith, str_eq, if◌then◌else◌,
}
use faststream.Exceptions.{Result, ok}
use faststream.Exec.{Exec, ◌>>=◌, ◌>>◌, pure}
use faststream.Rabbit.Declarer.{
  RabbitExchange, unbound, bound_to, ExchangeOptions, options_of, routing, Channel, Request, bind,
  declare_exchange_at, State, passive, find, same_exchange, ask, get_channel, put_exchange,
  declare_new_exchange, cached_or, named_or_default, declare_exchange,
}
use faststream.Rabbit.Declarer.Growth.{
  Grown, All-append, IsObject, IsBound, find-append, find-last, same_exchange_refl,
}
use faststream.Rabbit.Declarer.Growing.{
  continue_returned, Grows, Grows-bind, Grows-get_channel, Grows-named_or_default,
  Grows-new_unbound,
}

module _ (server : List Request → Request → Result ℕ) (default_exchange : ℕ → ℕ) where
  -- Where `m` returns, the state has grown, and the object stands for the exchange.
  record Declares (e : RabbitExchange) (m : Exec State ℕ) : Type 0 where
    grows : Grows server default_exchange m
    finds :
        (s : State) (obj : ℕ)
        → (m s).0 ≡ ok obj
        → IsObject server default_exchange (m s).1.exchanges e obj

  -- What is done for an exchange that is not in the cache puts it there.
  record Puts (e : RabbitExchange) (new : ℕ → Exec State ℕ) : Type 0 where
    grows : (ch : ℕ) → Grows server default_exchange (new ch)
    puts :
        (ch : ℕ) (s : State) (obj : ℕ)
        → find same_exchange e s.exchanges ≡ none
        → (new ch s).0 ≡ ok obj
        → find same_exchange e (new ch s).1.exchanges ≡ some obj

  chosen-IsObject :
      (by_default : Bool) (o : Option ℕ) (e : RabbitExchange) (new : ℕ → Exec State ℕ) (ch : ℕ)
      (s : State) (obj : ℕ)
      → str_eq (options_of e).name "" ≡ by_default
      → find same_exchange e s.exchanges ≡ o
      → Puts e new
      → (if by_default
          then (ok (default_exchange ch), s)
          else cached_or server default_exchange e new ch o s).0
        ≡ ok obj
      → IsObject server default_exchange
          (if by_default
            then (ok (default_exchange ch), s)
            else cached_or server default_exchange e new ch o s).1.exchanges
          e
          obj
  unfolding cached_or
  chosen-IsObject true o e new ch s obj unnamed f p h = record {
    default = λ d. (ch, cc);
    cached = λ named. absurd (ground (arith, named, unnamed));
  }
  chosen-IsObject false (some exch) e new ch s obj named f p h = record {
    default = λ unnamed. absurd (ground (arith, named, unnamed));
    cached = λ d. cc;
  }
  chosen-IsObject false none e new ch s obj named f p h = record {
    default = λ unnamed. absurd (ground (arith, named, unnamed));
    cached = λ d. p.puts ch s obj f h;
  }

  Declares-named :
      (e : RabbitExchange) (channel : Option Channel) (new : ℕ → Exec State ℕ)
      → Puts e new
      → Declares e (
          get_channel server default_exchange channel
          >>= named_or_default server default_exchange e new)
  unfolding named_or_default
  Declares-named e channel new p = record {
    grows =
        Grows-bind server default_exchange (get_channel server default_exchange channel)
          (named_or_default server default_exchange e new)
          (Grows-get_channel server default_exchange channel)
          (Grows-named_or_default server default_exchange e new p.grows);
    finds = λ s obj h.
        let g = get_channel server default_exchange channel in
        let f = named_or_default server default_exchange e new in
        let (ch, opened, h1, e1) = continue_returned (g s).0 f (g s).1 obj h in
        let found =
          chosen-IsObject (str_eq (options_of e).name "") (find same_exchange e (g s).1.exchanges) e
            new ch (g s).1 obj refl refl p h1 in
        subst (λ (t : State). IsObject server default_exchange t.exchanges e obj) (sym e1) found;
  }

  declare_new_unbound :
      (o : ExchangeOptions) (declare : Option Bool) (ch : ℕ) (s : State) (exch : ℕ)
      → (declare_new_exchange server default_exchange (unbound o) declare ch s).0 ≡ ok exch
      → (declare_new_exchange server default_exchange (unbound o) declare ch s).1.exchanges
        ≡ s.exchanges ++ (unbound o, exch) ∷ []
  unfolding declare_new_exchange ask put_exchange
  declare_new_unbound o declare ch s exch h = ground arith

  Puts-unbound :
      (o : ExchangeOptions) (declare : Option Bool)
      → Puts (unbound o) (declare_new_exchange server default_exchange (unbound o) declare)
  Puts-unbound o declare = record {
    grows = Grows-new_unbound server default_exchange o declare;
    puts = λ ch s obj absent h.
        ap (λ (l : List (RabbitExchange × ℕ)). find same_exchange (unbound o) l)
          (declare_new_unbound o declare ch s obj h)
        ∙ find-last same_exchange (unbound o) obj s.exchanges (same_exchange_refl (unbound o))
            absent;
  }

  module _ (o : ExchangeOptions) (parent : RabbitExchange) where
    -- The new exchange is in the cache already while its parent is declared, and is bound then.
    bind_last :
        (s t u : State) (r : Request) (exch parent_obj answer : ℕ)
        → IsObject server default_exchange u.exchanges parent parent_obj
        → t.requests ≡ s.requests ++ r ∷ []
        → t.exchanges ≡ s.exchanges ++ (bound_to o parent, exch) ∷ []
        → Grown server default_exchange t u
        → server u.requests (bind exch parent_obj (routing o) o.bind_arguments) ≡ ok answer
        → Grown server default_exchange s
            (ask server default_exchange (bind exch parent_obj (routing o) o.bind_arguments) u).1
    unfolding ask
    bind_last s t u r exch parent_obj answer is_parent q x g h =
        let asked = bind exch parent_obj (routing o) o.bind_arguments in
        let all_kept =
          subst (λ l. All (IsBound server default_exchange (u.requests ++ asked ∷ []) l) g.new)
            (append-nil u.exchanges)
            (All-append server default_exchange u.requests (asked ∷ []) u.exchanges [] g.new
              g.bound) in
        record {
          more = r ∷ g.more ++ asked ∷ [];
          requests = simp (g.requests, q, append_assoc);
          new = (bound_to o parent, exch) ∷ g.new;
          exchanges =
              g.exchanges
              ∙ (rw x (append_assoc s.exchanges ((bound_to o parent, exch) ∷ []) g.new));
          bound = (
            (
              parent_obj,
              is_parent,
              record {
                before = u.requests;
                after = [];
                answer = answer;
                place = refl;
                answered = h;
              },
            ),
            all_kept,
          );
        }

    declare_new_bound :
        (declare : Option Bool) (ch : ℕ) (s : State) (exch : ℕ)
        → (declare_new_exchange server default_exchange (bound_to o parent) declare ch s).0
          ≡ ok exch
        → ((declare_new_exchange server default_exchange
              (bound_to o parent)
              declare
              ch
              s).1.requests
            ≡ s.requests
              ++ declare_exchange_at ch (bound_to o parent) (passive declare o.declare) ∷ [])
          × ((declare_new_exchange server default_exchange
                (bound_to o parent)
                declare
                ch
                s).1.exchanges
              ≡ s.exchanges ++ (bound_to o parent, exch) ∷ [])
    unfolding declare_new_exchange ask put_exchange
    declare_new_bound declare ch s exch h = ground arith

    abbrev bind_to_parent : ℕ → Exec State ℕ
    bind_to_parent exch = do
      parent_obj ← declare_exchange server default_exchange parent none none
      ask server default_exchange (bind exch parent_obj (routing o) o.bind_arguments)
      pure exch

    Grows-new_bound :
        Declares parent (declare_exchange server default_exchange parent none none)
        → (declare : Option Bool) (ch : ℕ)
        → Grows server default_exchange (
            declare_new_exchange server default_exchange (bound_to o parent) declare ch
            >>= bind_to_parent)
    unfolding ask
    Grows-new_bound k declare ch = record {
      at = λ s a h.
          let m = declare_new_exchange server default_exchange (bound_to o parent) declare ch in
          let d = declare_exchange server default_exchange parent none none in
          let (exch, declared, h1, e1) = continue_returned (m s).0 bind_to_parent (m s).1 a h in
          let facts = declare_new_bound declare ch s exch declared in
          let t = (m s).1 in
          let finish = λ (p : ℕ). (do
            ask server default_exchange (bind exch p (routing o) o.bind_arguments)
            pure exch) in
          let (p, found, h2, e2) = continue_returned (d t).0 finish (d t).1 a h1 in
          let u = (d t).1 in
          let b = ask server default_exchange (bind exch p (routing o) o.bind_arguments) in
          let (n, answered, h3, e3) = continue_returned (b u).0 (λ _. pure exch) (b u).1 a h2 in
          subst (Grown server default_exchange s) (sym (e1 ∙ e2 ∙ e3)) (
            bind_last s t u (declare_exchange_at ch (bound_to o parent) (passive declare o.declare))
              exch p n (k.finds t p found) facts.0 facts.1 (k.grows.at t p found) answered);
    }

    Puts-bound :
        Declares parent (declare_exchange server default_exchange parent none none)
        → (declare : Option Bool)
        → Puts (bound_to o parent) (λ ch.
          declare_new_exchange server default_exchange (bound_to o parent) declare ch
          >>= bind_to_parent)
    unfolding ask
    Puts-bound k declare = record {
      grows = λ ch. Grows-new_bound k declare ch;
      puts = λ ch s a absent h.
          let m = declare_new_exchange server default_exchange (bound_to o parent) declare ch in
          let d = declare_exchange server default_exchange parent none none in
          let (exch, declared, h1, e1) = continue_returned (m s).0 bind_to_parent (m s).1 a h in
          let facts = declare_new_bound declare ch s exch declared in
          let t = (m s).1 in
          let finish = λ (p : ℕ). (do
            ask server default_exchange (bind exch p (routing o) o.bind_arguments)
            pure exch) in
          let (p, found, h2, e2) = continue_returned (d t).0 finish (d t).1 a h1 in
          let u = (d t).1 in
          let b = ask server default_exchange (bind exch p (routing o) o.bind_arguments) in
          let (n, answered, h3, e3) = continue_returned (b u).0 (λ _. pure exch) (b u).1 a h2 in
          let g = k.grows.at t p found in
          let first =
            find-last same_exchange (bound_to o parent) exch s.exchanges
              (same_exchange_refl (bound_to o parent)) absent in
          let then_there =
            find-append same_exchange (bound_to o parent) exch
              (s.exchanges ++ (bound_to o parent, exch) ∷ []) g.new first in
          let same : exch ≡ a = cc in
          let there : find same_exchange (bound_to o parent) u.exchanges ≡ some a =
            ap (λ (l : List (RabbitExchange × ℕ)). find same_exchange (bound_to o parent) l)
              (g.exchanges ∙ ap (λ (l : List (RabbitExchange × ℕ)). l ++ g.new) facts.1)
            ∙ then_there
            ∙ ap some same in
          subst (λ (v : State). find same_exchange (bound_to o parent) v.exchanges ≡ some a)
            (sym (e1 ∙ e2 ∙ e3)) there;
    }

  Declares-declare_exchange :
      (e : RabbitExchange) (declare : Option Bool) (channel : Option Channel)
      → Declares e (declare_exchange server default_exchange e declare channel)
  unfolding declare_exchange
  Declares-declare_exchange (unbound o) declare channel =
      Declares-named (unbound o) channel
        (declare_new_exchange server default_exchange (unbound o) declare) (Puts-unbound o declare)
  Declares-declare_exchange (bound_to o parent) declare channel =
      let new = λ (ch : ℕ).
        declare_new_exchange server default_exchange (bound_to o parent) declare ch
        >>= bind_to_parent o parent in
      Declares-named (bound_to o parent) channel new
        (Puts-bound o parent (Declares-declare_exchange parent none none) declare)

  -- A declaration of an exchange that returns leaves the requests and the cache as they were, but
  -- for what it adds to their ends; and each exchange that it adds to the cache with a parent was
  -- bound to the object of that parent, by a request that the server answered: the object that the
  -- cache holds for the parent, or the default exchange of a channel where the parent has no name.
  pub declare_exchange-Grown :
      (e : RabbitExchange) (declare : Option Bool) (channel : Option Channel) (s : State) (exch : ℕ)
      → (declare_exchange server default_exchange e declare channel s).0 ≡ ok exch
      → Grown server default_exchange s
          (declare_exchange server default_exchange e declare channel s).1
  declare_exchange-Grown e declare channel s exch h =
      (Declares-declare_exchange e declare channel).grows.at s exch h
