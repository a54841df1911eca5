-- ===== src/Rabbit/Declarer/Caching.antt =====
-- An exchange that the server declared is not asked for again, whatever became of its binding.
use faststream.Prelude.{
  ℕ, Bool, true, false, ◌≡◌, refl, Option, none, some, List, [], ◌∷◌, ◌++◌, arith, ◌==◌, ==-refl,
  str_eq, if◌then◌else◌,
}
use faststream.Exceptions.{Result, ok}
use faststream.Exec.{Exec, modify, ◌>>=◌, ◌>>◌, pure}
use faststream.Rabbit.Declarer.Growth.{find-append, find-last, same_exchange_refl}
use faststream.Exec.Keeps.{Keeps, Keeps-bind, keeps_rules}
use faststream.Rabbit.Declarer.{
  RabbitExchange, unbound, bound_to, ExchangeOptions, options_of, routing, Channel, Request, bind,
  declare_exchange_at, State, chosen, passive, find, same_exchange, ask, open_new, get_channel_of,
  get_channel, put_exchange, declare_new_exchange, cached_or, named_or_default, declare_exchange,
}

module _ (server : List Request → Request → Result ℕ) (default_exchange : ℕ → ℕ) where
  abbrev binding : ExchangeOptions → RabbitExchange → ℕ → Exec State ℕ
  binding o parent x = do
    parent_obj ← declare_exchange server default_exchange parent none none
    ask server default_exchange (bind x parent_obj (routing o) o.bind_arguments)
    pure x

  abbrev bound_new : ExchangeOptions → RabbitExchange → Option Bool → ℕ → Exec State ℕ
  bound_new o parent declare n =
      declare_new_exchange server default_exchange (bound_to o parent) declare n
      >>= binding o parent

  -- What is done for an exchange that is not in the cache.
  abbrev new_of : RabbitExchange → Option Bool → ℕ → Exec State ℕ
  new_of (unbound o) declare n = declare_new_exchange server default_exchange (unbound o) declare n
  new_of (bound_to o parent) declare n = bound_new o parent declare n

  declare_exchange_lem :
      (e : RabbitExchange) (declare : Option Bool) (channel : Option Channel)
      → declare_exchange server default_exchange e declare channel ≡ (
          get_channel server default_exchange channel
          >>= named_or_default server default_exchange e (new_of e declare))
  unfolding declare_exchange
  declare_exchange_lem (unbound o) declare channel = refl
  declare_exchange_lem (bound_to o parent) declare channel = refl

  -- An exchange and a channel that are in the caches.
  record Held (e : RabbitExchange) (exch : ℕ) (default c : Channel) (ch : ℕ) (s : State)
      : Type 0 where
    exchange : find same_exchange e s.exchanges ≡ some exch
    channel : find (λ i j. i == j) c.identity s.channels ≡ some ch
    default_kept : s.default_channel ≡ default

  module _ (e : RabbitExchange) (exch : ℕ) (default c : Channel) (ch : ℕ) where
    Keeps-ask : (r : Request) → Keeps (Held e exch default c ch) (ask server default_exchange r)
    unfolding ask
    Keeps-ask r = record {
      at = λ s h. record {
        exchange = h.exchange;
        channel = h.channel;
        default_kept = h.default_kept;
      };
    }

    Keeps-channels :
        (i n : ℕ)
        → Keeps
            (Held e exch default c ch)
            (modify (λ s. record s { channels = s.channels ++ (i, n) ∷ [] }))
    Keeps-channels i n = record {
      at = λ s h. record {
        exchange = h.exchange;
        channel = find-append (λ i j. i == j) c.identity ch s.channels ((i, n) ∷ []) h.channel;
        default_kept = h.default_kept;
      };
    }

    Keeps-put :
        (x : RabbitExchange) (n : ℕ)
        → Keeps (Held e exch default c ch) (put_exchange server default_exchange x n)
    unfolding put_exchange
    Keeps-put x n = record {
      at = λ s h. record {
        exchange = find-append same_exchange e exch s.exchanges ((x, n) ∷ []) h.exchange;
        channel = h.channel;
        default_kept = h.default_kept;
      };
    }

    ruleset held = (keeps_rules, Keeps-ask, Keeps-channels, Keeps-put)

    Keeps-open_new :
        (x : Channel) → Keeps (Held e exch default c ch) (open_new server default_exchange x)
    unfolding open_new
    Keeps-open_new x = search held

    Keeps-get_channel_of :
        (x : Channel) (o : Option ℕ) (connected : Bool)
        → Keeps (Held e exch default c ch) (get_channel_of server default_exchange x o connected)
    unfolding get_channel_of
    Keeps-get_channel_of x (some n) connected = search held
    Keeps-get_channel_of x none true = Keeps-open_new x
    Keeps-get_channel_of x none false = search held

    Keeps-get_channel :
        (x : Option Channel)
        → Keeps (Held e exch default c ch) (get_channel server default_exchange x)
    unfolding get_channel
    Keeps-get_channel x = record {
      at = λ s h.
          (Keeps-get_channel_of (chosen x s) (find (λ i j. i == j) (chosen x s).identity s.channels)
              s.connected).at
            s h;
    }

    Keeps-chosen :
        (by_default : Bool) (o : Option ℕ) (x : RabbitExchange) (new : ℕ → Exec State ℕ) (n : ℕ)
        → Keeps (Held e exch default c ch) (new n)
        → (s : State) → Held e exch default c ch s
        → Held e exch default c ch
            (if by_default
              then (ok (default_exchange n), s)
              else cached_or server default_exchange x new n o s).1
    unfolding cached_or
    Keeps-chosen true o x new n k s h = h
    Keeps-chosen false (some y) x new n k s h = h
    Keeps-chosen false none x new n k s h = k.at s h

    Keeps-named_or_default :
        (x : RabbitExchange) (new : ℕ → Exec State ℕ)
        → ((n : ℕ) → Keeps (Held e exch default c ch) (new n))
        → (n : ℕ)
        → Keeps (Held e exch default c ch) (named_or_default server default_exchange x new n)
    unfolding named_or_default
    Keeps-named_or_default x new k n = record {
      at = λ s h.
          Keeps-chosen (str_eq (options_of x).name "") (find same_exchange x s.exchanges) x new n
            (k n) s h;
    }

    Keeps-new :
        (x : RabbitExchange) (declare : Option Bool) (n : ℕ)
        → Keeps
            (Held e exch default c ch)
            (declare_new_exchange server default_exchange x declare n)
    unfolding declare_new_exchange
    Keeps-new x declare n = search held

    Keeps-binding :
        (o : ExchangeOptions) (parent : RabbitExchange)
        → Keeps
            (Held e exch default c ch)
            (declare_exchange server default_exchange parent none none)
        → (x : ℕ) → Keeps (Held e exch default c ch) (binding o parent x)
    Keeps-binding o parent k x =
        Keeps-bind (declare_exchange server default_exchange parent none none)
          (λ p. (do ask server default_exchange (bind x p (routing o) o.bind_arguments); pure x)) k
          (λ p. search held)

    Keeps-declare_exchange :
        (x : RabbitExchange) (declare : Option Bool) (channel : Option Channel)
        → Keeps
            (Held e exch default c ch)
            (declare_exchange server default_exchange x declare channel)
    unfolding declare_exchange
    Keeps-declare_exchange (unbound o) declare channel =
        Keeps-bind (get_channel server default_exchange channel)
          (named_or_default server default_exchange (unbound o)
            (declare_new_exchange server default_exchange (unbound o) declare))
          (Keeps-get_channel channel)
          (Keeps-named_or_default (unbound o)
            (declare_new_exchange server default_exchange (unbound o) declare)
            (Keeps-new (unbound o) declare))
    Keeps-declare_exchange (bound_to o parent) declare channel =
        let new = bound_new o parent declare in
        Keeps-bind (get_channel server default_exchange channel)
          (named_or_default server default_exchange (bound_to o parent) new)
          (Keeps-get_channel channel)
          (Keeps-named_or_default (bound_to o parent) new (λ n.
            Keeps-bind (declare_new_exchange server default_exchange (bound_to o parent) declare n)
              (binding o parent) (Keeps-new (bound_to o parent) declare n)
              (Keeps-binding o parent (Keeps-declare_exchange parent none none))))

  record Opened (c : Channel) (ch : ℕ) (s t : State) : Type 0 where
    channel : find (λ i j. i == j) c.identity t.channels ≡ some ch
    default_kept : t.default_channel ≡ s.default_channel

  Opened-get_channel_of :
      (c : Channel) (o : Option ℕ) (connected : Bool) (s : State) (ch : ℕ) (t : State)
      → find (λ i j. i == j) c.identity s.channels ≡ o
      → get_channel_of server default_exchange c o connected s ≡ (ok ch, t)
      → Opened c ch s t
  unfolding get_channel_of open_new ask
  Opened-get_channel_of c (some n) connected s ch t f h = record {
    channel = ground (arith, f, h);
    default_kept = ground (arith, h);
  }
  Opened-get_channel_of c none true s ch t f h = record {
    channel =
        ground
          (arith, h, f, find-last (λ i j. i == j) c.identity ch s.channels (==-refl c.identity));
    default_kept = ground (arith, h);
  }
  Opened-get_channel_of c none false s ch t f h = cc h

  chosen_same :
      (channel : Option Channel) (s t : State)
      → t.default_channel ≡ s.default_channel
      → chosen channel t ≡ chosen channel s
  chosen_same none s t h = h
  chosen_same (some c) s t h = refl

  named_cached :
      (e : RabbitExchange) (new : ℕ → Exec State ℕ) (ch exch : ℕ) (s : State)
      → str_eq (options_of e).name "" ≡ false
      → find same_exchange e s.exchanges ≡ some exch
      → named_or_default server default_exchange e new ch s ≡ (ok exch, s)
  unfolding named_or_default cached_or
  named_cached e new ch exch s named f = rw (named, f)

  get_cached :
      (channel : Option Channel) (ch : ℕ) (c : Channel) (s : State)
      → chosen channel s ≡ c
      → find (λ i j. i == j) c.identity s.channels ≡ some ch
      → get_channel server default_exchange channel s ≡ (ok ch, s)
  unfolding get_channel get_channel_of
  get_cached channel ch c s e f = rw (e, f)

  declare-Held :
      (e : RabbitExchange) (declare : Option Bool) (channel : Option Channel) (exch : ℕ)
      (default c : Channel) (ch : ℕ) (s : State)
      → str_eq (options_of e).name "" ≡ false
      → chosen channel s ≡ c
      → Held e exch default c ch s
      → declare_exchange server default_exchange e declare channel s ≡ (ok exch, s)
  declare-Held e declare channel exch default c ch s named same h =
      rw (declare_exchange_lem e declare channel, get_cached channel ch c s same h.channel)
        (named_cached e (new_of e declare) ch exch s named h.exchange)

  abbrev with_new : RabbitExchange → ℕ → Request → State → State
  with_new e exch r s = record s {
    exchanges = s.exchanges ++ (e, exch) ∷ [];
    requests = s.requests ++ r ∷ [];
  }

  Held-with_new :
      (e : RabbitExchange) (exch : ℕ) (r : Request) (c : Channel) (ch : ℕ) (s t : State)
      → Opened c ch s t
      → find same_exchange e t.exchanges ≡ none
      → Held e exch s.default_channel c ch (with_new e exch r t)
  Held-with_new e exch r c ch s t o f = record {
    exchange = find-last same_exchange e exch t.exchanges (same_exchange_refl e) f;
    channel = o.channel;
    default_kept = o.default_kept;
  }

  named_absent :
      (e : RabbitExchange) (new : ℕ → Exec State ℕ) (ch : ℕ) (s : State)
      → str_eq (options_of e).name "" ≡ false
      → find same_exchange e s.exchanges ≡ none
      → named_or_default server default_exchange e new ch s ≡ new ch s
  unfolding named_or_default cached_or
  named_absent e new ch s named f = rw (named, f)

  Opened-get_channel :
      (channel : Option Channel) (s : State) (ch : ℕ) (t : State)
      → get_channel server default_exchange channel s ≡ (ok ch, t)
      → Opened (chosen channel s) ch s t
  unfolding get_channel
  Opened-get_channel channel s ch t h =
      let c = chosen channel s in
      Opened-get_channel_of c (find (λ i j. i == j) c.identity s.channels) s.connected s ch t refl h

  -- After the server declared the exchange, its binding only keeps what is held.
  Held-new_of :
      (e : RabbitExchange) (declare : Option Bool) (exch : ℕ) (default c : Channel) (ch : ℕ)
      (t : State)
      → let r = declare_exchange_at ch e (passive declare (options_of e).declare) in
        server t.requests r ≡ ok exch
        → Held e exch default c ch (with_new e exch r t)
        → Held e exch default c ch (new_of e declare ch t).1
  unfolding declare_new_exchange ask put_exchange
  Held-new_of (unbound o) declare exch default c ch t answered h = rw answered h
  Held-new_of (bound_to o parent) declare exch default c ch t answered h =
      let k = Keeps-declare_exchange (bound_to o parent) exch default c ch parent none none in
      rw answered ((Keeps-binding (bound_to o parent) exch default c ch o parent k exch).at _ h)

  -- Once the server declared an exchange, declaring it again over the same channel returns the same
  -- object and asks the server nothing. So it is also where declaring the parent or binding to it
  -- failed: the exchange is then taken for declared and is never bound.
  pub declare_exchange-again :
      (e : RabbitExchange) (declare again : Option Bool) (channel : Option Channel) (s t : State)
      (ch exch : ℕ)
      → str_eq (options_of e).name "" ≡ false
      → get_channel server default_exchange channel s ≡ (ok ch, t)
      → find same_exchange e t.exchanges ≡ none
      → server t.requests (declare_exchange_at ch e (passive declare (options_of e).declare))
        ≡ ok exch
      → let after = (declare_exchange server default_exchange e declare channel s).1 in
        declare_exchange server default_exchange e again channel after ≡ (ok exch, after)
  declare_exchange-again e declare again channel s t ch exch named opened absent answered =
      let c = chosen channel s in
      let run : declare_exchange server default_exchange e declare channel s
          ≡ new_of e declare ch t =
        rw (declare_exchange_lem e declare channel, opened)
          (named_absent e (new_of e declare) ch t named absent) in
      let r = declare_exchange_at ch e (passive declare (options_of e).declare) in
      let start =
        Held-with_new e exch r c ch s t (Opened-get_channel channel s ch t opened) absent in
      let held = Held-new_of e declare exch s.default_channel c ch t answered start in
      let after = (new_of e declare ch t).1 in
      rw run (
        declare-Held e again channel exch s.default_channel c ch after named
          (chosen_same channel s after held.default_kept) held)
