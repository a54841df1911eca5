-- ===== src/Rabbit/Declarer/Growing.antt =====
-- What lets the requests and the cache of exchanges grow only.
use faststream.Prelude.{
  ℕ, Bool, true, false, ◌≡◌, refl, sym, Option, none, some, List, [], ◌∷◌, ◌++◌, append-nil, ◌==◌,
  str_eq, if◌then◌else◌,
}
use faststream.Exceptions.{Result, ok, err}
use faststream.Exec.{Exec, continue, modify, ◌>>=◌, pure}
use faststream.Rabbit.Declarer.{
  RabbitExchange, unbound, ExchangeOptions, options_of, Channel, Request, State, chosen, find,
  same_exchange, ask, open_new, get_channel_of, get_channel, put_exchange, declare_new_exchange,
  cached_or, named_or_default,
}
use faststream.Rabbit.Declarer.Growth.{Grown, Grown-refl, Grown-trans}

-- The rest of a chain that returned.
pub continue_returned {ν} :
    {A : Type 0} {B : Type ν} (r : Result A) (f : A → Exec State B) (t : State) (b : B)
    → (continue r f t).0 ≡ ok b
    → (a : A) × (r ≡ ok a) × ((f a t).0 ≡ ok b) × ((continue r f t).1 ≡ (f a t).1)
continue_returned (ok a) f t b h = (a, refl, h, refl)
continue_returned (err e) f t b h = cc

module _ (server : List Request → Request → Result ℕ) (default_exchange : ℕ → ℕ) where
  -- Where `m` returns, the state has grown.
  pub record Grows {κ} {A : Type κ} (m : Exec State A) : Type κ where
    pub at : (s : State) (a : A) → (m s).0 ≡ ok a → Grown server default_exchange s (m s).1

  module _ {κ} {A : Type κ} where
    Grows-pure : (a : A) → Grows (pure {S = State} a)
    Grows-pure a = record { at = λ s b h. Grown-refl server default_exchange s }

    Grows-if : (b : Bool) (m n : Exec State A) → Grows m → Grows n → Grows (if b then m else n)
    Grows-if true m n km kn = km
    Grows-if false m n km kn = kn

    Grows-continue {ν} :
        {B : Type ν} (r : Result A) (f : A → Exec State B) (s t : State)
        → ((a : A) → r ≡ ok a → Grown server default_exchange s t)
        → ((a : A) → Grows (f a))
        → (b : B) → (continue r f t).0 ≡ ok b
        → Grown server default_exchange s (continue r f t).1
    Grows-continue (ok a) f s t g k b h =
        Grown-trans server default_exchange s t (f a t).1 (g a refl) ((k a).at t b h)
    Grows-continue (err e) f s t g k b h = cc

    pub Grows-bind {ν} :
        {B : Type ν} (m : Exec State A) (f : A → Exec State B)
        → Grows m
        → ((a : A) → Grows (f a))
        → Grows (m >>= f)
    Grows-bind m f km kf = record {
      at = λ s b h. Grows-continue (m s).0 f s (m s).1 (λ a e. km.at s a e) kf b h;
    }

  Grows-ask : (r : Request) → Grows (ask server default_exchange r)
  unfolding ask
  Grows-ask r = record {
    at = λ s a h. record {
      more = r ∷ [];
      requests = refl;
      new = [];
      exchanges = sym (append-nil s.exchanges);
      bound = tt;
    };
  }

  Grows-channels :
      (c ch : ℕ) → Grows (modify (λ s. record s { channels = s.channels ++ (c, ch) ∷ [] }))
  Grows-channels c ch = record {
    at = λ s a h. record {
      more = [];
      requests = sym (append-nil s.requests);
      new = [];
      exchanges = sym (append-nil s.exchanges);
      bound = tt;
    };
  }

  ruleset growth = (Grows-pure, Grows-if, Grows-bind, Grows-ask, Grows-channels)

  Grows-open_new : (c : Channel) → Grows (open_new server default_exchange c)
  unfolding open_new
  Grows-open_new c = search growth

  Grows-get_channel_of :
      (c : Channel) (o : Option ℕ) (connected : Bool)
      → Grows (get_channel_of server default_exchange c o connected)
  unfolding get_channel_of
  Grows-get_channel_of c (some ch) connected = Grows-pure ch
  Grows-get_channel_of c none true = Grows-open_new c
  Grows-get_channel_of c none false = record { at = λ s a h. cc }

  pub Grows-get_channel :
      (channel : Option Channel) → Grows (get_channel server default_exchange channel)
  unfolding get_channel
  Grows-get_channel channel = record {
    at = λ s a h.
        (Grows-get_channel_of (chosen channel s)
            (find (λ i j. i == j) (chosen channel s).identity s.channels) s.connected).at
          s a h;
  }

  chosen-Grown :
      (default : Bool) (o : Option ℕ) (e : RabbitExchange) (new : ℕ → Exec State ℕ) (ch : ℕ)
      → Grows (new ch)
      → (s : State) (a : ℕ)
      → (if default
          then (ok (default_exchange ch), s)
          else cached_or server default_exchange e new ch o s).0
        ≡ ok a
      → Grown server default_exchange s
          (if default
            then (ok (default_exchange ch), s)
            else cached_or server default_exchange e new ch o s).1
  unfolding cached_or
  chosen-Grown true o e new ch k s a h = Grown-refl server default_exchange s
  chosen-Grown false (some exch) e new ch k s a h = Grown-refl server default_exchange s
  chosen-Grown false none e new ch k s a h = k.at s a h

  pub Grows-named_or_default :
      (e : RabbitExchange) (new : ℕ → Exec State ℕ)
      → ((ch : ℕ) → Grows (new ch))
      → (ch : ℕ) → Grows (named_or_default server default_exchange e new ch)
  unfolding named_or_default
  Grows-named_or_default e new k ch = record {
    at = λ s a h.
        chosen-Grown (str_eq (options_of e).name "") (find same_exchange e s.exchanges) e new ch
          (k ch) s a h;
  }

  -- A new exchange without a parent needs no binding.
  Grows-put_unbound :
      (o : ExchangeOptions) (exch : ℕ)
      → Grows (put_exchange server default_exchange (unbound o) exch)
  unfolding put_exchange
  Grows-put_unbound o exch = record {
    at = λ s a h. record {
      more = [];
      requests = sym (append-nil s.requests);
      new = (unbound o, exch) ∷ [];
      exchanges = refl;
      bound = (tt, tt);
    };
  }

  pub Grows-new_unbound :
      (o : ExchangeOptions) (declare : Option Bool) (ch : ℕ)
      → Grows (declare_new_exchange server default_exchange (unbound o) declare ch)
  unfolding declare_new_exchange
  Grows-new_unbound o declare ch = search (growth, Grows-put_unbound)
