-- ===== src/Rabbit/Declarer/Growth.antt =====
-- How the requests and the cache of exchanges grow, and which exchanges of it are bound.
use faststream.Prelude.{
  ℕ, Bool, true, false, ◌≡◌, sym, ap, ◌∙◌, none, some, List, [], ◌∷◌, ◌++◌, append_assoc,
  append-nil, All, arith, ==-refl, str_eq, eq_refl,
}
use faststream.Exceptions.{Result, ok}
use faststream.Rabbit.Declarer.{
  RabbitExchange, unbound, bound_to, options_of, routing, Request, bind, State, find, same_exchange,
}

pub find-append :
    {K : Type 0} (same : K → K → Bool) (k : K) (v : ℕ) (xs ys : List (K × ℕ))
    → find same k xs ≡ some v
    → find same k (xs ++ ys) ≡ some v
find-append same k v [] ys h = cc
find-append same k v ((j, w) ∷ xs) ys h = ground (arith, h, find-append same k v xs ys)

pub find-last :
    {K : Type 0} (same : K → K → Bool) (k : K) (v : ℕ) (xs : List (K × ℕ))
    → same k k ≡ true
    → find same k xs ≡ none
    → find same k (xs ++ (k, v) ∷ []) ≡ some v
find-last same k v [] r h = ground (arith, r)
find-last same k v ((j, w) ∷ xs) r h = ground (arith, h, r, find-last same k v xs r)

pub same_exchange_refl : (e : RabbitExchange) → same_exchange e e ≡ true
unfolding same_exchange
same_exchange_refl e = ground (
  arith,
  eq_refl (options_of e).name,
  ==-refl (options_of e).type,
  ==-refl (options_of e).arguments,
)

module _ (server : List Request → Request → Result ℕ) (default_exchange : ℕ → ℕ) where
  -- The request was made, and the server answered it.
  pub record Answered (r : Request) (requests : List Request) : Type 0 where
    pub before : List Request
    pub after : List Request
    pub answer : ℕ
    pub place : requests ≡ before ++ r ∷ after
    pub answered : server before r ≡ ok answer

  pub Answered-append :
      (r : Request) (requests more : List Request)
      → Answered r requests
      → Answered r (requests ++ more)
  Answered-append r requests more a = record {
    before = a.before;
    after = a.after ++ more;
    answer = a.answer;
    place = ap (λ (l : List Request). l ++ more) a.place ∙ append_assoc a.before (r ∷ a.after) more;
    answered = a.answered;
  }

  -- The number stands for the exchange: without a name for the default exchange of a channel, and
  -- else for what the cache holds for it.
  pub record IsObject (exchanges : List (RabbitExchange × ℕ)) (e : RabbitExchange) (obj : ℕ)
      : Type 0 where
    pub default : str_eq (options_of e).name "" ≡ true → (ch : ℕ) × (obj ≡ default_exchange ch)
    pub cached : str_eq (options_of e).name "" ≡ false → find same_exchange e exchanges ≡ some obj

  pub IsObject-append :
      (exchanges more : List (RabbitExchange × ℕ)) (e : RabbitExchange) (obj : ℕ)
      → IsObject exchanges e obj
      → IsObject (exchanges ++ more) e obj
  IsObject-append exchanges more e obj i = record {
    default = i.default;
    cached = λ named. find-append same_exchange e obj exchanges more (i.cached named);
  }

  -- An exchange with a parent was bound to the parent's object on the server.
  abbrev pub IsBound : List Request → List (RabbitExchange × ℕ) → RabbitExchange × ℕ → Type 0
  IsBound requests exchanges (unbound o, exch) = Unit
  IsBound requests exchanges (bound_to o parent, exch) =
      (parent_obj : ℕ) × IsObject exchanges parent parent_obj
      × Answered (bind exch parent_obj (routing o) o.bind_arguments) requests

  module _ (requests more : List Request) (exchanges others : List (RabbitExchange × ℕ)) where
    pub IsBound-append :
        (e : RabbitExchange × ℕ)
        → IsBound requests exchanges e
        → IsBound (requests ++ more) (exchanges ++ others) e
    IsBound-append (unbound o, exch) b = tt
    IsBound-append (bound_to o parent, exch) (p, i, a) = (
      p,
      IsObject-append exchanges others parent p i,
      Answered-append (bind exch p (routing o) o.bind_arguments) requests more a,
    )

    pub All-append :
        (es : List (RabbitExchange × ℕ))
        → All (IsBound requests exchanges) es
        → All (IsBound (requests ++ more) (exchanges ++ others)) es
    All-append [] b = tt
    All-append (e ∷ es) (b, bs) = (IsBound-append e b, All-append es bs)

  pub All-join :
      (requests : List Request) (exchanges xs ys : List (RabbitExchange × ℕ))
      → All (IsBound requests exchanges) xs
      → All (IsBound requests exchanges) ys
      → All (IsBound requests exchanges) (xs ++ ys)
  All-join requests exchanges [] ys b c = c
  All-join requests exchanges (x ∷ xs) ys (h, b) c = (h, All-join requests exchanges xs ys b c)

  -- The requests and the cache grew, and what is new in the cache is bound.
  pub record Grown (s t : State) : Type 0 where
    pub more : List Request
    pub requests : t.requests ≡ s.requests ++ more
    pub new : List (RabbitExchange × ℕ)
    pub exchanges : t.exchanges ≡ s.exchanges ++ new
    pub bound : All (IsBound t.requests t.exchanges) new

  pub Grown-refl : (s : State) → Grown s s
  Grown-refl s = record {
    more = [];
    requests = sym (append-nil s.requests);
    new = [];
    exchanges = sym (append-nil s.exchanges);
    bound = tt;
  }

  pub Grown-trans : (s t u : State) → Grown s t → Grown t u → Grown s u
  Grown-trans s t u g h = record {
    more = g.more ++ h.more;
    requests = h.requests ∙ (rw g.requests (append_assoc s.requests g.more h.more));
    new = g.new ++ h.new;
    exchanges = h.exchanges ∙ (rw g.exchanges (append_assoc s.exchanges g.new h.new));
    bound =
        All-join u.requests u.exchanges g.new h.new
          (rw (h.requests, h.exchanges)
            (All-append t.requests h.more t.exchanges h.new g.new g.bound))
          h.bound;
  }
