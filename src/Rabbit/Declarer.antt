-- ===== src/Rabbit/Declarer.antt =====
-- rabbit/helpers/channel_manager.py and declarer.py: channels, queues and exchanges that were
-- opened or declared over the current connection are kept, and not asked for again.
pub mod Caching
pub mod Growing
pub mod Binding
pub mod Growth
use faststream.Prelude.{
  ℕ, Bool, true, false, not, Option, none, some, List, [], ◌∷◌, ◌++◌, ◌==◌, ◌&&◌, str_eq, String,
  if◌then◌else◌,
}
use faststream.Exceptions.{Result, ok, err, raised, incorrect_state}
use faststream.Exec.{Exec, pure, raise, gets, modify, continue, ◌>>=◌, ◌>>◌}

-- The arguments are known by a number: equal ones have the same.
pub record RabbitQueue : Type 0 where
  pub name : String
  pub durable : Bool
  pub exclusive : Bool
  pub auto_delete : Bool
  pub arguments : ℕ
  pub declare : Bool

pub record ExchangeOptions : Type 0 where
  pub name : String
  pub type : ℕ
  pub durable : Bool
  pub auto_delete : Bool
  pub arguments : ℕ
  pub declare : Bool
  pub routing_key : String
  pub bind_arguments : ℕ

-- An exchange without `bind_to`, or with it.
pub data RabbitExchange : Type 0 where
  unbound : ExchangeOptions → RabbitExchange
  bound_to : ExchangeOptions → RabbitExchange → RabbitExchange

abbrev pub options_of : RabbitExchange → ExchangeOptions
options_of (unbound o) = o
options_of (bound_to o parent) = o

abbrev pub routing : ExchangeOptions → String
routing o = if str_eq o.routing_key "" then o.name else o.routing_key

abbrev same_flag : Bool → Bool → Bool
same_flag true b = b
same_flag false b = not b

-- RabbitQueue.__eq__
unfoldable pub same_queue : RabbitQueue → RabbitQueue → Bool
same_queue a b =
    str_eq a.name b.name
    && (same_flag a.durable b.durable
        && (same_flag a.exclusive b.exclusive
            && (same_flag a.auto_delete b.auto_delete && (a.arguments == b.arguments))))

-- RabbitExchange.__eq__, which does not look at `bind_to`
unfoldable pub same_exchange : RabbitExchange → RabbitExchange → Bool
same_exchange x y =
    let a = options_of x in
    let b = options_of y in
    str_eq a.name b.name
    && ((a.type == b.type)
        && (same_flag a.durable b.durable
            && (same_flag a.auto_delete b.auto_delete && (a.arguments == b.arguments))))

-- Channels are told apart by their identity.
pub record Channel : Type 0 where
  pub identity : ℕ
  pub prefetch_count : ℕ

-- What the server is asked. Objects on the server's side are numbered.
pub data Request : Type 0 where
  open_channel : ℕ → Request
  -- a channel and a prefetch count
  set_qos : ℕ → ℕ → Request
  -- a channel, the object and `passive`
  declare_queue_at : ℕ → RabbitQueue → Bool → Request
  declare_exchange_at : ℕ → RabbitExchange → Bool → Request
  -- an exchange, its parent, the routing key and the arguments of the binding
  bind : ℕ → ℕ → String → ℕ → Request

pub record State : Type 0 where
  pub connected : Bool
  pub default_channel : Channel
  pub channels : List (ℕ × ℕ)
  pub queues : List (RabbitQueue × ℕ)
  pub exchanges : List (RabbitExchange × ℕ)
  pub requests : List Request

abbrev pub find : {K : Type 0} → (K → K → Bool) → K → List (K × ℕ) → Option ℕ
find same k [] = none
find same k ((j, v) ∷ d) = if same j k then some v else find same k d

abbrev pub chosen : Option Channel → State → Channel
chosen none s = s.default_channel
chosen (some channel) s = channel

abbrev pub passive : Option Bool → Bool → Bool
passive none own = not own
passive (some declare) own = not declare

-- `server` answers a request with the number of an object, or raises; `default_exchange` is that
-- of a channel.
module _ (server : List Request → Request → Result ℕ) (default_exchange : ℕ → ℕ) where
  unfoldable pub ask : Request → Exec State ℕ
  ask r s = (server s.requests r, record s { requests = s.requests ++ r ∷ [] })

  open_new : Channel → Exec State ℕ
  unfolding ask
  open_new channel = do
    ch ← ask (open_channel channel.identity)
    modify (λ s. record s { channels = s.channels ++ (channel.identity, ch) ∷ [] })
    (if channel.prefetch_count == 0
        then pure ch
        else (do ask (set_qos ch channel.prefetch_count); pure ch))

  get_channel_of : Channel → Option ℕ → Bool → Exec State ℕ
  unfolding open_new
  get_channel_of channel (some ch) connected = pure ch
  get_channel_of channel none true = open_new channel
  get_channel_of channel none false = raise (raised incorrect_state)

  -- ChannelManagerImpl.get_channel
  unfoldable pub get_channel : Option Channel → Exec State ℕ
  unfolding get_channel_of
  get_channel channel s =
      let c = chosen channel s in
      get_channel_of c (find (λ i j. i == j) c.identity s.channels) s.connected s

  declare_new_queue : RabbitQueue → Option Bool → Option Channel → Exec State ℕ
  unfolding get_channel ask
  declare_new_queue queue declare channel = do
    channel_obj ← get_channel channel
    q ← ask (declare_queue_at channel_obj queue (passive declare queue.declare))
    modify (λ s. record s { queues = s.queues ++ (queue, q) ∷ [] })
    pure q

  -- RabbitDeclarerImpl.declare_queue
  unfoldable pub declare_queue : RabbitQueue → Option Bool → Option Channel → Exec State ℕ
  unfolding declare_new_queue
  declare_queue queue declare channel s = elim (find same_queue queue s.queues) [
    | some q ↦ (ok q, s)
    | none ↦ declare_new_queue queue declare channel s
  ]

  put_exchange : RabbitExchange → ℕ → Exec State (Unit {0})
  put_exchange exchange exch =
      modify (λ s. record s { exchanges = s.exchanges ++ (exchange, exch) ∷ [] })

  pub declare_new_exchange : RabbitExchange → Option Bool → ℕ → Exec State ℕ
  unfolding ask put_exchange
  declare_new_exchange exchange declare channel_obj = do
    exch ←
        ask
          (declare_exchange_at channel_obj exchange (passive declare (options_of exchange).declare))
    put_exchange exchange exch
    pure exch

  -- the exchange in the cache, or else what `new` makes of the channel
  cached_or : RabbitExchange → (ℕ → Exec State ℕ) → ℕ → Option ℕ → Exec State ℕ
  cached_or exchange new channel_obj (some exch) = pure exch
  cached_or exchange new channel_obj none = new channel_obj

  pub named_or_default : RabbitExchange → (ℕ → Exec State ℕ) → ℕ → Exec State ℕ
  unfolding cached_or
  named_or_default exchange new channel_obj s =
      if str_eq (options_of exchange).name ""
      then (ok (default_exchange channel_obj), s)
      else cached_or exchange new channel_obj (find same_exchange exchange s.exchanges) s

  -- RabbitDeclarerImpl.declare_exchange
  unfoldable pub declare_exchange : RabbitExchange → Option Bool → Option Channel → Exec State ℕ
  unfolding get_channel named_or_default declare_new_exchange ask
  declare_exchange (unbound o) declare channel = do
    channel_obj ← get_channel channel
    named_or_default (unbound o) (declare_new_exchange (unbound o) declare) channel_obj
  declare_exchange (bound_to o parent) declare channel = do
    channel_obj ← get_channel channel
    named_or_default (bound_to o parent)
        (λ ch. do
          exch ← declare_new_exchange (bound_to o parent) declare ch
          parent_obj ← declare_exchange parent none none
          ask (bind exch parent_obj (routing o) o.bind_arguments)
          pure exch)
        channel_obj

-- disconnect of both objects, and `connect`
unfoldable pub disconnect : State → State
disconnect s = record s { connected = false; channels = []; queues = []; exchanges = [] }

unfoldable pub connect : State → State
connect s = record s { connected = true }
