-- ===== src/Streams/Starting.antt =====
-- redis/schemas/stream_sub.py and stream_subscriber.py: the options of a stream, and where its
-- subscriber starts to read.
use faststream.Prelude.{
  ℕ, Bool, true, false, not, ◌&&◌, ◌||◌, Option, none, some, List, [], ◌∷◌, ◌++◌, ◌==◌,
  if◌then◌else◌,
}
use faststream.Exceptions.{Exc, Result, ok, err, raised, setup_error}
use faststream.Exec.{Exec, pure, raise, gets, modify, ◌>>=◌, ◌>>◌}
use faststream.Streams.{Entry}

-- An identifier to read from: `>`, `$`, or that of an entry.
pub data Position : Type 0 where
  undelivered tail : Position
  behind : ℕ → Position

abbrev pub is_undelivered : Position → Bool
is_undelivered undelivered = true
is_undelivered tail = false
is_undelivered (behind i) = false

abbrev pub given : Option ℕ → Bool
given none = false
given (some x) = true

-- The arguments of `StreamSub`. A name that is empty counts as none.
pub record StreamOptions : Type 0 where
  pub polling_interval : Option ℕ
  pub group : Option ℕ
  pub consumer : Option ℕ
  pub no_ack : Bool
  pub last_id : Option Position
  pub max_records : Option ℕ
  pub min_idle_time : Option ℕ
  pub declare : Bool
  pub claim_min_idle_time : Option ℕ

pub record StreamSub : Type 0 where
  pub group : Option ℕ
  pub consumer : Option ℕ
  pub declare : Bool
  pub polling_interval : ℕ
  pub no_ack : Bool
  pub last_id : Position
  pub max_records : Option ℕ
  pub min_idle_time : Option ℕ
  pub claim_min_idle_time : Option ℕ

abbrev or_hundred : Option ℕ → ℕ
or_hundred none = 100
or_hundred (some n) = if n == 0 then 100 else n

abbrev pub in_group : Option ℕ → Option ℕ → Bool
in_group group consumer = given group && given consumer

abbrev default_id : Option Position → Bool → Position
default_id (some p) grouped = p
default_id none grouped = if grouped then undelivered else tail

abbrev pub sub_of : StreamOptions → StreamSub
sub_of o = record {
  group = o.group;
  consumer = o.consumer;
  declare = o.declare;
  polling_interval = or_hundred o.polling_interval;
  no_ack = o.no_ack;
  last_id = default_id o.last_id (in_group o.group o.consumer);
  max_records = o.max_records;
  min_idle_time = o.min_idle_time;
  claim_min_idle_time = o.claim_min_idle_time;
}

abbrev pub half_given : StreamOptions → Bool
half_given o =
    (given o.group && not (given o.consumer)) || (not (given o.group) && given o.consumer)

-- the checks of `claim_min_idle_time`
abbrev pub bad_claim : Bool → StreamOptions → Position → Bool
bad_claim redis_v710 o last_id =
    not redis_v710
    || given o.min_idle_time
    || o.no_ack
    || not (given o.group)
    || not (is_undelivered last_id)

-- StreamSub.__init__, where `redis_v710` tells whether the installed client is new enough. The
-- warnings are left out.
unfoldable pub stream_sub : Bool → StreamOptions → Result StreamSub
stream_sub redis_v710 o =
    if half_given o
    then err (raised setup_error)
    else if given o.claim_min_idle_time && bad_claim redis_v710 o (sub_of o).last_id
    then err (raised setup_error)
    else ok (sub_of o)

-- What is asked of the server.
pub data Request : Type 0 where
  xgroup_create : Position → Bool → Request
  -- the identifier, `count`, `block`, `noack` and `claim_min_idle_time`
  xreadgroup : Position → Option ℕ → ℕ → Bool → Option ℕ → Request
  -- `min_idle_time` and `start_id`
  xautoclaim : ℕ → ℕ → Request
  xread : Position → ℕ → Option ℕ → Request

pub record Consumer : Type 0 where
  pub last_id : Position
  pub read_id : Position
  pub autoclaim_start_id : ℕ
  pub requests : List Request

-- _StreamHandlerMixin.__init__
abbrev pub consumer_of : StreamSub → Consumer
consumer_of sub = record {
  last_id = sub.last_id;
  read_id = sub.last_id;
  autoclaim_start_id = 0;
  requests = [];
}

abbrev ask : Request → Exec Consumer (Unit {0})
ask r = modify (λ c. record c { requests = c.requests ++ r ∷ [] })

abbrev group_create_id : Position → Position
group_create_id undelivered = tail
group_create_id p = p

module _ (says_exists : Exc → Bool) where
  abbrev after_create : Result (Unit {0}) → Exec Consumer (Unit {0})
  after_create (ok _) = modify (λ c. record c { read_id = undelivered })
  after_create (err e) = if says_exists e then pure tt else raise e

  -- start, up to the start of the loop, where `answer` is what `xgroup_create` does
  unfoldable pub start : StreamSub → Result (Unit {0}) → Exec Consumer (Unit {0})
  start sub answer =
      if in_group sub.group sub.consumer
      then (do
        last_id ← gets (λ c. c.last_id)
        ask (xgroup_create (group_create_id last_id) sub.declare)
        after_create answer
        modify (λ c. record c { last_id = c.read_id }))
      else pure tt

-- what `read` asks of the server, called with `last_id`
unfoldable pub read_request : StreamSub → Consumer → Request
read_request sub c =
    if in_group sub.group sub.consumer
    then elim sub.min_idle_time [
      | none ↦
          xreadgroup c.read_id sub.max_records sub.polling_interval sub.no_ack
            sub.claim_min_idle_time
      | some idle ↦ xautoclaim idle c.autoclaim_start_id
    ]
    else xread c.last_id sub.polling_interval sub.max_records

-- `read` on the answer of `xautoclaim`, by the name of the stream
unfoldable pub after_autoclaim : ℕ → ℕ → List Entry → Consumer → List (ℕ × List Entry) × Consumer
after_autoclaim stream_name next_id messages c = (
  elim messages [
    | [] ↦ if next_id == 0 then [] else (stream_name, []) ∷ []
    | m ∷ more ↦ (stream_name, m ∷ more) ∷ []
  ],
  record c { autoclaim_start_id = next_id },
)
