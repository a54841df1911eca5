-- ===== src/Streams.antt =====
-- redis/subscriber/usecases/stream_subscriber.py: how entries of a stream are read, made into
-- messages and handed on, and what ends the reading.
pub mod Items
pub mod Entries
pub mod Reading
pub mod Starting
pub mod Claiming
use faststream.Prelude.{
  ℕ, suc, Bool, true, false, Option, none, some, List, [], ◌∷◌, ◌++◌, map, any, if◌then◌else◌,
}
use faststream.Exceptions.{
  Exc, ExcClass, Result, ok, err, raised, value_error, isinstance, exception, derived, builtin,
  faststream_exception, mro, same_class,
}
use faststream.Exec.{Exec, pure, raise, lift, gets, modify, continue, attempt, ◌>>=◌, ◌>>◌}

-- `redis.exceptions.ResponseError`, StreamClaimUnsupportedError and StreamGroupNotFoundError
abbrev pub response_error : ExcClass
response_error = derived 10 (builtin exception)

abbrev pub claim_unsupported : ExcClass
claim_unsupported = derived 11 (builtin faststream_exception)

abbrev pub group_not_found : ExcClass
group_not_found = derived 12 (builtin faststream_exception)

abbrev pub is_a : ExcClass → Exc → Bool
is_a cls e = any (λ c. same_class c cls) (mro e.cls)

-- An entry of a stream: its identifier, its data, and what the server sends behind them.
pub record Entry : Type 0 where
  pub message_id : ℕ
  pub raw : ℕ
  pub claim_meta : List ℕ

pub record ClaimMeta : Type 0 where
  pub idle_time : ℕ
  pub delivery_count : ℕ

-- What the server answers to a read: the streams with their entries.
abbrev pub ReadResponse : Type 0
ReadResponse = List (ℕ × List Entry)

-- A message: of one entry, or of a batch.
pub record RawMessage : Type 0 where
  pub channel : ℕ
  pub message_ids : List ℕ
  pub content : List ℕ
  pub idle_times : Option (List ℕ)
  pub delivery_counts : Option (List ℕ)

-- One entry as it stands in a message that was handed on.
pub record Item : Type 0 where
  pub channel : ℕ
  pub message_id : ℕ
  pub raw : ℕ
  pub idle_time : Option ℕ
  pub delivery_count : Option ℕ

pub record Reader : Type 0 where
  pub last_id : ℕ
  pub running : Bool
  pub start_signal : Bool
  pub exit_requested : Bool
  -- the entries in the messages that were handed on, and the number of reads
  pub handled : List Item
  pub reads : ℕ
  pub critical : List Exc
  pub errors : List Exc

-- _parse_stream_entry
unfoldable pub parse_stream_entry : Option ℕ → Entry → Result (Option ClaimMeta)
parse_stream_entry none entry = ok none
parse_stream_entry (some min_idle) entry = elim entry.claim_meta [
  | [] ↦ err (raised value_error)
  | idle ∷ rest ↦ elim rest [
    | [] ↦ err (raised value_error)
    | count ∷ more ↦ elim more [
      | [] ↦ ok (some (record { idle_time = idle; delivery_count = count }))
      | _ ∷ _ ↦ err (raised value_error)
    ]
  ]
]

-- the loop of the batch subscriber over the entries
unfoldable pub parse_all : Option ℕ → List Entry → Result (List (Option ClaimMeta))
unfolding parse_stream_entry
parse_all claim_min_idle_time [] = ok []
parse_all claim_min_idle_time (e ∷ es) =
    let rest = parse_all claim_min_idle_time es in
    elim (parse_stream_entry claim_min_idle_time e) [
      | err x ↦ err x
      | ok meta ↦ elim rest [ err x ↦ err x | ok metas ↦ ok (meta ∷ metas) ]
    ]

abbrev given_of : List (Option ClaimMeta) → List ClaimMeta
given_of [] = []
given_of (none ∷ metas) = given_of metas
given_of (some m ∷ metas) = m ∷ given_of metas

abbrev pub with_metas : List ClaimMeta → RawMessage → RawMessage
with_metas [] message = message
with_metas (m ∷ metas) message = record message {
  idle_times = some (map (λ c. c.idle_time) (m ∷ metas));
  delivery_counts = some (map (λ c. c.delivery_count) (m ∷ metas));
}

-- _attach_claim_metadata
unfoldable pub attach_claim_metadata : RawMessage → List (Option ClaimMeta) → RawMessage
attach_claim_metadata message claim_metas = with_metas (given_of claim_metas) message

abbrev plain_message : ℕ → List ℕ → List ℕ → RawMessage
plain_message channel ids content = record {
  channel = channel;
  message_ids = ids;
  content = content;
  idle_times = none;
  delivery_counts = none;
}

-- msgs[-1][0]
abbrev pub last_of : Entry → List Entry → ℕ
last_of e [] = e.message_id
last_of e (f ∷ fs) = last_of f fs

module _ (claim_min_idle_time : Option ℕ) (consume_one : RawMessage → Exec Reader (Unit {0})) where
  unfoldable pub each_entry : ℕ → List Entry → Exec Reader (Unit {0})
  unfolding parse_stream_entry attach_claim_metadata
  each_entry channel [] = pure tt
  each_entry channel (e ∷ es) = do
    meta ← lift (parse_stream_entry claim_min_idle_time e)
    consume_one
        (attach_claim_metadata (plain_message channel (e.message_id ∷ []) (e.raw ∷ [])) (meta ∷ []))
    each_entry channel es

  -- StreamSubscriber._get_msgs, on what the read answered
  unfoldable pub get_msgs : ReadResponse → Exec Reader (Unit {0})
  unfolding each_entry
  get_msgs [] = pure tt
  get_msgs ((channel, []) ∷ streams) = get_msgs streams
  get_msgs ((channel, e ∷ es) ∷ streams) = do
    modify (λ s. record s { last_id = last_of e es })
    each_entry channel (e ∷ es)
    get_msgs streams

  -- StreamBatchSubscriber._get_msgs
  unfoldable pub get_msgs_batch : ReadResponse → Exec Reader (Unit {0})
  unfolding parse_all attach_claim_metadata
  get_msgs_batch [] = pure tt
  get_msgs_batch ((channel, []) ∷ streams) = get_msgs_batch streams
  get_msgs_batch ((channel, e ∷ es) ∷ streams) = do
    modify (λ s. record s { last_id = last_of e es })
    metas ← lift (parse_all claim_min_idle_time (e ∷ es))
    consume_one (
        attach_claim_metadata
          (plain_message channel (map (λ x. x.message_id) (e ∷ es)) (map (λ x. x.raw) (e ∷ es)))
          metas)
    get_msgs_batch streams

-- How one turn of a loop ends: the loop goes on, it is left by `return`, or by an exception.
pub data Turn : Type 0 where
  again returned : Turn
  raised_out : Exc → Turn

-- `while self.running`, where `t` is how the turn ends, if there is one
abbrev pub if_running : Bool → Turn → (Reader → Turn × Reader) → Reader → Reader → Turn × Reader
if_running false t rest s' s = (returned, s)
if_running true again rest s' s = rest s'
if_running true returned rest s' s = (returned, s')
if_running true (raised_out e) rest s' s = (raised_out e, s')

-- `says_nogroup` and `says_syntax` look for words in the text of an error.
module _ (says_nogroup says_syntax : Exc → Bool) where
  -- what _xreadgroup makes of an error
  unfoldable pub xreadgroup_error : Option ℕ → Exc → Exc
  xreadgroup_error none e = e
  xreadgroup_error (some min_idle) e =
      if is_a response_error e
      then (if says_syntax e then record e { cls = claim_unsupported } else e)
      else e

  -- _stop_on_terminal_error, where `stop` is that of the subscriber
  unfoldable pub stop_on_terminal_error : Bool → Exc → Reader → Reader
  stop_on_terminal_error has_app e s = record s {
    critical = s.critical ++ e ∷ [];
    running = false;
    exit_requested = if has_app then true else s.exit_requested;
  }

  abbrev signalled : Reader → Reader
  signalled s = record s { start_signal = true }

  after_error : Bool → Exc → Reader → Turn × Reader
  unfolding stop_on_terminal_error
  after_error has_app e s =
      if is_a claim_unsupported e
      then (returned, stop_on_terminal_error has_app e s)
      else if is_a response_error e
      then (if says_nogroup e
          then (returned, stop_on_terminal_error has_app (record e { cls = group_not_found }) s)
          else (raised_out e, s))
      else if isinstance e exception
      then (again, record s { errors = s.errors ++ e ∷ [] })
      else (raised_out e, s)

  after_get_msgs : Bool → Result (Unit {0}) → Reader → Turn × Reader
  unfolding after_error
  after_get_msgs has_app (ok _) s = (again, s)
  after_get_msgs has_app (err e) s = after_error has_app e s

  -- the body of `while self.running`, with its `finally`
  unfoldable pub turn : Bool → Exec Reader (Unit {0}) → Reader → Turn × Reader
  unfolding after_get_msgs
  turn has_app fetch s =
      let (r, s') = fetch (record s { reads = suc s.reads }) in
      let (t, s'') = after_get_msgs has_app r s' in (t, signalled s'')

  -- _consume, over what the fetches do one after the other: how it stands after them, and the
  -- reader.
  unfoldable pub consume_loop : Bool → List (Exec Reader (Unit {0})) → Reader → Turn × Reader
  consume_loop has_app [] s = (again, s)
  consume_loop has_app (fetch ∷ fetches) s =
      let (t, s') = turn has_app fetch s in
      if_running s.running t (λ r. consume_loop has_app fetches r) s' s
