-- ===== src/Endpoint.antt =====
-- _internal/endpoint: how a publisher carries out a command (publisher/usecase.py), how a message
-- that was asked for is processed (utils.py), and which parser and decoder a subscriber takes.
pub mod Publishing
pub mod Processing
pub mod Choosing
use faststream.Prelude.{
  ℕ, Bool, true, false, Option, none, some, List, [], ◌∷◌, ◌++◌, reverse, if◌then◌else◌,
}
use faststream.Exceptions.{Exc, Result, ok, err, raised, assertion_error, value_error}
use faststream.Value.{Value}
use faststream.Message.{StreamMessage, SourceType, response, set_decoder}
use faststream.Response.{PublishCommand}
use faststream.Runtime.{World, on_message}
use faststream.Exec.{Exec, pure, raise, modify, continue, ◌>>=◌, ◌>>◌}
use faststream.Middleware.{Middleware, within}

-- `m(msg, context=context)`, for a message or for none
abbrev pub Factory : Type 0 → Type 0
Factory U = Option ℕ → Exec (World U) (Middleware U ℕ)

-- What a producer or a publish scope does with a command.
abbrev pub Sending : Type 0 → Type 0 → Type 0
Sending U R = PublishCommand → Exec (World U) R

module _ {U : Type 0} where
  -- The loop over the stack of a publisher, where nothing came with the call: the publish scopes of
  -- the broker's middlewares, each made as the loop comes to it.
  unfoldable pub publish_under : List (Factory U) → Sending U Value → Sending U Value
  publish_under [] pub_call cmd = pub_call cmd
  publish_under (f ∷ fs) pub_call cmd = do
    m ← f none
    publish_under fs (m.publish_scope pub_call) cmd

  -- for pub_m in …: pub = partial(pub_m, pub)
  unfoldable pub publish_with :
      List (Sending U Value → Sending U Value) → Sending U Value → Sending U Value
  publish_with [] pub_call cmd = pub_call cmd
  publish_with (scope ∷ scopes) pub_call cmd = publish_with scopes (scope pub_call) cmd

  -- _basic_publish and _basic_publish_batch, with _build_middlewares_stack
  unfoldable pub basic_publish :
      List (Factory U)
      → List (Sending U Value → Sending U Value)
      → Sending U Value
      → Sending U Value
  unfolding publish_under publish_with
  basic_publish broker_middlewares [] producer cmd =
      publish_under (reverse broker_middlewares) producer cmd
  basic_publish broker_middlewares (scope ∷ scopes) producer cmd =
      publish_with (scope ∷ scopes) producer cmd

  -- The loop of process_msg: each middleware is entered as it is made, and its consume scope put
  -- around those of the ones before.
  unfoldable pub enter_wrapping :
      List (Factory U)
      → ℕ
      → (ℕ → Exec (World U) ℕ)
      → ((ℕ → Exec (World U) ℕ) → Exec (World U) (Option ℕ))
      → Exec (World U) (Option ℕ)
  enter_wrapping [] raw return_msg body = body return_msg
  enter_wrapping (f ∷ fs) raw return_msg body = do
    m ← f (some raw)
    within m (enter_wrapping fs raw (m.consume_scope return_msg) body)

  -- The parser, and what is set on the message that it made.
  unfoldable pub parsed : (ℕ → Exec (World U) ℕ) → ℕ → SourceType → ℕ → Exec (World U) ℕ
  parsed parser decoder source_type raw = do
    m ← parser raw
    modify (on_message m (λ msg. set_decoder decoder (record msg { source_type = source_type })))
    pure m

  abbrev pub or_unreachable : Option ℕ → Exec (World U) (Option ℕ)
  or_unreachable none = raise (raised assertion_error)
  or_unreachable (some m) = pure (some m)

  -- process_msg
  unfoldable pub process_msg :
      List (Factory U)
      → (ℕ → Exec (World U) ℕ)
      → ℕ
      → SourceType
      → Option ℕ
      → Exec (World U) (Option ℕ)
  unfolding enter_wrapping parsed
  process_msg middlewares parser decoder source_type none = pure none
  process_msg middlewares parser decoder source_type (some raw) = do
    out ← enter_wrapping middlewares raw pure (λ return_msg. do
      m ← parsed parser decoder source_type raw
      result ← return_msg m
      pure (some result))
    or_unreachable out

  -- _basic_request: the answer of the producer is the number of a raw message. `scope` is the
  -- publish scope of a middleware, which takes a request as it takes a publication.
  unfoldable pub basic_request :
      List (Factory U)
      → Sending U Value
      → (Value → Option ℕ)
      → (ℕ → Exec (World U) ℕ)
      → ℕ
      → Sending U (Option ℕ)
  unfolding publish_under process_msg
  basic_request broker_middlewares request raw_of parser decoder cmd = do
    published ← publish_under (reverse broker_middlewares) request cmd
    process_msg (reverse broker_middlewares) parser decoder response (raw_of published)

-- What a user gives as a parser or a decoder: of one parameter, or of two, of which the second is
-- the default one.
pub data Custom (F : Type 0) : Type 0 where
  replacing : F → Custom F
  around : (F → F) → Custom F

-- ParserComposition.__init__
unfoldable pub composed : {F : Type 0} → Option (Custom F) → F → F
composed none default_func = default_func
composed (some (replacing f)) default_func = f
composed (some (around f)) default_func = f default_func

-- A codec, and what it does for a batch where it can.
pub record Codec (F : Type 0) : Type 0 where
  pub decode : F
  pub decode_batch : Option F

abbrev pub first_given : {A : Type 0} → List (Option A) → Option A
first_given [] = none
first_given (none ∷ os) = first_given os
first_given (some a ∷ os) = some a

pub record Resolution (F : Type 0) : Type 0 where
  pub item_parser : Option (Custom F)
  pub item_decoder : Option (Custom F)
  pub call_parser : Option (Custom F)
  pub call_decoder : Option (Custom F)
  pub call_codec : Option (Codec F)
  pub broker_parser : Option (Custom F)
  pub broker_decoder : Option (Custom F)
  pub broker_codec : Option (Codec F)
  -- those of the subscriber's kind, and whether the decoder is `decode_batch`
  pub parser : F
  pub decoder : F
  pub is_batch : Bool

module _ {F : Type 0} where
  decoder_of : F → Bool → Option (Codec F) → Option (Custom F) → Result F
  decoder_of default_func is_batch (some c) (some d) = err (raised value_error)
  decoder_of default_func false (some c) none = ok c.decode
  decoder_of default_func true (some c) none = elim c.decode_batch [
    | none ↦ err (raised value_error)
    | some f ↦ ok f
  ]
  decoder_of default_func is_batch none d = ok (composed d default_func)

  abbrev pub paired : F → Result F → Result (F × F)
  paired async_parser (ok async_decoder) = ok (async_parser, async_decoder)
  paired async_parser (err e) = err e

  -- _get_parser_and_decoder
  unfoldable pub get_parser_and_decoder : Resolution F → Result (F × F)
  unfolding decoder_of composed
  get_parser_and_decoder r =
      let parser = first_given (r.item_parser ∷ r.call_parser ∷ r.broker_parser ∷ []) in
      let codec = first_given (r.call_codec ∷ r.broker_codec ∷ []) in
      let decoder = first_given (r.item_decoder ∷ r.call_decoder ∷ r.broker_decoder ∷ []) in
      paired (composed parser r.parser) (decoder_of r.decoder r.is_batch codec decoder)
