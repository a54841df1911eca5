-- ===== src/Response.antt =====
-- response/*.py: what a handler answers, and the command that a publisher carries out.
pub mod Batches
use faststream.Prelude.{
  ℕ, String, Bool, true, false, ◌&&◌, Option, none, some, List, [], ◌∷◌, update, if◌then◌else◌,
}
use faststream.Value.{
  Value, Values, null, bool, int, str, bytes, sequence, message, keyed, object, nil, cons, to_list,
  is_none,
}

pub data PublishType : Type 0 where
  publish reply request : PublishType

pub record Response : Type 0 where
  pub body : Value
  pub headers : List (String × Value)
  pub correlation_id : Option String

-- A `PublishCommand`; `extra_bodies` is empty but in a `BatchPublishCommand`.
pub record PublishCommand : Type 0 where
  pub body : Value
  pub headers : List (String × Value)
  pub correlation_id : Option String
  pub publish_type : PublishType
  pub destination : String
  pub reply_to : String
  pub extra_bodies : List Value

unfoldable pub as_publish_command : Response → PublishCommand
as_publish_command r = record {
  body = r.body;
  headers = r.headers;
  correlation_id = r.correlation_id;
  publish_type = publish;
  destination = "";
  reply_to = "";
  extra_bodies = [];
}

-- What `h.call` returned is a `Response` already, or a plain value.
pub data Returned : Type 0 where
  wrapped : Response → Returned
  plain : Value → Returned

unfoldable pub ensure_response : Returned → Response
ensure_response (wrapped r) = r
ensure_response (plain v) = record { body = v; headers = []; correlation_id = none }

-- PublishCommand.batch_bodies, then BatchPublishCommand.batch_bodies
unfoldable pub own_bodies : PublishCommand → List Value
own_bodies c = if is_none c.body then [] else c.body ∷ []

unfoldable pub batch_bodies : PublishCommand → List Value
batch_bodies c = if is_none c.body then c.extra_bodies else c.body ∷ c.extra_bodies

unfoldable pub set_batch_bodies : List Value → PublishCommand → PublishCommand
set_batch_bodies [] c = record c { body = null; extra_bodies = [] }
set_batch_bodies (v ∷ vs) c = record c { body = v; extra_bodies = vs }

unfoldable pub add_headers : List (String × Value) → Bool → PublishCommand → PublishCommand
add_headers headers override c =
    if override
    then record c { headers = update c.headers headers }
    else record c { headers = update headers c.headers }

-- Texts and bytes are sequences of Python that are not split.
unfoldable pub parse_bodies : Value → Bool → Value × List Value
parse_bodies (sequence nil) true = (null, [])
parse_bodies (sequence (cons v vs)) true = (v, to_list vs)
parse_bodies body _ = (body, [])
