-- ===== src/Lib.antt =====
-- FastStream: the core of a framework for event streams over message brokers.
--
-- A subscriber gets raw messages from the client of a broker. For each one it enters its lock, a
-- scope of the context and a stack of middlewares, parses the message, asks its handlers in order
-- which of them wants it, calls that one under the consume scopes of the middlewares, publishes
-- the answer under their publish scopes, and leaves all that it entered. The acknowledgement
-- middleware then settles the message with the broker.
--
-- Prelude         shared names, lists, dicts and Boolean tests
-- Exceptions      faststream/exceptions.py: the classes, `isinstance`, outcomes of calls
-- Value           the Python values that pass through the framework without being looked into
-- Context         faststream/_internal/context/repository.py: ContextRepo and ContextScope
-- Exec            coroutines as functions of a state, and what they keep of it
-- Message         faststream/message/message.py: StreamMessage, `decode`, `ack`, `nack`, `reject`
-- Response        faststream/response: Response, PublishCommand, batches
-- Runtime         the state that a message is processed in, and the blocks that enter and leave
-- Middleware      faststream/_internal/middlewares.py and the exit stack; below it
--                 faststream/middlewares/acknowledgement, logging.py and exception.py
-- Subscriber      faststream/_internal/endpoint/subscriber/usecase.py and call_item.py:
--                 HandlerItem, `is_suitable`, `process_message`, `consume`, `stop`
-- Lock            faststream/_internal/endpoint/subscriber/utils.py: MultiLock, and the steps of a
--                 subscriber that stops while messages are processed
-- Concurrent      faststream/_internal/endpoint/subscriber/mixins.py: ConcurrentMixin, the workers of a
--                 subscriber, as steps of its tasks, and their supervisor
-- Supervisor      faststream/_internal/endpoint/subscriber/supervisor.py: what a failed task does
-- Application     faststream/_internal/application.py: hooks and brokers at start and stop
-- Text            texts as code points, UTF-8, and `split`
-- Codec           faststream/message/utils.py: encode_message, decode_message
-- BinaryFormat    faststream/redis/parser/binary.py: BinaryMessageFormatV1, its writer and reader
-- Configs         faststream/_internal/configs/broker.py: BrokerConfig, ConfigComposition
-- Registrator     faststream/_internal/broker/registrator.py: members and the inclusion of routers
-- Nats            faststream/nats/schemas/js_stream.py and nats/testing.py: subjects and delivery
-- Rabbit          faststream/rabbit/testing.py: topic patterns and delivery; below it the channel manager and
--                 the declarer of faststream/rabbit/helpers
-- Kafka           faststream/_internal/kafka/keys.py and kafka/response.py: keys of a batch
-- Settling        faststream/nats/message.py, kafka/message.py, confluent/message.py,
--                 rabbit/message.py and redis/message.py: what `ack`, `nack` and `reject` tell a
--                 broker
-- Endpoint        faststream/_internal/endpoint: the publish scopes around a producer, process_msg,
--                 and the choice of parsers and decoders
-- Cli             faststream/_internal/cli/utils/parser.py: the arguments for the application
-- Address         faststream/_internal/utils/path.py: address templates
-- Streams         faststream/redis/subscriber/usecases/stream_subscriber.py and
--                 redis/schemas/stream_sub.py: the options of a stream, where its subscriber reads,
--                 its entries as messages, and the loop that reads them
-- Calls           faststream/_internal/testing/calls.py: the calls an endpoint records under a test
--                 broker, and the assertions on them
-- Tests           a small application, on which each theorem is applied
--
-- A coroutine is a function of the state into an outcome and a state: it is run to its end by one
-- task. What is written before an exception stays written. Objects that the code shares and
-- mutates, the messages, the registrators, the hooks of an application, the context variables and
-- the middlewares with fields, are numbered. Loops run over lists, or over what the client of a
-- broker answers one time after the other, so they need no fuel, but for two. What a registrator
-- counts as its own is collected down the tree of its routers with fuel, and any number above its
-- height in that tree is enough. The hooks and brokers of an application are looked up at each turn
-- of a loop, since they can be added on the way; fuel above a bound on these lists is enough. Where
-- tasks go on in any order, the model is a relation of steps: the lock of a subscriber that starts
-- and stops, and the workers of a concurrent one, up to its stop. Numbers of the binary format keep
-- their widths: a number that does not fit in two or four bytes is the error that the writer raises.
--
-- Parameters of the model are the code of the application (handlers, filters, middlewares), the
-- parsers and decoders, and the clients of the brokers. Not modelled are the commands of the
-- command line, the integrations with web frameworks, metrics, traces and the generated
-- documents.
pub mod Prelude
pub mod Exceptions
pub mod Value
pub mod Context
pub mod Exec
pub mod Message
pub mod Response
pub mod Runtime
pub mod Middleware
pub mod Subscriber
pub mod Text
pub mod BinaryFormat
pub mod Configs
pub mod Registrator
pub mod Nats
pub mod Rabbit
pub mod Kafka
pub mod Lock
pub mod Supervisor
pub mod Application
pub mod Cli
pub mod Calls
pub mod Concurrent
pub mod Codec
pub mod Settling
pub mod Endpoint
pub mod Address
pub mod Streams
pub mod Tests
