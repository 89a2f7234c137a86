-- ===== src/Lib.antt =====
-- zksrv is a proxy for ZooKeeper. It takes the frames of a client's stream, reads the packet in
-- each, remembers the operation under its xid, and writes the packet behind its length to the
-- backend; what the backend answers goes back to the client as bytes.
--
-- Which file is about which part of the repository:
--   Errors, Buf: the errors of src/errors.rs, and a call on a `BytesMut` as a function from the bytes
--     in it to a value with the bytes that are left, an error, or a panic. `stuck` stands for fuel
--     that has run out and is no outcome of the program.
--   Bytes: the crate `bytes`, a parameter: its calls with what they are documented to do.
--     Bytes.Concrete is an instance. Buf.Ops has the calls as steps on a buffer.
--   Text: the language's `String` and `String::from_utf8`.
--   Record: the traits of src/record.rs, and the implementations for texts, bytes and vectors that
--     stand at the head of src/proto.rs.
--   Proto: the messages of src/proto.rs, by groups, each with its `serialize_into`, `size` and
--     `deserialize` as instances of the two traits. A child `Wire` relates them to a schema.
--   Jute: an independent description of the wire format by schemas: the values of a schema, which of
--     them can be sent, and their bytes; and what follows for all types that conform to a schema.
--   Constants: src/constants.rs, `XidCodes` of src/codec.rs, and src/zk_errcode.rs. The crate
--     `num_derive`, which derives `from_i32`, is a parameter.
--   Codec.Request, Codec.Packet: the requests, transactions (`MultiRequest`) and packets of
--     src/codec.rs, written and read. Codec.Server: `ServerPacketCodec::decode_inner`. Codec.Client:
--     `ClientPacketCodec::encode`, with the crate `dashmap` as a parameter. Codec.Stream:
--     `ServerPacketCodec::decode`, and the loop of `UpStreamConnection::pipe` of src/server.rs as a
--     relation between states.
--   Codec.Response, Codec.Reply: the responses of src/codec.rs, written, sized and read;
--     `ServerPacketCodec::encode`; and `ClientPacketCodec::decode`, which reads a reply by the operation
--     that its request was remembered under. src/server.rs itself forwards the backend's bytes as they
--     are.
--   Frame: src/length_codec.rs, the codec of length-delimited frames, with the settings of its
--     builder in Frame.Options; `LENGTH_DELIMITED_CODEC` of src/codec.rs is `zk_builder` there.
--     Frame.Described and Frame.Outcomes describe what `decode` returns by the settings alone, without
--     the codec's helpers, and Frame.Safety relates the code to it. Frame.Documented has the frame
--     that the examples at the head of src/length_codec.rs show, which is longer than the one
--     returned where `num_skip` is less than the head (Examples 1, 3 and 4).
--   Runs: the properties at concrete inputs.
--
-- How the code is modelled. A byte, an i32, an i64 and a usize are natural numbers; a signed integer
-- is its bit pattern, and casts are written out (Base.Words). The cast of a length to i32 wraps, and
-- the cast of a negative i32 to usize extends its sign. A failed assertion, `unreachable!`, a panic
-- of a call of the crate `bytes` on too short a buffer, and the allocation of more than isize::MAX
-- bytes are `panic`. The field `data` of the messages is called `data_bytes`, and the type `Id` is
-- `AuthId`. A trait implementation is an instance named after its type.
--
-- Fuel. The loop of `MultiRequest::deserialize` runs on fuel that is one more than the length of its
-- input, which is enough since each round takes nine bytes at least. Reading a response runs on fuel
-- of two more than twice the length of its input, which is enough since two rounds take a header of
-- nine bytes. The loops over vectors run on their count.
--
-- Overflow and room. The model is of a build without overflow checks: in the codec of frames the
-- sum of the field's offset and its length wraps around (`wrapping_add`), and the negation of
-- isize::MIN is 2 ^ 63. A build with the checks panics at these two, and otherwise does the same.
-- The codec's two calls of `reserve` when it reads a frame are `make_room`, which panics when the
-- buffer would have to hold 2 ^ 63 bytes; memory is taken to suffice for fewer.
--
-- What is not modelled: logging; the calls of `reserve` of the writers (`LengthDelimitedCodec::encode`,
-- and src/codec.rs before it writes a packet or a response), whose buffers grow when they are
-- written to; running out of memory; the overflow of `size` beyond 2 ^ 64; the sockets, tasks and
-- channels of src/server.rs and src/main.rs, and the readers and writers that drive the codecs;
-- `native_endian` and `length_field_type` of the builder, and its readers and writers on sockets.
pub mod Base
pub mod Text
pub mod Errors
pub mod Bytes
pub mod Buf
pub mod Record
pub mod Jute
pub mod Proto
pub mod Constants
pub mod Codec
pub mod Frame
pub mod Runs
