-- ===== src/Runs/Responses.antt =====
-- The responses of codec.rs at concrete inputs.
use zksrv.Base.{
  ℕ, ◌+◌, ◌≡◌, ◌≢◌, refl, some, List, [], ◌∷◌, ◌++◌, length, from_be_bytes, to_be_bytes, neg_i32,
  arith,
}
use zksrv.Text.{is_utf8}
use zksrv.Errors.{ok, stuck}
use zksrv.Bytes.Concrete.{concrete}
use zksrv.Buf.{◌>>=◌, pure}
use zksrv.Buf.Ops.{remaining, get_i32, get_u8, or_panic, assert_empty}
use zksrv.Record.{sum_of}
use zksrv.Constants.{OpCodes, XidCodes, xid_number}
use zksrv.Constants.Concrete.{concrete_codes}
use zksrv.Jute.Conform.{encoding, string_encodable}
use zksrv.Jute.Traits.{CanSend}
use zksrv.Proto.Headers.{
  ReplyHeader, reply_header_serialize, MultiHeader, multi_header_deserialize, RequestHeader,
}
use zksrv.Proto.Headers.Wire.{reply_header_encodable}
use zksrv.Proto.Ids.{Acl}
use zksrv.Proto.Stats.{Stat}
use zksrv.Proto.Create.{CreateResponse, create_response_serialize}
use zksrv.Proto.Create.Wire.{create_response_encodable}
use zksrv.Codec.Client.{encode}
use zksrv.Codec.Client.Concrete.{concrete_map}
use zksrv.Codec.Response.{
  ZkResponse, Results, multi_response, ended, serialize_response, size_response, read_response,
}
use zksrv.Codec.Response.Size.{IsCounted, counted, get_acl-short}
use zksrv.Codec.Response.Errors.{AreErrors, read_response-AreErrors}
use zksrv.Codec.Response.RoundTrip.{Answers, read_response-serialize}
use zksrv.Codec.Response.Ends.{read_response-ends}
use zksrv.Codec.Reply.{reply, decode_reply}
use zksrv.Codec.Reply.Match.{decode_reply-encode, decode_reply-error}
use zksrv.Codec.Request.{Request}
use zksrv.Codec.Packet.{RequestPacket}
use zksrv.Runs.Data.{path}

counted_example : IsCounted (ZkResponse.strings (path ∷ path ∷ [])) (1 ∷ [])
counted_example =
    counted (ZkResponse.strings (path ∷ path ∷ [])) (1 ∷ []) (λ m e. cc) (λ acl st e. cc)

abbrev entry : Acl
entry = record { perms = 31; id = record { scheme = path; id = path } }

abbrev status : Stat
status = record {
  czxid = 1;
  mzxid = 2;
  ctime = 3;
  mtime = 4;
  version = 5;
  cversion = 6;
  aversion = 7;
  ephemeral_owner = 8;
  data_length = 9;
  num_children = 10;
  pzxid = 11;
}

get_acl-short_example :
    (bs : List ℕ) × (n : ℕ) × (serialize_response (ZkResponse.get_acl (entry ∷ []) status) []
      ≡ ok (tt, [] ++ bs))
    × (size_response (ZkResponse.get_acl (entry ∷ []) status) ≡ ok n)
    × (n
          + sum_of
              (λ (a : Acl). 4 + length a.id.scheme.as_bytes + length a.id.id.as_bytes)
              (entry ∷ [])
        ≡ length bs)
get_acl-short_example = get_acl-short (entry ∷ []) status []

abbrev created : CreateResponse
created = record { path = path }

created-CanSend : CanSend created
unfolding create_response_encodable string_encodable is_utf8
created-CanSend = (refl, omega arith, (omega arith, (omega arith, tt)))

read_response-serialize_example :
    (bs : List ℕ) × (serialize_response (ZkResponse.create created) [] ≡ ok (tt, [] ++ bs))
    × (read_response OpCodes.create bs ≡ ok (ZkResponse.create created, []))
read_response-serialize_example =
    read_response-serialize OpCodes.create (ZkResponse.create created) []
      (Answers.create created created-CanSend)

read_response-ends_example : read_response OpCodes.multi (0 ∷ 7 ∷ []) ≢ stuck
read_response-ends_example =
    read_response-ends OpCodes.multi (0 ∷ 7 ∷ []) (omega arith, (omega arith, tt))

abbrev failure : MultiHeader
failure = record { type = neg_i32 1; done = 0; err = 5 }

abbrev last : MultiHeader
last = record { type = neg_i32 1; done = 1; err = neg_i32 1 }

abbrev failures : List ℕ
failures =
    255 ∷ 255 ∷ 255 ∷ 255 ∷ 0 ∷ 0 ∷ 0 ∷ 0 ∷ 5 ∷ 255 ∷ 255 ∷ 255 ∷ 255 ∷ 1 ∷ 255 ∷ 255 ∷ 255 ∷ 255
    ∷ []

read_failures :
    read_response OpCodes.multi failures
    ≡ ok (
      ZkResponse.multi
          (multi_response (Results.done (ZkResponse.error 5) failure Results.no_results) last),
      [],
    )
unfolding read_response ◌>>=◌ remaining multi_header_deserialize get_i32 or_panic get_u8 pure
    from_be_bytes ended assert_empty
read_failures = refl

read_response-AreErrors_example :
    AreErrors (Results.done (ZkResponse.error 5) failure Results.no_results)
    × (◌≡◌ {A = List ℕ} [] [])
read_response-AreErrors_example =
    read_response-AreErrors failures []
      (Results.done (ZkResponse.error 5) failure Results.no_results) last read_failures

no_control : (x : XidCodes) → xid_number x ≢ 7
no_control XidCodes.connect e = absurd (omega arith)
no_control XidCodes.watch e = absurd (omega arith)
no_control XidCodes.ping e = absurd (omega arith)
no_control XidCodes.auth e = absurd (omega arith)
no_control XidCodes.set_watches e = absurd (omega arith)

abbrev deletion : RequestHeader
deletion = record { xid = 7; type = 2 }

abbrev delete : RequestPacket
delete = record {
  request_header = some deletion;
  request = Request.delete (record { path = path; version = 1 });
}

abbrev answer : ReplyHeader
answer = record { xid = 7; zxid = 12; err = 0 }

abbrev refusal : ReplyHeader
refusal = record { xid = 7; zxid = 12; err = neg_i32 101 }

answer-CanSend : CanSend answer
unfolding reply_header_encodable
answer-CanSend = (omega arith, (omega arith, omega arith))

refusal-CanSend : CanSend refusal
unfolding reply_header_encodable
refusal-CanSend = (omega arith, (omega arith, omega arith))

read_nothing : read_response OpCodes.delete [] ≡ ok (ZkResponse.empty, [])
unfolding read_response ◌>>=◌ remaining pure ended assert_empty
read_nothing = refl

short_answer : length (encoding answer ++ []) ≡ 16
unfolding reply_header_encodable to_be_bytes
short_answer = refl

short_refusal : length (encoding refusal ++ (1 ∷ [])) ≡ 17
unfolding reply_header_encodable to_be_bytes
short_refusal = refl

decode_reply-encode_example :
    decode_reply (encode delete concrete_map.new []).0 (encoding answer ++ [])
    ≡ ok (reply answer ZkResponse.empty, [])
decode_reply-encode_example =
    decode_reply-encode delete deletion OpCodes.delete concrete_map.new [] answer ZkResponse.empty
      [] [] refl refl answer-CanSend refl refl no_control (omega (arith, short_answer)) read_nothing

decode_reply-error_example :
    decode_reply concrete_map.new (encoding refusal ++ (1 ∷ []))
    ≡ ok (reply refusal ZkResponse.empty, 1 ∷ [])
decode_reply-error_example =
    decode_reply-error concrete_map.new refusal (1 ∷ []) refusal-CanSend (omega arith) no_control
      (omega (arith, short_refusal))
