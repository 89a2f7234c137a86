-- ===== src/Runs/Data.antt =====
-- Requests to try the program's parts on.
use zksrv.Base.{refl, some, [], ◌∷◌, neg_i32, arith}
use zksrv.Text.{String, is_utf8}
use zksrv.Bytes.Concrete.{concrete}
use zksrv.Constants.{XidCodes}
use zksrv.Constants.Concrete.{concrete_codes}
use zksrv.Jute.Conform.{string_encodable}
use zksrv.Jute.Traits.{CanSend}
use zksrv.Proto.Headers.{
  RequestHeader, request_header_serialize, MultiHeader, multi_header_serialize,
}
use zksrv.Proto.Headers.Wire.{request_header_encodable, multi_header_encodable}
use zksrv.Proto.NodeData.{GetDataRequest, get_data_request_serialize}
use zksrv.Proto.NodeData.Wire.{get_data_request_encodable}
use zksrv.Codec.Request.{Request, MultiRequest, multi_request, Ops}
use zksrv.Codec.Request.Reading.{Announces, AreOps, IsMulti}
use zksrv.Codec.Packet.{RequestPacket}
use zksrv.Codec.Server.Reading.{DataRequest}
use zksrv.Codec.Server.Whole.{IsDataXid, IsPacket, data_request}

-- "/a"
abbrev pub path : String
path = record { as_bytes = 47 ∷ 97 ∷ [] }

abbrev pub read : GetDataRequest
read = record { path = path; watch = 1 }

pub read-CanSend : CanSend read
unfolding get_data_request_encodable is_utf8 string_encodable
read-CanSend = ((refl, omega arith, (omega arith, (omega arith, tt))), omega arith)

abbrev pub header : RequestHeader
header = record { xid = 7; type = 4 }

abbrev pub packet : RequestPacket
packet = record { request_header = some header; request = Request.get_data read }

data_xid : IsDataXid 7
data_xid XidCodes.connect e = absurd (omega arith)
data_xid XidCodes.watch e = refl
data_xid XidCodes.ping e = absurd (omega arith)
data_xid XidCodes.auth e = absurd (omega arith)
data_xid XidCodes.set_watches e = absurd (omega arith)

pub packet-IsPacket : IsPacket packet
unfolding request_header_encodable
packet-IsPacket =
    data_request (omega arith, omega arith) data_xid refl (DataRequest.get_data read read-CanSend)

-- A transaction of one operation.
abbrev pub op_header : MultiHeader
op_header = record { type = 4; done = 0; err = neg_i32 1 }

abbrev pub last_header : MultiHeader
last_header = record { type = neg_i32 1; done = 1; err = neg_i32 1 }

abbrev pub transaction : MultiRequest
transaction = multi_request (Ops.op op_header (Request.get_data read) Ops.no_ops) last_header

pub transaction-IsMulti : IsMulti transaction
unfolding multi_header_encodable
transaction-IsMulti = (
  AreOps.op (omega arith, (omega arith, omega arith)) (omega arith) refl
      (Announces.get_data read read-CanSend) AreOps.no_ops,
  (omega arith, (omega arith, omega arith)),
  refl,
)
