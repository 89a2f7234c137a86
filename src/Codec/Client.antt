-- ===== src/Codec/Client.antt =====
-- codec.rs: `ClientPacketCodec`, which writes to the backend. The crate `dashmap` is a parameter.
pub mod Concrete
pub mod Wire
use zksrv.Base.{ℕ, ◌≡◌, ◌≢◌, Option, none, some, List, as_i32}
use zksrv.Errors.{ZkError, Outcome}
use zksrv.Bytes.{ByteOps}
use zksrv.Buf.{Buf, ◌>>=◌, ◌>>◌, pure}
use zksrv.Buf.Ops.{put_i32}
use zksrv.Record.{serialize_into, size}
use zksrv.Constants.{Codes, OpCodes}
use zksrv.Proto.Headers.{RequestHeader}
use zksrv.Codec.Packet.{RequestPacket, request_packet_serialize}

-- `DashMap<i32, OpCodes>`, with what its documentation says of `insert` and `get`.
pub record DashMap : Type 1 where
  pub Map : Type 0
  pub new : Map
  pub insert : ℕ → OpCodes → Map → Map
  pub get : ℕ → Map → Option OpCodes
  pub new_lem : (k : ℕ) → get k new ≡ none
  pub insert_lem : (k : ℕ) (v : OpCodes) (m : Map) → get k (insert k v m) ≡ some v
  pub other_lem : (k l : ℕ) (v : OpCodes) (m : Map) → k ≢ l → get k (insert l v m) ≡ get k m

module _ ⦃b : ByteOps⦄ ⦃c : Codes⦄ ⦃d : DashMap⦄ where
  unfoldable pub remember_code : ℕ → Option OpCodes → d.Map → d.Map
  remember_code xid (some opcode) map = d.insert xid opcode map
  remember_code xid none map = map

  -- The operation of a request is kept under its xid.
  unfoldable pub remember : Option RequestHeader → d.Map → d.Map
  unfolding remember_code
  remember (some header) map = remember_code header.xid (c.ops.from_i32 header.type) map
  remember none map = map

  -- `encode`: the new map, and the outcome on the buffer.
  unfoldable pub encode :
      RequestPacket → d.Map → List ℕ → d.Map × Outcome ZkError (Unit {0} × List ℕ)
  unfolding remember
  encode item map dst =
      let send : Buf ZkError (Unit {0}) = do
        put_i32 (as_i32 (size item))
        serialize_into item
        pure tt
      in (remember item.request_header map, send dst)
