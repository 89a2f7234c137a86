-- ===== src/Runs/Packets.antt =====
-- The packets of codec.rs at concrete inputs.
use zksrv.Base.{
  ℕ, ◌≡◌, ◌≢◌, ◌⊎◌, refl, some, List, [], ◌∷◌, ◌++◌, length, All, IsByte, ◌==◌, if◌then◌else◌,
  to_be_bytes, arith,
}
use zksrv.Errors.{ok, stuck}
use zksrv.Bytes.Concrete.{concrete}
use zksrv.Record.{serialize_into, size, deserialize}
use zksrv.Constants.{OpCodes}
use zksrv.Jute.Traits.{CanSend, canonical, deserialize-encoding}
use zksrv.Constants.Concrete.{concrete_codes}
use zksrv.Jute.Conform.{encoding, string_encodable, bytes_encodable}
use zksrv.Proto.Connect.{
  ConnectRequest, connect_request_serialize, connect_request_deserialize, ConnectResponse,
  connect_response_serialize, connect_response_deserialize,
}
use zksrv.Proto.Connect.Wire.{connect_request_encodable, connect_response_encodable}
use zksrv.Proto.Headers.Wire.{request_header_encodable, multi_header_encodable}
use zksrv.Proto.NodeData.Wire.{get_data_request_encodable, get_data_request_conforms}
use zksrv.Proto.NodeData.{get_data_request_serialize, get_data_request_deserialize}
use zksrv.Proto.Connect.Flag.{
  connect_request_flag_lost, connect_response_flag_lost, connect_request_flag_read,
}
use zksrv.Codec.Request.{MultiRequest, multi_request_serialize, multi_request_deserialize}
use zksrv.Codec.Request.Total.{multi-Reads}
use zksrv.Codec.Request.Wire.{encode_request, encode_multi}
use zksrv.Codec.Request.Reading.{IsMulti}
use zksrv.Codec.Request.Ends.{multi-ends}
use zksrv.Codec.Request.RoundTrip.{multi-round_trip, IsMulti-canonical}
use zksrv.Codec.Packet.{request_packet_serialize}
use zksrv.Codec.Packet.Wire.{
  encode_packet, encode_header, serialize_packet-encode, size_packet-length,
}
use zksrv.Codec.Server.{decode_inner}
use zksrv.Codec.Server.Whole.{decode_inner-encode}
use zksrv.Codec.Server.Taken.{IsTaken, IsConnect, decode_inner-eq-ok}
use zksrv.Codec.Client.{encode}
use zksrv.Codec.Client.Concrete.{concrete_map}
use zksrv.Codec.Client.Wire.{encode-get}
use zksrv.Codec.Stream.{new, decode, Relays}
use zksrv.Codec.Stream.Relay.{
  fresh, decode-encode_packet, all_framed-Relays, all_framed, all_remembered,
}
use zksrv.Runs.Data.{
  read, read-CanSend, header, packet, packet-IsPacket, transaction, transaction-IsMulti,
}

small : length (encode_packet packet) ≡ 15
unfolding encode_packet encode_header encode_request request_header_encodable
    get_data_request_encodable string_encodable to_be_bytes
small = refl

packet_bytes : All IsByte (encode_packet packet)
unfolding encode_packet encode_header encode_request request_header_encodable
    get_data_request_encodable string_encodable to_be_bytes
packet_bytes = (
  omega arith,
  (
    omega arith,
    (
      omega arith,
      (
        omega arith,
        (
          omega arith,
          (
            omega arith,
            (
              omega arith,
              (
                omega arith,
                (
                  omega arith,
                  (
                    omega arith,
                    (omega arith, (omega arith, (omega arith, (omega arith, (omega arith, tt))))),
                  ),
                ),
              ),
            ),
          ),
        ),
      ),
    ),
  ),
)

transaction_bytes : All IsByte (encode_multi transaction ++ [])
unfolding encode_multi encode_request multi_header_encodable get_data_request_encodable
    string_encodable to_be_bytes
transaction_bytes = (
  omega arith,
  (
    omega arith,
    (
      omega arith,
      (
        omega arith,
        (
          omega arith,
          (
            omega arith,
            (
              omega arith,
              (
                omega arith,
                (
                  omega arith,
                  (
                    omega arith,
                    (
                      omega arith,
                      (
                        omega arith,
                        (
                          omega arith,
                          (
                            omega arith,
                            (
                              omega arith,
                              (
                                omega arith,
                                (
                                  omega arith,
                                  (
                                    omega arith,
                                    (
                                      omega arith,
                                      (
                                        omega arith,
                                        (
                                          omega arith,
                                          (
                                            omega arith,
                                            (omega arith, (omega arith, (omega arith, tt))),
                                          ),
                                        ),
                                      ),
                                    ),
                                  ),
                                ),
                              ),
                            ),
                          ),
                        ),
                      ),
                    ),
                  ),
                ),
              ),
            ),
          ),
        ),
      ),
    ),
  ),
)

decode_inner-encode_example : decode_inner (encode_packet packet) ≡ ok (some packet, [])
decode_inner-encode_example = decode_inner-encode packet-IsPacket (omega (arith, small))

fresh_new : new ≡ some fresh
unfolding new
fresh_new = refl

decode-encode_packet_example :
    (bs : List ℕ) × ((encode packet concrete_map.new []).1 ≡ ok (tt, [] ++ bs))
    × (decode fresh (bs ++ (3 ∷ [])) ≡ ok ((some packet, fresh), 3 ∷ []))
decode-encode_packet_example =
    decode-encode_packet packet concrete_map.new [] (3 ∷ []) fresh packet-IsPacket
      (omega (arith, small)) fresh_new

all_framed-Relays_example :
    Relays
      (record {
        codec = fresh;
        received = all_framed (packet ∷ packet ∷ []) ++ (0 ∷ []);
        map = concrete_map.new;
        sent = 8 ∷ [];
      })
      (record {
        codec = fresh;
        received = 0 ∷ [];
        map = all_remembered (packet ∷ packet ∷ []) concrete_map.new;
        sent = (8 ∷ []) ++ all_framed (packet ∷ packet ∷ []);
      })
all_framed-Relays_example =
    all_framed-Relays (packet ∷ packet ∷ []) concrete_map.new (8 ∷ []) (0 ∷ []) fresh
      ((packet-IsPacket, omega (arith, small)), ((packet-IsPacket, omega (arith, small)), tt))
      fresh_new

encode-get_example :
    concrete_map.get 7 (encode packet concrete_map.new []).0
    ≡ (if 7 == 7 then some OpCodes.get_data else concrete_map.get 7 concrete_map.new)
encode-get_example = encode-get packet header OpCodes.get_data concrete_map.new [] 7 refl refl

serialize_packet-encode_example :
    serialize_into packet (1 ∷ []) ≡ ok (tt, (1 ∷ []) ++ encode_packet packet)
serialize_packet-encode_example = serialize_packet-encode packet (1 ∷ [])

size_packet-length_example : size packet ≡ length (encode_packet packet)
size_packet-length_example = size_packet-length packet

multi-round_trip_example :
    (bs : List ℕ) × (serialize_into transaction [] ≡ ok (tt, [] ++ bs))
    × (size transaction ≡ length bs)
    × (deserialize (bs ++ (5 ∷ [])) ≡ ok (transaction, 5 ∷ []))
multi-round_trip_example = multi-round_trip transaction [] (5 ∷ []) transaction-IsMulti

multi-ends_example : deserialize {A = MultiRequest} (0 ∷ 0 ∷ []) ≢ stuck
multi-ends_example = multi-ends (0 ∷ 0 ∷ []) (omega arith, (omega arith, tt))

decode_inner-eq-ok_example :
    IsTaken (encode_packet packet) (some packet, [])
    ⊎ IsConnect (encode_packet packet) (some packet, [])
decode_inner-eq-ok_example =
    decode_inner-eq-ok (encode_packet packet) (some packet, []) packet_bytes
      (decode_inner-encode packet-IsPacket (omega (arith, small)))

IsMulti-canonical_example :
    IsMulti transaction
    × (bs : List ℕ) × (serialize_into transaction [] ≡ ok (tt, bs))
    × (encode_multi transaction ++ [] ≡ bs ++ [])
IsMulti-canonical_example =
    IsMulti-canonical transaction (encode_multi transaction ++ []) [] transaction_bytes
      (multi-Reads transaction transaction-IsMulti [])

abbrev opening : ConnectRequest
opening = record {
  protocol_version = 0;
  last_zxid_seen = 0;
  time_out = 30_000;
  session_id = 0;
  passwd = 1 ∷ 2 ∷ [];
  read_only = 1;
}

opening-CanSend : CanSend opening
unfolding connect_request_encodable bytes_encodable
opening-CanSend = (
  (
    omega arith,
    (omega arith, (omega arith, (omega arith, (omega arith, (omega arith, (omega arith, tt)))))),
  ),
  omega arith,
)

abbrev answer : ConnectResponse
answer = record {
  protocol_version = 0;
  time_out = 30_000;
  session_id = 5;
  passwd = 1 ∷ 2 ∷ [];
  read_only = 1;
}

answer-CanSend : CanSend answer
unfolding connect_response_encodable bytes_encodable
answer-CanSend = (
  (omega arith, (omega arith, (omega arith, (omega arith, (omega arith, (omega arith, tt)))))),
  omega arith,
)

connect_request_flag_lost_example :
    (bs : List ℕ) × (serialize_into opening [] ≡ ok (tt, bs))
    × (deserialize bs ≡ ok (record opening { read_only = 0 }, to_be_bytes 1 1))
connect_request_flag_lost_example = connect_request_flag_lost opening opening-CanSend

connect_response_flag_lost_example :
    (bs : List ℕ) × (serialize_into answer [] ≡ ok (tt, bs))
    × (deserialize bs ≡ ok (record answer { read_only = 0 }, to_be_bytes 1 1))
connect_response_flag_lost_example = connect_response_flag_lost answer answer-CanSend

connect_request_flag_read_example :
    (bs : List ℕ) × (serialize_into opening [] ≡ ok (tt, [] ++ bs))
    × (deserialize (bs ++ (0 ∷ [])) ≡ ok (opening, 0 ∷ []))
connect_request_flag_read_example = connect_request_flag_read opening [] 0 [] opening-CanSend

read_bytes : All IsByte (encoding read ++ [])
unfolding get_data_request_encodable string_encodable to_be_bytes
read_bytes = (
  omega arith,
  (omega arith, (omega arith, (omega arith, (omega arith, (omega arith, (omega arith, tt)))))),
)

canonical_example :
    CanSend read
    × (bs : List ℕ) × (serialize_into read [] ≡ ok (tt, bs))
    × (encoding read ++ [] ≡ bs ++ [])
canonical_example =
    canonical (encoding read ++ []) read [] read_bytes (deserialize-encoding read read-CanSend [])
