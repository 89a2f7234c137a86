-- ===== src/Proto/Admin.antt =====
-- proto.rs: reconfiguration and SASL.
pub mod Wire
pub mod RoundTrip
use zksrv.Base.{ℕ, ◌+◌, List, as_i32, length}
use zksrv.Text.{String}
use zksrv.Bytes.{ByteOps}
use zksrv.Buf.{pure, ◌>>=◌, ◌>>◌}
use zksrv.Buf.Ops.{get_i64, put_i32, put_i64}
use zksrv.Record.{
  Deserialize, Serialize, bytes_deserialize, bytes_serialize, deserialize, for_each, serialize_into,
  size, string_deserialize, string_serialize, vec_deserialize, vec_serialize,
}
use zksrv.Proto.Ids.{ClientInfo, client_info_serialize, client_info_deserialize}

pub record ReconfigRequest : Type 0 where
  pub joining_servers : String
  pub leaving_servers : String
  pub new_members : String
  pub cur_config_id : ℕ

pub record GetSaslRequest : Type 0 where
  pub token : List ℕ

pub record SetSaslRequest : Type 0 where
  pub token : List ℕ

pub record SetSaslResponse : Type 0 where
  pub token : List ℕ

pub record WhoAmIResponse : Type 0 where
  pub client_info : List ClientInfo

module _ ⦃b : ByteOps⦄ where
  instance unfoldable pub reconfig_request_serialize : Serialize ReconfigRequest
  reconfig_request_serialize = record {
    serialize_into = λ r. do
      serialize_into r.joining_servers
      serialize_into r.leaving_servers
      serialize_into r.new_members
      put_i64 r.cur_config_id
      pure tt;
    size = λ r. size r.joining_servers + size r.leaving_servers + size r.new_members + 8;
  }

  instance unfoldable pub reconfig_request_deserialize : Deserialize ReconfigRequest
  reconfig_request_deserialize = record {
    deserialize = do
      joining_servers ← deserialize
      leaving_servers ← deserialize
      new_members ← deserialize
      cur_config_id ← get_i64
      pure (record {
        joining_servers = joining_servers;
        leaving_servers = leaving_servers;
        new_members = new_members;
        cur_config_id = cur_config_id;
      });
  }

  instance unfoldable pub get_sasl_request_serialize : Serialize GetSaslRequest
  get_sasl_request_serialize = record {
    serialize_into = λ r. do
      serialize_into r.token
      pure tt;
    size = λ r. size r.token;
  }

  instance unfoldable pub get_sasl_request_deserialize : Deserialize GetSaslRequest
  get_sasl_request_deserialize = record {
    deserialize = do
      token ← deserialize
      pure (record { token = token });
  }

  instance unfoldable pub set_sasl_request_serialize : Serialize SetSaslRequest
  set_sasl_request_serialize = record {
    serialize_into = λ r. do
      serialize_into r.token
      pure tt;
    size = λ r. size r.token;
  }

  instance unfoldable pub set_sasl_request_deserialize : Deserialize SetSaslRequest
  set_sasl_request_deserialize = record {
    deserialize = do
      token ← deserialize
      pure (record { token = token });
  }

  instance unfoldable pub set_sasl_response_serialize : Serialize SetSaslResponse
  set_sasl_response_serialize = record {
    serialize_into = λ r. do
      serialize_into r.token
      pure tt;
    size = λ r. size r.token;
  }

  instance unfoldable pub set_sasl_response_deserialize : Deserialize SetSaslResponse
  set_sasl_response_deserialize = record {
    deserialize = do
      token ← deserialize
      pure (record { token = token });
  }

  instance unfoldable pub whoami_response_serialize : Serialize WhoAmIResponse
  whoami_response_serialize = record {
    serialize_into = λ r. do
      put_i32 (as_i32 (length r.client_info))
      for_each serialize_into r.client_info
      pure tt;
    size = λ r. size r.client_info;
  }

  instance unfoldable pub whoami_response_deserialize : Deserialize WhoAmIResponse
  whoami_response_deserialize = record {
    deserialize = do
      client_info ← deserialize
      pure (record { client_info = client_info });
  }
