-- ===== src/Constants.antt =====
-- constants.rs, the codes of codec.rs and those of zk_errcode.rs, with their numbers; and the crate
-- `num_derive`, which derives `from_i32` from the numbers.
pub mod Concrete
use zksrv.Base.{ℕ, ◌≡◌, ◌↔◌, Option, some, neg_i32}

abbrev pub xid_length : ℕ
xid_length = 4

abbrev pub opcode_length : ℕ
opcode_length = 4

-- What `#[derive(FromPrimitive)]` gives: `from_i32 n` is the variant whose number is `n`, if there
-- is one.
pub record FromPrimitive (A : Type 0) (number : A → ℕ) : Type 0 where
  pub from_i32 : ℕ → Option A
  pub from_i32_lem : (n : ℕ) (a : A) → (from_i32 n ≡ some a) ↔ (number a ≡ n)

pub data OpCodes : Type 0 where
  connect create delete exists get_data set_data get_acl set_acl get_children sync ping : OpCodes
  get_children2 check multi create2 reconfig check_watches remove_watches create_container : OpCodes
  create_ttl multi_read set_auth set_watches sasl get_ephemerals get_all_children_number : OpCodes
  set_watches2 add_watch whoami create_session close error : OpCodes

-- The discriminants, as i32.
abbrev pub op_number : OpCodes → ℕ
op_number connect = 0
op_number create = 1
op_number delete = 2
op_number exists = 3
op_number get_data = 4
op_number set_data = 5
op_number get_acl = 6
op_number set_acl = 7
op_number get_children = 8
op_number sync = 9
op_number ping = 11
op_number get_children2 = 12
op_number check = 13
op_number multi = 14
op_number create2 = 15
op_number reconfig = 16
op_number check_watches = 17
op_number remove_watches = 18
op_number create_container = 19
op_number create_ttl = 21
op_number multi_read = 22
op_number set_auth = 100
op_number set_watches = 101
op_number sasl = 102
op_number get_ephemerals = 103
op_number get_all_children_number = 104
op_number set_watches2 = 105
op_number add_watch = 106
op_number whoami = 107
op_number create_session = neg_i32 10
op_number close = neg_i32 11
op_number error = neg_i32 1

pub data XidCodes : Type 0 where
  connect watch ping auth set_watches : XidCodes

-- The discriminants, as i32.
abbrev pub xid_number : XidCodes → ℕ
xid_number connect = 0
xid_number watch = neg_i32 1
xid_number ping = neg_i32 2
xid_number auth = neg_i32 4
xid_number set_watches = neg_i32 8

pub data ZooErrors : Type 0 where
  zok zsystemerror zruntimeinconsistency zdatainconsistency zconnectionloss : ZooErrors
  zmarshallingerror zunimplemented zoperationtimeout zbadarguments zinvalidstate : ZooErrors
  znewconfignoquorum zreconfiginprogress zsslconnectionerror zapierror znonode znoauth : ZooErrors
  zbadversion znochildrenforephemerals znodeexists znotempty zsessionexpired : ZooErrors
  zinvalidcallback zinvalidacl zauthfailed zclosing znothing zsessionmoved znotreadonly : ZooErrors
  zephemeralonlocalsession znowatcher zreconfigdisabled zsessionclosedrequiresaslauth : ZooErrors
  zthrottledop : ZooErrors

-- The discriminants, as i32.
abbrev pub error_number : ZooErrors → ℕ
error_number zok = 0
error_number zsystemerror = neg_i32 1
error_number zruntimeinconsistency = neg_i32 2
error_number zdatainconsistency = neg_i32 3
error_number zconnectionloss = neg_i32 4
error_number zmarshallingerror = neg_i32 5
error_number zunimplemented = neg_i32 6
error_number zoperationtimeout = neg_i32 7
error_number zbadarguments = neg_i32 8
error_number zinvalidstate = neg_i32 9
error_number znewconfignoquorum = neg_i32 13
error_number zreconfiginprogress = neg_i32 14
error_number zsslconnectionerror = neg_i32 15
error_number zapierror = neg_i32 100
error_number znonode = neg_i32 101
error_number znoauth = neg_i32 102
error_number zbadversion = neg_i32 103
error_number znochildrenforephemerals = neg_i32 108
error_number znodeexists = neg_i32 110
error_number znotempty = neg_i32 111
error_number zsessionexpired = neg_i32 112
error_number zinvalidcallback = neg_i32 113
error_number zinvalidacl = neg_i32 114
error_number zauthfailed = neg_i32 115
error_number zclosing = neg_i32 116
error_number znothing = neg_i32 117
error_number zsessionmoved = neg_i32 118
error_number znotreadonly = neg_i32 119
error_number zephemeralonlocalsession = neg_i32 120
error_number znowatcher = neg_i32 121
error_number zreconfigdisabled = neg_i32 123
error_number zsessionclosedrequiresaslauth = neg_i32 124
error_number zthrottledop = neg_i32 127

pub record Codes : Type 0 where
  pub ops : FromPrimitive OpCodes op_number
  pub xids : FromPrimitive XidCodes xid_number
