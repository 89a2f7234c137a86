-- ===== src/Constants/Concrete.antt =====
-- Tables that meet what is asked of the crate `num_derive`.
use zksrv.Base.{ℕ, ◌≡◌, refl, Option, none, some, ◌==◌, if◌then◌else◌, neg_i32, arith}
use zksrv.Constants.{OpCodes, op_number, XidCodes, xid_number, Codes}

unfoldable pub op_from_i32 : ℕ → Option OpCodes
op_from_i32 n =
    if n == 0
    then some OpCodes.connect
    else if n == 1
    then some OpCodes.create
    else if n == 2
    then some OpCodes.delete
    else if n == 3
    then some OpCodes.exists
    else if n == 4
    then some OpCodes.get_data
    else if n == 5
    then some OpCodes.set_data
    else if n == 6
    then some OpCodes.get_acl
    else if n == 7
    then some OpCodes.set_acl
    else if n == 8
    then some OpCodes.get_children
    else if n == 9
    then some OpCodes.sync
    else if n == 11
    then some OpCodes.ping
    else if n == 12
    then some OpCodes.get_children2
    else if n == 13
    then some OpCodes.check
    else if n == 14
    then some OpCodes.multi
    else if n == 15
    then some OpCodes.create2
    else if n == 16
    then some OpCodes.reconfig
    else if n == 17
    then some OpCodes.check_watches
    else if n == 18
    then some OpCodes.remove_watches
    else if n == 19
    then some OpCodes.create_container
    else if n == 21
    then some OpCodes.create_ttl
    else if n == 22
    then some OpCodes.multi_read
    else if n == 100
    then some OpCodes.set_auth
    else if n == 101
    then some OpCodes.set_watches
    else if n == 102
    then some OpCodes.sasl
    else if n == 103
    then some OpCodes.get_ephemerals
    else if n == 104
    then some OpCodes.get_all_children_number
    else if n == 105
    then some OpCodes.set_watches2
    else if n == 106
    then some OpCodes.add_watch
    else if n == 107
    then some OpCodes.whoami
    else if n == (neg_i32 10)
    then some OpCodes.create_session
    else if n == (neg_i32 11)
    then some OpCodes.close
    else if n == (neg_i32 1)
    then some OpCodes.error
    else none

pub op_from_i32-number : (a : OpCodes) → op_from_i32 (op_number a) ≡ some a
unfolding op_from_i32
op_from_i32-number OpCodes.connect = refl
op_from_i32-number OpCodes.create = refl
op_from_i32-number OpCodes.delete = refl
op_from_i32-number OpCodes.exists = refl
op_from_i32-number OpCodes.get_data = refl
op_from_i32-number OpCodes.set_data = refl
op_from_i32-number OpCodes.get_acl = refl
op_from_i32-number OpCodes.set_acl = refl
op_from_i32-number OpCodes.get_children = refl
op_from_i32-number OpCodes.sync = refl
op_from_i32-number OpCodes.ping = refl
op_from_i32-number OpCodes.get_children2 = refl
op_from_i32-number OpCodes.check = refl
op_from_i32-number OpCodes.multi = refl
op_from_i32-number OpCodes.create2 = refl
op_from_i32-number OpCodes.reconfig = refl
op_from_i32-number OpCodes.check_watches = refl
op_from_i32-number OpCodes.remove_watches = refl
op_from_i32-number OpCodes.create_container = refl
op_from_i32-number OpCodes.create_ttl = refl
op_from_i32-number OpCodes.multi_read = refl
op_from_i32-number OpCodes.set_auth = refl
op_from_i32-number OpCodes.set_watches = refl
op_from_i32-number OpCodes.sasl = refl
op_from_i32-number OpCodes.get_ephemerals = refl
op_from_i32-number OpCodes.get_all_children_number = refl
op_from_i32-number OpCodes.set_watches2 = refl
op_from_i32-number OpCodes.add_watch = refl
op_from_i32-number OpCodes.whoami = refl
op_from_i32-number OpCodes.create_session = refl
op_from_i32-number OpCodes.close = refl
op_from_i32-number OpCodes.error = refl

pub op_from_i32-eq-some : (n : ℕ) (a : OpCodes) → op_from_i32 n ≡ some a → op_number a ≡ n
unfolding op_from_i32
op_from_i32-eq-some n a h = ground arith

unfoldable pub xid_from_i32 : ℕ → Option XidCodes
xid_from_i32 n =
    if n == 0
    then some XidCodes.connect
    else if n == (neg_i32 1)
    then some XidCodes.watch
    else if n == (neg_i32 2)
    then some XidCodes.ping
    else if n == (neg_i32 4)
    then some XidCodes.auth
    else if n == (neg_i32 8)
    then some XidCodes.set_watches
    else none

pub xid_from_i32-number : (a : XidCodes) → xid_from_i32 (xid_number a) ≡ some a
unfolding xid_from_i32
xid_from_i32-number XidCodes.connect = refl
xid_from_i32-number XidCodes.watch = refl
xid_from_i32-number XidCodes.ping = refl
xid_from_i32-number XidCodes.auth = refl
xid_from_i32-number XidCodes.set_watches = refl

pub xid_from_i32-eq-some : (n : ℕ) (a : XidCodes) → xid_from_i32 n ≡ some a → xid_number a ≡ n
unfolding xid_from_i32
xid_from_i32-eq-some n a h = ground arith

instance abbrev pub concrete_codes : Codes
concrete_codes = record {
  ops = record {
    from_i32 = op_from_i32;
    from_i32_lem = λ n a. (op_from_i32-eq-some n a, λ e. rw (← e) (op_from_i32-number a));
  };
  xids = record {
    from_i32 = xid_from_i32;
    from_i32_lem = λ n a. (xid_from_i32-eq-some n a, λ e. rw (← e) (xid_from_i32-number a));
  };
}
