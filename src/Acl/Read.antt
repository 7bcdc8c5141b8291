-- ===== src/Acl/Read.antt =====
-- `AclPacket::read` of bleps/src/acl.rs (38-58).
pub mod Laws
use bleps.Common.{u16_of}
use bleps.Hci.{M, ◌>>=◌, pure, lift, read_unwrap, read_data}
use bleps.Acl.{AclPacket, decode_raw_handle}

unfoldable pub read : M AclPacket
read = do
  raw0 ← read_unwrap
  raw1 ← read_unwrap
  (pb, bc, handle) ← lift (decode_raw_handle raw0 raw1)
  len0 ← read_unwrap
  len1 ← read_unwrap
  payload ← read_data (u16_of len0 len1)
  pure (record { handle = handle; boundary_flag = pb; bc_flag = bc; payload = payload })
