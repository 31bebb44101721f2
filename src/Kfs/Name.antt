-- ===== src/Kfs/Name.antt =====
-- src/kfstrace.bpf.c: `get_mds_op_name` and `is_mds_write_op`.
pub mod Hex
use cephtrace.Base.{
  ℕ, ◌+◌, ◌-◌, ◌/◌, ◌%◌, Bool, not, List, [], ◌∷◌, ltb, ◌==◌, if◌then◌else◌, replicate, codes,
  bit_and,
}
use cephtrace.Bpf.Queue.{overlay}
use cephtrace.Kfs.Types.{ceph_mds_op_name_max}

-- A digit below 16, in upper case.
unfoldable pub upper_hex : ℕ → ℕ
upper_hex digit = if ltb digit 10 then b'0' + digit else b'A' + digit - 10

-- What the loop writes to `name[3]` … `name[7]`, the lowest digit last.
unfoldable pub five_hex : ℕ → List ℕ
five_hex op =
    upper_hex (op / 0x10000 % 16)
    ∷ upper_hex (op / 0x1000 % 16)
    ∷ upper_hex (op / 0x100 % 16)
    ∷ upper_hex (op / 0x10 % 16)
    ∷ upper_hex (op % 16)
    ∷ []

-- The bytes that are copied over the cleared buffer.
unfoldable pub mds_op_label : ℕ → List ℕ
mds_op_label op =
    if op == 0x00100
    then codes "LOOKUP"
    else if op == 0x00101
    then codes "GETATTR"
    else if op == 0x00305
    then codes "READDIR"
    else if op == 0x01301
    then codes "CREATE"
    else if op == 0x01203
    then codes "UNLINK"
    else if op == 0x01204
    then codes "RENAME"
    else if op == 0x01220
    then codes "MKDIR"
    else if op == 0x01221
    then codes "RMDIR"
    else if op == 0x01108
    then codes "SETATTR"
    else if op == 0x00302
    then codes "OPEN"
    else b'O' ∷ b'P' ∷ b'_' ∷ five_hex op

unfoldable pub get_mds_op_name : ℕ → List ℕ
get_mds_op_name op = overlay (mds_op_label op) (replicate ceph_mds_op_name_max 0)

unfoldable pub is_mds_write_op : ℕ → Bool
is_mds_write_op op = not (bit_and op 0x001000 == 0)
