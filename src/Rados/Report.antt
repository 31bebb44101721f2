-- ===== src/Rados/Report.antt =====
-- src/radostrace.cc: `print_event`, a row for each op, and `report_hung_ops`.
pub mod Ops
pub mod Row
use cephtrace.Base.{
  ℕ, zero, suc, ◌+◌, ◌-◌, ◌*◌, ◌/◌, ◌%◌, Bool, true, false, not, ◌||◌, List, [], ◌∷◌, ◌++◌, Option,
  none, some, ltb, ◌==◌, if◌then◌else◌, get_or, length, replicate, codes, sub64, u32_mod, u64_mod,
  bit_and,
}
use cephtrace.Bpf.Types.{ClsOp, zero_cls_op, ceph_osd_op_call}
use cephtrace.Bpf.OpNames.{ceph_osd_op_str}
use cephtrace.Report.Op.{c_string}
use cephtrace.Rados.Types.{ClientOpValue, ceph_osd_op_extent, max_client_ops}
use cephtrace.Rados.Csv.{csv_escape}
use cephtrace.Select.OsdId.Spelled.{decimal}

-- `%d` and `%lld` of a bit pattern; twenty digits are enough for 64 bits.
unfoldable pub signed32 : ℕ → List ℕ
signed32 w = if ltb w (u32_mod / 2) then decimal 20 w else b'-' ∷ decimal 20 (u32_mod - w)

unfoldable pub signed64 : ℕ → List ℕ
signed64 w = if ltb w (u64_mod / 2) then decimal 20 w else b'-' ∷ decimal 20 (u64_mod - w)

unfoldable pub hex_digit_of : ℕ → ℕ
hex_digit_of d = if ltb d 10 then b'0' + d else b'a' + d - 10

-- `std::hex`, with fuel; eight digits are enough for 32 bits.
unfoldable pub hexadecimal : ℕ → ℕ → List ℕ
hexadecimal zero n = []
hexadecimal (suc fuel) n =
    let rest = hexadecimal fuel (n / 16) in
    if ltb n 16 then hex_digit_of n ∷ [] else rest ++ hex_digit_of (n % 16) ∷ []

-- The loop over the acting set, up to the first negative id.
unfoldable pub acting_items : Bool → List ℕ → List ℕ
acting_items first [] = []
acting_items first (osd ∷ osds) =
    let rest = acting_items false osds in
    let comma = if first then [] else codes "," in
    if ltb osd (u32_mod / 2) then comma ++ decimal 20 osd ++ rest else []

abbrev pub acting_text : ClientOpValue → List ℕ
acting_text v = codes "[" ++ acting_items true v.acting ++ codes "]"

-- A std::stringstream: a null pointer makes it fail, and from then on it takes nothing.
pub record Stream : Type 0 where
  pub text : List ℕ
  pub good : Bool

unfoldable pub insert_text : List ℕ → Stream → Stream
insert_text t s = record s { text = if s.good then s.text ++ t else s.text }

unfoldable pub insert_pointer : Option (List ℕ) → Stream → Stream
insert_pointer none s = record s { good = false }
insert_pointer (some t) s = insert_text t s

-- What is inserted for the op at index i.
unfoldable pub client_op_text : ClientOpValue → ℕ → Option (List ℕ)
client_op_text v i =
    let opcode = get_or v.ops i 0 in
    let cls = get_or v.cls_ops i zero_cls_op in
    if ceph_osd_op_extent opcode
    then ceph_osd_op_str opcode
    else if ceph_osd_op_call opcode
    then some (
        codes "call("
        ++ c_string cls.cls_name
        ++ codes "."
        ++ c_string cls.method_name
        ++ codes ")")
    else ceph_osd_op_str opcode

abbrev pub shown_ops : ClientOpValue → ℕ
shown_ops v = if ltb v.ops_size max_client_ops then v.ops_size else max_client_ops

-- The loop over the ops: `rounds` are left, i is the index.
unfoldable pub list_ops : ClientOpValue → ℕ → ℕ → Stream → Stream
list_ops v zero i s = s
list_ops v (suc rounds) i s =
    let spaced = if i == 0 then s else insert_text (codes " ") s in
    list_ops v rounds (i + 1) (insert_pointer (client_op_text v i) spaced)

unfoldable pub more_ops : ClientOpValue → Stream → Stream
more_ops v s =
    let spaced = if shown_ops v == 0 then s else insert_text (codes " ") s in
    if ltb (shown_ops v) v.ops_size
    then insert_text (codes "...+" ++ decimal 20 (v.ops_size - shown_ops v)) spaced
    else s

unfoldable pub ops_text : ClientOpValue → List ℕ
ops_text v =
    (insert_text (codes "]")
      (more_ops v (list_ops v (shown_ops v) 0 (record { text = codes "["; good = true })))).text

-- Whether one of the ops has an extent.
unfoldable pub any_extent : ClientOpValue → ℕ → ℕ → Bool
any_extent v zero i = false
any_extent v (suc rounds) i = ceph_osd_op_extent (get_or v.ops i 0) || any_extent v rounds (i + 1)

abbrev pub print_offset_length : ClientOpValue → Bool
print_offset_length v = any_extent v (shown_ops v) 0

abbrev pub latency_us : ClientOpValue → ℕ
latency_us v = sub64 v.finish_stamp v.sent_stamp / 1000

-- `CEPH_OSD_FLAG_WRITE` is 0x20.
abbrev pub wr_text : ClientOpValue → List ℕ
wr_text v = if bit_and v.rw 0x20 == 0 then codes "R" else codes "W"

abbrev pub flag_text : Bool → List ℕ
flag_text complete = if complete then codes "1" else codes "0"

abbrev pub offset_field : ClientOpValue → List ℕ
offset_field v = if print_offset_length v then decimal 20 v.offset else []

abbrev pub length_field : ClientOpValue → List ℕ
length_field v = if print_offset_length v then decimal 20 v.length else []

-- The format of the row in the CSV file.
unfoldable pub csv_row : ClientOpValue → Bool → List ℕ
csv_row v complete =
    signed32 v.pid
    ++ b','
      ∷ (signed64 v.cid
          ++ b','
            ∷ (signed64 v.tid
                ++ b','
                  ∷ (signed64 v.m_pool
                      ++ b','
                        ∷ (hexadecimal 8 v.m_seed
                            ++ b','
                              ∷ (csv_escape (acting_text v)
                                  ++ b','
                                    ∷ (wr_text v
                                        ++ b','
                                          ∷ (signed64 v.length
                                              ++ b','
                                                ∷ (signed64 (latency_us v)
                                                    ++ b','
                                                      ∷ (flag_text complete
                                                          ++ b','
                                                            ∷ (csv_escape (c_string v.object_name)
                                                            ++ b','
                                                            ∷ (csv_escape (ops_text v)
                                                            ++ b','
                                                            ∷ (csv_escape (offset_field v)
                                                            ++ b','
                                                            ∷ (csv_escape (length_field v)
                                                            ++ b'\n' ∷ [])))))))))))))

-- An entry of the map, as `report_hung_ops` reads it; `none` if it is gone by then.
unfoldable pub hung_rows : ℕ → List (Option ClientOpValue) → List ClientOpValue
hung_rows now_ns [] = []
hung_rows now_ns (none ∷ entries) = hung_rows now_ns entries
hung_rows now_ns (some op ∷ entries) =
    let rest = hung_rows now_ns entries in
    if op.sent_stamp == 0 then rest else record op { finish_stamp = now_ns } ∷ rest

unfoldable pub report_hung_ops : ℕ → List (Option ClientOpValue) → ℕ
report_hung_ops now_ns entries = length (hung_rows now_ns entries)
