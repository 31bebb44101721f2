-- ===== src/Tests/Events.antt =====
-- Rows of radostrace for a concrete op.
use cephtrace.Base.{◌≡◌, [], ◌∷◌, ◌++◌, codes, if◌then◌else◌, true, replicate}
use cephtrace.Rados.Types.{ClientOpValue, zero_val}
use cephtrace.Rados.Report.{csv_row, ops_text, shown_ops}
use cephtrace.Rados.Report.Ops.{op_items, all_named, joined_items, more_text, ops_text-cut}
use cephtrace.Rados.Report.Row.{read_row, row_fields, csv_row-read_row}

-- A read, an opcode without a name, and two further ops; the object is named a,b.
abbrev odd_op : ClientOpValue
odd_op = record zero_val {
  sent_stamp = 1000;
  finish_stamp = 9000;
  object_name = b'a' ∷ b',' ∷ b'b' ∷ replicate 125 0;
  ops = 0x1201 ∷ 0x9999 ∷ 0x1202 ∷ [];
  ops_size = 5;
}

ops_text-cut_example :
    let items = op_items odd_op (shown_ops odd_op) 0 in
    ops_text odd_op
    ≡ codes "["
      ++ (joined_items true items
          ++ (if all_named items then more_text odd_op ++ codes "]" else []))
ops_text-cut_example = ops_text-cut odd_op

csv_row-read_row_example : read_row 14 (csv_row odd_op true) ≡ row_fields odd_op true
csv_row-read_row_example = csv_row-read_row odd_op true
