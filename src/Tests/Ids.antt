-- ===== src/Tests/Ids.antt =====
-- An OSD id on a concrete command line.
use cephtrace.Base.{◌≡◌, ◌++◌, arith, [], ◌∷◌}
use cephtrace.Select.OsdId.{parse_osd_id_from_tokens}
use cephtrace.Select.OsdId.Spelled.{spelled, long_name, parse_osd_id_from_tokens-spelled}
use cephtrace.Select.Targets.{ceph_osd_text}

parse_osd_id_from_tokens-spelled_example :
    parse_osd_id_from_tokens ((ceph_osd_text ∷ []) ++ spelled long_name 12 ++ []) ≡ 12
parse_osd_id_from_tokens-spelled_example =
    parse_osd_id_from_tokens-spelled (ceph_osd_text ∷ []) long_name 12 [] (omega arith, tt)
      (omega arith)
