-- ===== src/Tests/Rows.antt =====
-- What userspace computes, on concrete inputs.
use cephtrace.Base.{ℕ, ◌≡◌, ◌<◌, arith, List, [], ◌∷◌, All}
use cephtrace.Report.Name.{format_object_name}
use cephtrace.Report.Name.RoundTrip.{parse_object_name, format_object_name-parse}
use cephtrace.Bpf.Types.{OpValue, zero_op_v}
use cephtrace.Bpf.Run.{initial, run}
use cephtrace.Report.Latency.{RowFits, run-RowFits}
use cephtrace.Report.Histogram.{SizeRanges}
use cephtrace.Tests.Maps.{plain_kernel, config}
use cephtrace.Tests.Probes.{hits, hits-Timed}

run-RowFits_example : All (RowFits 500) (run plain_kernel config hits (initial plain_kernel)).rb
run-RowFits_example = run-RowFits plain_kernel config hits 0 500 hits-Timed (omega arith)

abbrev empty_ranges : SizeRanges
empty_ranges = record { wvecs = []; rvecs = [] }

abbrev write_of : ℕ → OpValue
write_of wb = record zero_op_v { recv_stamp = 3000; reply_stamp = 9000; wb = wb }

-- The name "a b%".
abbrev spaced : List ℕ
spaced = b'a' ∷ b' ' ∷ b'b' ∷ b'%' ∷ []

abbrev spaced-bytes : All (λ c. c < 256) spaced
spaced-bytes = (omega arith, (omega arith, (omega arith, (omega arith, tt))))

format_object_name-parse_example : parse_object_name (format_object_name spaced) ≡ spaced
format_object_name-parse_example = format_object_name-parse spaced spaced-bytes
