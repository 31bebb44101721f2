-- ===== src/Rados/Run.antt =====
-- src/radostrace.bpf.c as a whole: the two uprobes, and a run over the hits of the traced threads. A
-- hit is one step.
pub mod Safe
use cephtrace.Base.{ℕ, ◌≤◌, List, [], ◌∷◌}
use cephtrace.Bpf.Tracer.{Hit}
use cephtrace.Rados.Types.{ClientConfig, ClientOps, Client}
use cephtrace.Rados.Probes.{uprobe_send_op, uprobe_finish_op}

pub data ClientProbe : Type 0 where
  send_op finish_op : ClientProbe

module _ (k : ClientOps) where
  abbrev pub client_initial : Client k
  client_initial = record { ops = k.empty; rb = [] }

  abbrev pub client_step : ClientConfig → ClientProbe → Hit → Client k → Client k
  client_step g send_op c s = uprobe_send_op k g c s
  client_step g finish_op c s = uprobe_finish_op k g c s

  unfoldable pub client_run : ClientConfig → List (ClientProbe × Hit) → Client k → Client k
  client_run g [] s = s
  client_run g ((p, c) ∷ hits) s = client_run g hits (client_step g p c s)

-- The hits come in the order of the clock, the first no earlier than t.
abbrev pub ClientTimed : ℕ → List (ClientProbe × Hit) → Type 0
ClientTimed t [] = Unit {0}
ClientTimed t ((p, c) ∷ hits) = (t ≤ c.now) × ClientTimed c.now hits

abbrev pub client_end_time : ℕ → List (ClientProbe × Hit) → ℕ
client_end_time t [] = t
client_end_time t ((p, c) ∷ hits) = client_end_time c.now hits
