-- ===== src/Tests/Kernel.antt =====
-- kfstrace on concrete inputs.
use cephtrace.Base.{ℕ, ◌≡◌, ◌<◌, refl, true, false, [], ◌∷◌, some, length, codes}
use cephtrace.Select.OsdId.Spelled.{decimal}
use cephtrace.Kfs.Types.{KernelTraceEvent, zero_event}
use cephtrace.Kfs.Main.{
  KfsMachine, mode, timeout, KfsTracing, initial_kfs, Round, poll_loop, kfs_main,
}
use cephtrace.Kfs.Main.Tracing.{Polls, kfs_main-Polls}
use cephtrace.Kfs.Main.Status.{poll_loop-timeout}
use cephtrace.Kfs.Show.{acting_buffer}
use cephtrace.Kfs.Show.Acting.{holds, acting_buffer-fits}

abbrev machine : KfsMachine
machine = record {
  atoi = λ text. 30;
  atoll = λ text. 5000;
  modules = some (codes "libceph 540672 1 ceph, Live 0x0" ∷ []);
  opens = true;
  loads = true;
  attaches = λ p. true;
  has_osd_buffer = true;
  has_mds_buffer = true;
}

kfs_main-Polls_example :
    Polls machine
      (mode (codes "all") ∷ timeout (codes "30") ∷ [])
      (kfs_main machine (mode (codes "all") ∷ timeout (codes "30") ∷ []))
kfs_main-Polls_example = kfs_main-Polls machine (mode (codes "all") ∷ timeout (codes "30") ∷ [])

abbrev mds_tracing : KfsTracing
mds_tracing = record {
  settings = record initial_kfs { timeout_seconds = 30 };
  links = [];
  rb = false;
  mds_rb = true;
}

abbrev round : ℕ → ℕ → Round
round polled elapsed = record {
  exiting = false;
  osd_poll = 0;
  mds_poll = polled;
  elapsed = elapsed;
}

-- The last poll handles two events when the time is over.
poll_loop-timeout_example : poll_loop mds_tracing (round 0 29 ∷ round 2 30 ∷ []) 0 ≡ some 1
poll_loop-timeout_example =
    poll_loop-timeout mds_tracing (round 0 29 ∷ []) (round 2 30) [] 0 refl
      ((record { running = refl; osd = refl; mds = refl }, refl), tt)
      (record { running = refl; osd = refl; mds = refl }) refl

abbrev placed : KernelTraceEvent
placed = record zero_event { acting_osds = 4 ∷ 12 ∷ 7 ∷ []; acting_size = 3 }

acting_buffer-fits_example :
    (acting_buffer placed ≡ some (holds (codes "[4,12,7]"))) × (length (codes "[4,12,7]") < 92)
unfolding decimal
acting_buffer-fits_example = acting_buffer-fits placed
