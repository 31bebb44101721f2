-- ===== src/Kfs/Main/Tracing.antt =====
-- What holds when kfstrace starts to poll the ring buffers.
use cephtrace.Base.{
  ℕ, ◌≡◌, ◌⊎◌, inl, inr, refl, arith, Bool, true, false, not, ◌&&◌, ◌||◌, List, [], ◌∷◌, ◌++◌, ◌^◌,
  ◌<◌, leb, ◌==◌, if◌then◌else◌, All, Any,
}
use cephtrace.Bpf.Rules.{require_rule, if_rule}
use cephtrace.Select.Args.{is_negative}
use cephtrace.Kfs.Main.{
  TraceMode, mode_osd, mode_mds, mode_all, KfsOpt, help, version, unknown, timeout, mode, latency,
  KfsSettings, initial_kfs, KfsArgs, starts, stops, KfsProgram, send_request, osd_dispatch,
  prepare_send_request, mds_dispatch, KfsMachine, traces_osd, traces_mds, mode_named, osd_programs,
  mds_programs, KfsTracing, KfsOutcome, finished, polling, apply_kfs_opt, then_args, kfs_args,
  check_ceph_module_loaded, attach_each, kfs_trace, after_kfs_args, kfs_main,
}

-- The timeout is an `int` and the threshold a `long long`, neither of them negative.
pub record IsKfsValid (s : KfsSettings) : Type 0 where
  pub time : s.timeout_seconds < 2 ^ 31
  pub threshold : s.latency_threshold < 2 ^ 63

abbrev pub Has : KfsProgram → List KfsProgram → Type 0
Has p = Any (λ q. p ≡ q)

module _ (k : KfsMachine) where
  -- Every link is made; a buffer that is polled exists, and the two programs that fill it are
  -- linked; and there is a buffer.
  pub record IsTracing (t : KfsTracing) : Type 0 where
    pub valid : IsKfsValid t.settings
    pub has_module : check_ceph_module_loaded k ≡ true
    pub attached : All (λ p. k.attaches p ≡ true) t.links
    pub osd_fed :
        t.rb ≡ true
        → (k.has_osd_buffer ≡ true) × Has send_request t.links × Has osd_dispatch t.links
    pub mds_fed :
        t.mds_rb ≡ true
        → (k.has_mds_buffer ≡ true) × Has prepare_send_request t.links × Has mds_dispatch t.links
    pub some_buffer : (t.rb || t.mds_rb) ≡ true

  abbrev GoesOn : KfsArgs → Type 0
  GoesOn (starts s) = IsKfsValid s
  GoesOn (stops code) = Unit

  apply_kfs_opt-GoesOn :
      (o : KfsOpt) (s : KfsSettings) → IsKfsValid s → GoesOn (apply_kfs_opt k o s)
  unfolding apply_kfs_opt
  apply_kfs_opt-GoesOn help s h = tt
  apply_kfs_opt-GoesOn version s h = tt
  apply_kfs_opt-GoesOn unknown s h = tt
  apply_kfs_opt-GoesOn (timeout arg) s h =
      let t = k.atoi arg in
      if_rule GoesOn (t == 0 || is_negative t) (stops 1) (starts (record s { timeout_seconds = t }))
        (λ _. tt) (λ e. record { time = ground arith; threshold = h.threshold })
  apply_kfs_opt-GoesOn (mode arg) s h =
      require_rule GoesOn (mode_named arg) (stops 1) (λ m. starts (record s { mode = m })) tt
        (λ m e. record { time = h.time; threshold = h.threshold })
  apply_kfs_opt-GoesOn (latency arg) s h =
      let l = k.atoll arg in
      if_rule GoesOn (l == 0 || leb (2 ^ 63) l) (stops 1)
        (starts (record s { latency_threshold = l })) (λ _. tt)
        (λ e. record { time = h.time; threshold = ground arith })

  then_args-GoesOn :
      (r : KfsArgs) (f : KfsSettings → KfsArgs)
      → GoesOn r
      → ((s : KfsSettings) → IsKfsValid s → GoesOn (f s))
      → GoesOn (then_args k r f)
  then_args-GoesOn (starts s) f h g = g s h
  then_args-GoesOn (stops code) f h g = tt

  kfs_args-GoesOn : (os : List KfsOpt) (s : KfsSettings) → IsKfsValid s → GoesOn (kfs_args k os s)
  unfolding kfs_args
  kfs_args-GoesOn [] s h = h
  kfs_args-GoesOn (o ∷ os) s h =
      then_args-GoesOn (apply_kfs_opt k o s) (kfs_args k os) (apply_kfs_opt-GoesOn o s h)
        (kfs_args-GoesOn os)

  attach_each-All :
      (ps : List KfsProgram) → attach_each k ps ≡ true → All (λ p. k.attaches p ≡ true) ps
  unfolding attach_each
  attach_each-All [] h = tt
  attach_each-All (p ∷ ps) h = (ground arith, attach_each-All ps (ground arith))

  -- The state that `kfs_trace` polls with.
  abbrev set_up : KfsSettings → KfsTracing
  set_up s = record {
    settings = s;
    links = osd_programs s.mode ++ mds_programs s.mode;
    rb = traces_osd s.mode;
    mds_rb = traces_mds s.mode;
  }

  abbrev lacks_buffer : TraceMode → Bool
  lacks_buffer m = traces_osd m && not k.has_osd_buffer || traces_mds m && not k.has_mds_buffer

  set_up-fed :
      (s : KfsSettings) (m : TraceMode)
      → IsKfsValid s
      → check_ceph_module_loaded k ≡ true
      → attach_each k (osd_programs m ++ mds_programs m) ≡ true
      → lacks_buffer m ≡ false
      → IsTracing (set_up (record s { mode = m }))
  set_up-fed s m h here all' buffers = by_mode m (attach_each-All _ all') buffers
    where
      valid : (n : TraceMode) → IsKfsValid (record s { mode = n })
      valid n = record { time = h.time; threshold = h.threshold }

      by_mode :
          (n : TraceMode)
          → All (λ p. k.attaches p ≡ true) (osd_programs n ++ mds_programs n)
          → lacks_buffer n ≡ false
          → IsTracing (set_up (record s { mode = n }))
      by_mode mode_osd a b = record {
        valid = valid mode_osd;
        has_module = here;
        attached = a;
        osd_fed = λ _. (ground arith, inl refl, inr (inl refl));
        mds_fed = λ e. absurd (cc);
        some_buffer = refl;
      }
      by_mode mode_mds a b = record {
        valid = valid mode_mds;
        has_module = here;
        attached = a;
        osd_fed = λ e. absurd (cc);
        mds_fed = λ _. (ground arith, inl refl, inr (inl refl));
        some_buffer = refl;
      }
      by_mode mode_all a b = record {
        valid = valid mode_all;
        has_module = here;
        attached = a;
        osd_fed = λ _. (ground arith, inl refl, inr (inl refl));
        mds_fed = λ _. (ground arith, inr (inr (inl refl)), inr (inr (inr (inl refl))));
        some_buffer = refl;
      }

  -- What keeps kfstrace from polling: the module is missing, the program is not opened or loaded, a
  -- program of the mode cannot be attached, or a ring buffer of the mode is missing.
  abbrev pub Hindered : TraceMode → Type 0
  Hindered m =
      (check_ceph_module_loaded k ≡ false)
      ⊎ ((k.opens && k.loads) ≡ false)
      ⊎ (attach_each k (osd_programs m ++ mds_programs m) ≡ false)
      ⊎ (lacks_buffer m ≡ true)

  abbrev Traces : KfsSettings → KfsOutcome → Type 0
  Traces s (finished code) = (code ≡ 1) × Hindered s.mode
  Traces s (polling t) = IsTracing t

  -- The options end the program, or the machine hinders the tracing that they ask for.
  pub data Ends (opts : List KfsOpt) (code : ℕ) : Type 0 where
    by_options : kfs_args k opts initial_kfs ≡ stops code → Ends opts code
    by_machine :
        (s : KfsSettings)
        → kfs_args k opts initial_kfs ≡ starts s
        → code ≡ 1
        → Hindered s.mode
        → Ends opts code

  abbrev pub Polls : List KfsOpt → KfsOutcome → Type 0
  Polls opts (finished code) = Ends opts code
  Polls opts (polling t) = IsTracing t

  kfs_trace-Traces : (s : KfsSettings) → IsKfsValid s → Traces s (kfs_trace k s)
  unfolding kfs_trace
  kfs_trace-Traces s valid =
      let programs = osd_programs s.mode ++ mds_programs s.mode in
      let last = if lacks_buffer s.mode then finished 1 else polling (set_up s) in
      let linked = if not (attach_each k programs) then finished 1 else last in
      let loaded = if not k.opens || not k.loads then finished 1 else linked in
      if_rule (Traces s) (not (check_ceph_module_loaded k)) (finished 1) loaded
        (λ e. (refl, inl (ground arith)))
        λ here.
          if_rule (Traces s) (not k.opens || not k.loads) (finished 1) linked
            (λ e. (refl, inr (inl (ground arith))))
            λ _.
              if_rule (Traces s) (not (attach_each k programs)) (finished 1) last
                (λ e. (refl, inr (inr (inl (ground arith)))))
                λ all'.
                  if_rule (Traces s) (lacks_buffer s.mode) (finished 1) (polling (set_up s))
                    (λ e. (refl, inr (inr (inr e))))
                    λ buffers. set_up-fed s s.mode valid (ground arith) (ground arith) buffers

  traced-Polls :
      (opts : List KfsOpt) (s : KfsSettings) (o : KfsOutcome)
      → kfs_args k opts initial_kfs ≡ starts s
      → Traces s o
      → Polls opts o
  traced-Polls opts s (finished code) e h = by_machine s e h.0 h.1
  traced-Polls opts s (polling t) e h = h

  -- If kfstrace comes to poll: the timeout and the threshold are not negative; the kernel's module
  -- is loaded; every linked program is attached; there is a ring buffer; and the programs that fill
  -- a ring buffer that is polled are linked, for an OSD and for an MDS. If it ends before, then the
  -- options ask for that, with the same status, or the module, the program, one of its parts or a
  -- ring buffer of the mode cannot be had, and the status is 1.
  pub kfs_main-Polls : (opts : List KfsOpt) → Polls opts (kfs_main k opts)
  unfolding kfs_main
  kfs_main-Polls opts =
      after (kfs_args k opts initial_kfs) refl
        (kfs_args-GoesOn opts initial_kfs (record { time = omega arith; threshold = omega arith }))
    where
      after :
          (r : KfsArgs)
          → kfs_args k opts initial_kfs ≡ r
          → GoesOn r
          → Polls opts (after_kfs_args k r)
      after (starts s) e h = traced-Polls opts s (kfs_trace k s) e (kfs_trace-Traces s h)
      after (stops code) e h = by_options e
