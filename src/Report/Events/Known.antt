-- ===== src/Report/Events/Known.antt =====
-- Which OSDs the reporter knows.
use cephtrace.Base.{
  ℕ, ◌≡◌, ◌≢◌, ◌⊎◌, inl, inr, refl, sym, subst, ◌∙◌, arith, Bool, true, false, not, ◌||◌, ltb, ◌≤◌,
  ◌<◌, if◌then◌else◌, List, [], ◌∷◌, ◌++◌, Option, none, some, ◌==◌, length, length-append, any,
  All, All-imp, minus_one, bit_and,
}
use cephtrace.Bpf.Types.{OpValue, BluestoreLat}
use cephtrace.Bpf.Tracer.{Event, op_event, bluestore_event}
use cephtrace.Bpf.Queue.{require}
use cephtrace.Bpf.Rules.{if_rule}
use cephtrace.Report.Op.{Row, handle_full}
use cephtrace.Report.Histogram.{SizeRanges}
use cephtrace.Select.Args.{op_single_probe, op_full_probe}
use cephtrace.Report.Events.{
  Reporting, Printed, op_row, bluestore_row, Reporter, no_events, exists, osd_pid_to_id, max_osd,
  with_osd, handle_bluestore, single_event, print_row, handles_op, handles_bluestore, report_op,
  record_osd, handle_event, handle_events,
}

abbrev pub AllDistinct : List ℕ → Type 0
AllDistinct [] = Unit {0}
AllDistinct (x ∷ xs) = (any (λ y. y == x) xs ≡ false) × AllDistinct xs

abbrev pub osd_of : Printed → ℕ
osd_of (op_row id row) = id
osd_of (bluestore_row id name lat) = id

abbrev pub IsUnused : SizeRanges → Type 0
IsUnused r = (r.wvecs ≡ []) × (r.rvecs ≡ [])

-- No OSD is listed twice, each has a pid, and the OSD of every row and of every histogram in use is
-- listed.
pub record IsKnown (r : Reporter) : Type 0 where
  pub distinct : AllDistinct r.osds
  pub paired : length r.pids ≡ length r.osds
  pub bounded : length r.osds ≤ max_osd
  pub rows : All (λ p. exists r (osd_of p) ≡ true) r.printed
  pub histograms : (id : ℕ) → exists r id ≡ false → IsUnused (r.ranges id)

any-append : (p : ℕ → Bool) (xs : List ℕ) (x : ℕ) → any p (xs ++ x ∷ []) ≡ (any p xs || p x)
any-append p [] x = ground arith
any-append p (y ∷ xs) x = ground (arith, any-append p xs x)

AllDistinct-append :
    (xs : List ℕ) (x : ℕ)
    → any (λ y. y == x) xs ≡ false
    → AllDistinct xs
    → AllDistinct (xs ++ x ∷ [])
AllDistinct-append [] x h d = (refl, tt)
AllDistinct-append (y ∷ xs) x h (n, d) =
    (any-append (λ z. z == y) xs x ∙ ground arith, AllDistinct-append xs x (ground arith) d)

-- What an event of the OSD may have done before its id is recorded: rows and histograms are of OSDs
-- that are known, or of this one.
record IsAlmost (id : ℕ) (r : Reporter) : Type 0 where
  distinct : AllDistinct r.osds
  paired : length r.pids ≡ length r.osds
  bounded : length r.osds ≤ max_osd
  rows : All (λ p. (exists r (osd_of p) ≡ true) ⊎ (osd_of p ≡ id)) r.printed
  histograms : (j : ℕ) → exists r j ≡ false → j ≢ id → IsUnused (r.ranges j)

Known-IsAlmost : (id : ℕ) (r : Reporter) → IsKnown r → IsAlmost id r
Known-IsAlmost id r p = record {
  distinct = p.distinct;
  paired = p.paired;
  bounded = p.bounded;
  rows = All-imp _ _ (λ x h. inl h) r.printed p.rows;
  histograms = λ j h n. p.histograms j h;
}

ltb→lt_osd : (n : ℕ) → ltb n max_osd ≡ true → n < max_osd
ltb→lt_osd n h = ground arith

at_bound : (n : ℕ) → n ≤ max_osd → ltb n max_osd ≡ false → n ≡ max_osd
at_bound n h g = ground arith

-- What recording comes to: the id is new and the arrays are full, or all is well.
abbrev pub Recorded : ℕ → List ℕ → Option Reporter → Type 0
Recorded id osds none = (any (λ osd. osd == id) osds ≡ false) × (length osds ≡ max_osd)
Recorded id osds (some q) = IsKnown q

module _ (id pid : ℕ) (r : Reporter) (p : IsAlmost id r) where
  listed : exists r id ≡ true → IsKnown r
  unfolding exists
  listed e = record {
    distinct = p.distinct;
    paired = p.paired;
    bounded = p.bounded;
    rows =
        All-imp _ _
          (λ x h. elim h [ inl k ↦ k | inr same ↦ subst (λ z. exists r z ≡ true) (sym same) e ])
          r.printed p.rows;
    histograms = λ j h. p.histograms j h (λ same. absurd (cc));
  }

  added : exists r id ≡ false → ltb (length r.osds) max_osd ≡ true → IsKnown (with_osd id pid r)
  unfolding exists
  added e room = record {
    distinct = AllDistinct-append r.osds id e p.distinct;
    paired =
        omega (arith, length-append r.pids (pid ∷ []), length-append r.osds (id ∷ []), p.paired);
    rows =
        All-imp _ _ (λ x h. any-append (λ osd. osd == osd_of x) r.osds id ∙ ground arith) r.printed
          p.rows;
    bounded = omega (arith, length-append r.osds (id ∷ []), ltb→lt_osd (length r.osds) room);
    histograms = λ j h.
        let known = sym (any-append (λ osd. osd == j) r.osds id) ∙ h in
        p.histograms j (ground arith) (λ same. absurd (ground arith));
  }

  record_osd-Recorded : Recorded id r.osds (record_osd id pid r)
  unfolding record_osd exists
  record_osd-Recorded =
      if_rule (Recorded id r.osds) (exists r id) (some r)
        (if ltb (length r.osds) max_osd then some (with_osd id pid r) else none) listed
        λ new.
          if_rule (Recorded id r.osds) (ltb (length r.osds) max_osd) (some (with_osd id pid r)) none
            (added new) λ full. (new, at_bound (length r.osds) p.bounded full)

module _ (g : Reporting) (id : ℕ) (r : Reporter) (p : IsKnown r) where
  single_event-IsAlmost : (val : OpValue) → IsAlmost id (single_event g val id r)
  unfolding exists
  single_event-IsAlmost val =
      let q = Known-IsAlmost id r p in
      record {
        distinct = q.distinct;
        paired = q.paired;
        bounded = q.bounded;
        rows = q.rows;
        histograms = λ j h n. other j n (p.histograms j h);
      }
    where
      other :
          (j : ℕ) → j ≢ id → IsUnused (r.ranges j) → IsUnused ((single_event g val id r).ranges j)
      other j n u = ground arith

  printed-IsAlmost :
      (x : Printed) → osd_of x ≡ id → IsAlmost id (record r { printed = x ∷ r.printed })
  unfolding exists
  printed-IsAlmost x e =
      let q = Known-IsAlmost id r p in
      record {
        distinct = q.distinct;
        paired = q.paired;
        bounded = q.bounded;
        rows = (inr e, q.rows);
        histograms = q.histograms;
      }

  print_row-IsAlmost : (o : Option Row) → IsAlmost id (print_row id o r)
  print_row-IsAlmost none = Known-IsAlmost id r p
  print_row-IsAlmost (some row) = printed-IsAlmost (op_row id row) refl

  report_op-IsAlmost : (val : OpValue) → IsAlmost id (report_op g val id r)
  unfolding report_op
  report_op-IsAlmost val =
      if_rule (IsAlmost id) (g.probe_mode == op_single_probe) _ _ (λ _. single_event-IsAlmost val)
        λ _.
          if_rule (IsAlmost id) (not (bit_and g.probe_mode op_full_probe == 0)) _ _
            (λ _. print_row-IsAlmost (handle_full g.threshold g.bootstamp val))
            (λ _. Known-IsAlmost id r p)

  print_row-osds : (o : Option Row) → (print_row id o r).osds ≡ r.osds
  print_row-osds none = refl
  print_row-osds (some row) = refl

  report_op-osds : (val : OpValue) → (report_op g val id r).osds ≡ r.osds
  unfolding report_op
  report_op-osds val =
      let Same : Reporter → Type 0 = λ q. q.osds ≡ r.osds in
      let row = print_row id (handle_full g.threshold g.bootstamp val) r in
      let full = not (bit_and g.probe_mode op_full_probe == 0) in
      if_rule Same (g.probe_mode == op_single_probe) (single_event g val id r)
        (if full then row else r) (λ _. refl)
        λ _.
          if_rule Same full row r (λ _. print_row-osds (handle_full g.threshold g.bootstamp val))
            (λ _. refl)

  -- An op event of the OSD.
  op-Recorded :
      (val : OpValue) (pid : ℕ) → Recorded id r.osds (record_osd id pid (report_op g val id r))
  op-Recorded val pid =
      subst (λ l. Recorded id l (record_osd id pid (report_op g val id r))) (report_op-osds val)
        (record_osd-Recorded id pid (report_op g val id r) (report_op-IsAlmost val))

bluestore-osd_of : (val : BluestoreLat) (id : ℕ) → osd_of (handle_bluestore val id) ≡ id
unfolding handle_bluestore
bluestore-osd_of val id = refl

module _ (g : Reporting) where
  -- The id that the event is about, -1 if the mode does not handle it.
  abbrev pub event_osd : Event → Reporter → ℕ
  event_osd (op_event val) r =
      if handles_op g.probe_mode then osd_pid_to_id g r val.pid else minus_one
  event_osd (bluestore_event val) r =
      if handles_bluestore g.probe_mode then osd_pid_to_id g r val.pid else minus_one

  by_mode :
      (b : Bool) (id : ℕ) (r : Reporter) (o p : Option Reporter)
      → Recorded id r.osds o
      → Recorded minus_one r.osds p
      → Recorded (if b then id else minus_one) r.osds (if b then o else p)
  by_mode true id r o p h k = h
  by_mode false id r o p h k = k

  handle_event-Recorded :
      (e : Event) (r : Reporter) → IsKnown r → Recorded (event_osd e r) r.osds (handle_event g e r)
  unfolding handle_event
  handle_event-Recorded (op_event val) r p =
      let id = osd_pid_to_id g r val.pid in
      by_mode (handles_op g.probe_mode) id r (record_osd id val.pid (report_op g val id r))
        (record_osd minus_one 0 r) (op-Recorded g id r p val val.pid)
        (record_osd-Recorded minus_one 0 r (Known-IsAlmost minus_one r p))
  handle_event-Recorded (bluestore_event val) r p =
      let id = osd_pid_to_id g r val.pid in
      let row = handle_bluestore val id in
      let q : Reporter = record r { printed = row ∷ r.printed } in
      by_mode (handles_bluestore g.probe_mode) id r (record_osd id val.pid q)
        (record_osd minus_one 0 r)
        (record_osd-Recorded id val.pid q (printed-IsAlmost g id r p row (bluestore-osd_of val id)))
        (record_osd-Recorded minus_one 0 r (Known-IsAlmost minus_one r p))

  -- The arrays are full, with MAX_OSD ids, when an event of another id comes.
  pub data Overruns : Reporter → List Event → Type 0 where
    overrun :
        (e : Event) (es : List Event) (r : Reporter)
        → any (λ osd. osd == event_osd e r) r.osds ≡ false
        → length r.osds ≡ max_osd
        → Overruns r (e ∷ es)
    later :
        (e : Event) (es : List Event) (r q : Reporter)
        → handle_event g e r ≡ some q
        → Overruns q es
        → Overruns r (e ∷ es)

  abbrev pub Reported : List Event → Reporter → Option Reporter → Type 0
  Reported es r none = Overruns r es
  Reported es r (some q) = IsKnown q

  Reported-later :
      (e : Event) (es : List Event) (r q : Reporter) (o : Option Reporter)
      → handle_event g e r ≡ some q
      → Reported es q o
      → Reported (e ∷ es) r o
  Reported-later e es r q none h k = later e es r q h k
  Reported-later e es r q (some z) h k = k

  handle_events_from-Reported :
      (es : List Event) (r : Reporter) → IsKnown r → Reported es r (handle_events g es r)
  unfolding handle_events
  handle_events_from-Reported [] r p = p
  handle_events_from-Reported (e ∷ es) r p =
      next (handle_event g e r) refl (handle_event-Recorded e r p)
        (λ q. handle_events_from-Reported es q)
    where
      next :
          (o : Option Reporter)
          → handle_event g e r ≡ o
          → Recorded (event_osd e r) r.osds o
          → ((q : Reporter) → IsKnown q → Reported es q (handle_events g es q))
          → Reported (e ∷ es) r (require o none (handle_events g es))
      next none h (new, full) k = overrun e es r new full
      next (some q) h known k = Reported-later e es r q (handle_events g es q) h (k q known)

  -- After any events, in any mode, unless an event of one more OSD has come when MAX_OSD ids were
  -- recorded: no OSD is listed twice, there are at most MAX_OSD, each has a pid, and the OSD of every
  -- row that was printed and of every histogram that is in use is listed, so that `print_all_srl`,
  -- which goes through the list, leaves out no histogram.
  pub handle_events-Reported :
      (es : List Event) → Reported es no_events (handle_events g es no_events)
  handle_events-Reported es = handle_events_from-Reported es no_events (record {
    distinct = tt;
    paired = refl;
    bounded = omega arith;
    rows = tt;
    histograms = λ id h. (refl, refl);
  })
