-- ===== src/Select/Discover/Found.antt =====
-- The processes that are discovered are the ceph-osd processes of /proc, in order.
use cephtrace.Base.{
  ℕ, ◌+◌, ◌%◌, ◌^◌, ◌≤◌, ◌≡◌, ◌≢◌, ◌⊎◌, inl, inr, refl, sym, subst, ap, arith, true, false, List,
  [], ◌∷◌, Option, none, some, All, Any, All-imp, Bool-cases, if◌then◌else◌, ◌==◌, ==_iff,
}
use cephtrace.Bpf.Rules.{require_some}
use cephtrace.Select.Process.{OsdProcess}
use cephtrace.Version.Text.{ProcEntry}
use cephtrace.Report.Events.{Reporting}
use cephtrace.Select.Discover.{
  ProcHost, process_of, less_int, precedes, insert_process, add_process, sorted_processes,
  discover_ceph_osd_processes,
}
use cephtrace.Select.Discover.Described.{
  IsOsd, Describes, described, IfDescribed, process_of-IfDescribed, process_of-described,
}

-- The place of an `int` in the order of integers, from its pattern.
abbrev pub rank : ℕ → ℕ
rank w = (w + 2 ^ 31) % 2 ^ 32

-- By id, and of one id by pid.
abbrev pub InOrder : OsdProcess → OsdProcess → Type 0
InOrder p q =
    ((p.osd_id ≢ q.osd_id) × (rank p.osd_id ≤ rank q.osd_id))
    ⊎ ((p.osd_id ≡ q.osd_id) × (rank p.pid ≤ rank q.pid))

-- No process precedes the one before it.
abbrev Behind : OsdProcess → List OsdProcess → Type 0
Behind p [] = Unit {0}
Behind p (q ∷ qs) = precedes q p ≡ false

abbrev IsSorted : List OsdProcess → Type 0
IsSorted [] = Unit {0}
IsSorted (p ∷ ps) = Behind p ps × IsSorted ps

abbrev pub NextInOrder : OsdProcess → List OsdProcess → Type 0
NextInOrder p [] = Unit {0}
NextInOrder p (q ∷ qs) = InOrder p q

-- Each process is in order with the next.
abbrev pub AreInOrder : List OsdProcess → Type 0
AreInOrder [] = Unit {0}
AreInOrder (p ∷ ps) = NextInOrder p ps × AreInOrder ps

order_of_ints :
    (a b m n : ℕ)
    → (if a == b then less_int m n else less_int a b) ≡ false
    → ((b ≢ a) × (rank b ≤ rank a)) ⊎ ((b ≡ a) × (rank n ≤ rank m))
order_of_ints a b m n h = elim (Bool-cases (a == b)) [
  | inl e ↦ inr (sym ((==_iff a b).0 e), ground arith)
  | inr e ↦ inl (ground arith, ground arith)
]

in_order : (p q : OsdProcess) → precedes q p ≡ false → InOrder p q
unfolding precedes
in_order p q h = order_of_ints q.osd_id p.osd_id q.pid p.pid h

sorted-AreInOrder : (ps : List OsdProcess) → IsSorted ps → AreInOrder ps
sorted-AreInOrder [] h = tt
sorted-AreInOrder (p ∷ []) (b, h) = (tt, tt)
sorted-AreInOrder (p ∷ q ∷ qs) (b, h) = (in_order p q b, sorted-AreInOrder (q ∷ qs) h)

precedes-asym : (p q : OsdProcess) → precedes p q ≡ true → precedes q p ≡ false
unfolding precedes
precedes-asym p q h = ground arith

Behind-insert :
    (q p : OsdProcess) (qs : List OsdProcess)
    → precedes p q ≡ false
    → Behind q qs
    → Behind q (insert_process p qs)
unfolding insert_process
Behind-insert q p [] h b = h
Behind-insert q p (r ∷ rs) h b = ground arith

insert-IsSorted :
    (p : OsdProcess) (qs : List OsdProcess) → IsSorted qs → IsSorted (insert_process p qs)
unfolding insert_process
insert-IsSorted p [] h = (tt, tt)
insert-IsSorted p (q ∷ qs) (b, h) = elim (Bool-cases (precedes p q)) [
  | inl e ↦ ground (arith, precedes-asym p q e)
  | inr e ↦ ground (arith, Behind-insert q p qs e b, insert-IsSorted p qs h)
]

module _ (P : OsdProcess → Type 0) (p : OsdProcess) where
  insert-here : (qs : List OsdProcess) → P p → Any P (insert_process p qs)
  unfolding insert_process
  insert-here [] h = inl h
  insert-here (q ∷ qs) h = ground (arith, insert-here qs h)

  insert-there : (qs : List OsdProcess) → Any P qs → Any P (insert_process p qs)
  unfolding insert_process
  insert-there [] h = absurd h
  insert-there (q ∷ qs) h = ground (arith, insert-there qs)

  insert-All : (qs : List OsdProcess) → P p → All P qs → All P (insert_process p qs)
  unfolding insert_process
  insert-All [] h hs = (h, tt)
  insert-All (q ∷ qs) h hs = ground (arith, insert-All qs h)

module _ (g : Reporting) (host : ProcHost) where
  -- The process is that of one of the entries.
  abbrev ComesFrom : List ProcEntry → OsdProcess → Type 0
  ComesFrom entries p = Any (λ e. process_of g host e ≡ some p) entries

  -- The process of the entry, if it is that of an OSD, is in the list.
  abbrev IsListed : List OsdProcess → ProcEntry → Type 0
  IsListed ps e = (p : OsdProcess) → process_of g host e ≡ some p → Any (λ q. q ≡ p) ps

  record IsSortedList (entries : List ProcEntry) (ps : List OsdProcess) : Type 0 where
    sorted : IsSorted ps
    sound : All (ComesFrom entries) ps
    complete : All (IsListed ps) entries

  add-IsSortedList :
      (entry : ProcEntry) (entries : List ProcEntry) (ps : List OsdProcess) (o : Option OsdProcess)
      → process_of g host entry ≡ o
      → IsSortedList entries ps
      → IsSortedList (entry ∷ entries) (add_process o ps)
  add-IsSortedList entry entries ps none e d = record {
    sorted = d.sorted;
    sound = All-imp _ _ (λ p h. inr h) ps d.sound;
    complete = ((λ p h. cc), d.complete);
  }
  add-IsSortedList entry entries ps (some p) e d = record {
    sorted = insert-IsSorted p ps d.sorted;
    sound =
        insert-All (ComesFrom (entry ∷ entries)) p ps (inl e)
          (All-imp _ _ (λ p h. inr h) ps d.sound);
    complete = (
      (λ q h. insert-here (λ x. x ≡ q) p ps (cc)),
      All-imp _ _ (λ x f q h. insert-there (λ x. x ≡ q) p ps (f q h)) entries d.complete,
    );
  }

  sorted_processes-IsSortedList :
      (entries : List ProcEntry) → IsSortedList entries (sorted_processes g host entries)
  unfolding sorted_processes
  sorted_processes-IsSortedList [] = record { sorted = tt; sound = tt; complete = tt }
  sorted_processes-IsSortedList (entry ∷ entries) =
      add-IsSortedList entry entries _ (process_of g host entry) refl
        (sorted_processes-IsSortedList entries)

  -- The processes are in order; each describes a ceph-osd of /proc; and each ceph-osd of /proc is
  -- described.
  pub record IsDiscovery (entries : List ProcEntry) (ps : List OsdProcess) : Type 0 where
    pub ordered : AreInOrder ps
    pub sound : All (λ p. Any (λ e. Describes g host e p) entries) ps
    pub complete : All (λ e. (pid : ℕ) → IsOsd g host e pid → Any (λ p. p.pid ≡ pid) ps) entries

  Any-imp :
      (P Q : ProcEntry → Type 0)
      → ((e : ProcEntry) → P e → Q e)
      → (es : List ProcEntry) → Any P es
      → Any Q es
  Any-imp P Q f [] h = absurd h
  Any-imp P Q f (e ∷ es) (inl h) = inl (f e h)
  Any-imp P Q f (e ∷ es) (inr h) = inr (Any-imp P Q f es h)

  Any-pid :
      (pid : ℕ) (ps : List OsdProcess)
      → Any (λ p. p ≡ described g host pid) ps
      → Any (λ p. p.pid ≡ pid) ps
  Any-pid pid [] h = absurd h
  Any-pid pid (p ∷ ps) (inl h) = inl (ap (λ q. q.pid) h)
  Any-pid pid (p ∷ ps) (inr h) = inr (Any-pid pid ps h)

  IsDiscovery-sorted :
      (entries : List ProcEntry) (ps : List OsdProcess)
      → IsSortedList entries ps
      → IsDiscovery entries ps
  IsDiscovery-sorted entries ps d = record {
    ordered = sorted-AreInOrder ps d.sorted;
    sound =
        All-imp _ _
          (λ p.
            Any-imp _ _ (λ e h. subst (IfDescribed g host e) h (process_of-IfDescribed g host e))
              entries)
          ps d.sound;
    complete =
        All-imp _ _
          (λ e f pid h.
            Any-pid pid ps (f (described g host pid) (process_of-described g host e pid h)))
          entries d.complete;
  }

  -- If /proc can be read: the processes that are discovered are those of its directories whose name
  -- begins with a digit and is read as a pid, and whose binary, or first argument if the link to the
  -- binary cannot be read, has the name ceph-osd: all of them and no others, each with the id that
  -- its command line gives and whether it is in another mount namespace; and they are in the order of
  -- OSD ids, and of pids where the ids are equal.
  pub discover_ceph_osd_processes-IsDiscovery :
      (entries : List ProcEntry)
      → host.proc_dir ≡ some entries
      → IsDiscovery entries (discover_ceph_osd_processes g host)
  discover_ceph_osd_processes-IsDiscovery entries e =
      require_some (IsDiscovery entries) host.proc_dir entries [] (sorted_processes g host) e
        (IsDiscovery-sorted entries _ (sorted_processes-IsSortedList entries))
