-- ===== src/Select/Process/All.antt =====
-- `-a` selects exactly the traceable processes, and only if they run one build.
use cephtrace.Base.{
  ℕ, Bool, true, false, ◌⊎◌, inl, inr, ◌≡◌, ◌≢◌, refl, arith, List, [], ◌∷◌, map, none, some,
  filter, same_bytes, nonempty, is_empty_of_ne, All, Any, All-imp, All-zip, All_of_all,
  filter_cons-All, filter_cons-here, filter_cons-there, subst, eq_of_same_bytes,
}
use cephtrace.Select.Embedded.{EmbeddedTables, osdtrace, find_embedded_match, is_embedded_traceable}
use cephtrace.Select.Process.{
  OsdProcess, Options, Host, binary_of, annotate, is_selectable, insert, pid_set, one_build,
  select_all_traceable_osds,
}

pub insert-All : (P : ℕ → Type 0) (n : ℕ) (ms : List ℕ) → P n → All P ms → All P (insert n ms)
unfolding insert
insert-All P n [] p h = (p, tt)
insert-All P n (m ∷ ms) p (q, h) = ground (arith, insert-All P n ms p h)

pub insert-here : (n : ℕ) (ms : List ℕ) → Any (λ m. m ≡ n) (insert n ms)
unfolding insert
insert-here n [] = inl refl
insert-here n (m ∷ ms) = ground (arith, insert-here n ms)

pub insert-keeps : (n k : ℕ) (ms : List ℕ) → Any (λ m. m ≡ k) ms → Any (λ m. m ≡ k) (insert n ms)
unfolding insert
insert-keeps n k [] h = absurd h
insert-keeps n k (m ∷ ms) h = ground (arith, insert-keeps n k ms)

pid_set-All : (P : ℕ → Type 0) (ps : List OsdProcess) → All (λ p. P p.pid) ps → All P (pid_set ps)
pid_set-All P [] h = tt
pid_set-All P (p ∷ ps) (q, h) = insert-All P p.pid (pid_set ps) q (pid_set-All P ps h)

pid_set-Any :
    (pid : ℕ) (ps : List OsdProcess) → Any (λ p. p.pid ≡ pid) ps → Any (λ q. q ≡ pid) (pid_set ps)
pid_set-Any pid [] h = absurd h
pid_set-Any pid (p ∷ ps) (inl e) =
    subst (λ k. Any (λ q. q ≡ k) (insert p.pid (pid_set ps))) e (insert-here p.pid (pid_set ps))
pid_set-Any pid (p ∷ ps) (inr h) = insert-keeps p.pid pid (pid_set ps) (pid_set-Any pid ps h)

pid_set_ne : (ps : List OsdProcess) → ps ≢ [] → pid_set ps ≢ []
pid_set_ne [] h = absurd (h refl)
pid_set_ne (p ∷ ps) h =
    λ e. absurd (subst (λ xs. Any (λ m. m ≡ p.pid) xs) e (insert-here p.pid (pid_set ps)))

-- The processes of one build, if there are any.
one_build_of :
    (ps : List OsdProcess)
    → one_build ps ≡ true
    → (b : List ℕ) × (ps ≢ []) × All (λ a. a.build_id ≡ b) ps
one_build_of [] h = absurd (ground arith)
one_build_of (p ∷ ps) h = (
  p.build_id,
  nonempty (p ∷ ps) refl,
  All-imp _ _ (λ q e. eq_of_same_bytes q.build_id p.build_id e) (p ∷ ps)
      (All_of_all (λ q. same_bytes q.build_id p.build_id) (p ∷ ps) h),
)

module _ (tables : EmbeddedTables) (host : Host) where
  -- The binary has a build id, and the embedded table has its data.
  abbrev pub IsTraceable : OsdProcess → Type 0
  IsTraceable p =
      ((binary_of host p).build_id ≢ [])
      × (find_embedded_match tables (binary_of host p ∷ []) osdtrace ≢ none)

  -- A choice of the processes of one build.
  pub record Selected (pids : List ℕ) : Type 0 where
    pub build : List ℕ
    pub some_pid : pids ≢ []
    pub sound :
        All
          (λ pid.
            Any
              (λ p. (p.pid ≡ pid) × IsTraceable p × ((binary_of host p).build_id ≡ build))
              host.processes)
          pids
    pub complete : All (λ p. (¬ IsTraceable p) ⊎ Any (λ pid. pid ≡ p.pid) pids) host.processes

  selectable-IsTraceable :
      (p : OsdProcess) → is_selectable (annotate tables host p) ≡ true → IsTraceable p
  unfolding annotate is_embedded_traceable
  selectable-IsTraceable p h = (nonempty _ (ground arith), λ e. absurd (ground arith))

  not-IsTraceable :
      (p : OsdProcess) → is_selectable (annotate tables host p) ≡ false → ¬ IsTraceable p
  unfolding annotate is_embedded_traceable
  not-IsTraceable p h (ne, m) = absurd (ground (arith, is_empty_of_ne _ ne, m))

  annotate-same :
      (p : OsdProcess)
      → ((annotate tables host p).pid ≡ p.pid)
        × ((annotate tables host p).build_id ≡ (binary_of host p).build_id)
  unfolding annotate is_embedded_traceable
  annotate-same p = ground arith

  -- A process that the list of the traceable ones names.
  abbrev Comes : List OsdProcess → OsdProcess → Type 0
  Comes procs a =
      Any (λ p. (p.pid ≡ a.pid) × IsTraceable p × ((binary_of host p).build_id ≡ a.build_id)) procs

  selectable_sound :
      (procs : List OsdProcess)
      → All (Comes procs) (filter is_selectable (map (annotate tables host) procs))
  selectable_sound [] = tt
  selectable_sound (p ∷ procs) =
      filter_cons-All is_selectable (Comes (p ∷ procs)) (annotate tables host p)
        (map (annotate tables host) procs)
        (λ e. inl (ground (arith, annotate-same p, selectable-IsTraceable p e)))
        (All-imp (Comes procs) (Comes (p ∷ procs)) (λ a h. inr h) _ (selectable_sound procs))

  -- A process is untraceable, or its pid is among those of the list.
  abbrev Goes : List OsdProcess → OsdProcess → Type 0
  Goes chosen p = (¬ IsTraceable p) ⊎ Any (λ a. a.pid ≡ p.pid) chosen

  Goes-one :
      (p : OsdProcess) (more : List OsdProcess) (b : Bool)
      → is_selectable (annotate tables host p) ≡ b
      → Goes (filter is_selectable (annotate tables host p ∷ more)) p
  Goes-one p more true e =
      inr (filter_cons-here is_selectable _ (annotate tables host p) more e ((annotate-same p).0))
  Goes-one p more false e = inl (not-IsTraceable p e)

  Goes-more :
      (a p : OsdProcess) (more : List OsdProcess)
      → Goes (filter is_selectable more) p
      → Goes (filter is_selectable (a ∷ more)) p
  Goes-more a p more (inl n) = inl n
  Goes-more a p more (inr h) = inr (filter_cons-there is_selectable _ a more h)

  selectable_complete :
      (procs : List OsdProcess)
      → All (Goes (filter is_selectable (map (annotate tables host) procs))) procs
  selectable_complete [] = tt
  selectable_complete (p ∷ procs) =
      let more = map (annotate tables host) procs in
      (
        Goes-one p more _ refl,
        All-imp _ _ (λ q h. Goes-more (annotate tables host p) q more h) procs
            (selectable_complete procs),
      )

  selected_pids :
      (opts : Options) (pids : List ℕ)
      → select_all_traceable_osds tables host opts ≡ some pids
      → let ts = filter is_selectable (map (annotate tables host) host.processes) in
        (one_build ts ≡ true) × (pid_set ts ≡ pids)
  unfolding select_all_traceable_osds
  selected_pids opts pids h = ground arith

  -- If `-a` selects pids, there are some, each is the pid of a discovered process that is traceable
  -- and whose binary is of the one build, and every discovered process that is traceable is among
  -- them.
  pub select_all-Selected :
      (opts : Options) (pids : List ℕ)
      → select_all_traceable_osds tables host opts ≡ some pids
      → Selected pids
  select_all-Selected opts pids h =
      let ts = filter is_selectable (map (annotate tables host) host.processes) in
      let chosen = selected_pids opts pids h in
      let build = one_build_of ts chosen.0 in
      subst Selected chosen.1 (record {
        build = build.0;
        some_pid = pid_set_ne ts build.1;
        sound = pid_set-All _ ts (
            All-imp _ _
              (λ a e.
                subst
                  (λ b.
                    Any (λ p. (p.pid ≡ a.pid) × IsTraceable p × ((binary_of host p).build_id ≡ b))
                      host.processes)
                  e.1 e.0)
              ts (All-zip _ _ ts (selectable_sound host.processes) build.2));
        complete =
            All-imp _ _ (λ p g. pids_of p ts g) host.processes (selectable_complete host.processes);
      })
    where
      pids_of :
          (p : OsdProcess) (ts : List OsdProcess)
          → Goes ts p
          → (¬ IsTraceable p) ⊎ Any (λ pid. pid ≡ p.pid) (pid_set ts)
      pids_of p ts (inl n) = inl n
      pids_of p ts (inr a) = inr (pid_set-Any p.pid ts a)
