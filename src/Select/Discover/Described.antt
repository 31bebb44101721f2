-- ===== src/Select/Discover/Described.antt =====
-- What an entry of /proc says of a process, and which of them are ceph-osd processes.
use cephtrace.Base.{
  ℕ, ◌≤◌, ◌≡◌, refl, ap, arith, Bool, true, false, not, List, [], ◌∷◌, Option, none, some,
  if◌then◌else◌, same_bytes, eq_of_same_bytes, is_empty, codes,
}
use cephtrace.Bpf.Queue.{require}
use cephtrace.Bpf.Rules.{require_some, require_rule, if_rule}
use cephtrace.Select.Process.{OsdProcess, unset, get_basename}
use cephtrace.Select.Targets.{ceph_osd_text}
use cephtrace.Select.OsdId.{stoi}
use cephtrace.Version.Text.{ProcEntry}
use cephtrace.Version.Deleted.{is_pid_entry}
use cephtrace.Report.Events.{Reporting, no_events, osd_pid_to_id}
use cephtrace.Select.Discover.{ProcHost, path_of_process, in_container, process_of}

abbrev pub StartsWithDigit : List ℕ → Type 0
StartsWithDigit [] = ⊥
StartsWithDigit (c ∷ cs) = (b'0' ≤ c) × (c ≤ b'9')

pid_entry : (e : ProcEntry) → is_pid_entry e ≡ true → (e.is_dir ≡ true) × StartsWithDigit e.d_name
unfolding is_pid_entry
pid_entry e h = by_name e.is_dir e.d_name h
  where
    by_name :
        (d : Bool) (name : List ℕ)
        → is_pid_entry (record { is_dir = d; d_name = name }) ≡ true
        → (d ≡ true) × StartsWithDigit name
    by_name d [] k = absurd (ground arith)
    by_name d (c ∷ cs) k = (ground arith, (ground arith, ground arith))

entry_pid : (e : ProcEntry) → e.is_dir ≡ true → StartsWithDigit e.d_name → is_pid_entry e ≡ true
unfolding is_pid_entry
entry_pid e h n = by_name e.is_dir e.d_name h n
  where
    by_name :
        (d : Bool) (name : List ℕ)
        → d ≡ true
        → StartsWithDigit name
        → is_pid_entry (record { is_dir = d; d_name = name }) ≡ true
    by_name d [] k n = absurd n
    by_name d (c ∷ cs) k (m, n) = ground arith

module _ (g : Reporting) (host : ProcHost) where
  -- The entry is a directory named by a pid, and that process is a ceph-osd.
  pub record IsOsd (e : ProcEntry) (pid : ℕ) : Type 0 where
    pub directory : e.is_dir ≡ true
    pub digit : StartsWithDigit e.d_name
    pub number : stoi e.d_name ≡ some pid
    pub named : get_basename (path_of_process host pid) ≡ codes "ceph-osd"

  pub record Describes (e : ProcEntry) (p : OsdProcess) : Type 0 where
    pub osd : IsOsd e p.pid
    pub path : p.exe_path ≡ path_of_process host p.pid
    pub id : p.osd_id ≡ osd_pid_to_id g no_events p.pid
    pub container : p.is_container ≡ in_container host p.pid

  abbrev pub described : ℕ → OsdProcess
  described pid = record {
    pid = pid;
    osd_id = osd_pid_to_id g no_events pid;
    exe_path = path_of_process host pid;
    is_container = in_container host pid;
    traceable = unset;
    version = [];
    build_id = [];
  }

  abbrev pub IfDescribed : ProcEntry → Option OsdProcess → Type 0
  IfDescribed e none = Unit
  IfDescribed e (some p) = Describes e p

  pub process_of-IfDescribed : (e : ProcEntry) → IfDescribed e (process_of g host e)
  unfolding process_of
  process_of-IfDescribed e =
      let path : ℕ → List ℕ = path_of_process host in
      let if_named : ℕ → Option OsdProcess = λ pid.
        if not (same_bytes (get_basename (path pid)) ceph_osd_text)
        then none
        else some (described pid) in
      let found : ℕ → Option OsdProcess =
        λ pid. if is_empty (path pid) then none else if_named pid in
      if_rule (IfDescribed e) (not (is_pid_entry e)) none (require (stoi e.d_name) none found)
        (λ _. tt)
        λ is_pid.
          let (dir, digit) = pid_entry e (ground arith) in
          require_rule (IfDescribed e) (stoi e.d_name) none found tt λ pid number.
            if_rule (IfDescribed e) (is_empty (path pid)) none (if_named pid) (λ _. tt)
              λ _.
                if_rule (IfDescribed e) (not (same_bytes (get_basename (path pid)) ceph_osd_text))
                  none (some (described pid)) (λ _. tt)
                  λ named. record {
                    osd = record {
                      directory = dir;
                      digit = digit;
                      number = number;
                      named =
                          eq_of_same_bytes (get_basename (path pid)) ceph_osd_text (ground arith);
                    };
                    path = refl;
                    id = refl;
                    container = refl;
                  }

  basename_empty : (path : List ℕ) → get_basename path ≡ codes "ceph-osd" → is_empty path ≡ false
  unfolding get_basename
  basename_empty [] h = absurd (ground (arith, ap is_empty h))
  basename_empty (c ∷ cs) h = refl

  -- Every ceph-osd is described.
  pub process_of-described :
      (e : ProcEntry) (pid : ℕ) → IsOsd e pid → process_of g host e ≡ some (described pid)
  unfolding process_of
  process_of-described e pid h =
      let path : ℕ → List ℕ = path_of_process host in
      let Is : Option OsdProcess → Type 0 = λ o. o ≡ some (described pid) in
      let if_named : ℕ → Option OsdProcess = λ pid.
        if not (same_bytes (get_basename (path pid)) ceph_osd_text)
        then none
        else some (described pid) in
      let found : ℕ → Option OsdProcess =
        λ pid. if is_empty (path pid) then none else if_named pid in
      let pid_name = entry_pid e h.directory h.digit in
      let same : same_bytes (get_basename (path pid)) ceph_osd_text ≡ true =
        ap (λ n. same_bytes n ceph_osd_text) h.named in
      let there = basename_empty (path pid) h.named in
      if_rule Is (not (is_pid_entry e)) none (require (stoi e.d_name) none found)
        (λ k. absurd (ground arith))
        λ _. require_some Is (stoi e.d_name) pid none found h.number (
          if_rule Is (is_empty (path pid)) none (if_named pid) (λ k. absurd (ground arith))
            λ _.
              if_rule Is (not (same_bytes (get_basename (path pid)) ceph_osd_text)) none
                (some (described pid)) (λ k. absurd (ground arith)) (λ _. refl))
