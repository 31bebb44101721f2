-- ===== src/Select/Main/Attach.antt =====
-- What the probes that are attached have in common.
use cephtrace.Base.{
  ℕ, suc, ◌≡◌, ◌⊎◌, inl, inr, refl, arith, Bool, true, false, List, [], ◌∷◌, ◌++◌, Option, none,
  some, ◌==◌, if◌then◌else◌, All, All-append, All-imp, Any, minus_one, is_empty, eq_of_is_empty,
}
use cephtrace.Bpf.Queue.{or_zero}
use cephtrace.Bpf.Rules.{if_rule}
use cephtrace.Select.Embedded.Import.{DwarfMaps}
use cephtrace.Select.Embedded.Import.Last.{lookup_in}
use cephtrace.Select.Process.{get_basename}
use cephtrace.Select.Targets.{TraceTarget}
use cephtrace.Select.Args.{AttachEntry, is_enabled}
use cephtrace.Dwarf.Json.{JsonLibrary}
use cephtrace.Select.Main.{
  Attached, Machine, func_addr, attach_path, attach_probe, after_attach, attach_pids, attach_probes,
  attach_all,
}

module _ (lib : JsonLibrary) (m : Machine lib) where
  -- A probe of the mode, at the address of its function, on the processes of the target.
  pub record IsProbe (mode : ℕ) (maps : DwarfMaps) (t : TraceTarget) (a : Attached) : Type 0 where
    pub enabled : is_enabled mode a.entry ≡ true
    pub address : lookup_in (get_basename t.osd_path) a.entry.func maps.mod_func2pc ≡ some a.addr
    pub not_null : (a.addr == 0) ≡ false
    pub place : a.path ≡ attach_path lib m t.osd_path a.pid
    pub process : ((a.pid ≡ minus_one) × (t.pids ≡ [])) ⊎ Any (λ pid. a.pid ≡ pid) t.pids

  or_zero-some : (o : Option ℕ) → (or_zero o == 0) ≡ false → o ≡ some (or_zero o)
  or_zero-some none h = absurd (ground arith)
  or_zero-some (some n) h = refl

  module _ (mode : ℕ) (maps : DwarfMaps) (t : TraceTarget) where
    abbrev pub AreProbes : List Attached → Type 0
    AreProbes = All (IsProbe mode maps t)

    -- What is attached for one entry, and that it is something if all went well.
    pub record IsAttached (r : List Attached × Bool) : Type 0 where
      pub probes : AreProbes r.0
      pub found : r.1 ≡ true → is_empty r.0 ≡ false

    pub record AreAttached (r : List Attached × ℕ) : Type 0 where
      pub probes : AreProbes r.0
      pub found : (r.1 == 0) ≡ false → is_empty r.0 ≡ false

    abbrev OfProcess : ℕ → Type 0
    OfProcess pid = ((pid ≡ minus_one) × (t.pids ≡ [])) ⊎ Any (λ p. pid ≡ p) t.pids

    abbrev MaybeProbe : Option Attached → Type 0
    MaybeProbe none = Unit
    MaybeProbe (some a) = IsProbe mode maps t a

    attach_probe-MaybeProbe :
        (e : AttachEntry) (pid : ℕ)
        → is_enabled mode e ≡ true
        → OfProcess pid
        → MaybeProbe (attach_probe lib m maps t.osd_path e pid)
    unfolding attach_probe
    attach_probe-MaybeProbe e pid on h =
        let a : Attached = record {
          entry = e;
          pid = pid;
          path = attach_path lib m t.osd_path pid;
          addr = func_addr lib m maps t.osd_path e.func;
        } in
        if_rule MaybeProbe (a.addr == 0) none (if m.attaches a then some a else none) (λ _. tt)
          λ n.
            let known = lookup_in (get_basename t.osd_path) e.func maps.mod_func2pc in
            let probe : IsProbe mode maps t a = record {
              enabled = on;
              address = or_zero-some known n;
              not_null = n;
              place = refl;
              process = h;
            } in
            if_rule MaybeProbe (m.attaches a) (some a) none (λ _. probe) (λ _. tt)

    cons-IsAttached :
        (o : Option Attached) (r : List Attached × Bool)
        → MaybeProbe o
        → AreProbes r.0
        → IsAttached (after_attach lib m o r)
    cons-IsAttached none r h g = record { probes = tt; found = λ e. cc }
    cons-IsAttached (some a) (rs, b) h g = record { probes = (h, g); found = λ e. refl }

    pids-AreProbes :
        (e : AttachEntry) (pids : List ℕ)
        → is_enabled mode e ≡ true
        → All OfProcess pids
        → AreProbes (attach_pids lib m maps t.osd_path e pids).0
    pids-AreProbes e [] on h = tt
    pids-AreProbes e (pid ∷ pids) on (h, hs) =
        (cons-IsAttached _ _ (attach_probe-MaybeProbe e pid on h)
          (pids-AreProbes e pids on hs)).probes

    pids-IsAttached :
        (e : AttachEntry) (pid : ℕ) (pids : List ℕ)
        → is_enabled mode e ≡ true
        → All OfProcess (pid ∷ pids)
        → IsAttached (attach_pids lib m maps t.osd_path e (pid ∷ pids))
    pids-IsAttached e pid pids on (h, hs) =
        cons-IsAttached _ _ (attach_probe-MaybeProbe e pid on h) (pids-AreProbes e pids on hs)

    All-listed :
        (ps qs : List ℕ)
        → ((p : ℕ) → Any (λ q. p ≡ q) ps → Any (λ q. p ≡ q) qs)
        → All (λ p. Any (λ q. p ≡ q) qs) ps
    All-listed [] qs f = tt
    All-listed (p ∷ ps) qs f = (f p (inl refl), All-listed ps qs (λ x l. f x (inr l)))

    attach_probes-IsAttached :
        (e : AttachEntry) → is_enabled mode e ≡ true → IsAttached (attach_probes lib m maps t e)
    unfolding attach_probes
    attach_probes-IsAttached e on =
        if_rule IsAttached (is_empty t.pids) (attach_pids lib m maps t.osd_path e (minus_one ∷ []))
          (attach_pids lib m maps t.osd_path e t.pids)
          (λ none'. pids-IsAttached e minus_one [] on (inl (refl, eq_of_is_empty t.pids none'), tt))
          (λ some'. of_pids t.pids some' (All-listed' t.pids))
      where
        All-listed' : (pids : List ℕ) → All (λ p. Any (λ q. p ≡ q) pids) pids
        All-listed' pids = All-listed pids pids (λ p l. l)

        of_pids :
            (pids : List ℕ)
            → is_empty pids ≡ false
            → All (λ p. Any (λ q. p ≡ q) t.pids) pids
            → IsAttached (attach_pids lib m maps t.osd_path e pids)
        of_pids [] h g = absurd (ground arith)
        of_pids (pid ∷ pids) h g =
            pids-IsAttached e pid pids on (All-imp _ _ (λ p l. inr l) (pid ∷ pids) g)

    is_empty-append : (xs ys : List Attached) → is_empty ys ≡ false → is_empty (xs ++ ys) ≡ false
    is_empty-append [] ys h = h
    is_empty-append (x ∷ xs) ys h = refl

    append_is_empty : (xs ys : List Attached) → is_empty xs ≡ false → is_empty (xs ++ ys) ≡ false
    append_is_empty [] ys h = absurd (ground arith)
    append_is_empty (x ∷ xs) ys h = refl

    append-AreAttached :
        (made : List Attached) (ok : Bool) (more : List Attached) (n : ℕ)
        → IsAttached (made, ok)
        → AreAttached (more, n)
        → AreAttached (made ++ more, if ok then suc n else n)
    append-AreAttached made true more n h g = record {
      probes = All-append _ made more h.probes g.probes;
      found = λ _. append_is_empty made more (h.found refl);
    }
    append-AreAttached made false more n h g = record {
      probes = All-append _ made more h.probes g.probes;
      found = λ e. is_empty-append made more (g.found e);
    }

    pub attach_all-AreAttached :
        (es : List AttachEntry) → AreAttached (attach_all lib m mode maps t es)
    unfolding attach_all
    attach_all-AreAttached [] = record { probes = tt; found = λ e. absurd (ground arith) }
    attach_all-AreAttached (e ∷ es) =
        let one = attach_probes lib m maps t e in
        let more = attach_all lib m mode maps t es in
        if_rule AreAttached (is_enabled mode e)
          (one.0 ++ more.0, if one.1 then suc more.1 else more.1) more
          (λ on.
            append-AreAttached one.0 one.1 more.0 more.1 (attach_probes-IsAttached e on)
              (attach_all-AreAttached es))
          (λ _. attach_all-AreAttached es)
