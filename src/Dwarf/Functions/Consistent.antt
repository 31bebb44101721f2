-- ===== src/Dwarf/Functions/Consistent.antt =====
-- What the parser knows of a function after it has gone through a module.
use cephtrace.Base.{
  ℕ, suc, ◌≡◌, refl, sym, subst, ap, ◌∙◌, Bool, false, List, [], ◌∷◌, Option, none, some, inl, inr,
  length, drop, same_bytes, eq_of_same_bytes, same_bytes_refl, Bool-cases,
}
use cephtrace.Bpf.Types.{VarLocation}
use cephtrace.Select.Embedded.{Named, VarPath}
use cephtrace.Select.Embedded.Import.{lookup_name, put_in, DwarfMaps}
use cephtrace.Select.Embedded.Import.Last.{lookup_in, lookup_in-put_in}
use cephtrace.Select.Process.{get_basename}
use cephtrace.Dwarf.Types.{Libdw}
use cephtrace.Dwarf.Expr.{Translated, out_of_fuel, failed, located}
use cephtrace.Dwarf.Fields.{Fields, no_fuel, refused, fields, translate_fields}
use cephtrace.Dwarf.Fields.Lowered.{names, Counted, translate_fields-Counted}
use cephtrace.Dwarf.Functions.{
  LibdwFunctions, Probes, filter_func, full_name, Parsed, aborted, parsed, var_of, located_var,
  translate_var, cons_var, translate_vars, stored_vars, at_prologue, probed, named_function,
  handle_function, and_parsed, handle_functions, handle_unit, handle_units, handle_module,
  die_has_loclist, is_looked_at, unit_name,
}

-- The description of a variable for a path: an unused field, and one for each member on it.
abbrev pub FitsPath : List (List ℕ) → VarPath → Type 0
FitsPath tokens v = length v.fields ≡ suc (names (drop 1 tokens))

-- One description for each path, in their order.
abbrev pub FitPaths : List (List (List ℕ)) → List VarPath → Type 0
FitPaths [] [] = Unit
FitPaths [] (v ∷ vs) = ⊥
FitPaths (t ∷ ts) [] = ⊥
FitPaths (t ∷ ts) (v ∷ vs) = FitsPath t v × FitPaths ts vs

-- A function that is described is one that is probed, has a description for each of its paths, and
-- has an address.
pub record IsKnown (probes : Probes) (mod_name name : List ℕ) (vs : List VarPath) (maps : DwarfMaps)
    : Type 0 where
  pub paths : List (List (List ℕ))
  pub requested : lookup_name name probes ≡ some paths
  pub fit : FitPaths paths vs
  pub pc : ℕ
  pub placed : lookup_in mod_name name maps.mod_func2pc ≡ some pc

abbrev pub IsConsistent : Probes → List ℕ → DwarfMaps → Type 0
IsConsistent probes mod_name maps =
    (name : List ℕ) (vs : List VarPath)
    → lookup_in mod_name name maps.mod_func2vf ≡ some vs
    → IsKnown probes mod_name name vs maps

abbrev pub ParsedConsistent : Probes → List ℕ → Parsed → Type 0
ParsedConsistent probes mod_name aborted = Unit
ParsedConsistent probes mod_name (parsed maps) = IsConsistent probes mod_name maps

module _ (dw : Libdw) (lf : LibdwFunctions dw) (fuel : ℕ)
    (cache : List (List (List (Named dw.Die)))) (probes : Probes) where
  abbrev SomeFits : List (List ℕ) → Option VarPath → Type 0
  SomeFits tokens none = Unit
  SomeFits tokens (some v) = FitsPath tokens v

  abbrev SomeFit : List (List (List ℕ)) → Option (List VarPath) → Type 0
  SomeFit arr none = Unit
  SomeFit arr (some vs) = FitPaths arr vs

  var_of-fits :
      (l : VarLocation) (param : List ℕ) (tokens : List (List ℕ)) (r : Fields)
      → Counted (suc (names tokens)) r
      → SomeFits (param ∷ tokens) (var_of dw lf fuel cache probes l r)
  var_of-fits l param tokens no_fuel h = tt
  var_of-fits l param tokens refused h = tt
  var_of-fits l param tokens (fields fs) h = h

  located_var-fits :
      (func : dw.Die) (pc : ℕ) (param : List ℕ) (tokens : List (List ℕ)) (t : Option dw.Die)
      (r : Translated)
      → SomeFits (param ∷ tokens) (located_var dw lf fuel cache probes func pc (param ∷ tokens) t r)
  located_var-fits func pc param tokens none r = tt
  located_var-fits func pc param tokens (some t) out_of_fuel = tt
  located_var-fits func pc param tokens (some t) failed = tt
  located_var-fits func pc param tokens (some t) (located l) =
      var_of-fits l param tokens (translate_fields dw fuel fuel pc cache fuel t (param ∷ tokens))
        (translate_fields-Counted dw fuel fuel pc cache fuel t param tokens)

  translate_var-fits :
      (func : dw.Die) (pc : ℕ) (tokens : List (List ℕ))
      → SomeFits tokens (translate_var dw lf fuel cache probes func pc tokens)
  unfolding translate_var
  translate_var-fits func pc [] = tt
  translate_var-fits func pc (param ∷ tokens) = located_var-fits func pc param tokens _ _

  cons_var-fit :
      (tokens : List (List ℕ)) (arr : List (List (List ℕ))) (v : Option VarPath)
      (vs : Option (List VarPath))
      → SomeFits tokens v
      → SomeFit arr vs
      → SomeFit (tokens ∷ arr) (cons_var dw lf fuel cache probes v vs)
  cons_var-fit tokens arr none vs h g = tt
  cons_var-fit tokens arr (some v) none h g = tt
  cons_var-fit tokens arr (some v) (some vs) h g = (h, g)

  translate_vars-fit :
      (func : dw.Die) (pc : ℕ) (arr : List (List (List ℕ)))
      → SomeFit arr (translate_vars dw lf fuel cache probes func pc arr)
  unfolding translate_vars
  translate_vars-fit func pc [] = tt
  translate_vars-fit func pc (tokens ∷ arr) =
      cons_var-fit tokens arr _ _ (translate_var-fits func pc tokens)
        (translate_vars-fit func pc arr)

  some_inj : (vs ws : List VarPath) → some vs ≡ some ws → vs ≡ ws
  some_inj vs ws h = cc

  module _ (mod_name : List ℕ) where
    -- What a map holds after one more entry of the module.
    lookup-put_same :
        {A : Type 0} (name : List ℕ) (value : A) (table : List (Named (List (Named A))))
        → lookup_in mod_name name (put_in mod_name (record { name = name; value = value }) table)
          ≡ some value
    lookup-put_same name value table =
        lookup_in-put_in mod_name name mod_name (record { name = name; value = value }) table
        ∙ rw (same_bytes_refl mod_name, same_bytes_refl name) refl

    lookup-put_other :
        {A : Type 0} (name other : List ℕ) (value : A) (table : List (Named (List (Named A))))
        → same_bytes name other ≡ false
        → lookup_in mod_name name (put_in mod_name (record { name = other; value = value }) table)
          ≡ lookup_in mod_name name table
    lookup-put_other name other value table h =
        lookup_in-put_in mod_name name mod_name (record { name = other; value = value }) table
        ∙ rw (same_bytes_refl mod_name, h) refl

    -- One more function, with its address.
    put_function :
        (fullname : List ℕ) (pc : ℕ) (arr : List (List (List ℕ))) (vs : List VarPath)
        (maps : DwarfMaps)
        → lookup_name fullname probes ≡ some arr
        → FitPaths arr vs
        → IsConsistent probes mod_name maps
        → IsConsistent probes mod_name (record maps {
          mod_func2pc = put_in mod_name (record { name = fullname; value = pc }) maps.mod_func2pc;
          mod_func2vf = put_in mod_name (record { name = fullname; value = vs }) maps.mod_func2vf;
        })
    put_function fullname pc arr vs maps asked fit h name ws e =
        elim (Bool-cases (same_bytes name fullname)) [
          | inl s ↦
              let eq = eq_of_same_bytes name fullname s in
              let found : some vs ≡ some ws =
                sym (lookup-put_same fullname vs maps.mod_func2vf)
                ∙ subst
                    (λ n.
                      lookup_in mod_name n
                        (put_in mod_name (record { name = fullname; value = vs }) maps.mod_func2vf)
                      ≡ some ws)
                    eq e in
              record {
                paths = arr;
                requested = ap (λ n. lookup_name n probes) eq ∙ asked;
                fit = subst (FitPaths arr) (some_inj vs ws found) fit;
                pc = pc;
                placed =
                    subst
                      (λ n.
                        lookup_in mod_name n (
                          put_in mod_name (record { name = fullname; value = pc }) maps.mod_func2pc)
                        ≡ some pc)
                      (sym eq) (lookup-put_same fullname pc maps.mod_func2pc);
              }
          | inr o ↦
              let known =
                h name ws (sym (lookup-put_other name fullname vs maps.mod_func2vf o) ∙ e) in
              record {
                paths = known.paths;
                requested = known.requested;
                fit = known.fit;
                pc = known.pc;
                placed = lookup-put_other name fullname pc maps.mod_func2pc o ∙ known.placed;
              }
        ]

    stored_vars-consistent :
        (fullname : List ℕ) (pc : ℕ) (arr : List (List (List ℕ))) (maps : DwarfMaps)
        (o : Option (List VarPath))
        → lookup_name fullname probes ≡ some arr
        → SomeFit arr o
        → IsConsistent probes mod_name maps
        → ParsedConsistent probes mod_name
            (stored_vars dw lf fuel cache probes mod_name fullname pc maps o)
    stored_vars-consistent fullname pc arr maps none asked fit h = tt
    stored_vars-consistent fullname pc arr maps (some vs) asked fit h =
        put_function fullname pc arr vs maps asked fit h

    at_prologue-consistent :
        (die : dw.Die) (fullname : List ℕ) (arr : List (List (List ℕ))) (maps : DwarfMaps)
        (pc : Option ℕ)
        → lookup_name fullname probes ≡ some arr
        → IsConsistent probes mod_name maps
        → ParsedConsistent probes mod_name
            (at_prologue dw lf fuel cache probes mod_name die fullname arr maps pc)
    at_prologue-consistent die fullname arr maps none asked h = h
    at_prologue-consistent die fullname arr maps (some pc) asked h =
        stored_vars-consistent fullname pc arr maps _ asked (translate_vars-fit die pc arr) h

    probed-consistent :
        (loclist : Bool) (die : dw.Die) (fullname : List ℕ) (maps : DwarfMaps)
        (arr : Option (List (List (List ℕ))))
        → lookup_name fullname probes ≡ arr
        → IsConsistent probes mod_name maps
        → ParsedConsistent probes mod_name
            (probed dw lf fuel cache probes mod_name loclist die fullname maps arr)
    probed-consistent loclist die fullname maps none asked h = h
    probed-consistent loclist die fullname maps (some arr) asked h =
        elim (Bool-cases (lf.func_inline die)) [
          | inl e ↦ rw e h
          | inr e ↦ rw e (at_prologue-consistent die fullname arr maps _ asked h)
        ]

    handle_function-consistent :
        (loclist : Bool) (die : dw.Die) (maps : DwarfMaps) (o : Option (List ℕ))
        → IsConsistent probes mod_name maps
        → ParsedConsistent probes mod_name
            (named_function dw lf fuel cache probes mod_name loclist die maps o)
    handle_function-consistent loclist die maps none h = h
    handle_function-consistent loclist die maps (some funcname) h =
        elim (Bool-cases (filter_func probes funcname)) [
          | inl e ↦
              rw e (probed-consistent loclist die (full_name dw lf die funcname) maps _ refl h)
          | inr e ↦ rw e h
        ]

    and_parsed-consistent :
        (next : DwarfMaps → Parsed) (r : Parsed)
        → ((m : DwarfMaps)
            → IsConsistent probes mod_name m
            → ParsedConsistent probes mod_name (next m))
        → ParsedConsistent probes mod_name r
        → ParsedConsistent probes mod_name (and_parsed dw lf fuel cache probes next r)
    and_parsed-consistent next aborted f h = tt
    and_parsed-consistent next (parsed maps) f h = f maps h

    handle_functions-consistent :
        (loclist : Bool) (dies : List dw.Die) (maps : DwarfMaps)
        → IsConsistent probes mod_name maps
        → ParsedConsistent probes mod_name
            (handle_functions dw lf fuel cache probes mod_name loclist dies maps)
    unfolding handle_functions handle_function
    handle_functions-consistent loclist [] maps h = h
    handle_functions-consistent loclist (die ∷ dies) maps h =
        and_parsed-consistent _ _ (λ m g. handle_functions-consistent loclist dies m g)
          (handle_function-consistent loclist die maps (dw.diename die) h)

    handle_unit-consistent :
        (probe_units : List (List ℕ)) (cu : dw.Die) (maps : DwarfMaps)
        → IsConsistent probes mod_name maps
        → ParsedConsistent probes mod_name
            (handle_unit dw lf fuel cache probes mod_name probe_units cu maps)
    unfolding handle_unit
    handle_unit-consistent probe_units cu maps h =
        elim (Bool-cases (
          is_looked_at dw lf fuel cache probes probe_units
            (unit_name dw lf fuel cache probes cu))) [
              | inl e ↦
                  rw e (
                    handle_functions-consistent (die_has_loclist dw fuel cu) (lf.getfuncs cu) maps
                      h)
              | inr e ↦ rw e h
            ]

    handle_units-consistent :
        (probe_units : List (List ℕ)) (cus : List dw.Die) (maps : DwarfMaps)
        → IsConsistent probes mod_name maps
        → ParsedConsistent probes mod_name
            (handle_units dw lf fuel cache probes mod_name probe_units cus maps)
    unfolding handle_units
    handle_units-consistent probe_units [] maps h = h
    handle_units-consistent probe_units (cu ∷ cus) maps h =
        and_parsed-consistent _ _ (λ m g. handle_units-consistent probe_units cus m g)
          (handle_unit-consistent probe_units cu maps h)

  -- If the functions that are known of a module are described as they are asked for, so they are
  -- after the module has been gone through, unless an assertion failed: every function with a
  -- description is one of the probes, has an address, and has one description for each of its
  -- paths, in their order, with an unused field and one for each member that the path names.
  pub handle_module-IsConsistent :
      (mod_path : List ℕ) (probe_units : List (List ℕ)) (units : List dw.Die) (maps : DwarfMaps)
      → IsConsistent probes (get_basename mod_path) maps
      → ParsedConsistent probes
          (get_basename mod_path)
          (handle_module dw lf fuel cache probes mod_path probe_units units maps)
  unfolding handle_module
  handle_module-IsConsistent mod_path probe_units units maps h =
      handle_units-consistent (get_basename mod_path) probe_units units maps h
