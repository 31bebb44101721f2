-- ===== src/Bpf/Queue/Track.antt =====
-- The insertion of `uprobe_enqueue_op`, for any property of the entries.
use cephtrace.Base.{ℕ, ◌≡◌, sym, subst, refl, some}
use cephtrace.Bpf.Types.{OpKey, OpValue, zero_op_v}
use cephtrace.Bpf.Maps.{
  Entries, updated_value, Others-update, Others-write, Entries-fill, Entries-drop, Entries-missing,
}
use cephtrace.Bpf.Tracer.{Hit, Config, Kernel, Tracer}
use cephtrace.Bpf.Queue.{fresh_entry, read_stamps, track}
use cephtrace.Bpf.Rules.{require_rule, require_cases}

module _ (k : Kernel) (g : Config) (c : Hit) (key : OpKey) (op_type stamp : ℕ) (s : Tracer k) where
  pub track-rb : (track k g c key op_type stamp s).rb ≡ s.rb
  unfolding track
  track-rb =
      let Q = λ (u : Tracer k). u.rb ≡ s.rb in
      let m = k.ops.update s.ops key zero_op_v in
      require_rule Q (k.ops.lookup m key) _ _ refl λ value _.
        require_rule Q (read_stamps g c (fresh_entry key op_type stamp value)) _ _ refl λ _ _. refl

  pub track-Entries :
      (P : OpKey → OpValue → Type 0)
      → ((w : OpValue)
          → read_stamps g c (fresh_entry key op_type stamp zero_op_v) ≡ some w
          → P key w)
      → Entries k.ops P s.ops
      → Entries k.ops P (track k g c key op_type stamp s).ops
  unfolding track
  track-Entries P new old =
      let Q = λ (u : Tracer k). Entries k.ops P u.ops in
      let m = k.ops.update s.ops key zero_op_v in
      let others = Others-update k.ops s.ops key zero_op_v old in
      require_cases Q (k.ops.lookup m key) _ _ (λ gone. Entries-missing k.ops m key gone others)
        λ value found.
          let zero : zero_op_v ≡ value =
            updated_value k.ops s.ops key zero_op_v value
              (k.ops.lookup-update_self s.ops key zero_op_v) found in
          let fresh = fresh_entry key op_type stamp value in
          require_cases Q (read_stamps g c fresh) _ _
            (λ _.
              Entries-drop k.ops (k.ops.write m key fresh) key
                (Others-write k.ops m key fresh others))
            λ filled e.
              Entries-fill k.ops m key filled value found
                (new filled (
                  subst (λ z. read_stamps g c (fresh_entry key op_type stamp z) ≡ some filled)
                    (sym zero) e))
                others
