-- ===== src/Bpf/Maps.antt =====
-- A hash map of the kernel, as the probes see it through `bpf_map_lookup_elem`,
-- `bpf_map_update_elem` and `bpf_map_delete_elem`. The kernel is not part of the repository, so the
-- map is an interface: operations, and the laws that its documentation promises. An LRU hash may
-- drop any entries when one is inserted, and an insertion may fail; which entries those are is part
-- of the map's own state. `write` is an assignment through the pointer that a lookup returned.
use mathlib.Core.Path.{subst₂}
use cephtrace.Base.{◌≡◌, ◌≢◌, ◌⊎◌, inl, inr, Option, none, some, refl, sym, subst}

pub record BpfMap (K V : Type 0) : Type 1 where
  pub Map : Type 0
  pub empty : Map
  pub lookup : Map → K → Option V
  pub update : Map → K → V → Map
  pub delete : Map → K → Map
  pub write : Map → K → V → Map
  pub same_key : Discrete K
  pub lookup-empty : (k : K) → lookup empty k ≡ none
  pub lookup-update_self :
      (m : Map) (k : K) (v : V)
      → (lookup (update m k v) k ≡ some v) ⊎ (lookup (update m k v) k ≡ none)
  pub lookup-update_ne :
      (m : Map) (k j : K) (v : V)
      → j ≢ k
      → (lookup (update m k v) j ≡ lookup m j) ⊎ (lookup (update m k v) j ≡ none)
  pub lookup-delete_self : (m : Map) (k : K) → lookup (delete m k) k ≡ none
  pub lookup-delete_ne : (m : Map) (k j : K) → j ≢ k → lookup (delete m k) j ≡ lookup m j
  pub lookup-write_self :
      (m : Map) (k : K) (v w : V) → lookup m k ≡ some w → lookup (write m k v) k ≡ some v
  pub lookup-write_ne : (m : Map) (k j : K) (v : V) → j ≢ k → lookup (write m k v) j ≡ lookup m j

-- Every entry of the map has the property.
abbrev pub Entries : {K V : Type 0} (b : BpfMap K V) → (K → V → Type 0) → b.Map → Type 0
Entries {K} {V} b P m = (k : K) (v : V) → b.lookup m k ≡ some v → P k v

module _ {K V : Type 0} (b : BpfMap K V) where
  pub updated_value :
      (m : b.Map) (k : K) (v u : V)
      → (b.lookup (b.update m k v) k ≡ some v) ⊎ (b.lookup (b.update m k v) k ≡ none)
      → b.lookup (b.update m k v) k ≡ some u
      → v ≡ u
  updated_value m k v u (inl e) h = cc
  updated_value m k v u (inr e) h = cc

module _ {K V : Type 0} (b : BpfMap K V) {P : K → V → Type 0} where
  pub Entries-delete : (m : b.Map) (k : K) → Entries b P m → Entries b P (b.delete m k)
  Entries-delete m k all j v h = elim (b.same_key j k) [
    | yes e ↦ cc (b.lookup-delete_self m k)
    | no n ↦ all j v (cc (b.lookup-delete_ne m k j n))
  ]

  pub Entries-write :
      (m : b.Map) (k : K) (v w : V)
      → b.lookup m k ≡ some w
      → P k v
      → Entries b P m
      → Entries b P (b.write m k v)
  Entries-write m k v w old p all j u h = elim (b.same_key j k) [
    | yes e ↦ subst₂ P (sym e) (cc (b.lookup-write_self m k v w old)) p
    | no n ↦ all j u (cc (b.lookup-write_ne m k j v n))
  ]

  Entries-update_ne :
      (m : b.Map) (k j : K) (v u : V)
      → Entries b P m
      → (b.lookup (b.update m k v) j ≡ b.lookup m j) ⊎ (b.lookup (b.update m k v) j ≡ none)
      → b.lookup (b.update m k v) j ≡ some u
      → P j u
  Entries-update_ne m k j v u all (inl e) h = all j u (cc)
  Entries-update_ne m k j v u all (inr e) h = cc

  pub Entries-update :
      (m : b.Map) (k : K) (v : V) → P k v → Entries b P m → Entries b P (b.update m k v)
  Entries-update m k v p all j u h = elim (b.same_key j k) [
    | yes e ↦
        subst₂ P (sym e)
          (updated_value b m k v u (b.lookup-update_self m k v)
            (subst (λ i. b.lookup (b.update m k v) i ≡ some u) e h))
          p
    | no n ↦ Entries-update_ne m k j v u all (b.lookup-update_ne m k j v n) h
  ]

-- The same of every entry but the one under the key i.
abbrev pub Others : {K V : Type 0} (b : BpfMap K V) → (K → V → Type 0) → K → b.Map → Type 0
Others b P i = Entries b (λ j v. j ≢ i → P j v)

module _ {K V : Type 0} (b : BpfMap K V) {P : K → V → Type 0} where
  pub Others-update : (m : b.Map) (k : K) (v : V) → Entries b P m → Others b P k (b.update m k v)
  Others-update m k v all = Entries-update b m k v (λ n. absurd (n refl)) (λ j u h _. all j u h)

  pub Entries-fill :
      (m : b.Map) (k : K) (v w : V)
      → b.lookup m k ≡ some w
      → P k v
      → Others b P k m
      → Entries b P (b.write m k v)
  Entries-fill m k v w old p all j u h = elim (b.same_key j k) [
    | yes e ↦ subst₂ P (sym e) (cc (b.lookup-write_self m k v w old)) p
    | no n ↦ all j u (cc (b.lookup-write_ne m k j v n)) n
  ]

  pub Entries-drop : (m : b.Map) (k : K) → Others b P k m → Entries b P (b.delete m k)
  Entries-drop m k all j u h = elim (b.same_key j k) [
    | yes e ↦ cc (b.lookup-delete_self m k)
    | no n ↦ all j u (cc (b.lookup-delete_ne m k j n)) n
  ]

  pub Entries-missing : (m : b.Map) (k : K) → b.lookup m k ≡ none → Others b P k m → Entries b P m
  Entries-missing m k gone all j u h = elim (b.same_key j k) [ yes e ↦ cc | no n ↦ all j u h n ]

  pub Others-write : (m : b.Map) (k : K) (v : V) → Others b P k m → Others b P k (b.write m k v)
  Others-write m k v all j u h n = all j u (cc (b.lookup-write_ne m k j v n)) n
