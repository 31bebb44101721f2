-- ===== src/Bpf/Rules.antt =====
-- To prove a property of what a probe returns, one guard at a time.
use cephtrace.Base.{◌≡◌, Bool, true, false, Option, none, some, refl, sym, subst, if◌then◌else◌}
use cephtrace.Bpf.Queue.{require}

some_value : {A : Type 0} (b a : A) → some b ≡ some a → b ≡ a
some_value b a e = cc

module _ {ℓ κ} {S : Type ℓ} (P : S → Type κ) where
  pub require_rule :
      {A : Type 0} (o : Option A) (s : S) (f : A → S)
      → P s
      → ((a : A) → o ≡ some a → P (f a))
      → P (require o s f)
  require_rule none s f stop more = stop
  require_rule (some a) s f stop more = more a refl

  -- The guard is passed, or ends the probe.
  pub require_some :
      {A : Type 0} (o : Option A) (a : A) (s : S) (f : A → S)
      → o ≡ some a
      → P (f a)
      → P (require o s f)
  require_some none a s f e p = cc
  require_some (some b) a s f e p = subst (λ x. P (f x)) (sym (some_value b a e)) p

  pub require_none :
      {A : Type 0} (o : Option A) (s : S) (f : A → S) → o ≡ none → P s → P (require o s f)
  require_none none s f e p = p
  require_none (some b) s f e p = cc

  pub require_cases :
      {A : Type 0} (o : Option A) (s : S) (f : A → S)
      → (o ≡ none → P s)
      → ((a : A) → o ≡ some a → P (f a))
      → P (require o s f)
  require_cases none s f stop more = stop refl
  require_cases (some a) s f stop more = more a refl

  pub if_rule : (b : Bool) (s u : S) → (b ≡ true → P s) → (b ≡ false → P u) → P (if b then s else u)
  if_rule true s u yes' no' = yes' refl
  if_rule false s u yes' no' = no' refl
