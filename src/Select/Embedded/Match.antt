-- ===== src/Select/Embedded/Match.antt =====
-- The embedded entry that is chosen holds every requested module under its build id.
use cephtrace.Base.{
  Bool, true, false, not, ◌⊎◌, inl, inr, ◌≡◌, ◌≢◌, refl, arith, List, [], ◌∷◌, Option, none, some,
  filter, all, any, map, All, Any, is_empty, nonempty, is_empty_of_ne, eq_of_is_empty,
  if◌then◌else◌, eq_of_same_bytes, same_bytes_refl,
}
use cephtrace.Select.Embedded.{
  BuildId, EmbeddedModule, EmbeddedVersion, module_ids, EmbeddedTables, TraceType, table_of,
  same_id, wanted, build_ids, has_id, is_match, scan, find_embedded_match,
}

-- The entry lists the module with that very build id, which is not empty.
abbrev pub Holds : EmbeddedVersion → BuildId → Type 0
Holds v w = (w.build_id ≢ []) × Any (λ m. m ≡ w) (module_ids v)

-- What a lookup in a table says.
abbrev pub MatchOutcome : List EmbeddedVersion → List BuildId → Option EmbeddedVersion → Type 0
MatchOutcome versions modules none =
    (modules ≡ [])
    ⊎ (Any (λ m. m.build_id ≡ []) modules ⊎ All (λ v. ¬ All (Holds v) modules) versions)
MatchOutcome versions modules (some v) =
    (modules ≢ []) × Any (λ w. w ≡ v) versions × All (Holds v) modules

eq_of_same_id : (a b : BuildId) → same_id a b ≡ true → b ≡ a
unfolding same_id
eq_of_same_id a b h =
    ground
      (arith, eq_of_same_bytes a.module_name b.module_name, eq_of_same_bytes a.build_id b.build_id)

same_id_of_eq : (a b : BuildId) → b ≡ a → same_id a b ≡ true
unfolding same_id
same_id_of_eq a b h =
    rw h (ground (arith, same_bytes_refl a.module_name, same_bytes_refl a.build_id))

module _ (w : BuildId) where
  Any_of_has :
      (ms : List BuildId)
      → has_id (filter (λ m. not (is_empty m.build_id)) ms) w ≡ true
      → Any (λ m. m ≡ w) ms
  Any_of_has [] h = absurd (ground arith)
  Any_of_has (m ∷ ms) h = ground (arith, Any_of_has ms, eq_of_same_id w m)

  has_of_Any :
      (ms : List BuildId)
      → is_empty w.build_id ≡ false
      → Any (λ m. m ≡ w) ms
      → has_id (filter (λ m. not (is_empty m.build_id)) ms) w ≡ true
  has_of_Any [] n h = absurd h
  has_of_Any (m ∷ ms) n (inl e) = rw e (ground (arith, n, same_id_of_eq w w refl))
  has_of_Any (m ∷ ms) n (inr h) = ground (arith, has_of_Any ms)

-- A list of modules without an empty build id.
abbrev AllNamed : List BuildId → Type 0
AllNamed ms = All (λ w. is_empty w.build_id ≡ false) ms

named_of_any : (ms : List BuildId) → any (λ m. is_empty m.build_id) ms ≡ false → AllNamed ms
named_of_any [] h = tt
named_of_any (m ∷ ms) h = ground (arith, named_of_any ms)

empty_of_any :
    (ms : List BuildId) → any (λ m. is_empty m.build_id) ms ≡ true → Any (λ m. m.build_id ≡ []) ms
empty_of_any [] h = absurd (ground arith)
empty_of_any (m ∷ ms) h = ground (arith, empty_of_any ms, eq_of_is_empty m.build_id)

module _ (v : EmbeddedVersion) where
  Holds-all :
      (want : List BuildId)
      → AllNamed want
      → all (has_id (build_ids v)) want ≡ true
      → All (Holds v) want
  Holds-all [] n h = tt
  Holds-all (w ∷ ws) (n, ns) h = (
    (nonempty w.build_id n, Any_of_has w (module_ids v) (ground arith)),
    Holds-all ws ns (ground arith),
  )

  all_of_Holds : (want : List BuildId) → All (Holds v) want → all (has_id (build_ids v)) want ≡ true
  all_of_Holds [] h = refl
  all_of_Holds (w ∷ ws) ((ne, m), hs) =
      ground (arith, has_of_Any w (module_ids v) (is_empty_of_ne _ ne) m, all_of_Holds ws hs)

  match_of_Holds : (want : List BuildId) → want ≢ [] → All (Holds v) want → is_match want v ≡ true
  unfolding is_match
  match_of_Holds [] ne h = absurd (ne refl)
  match_of_Holds (w ∷ ws) ne h =
      ground (arith, all_of_Holds (w ∷ ws) h, modules_of_Any v.modules h.0.1)
    where
      modules_of_Any :
          (ms : List EmbeddedModule) → Any (λ m. m ≡ w) (map (λ m. m.id) ms) → is_empty ms ≡ false
      modules_of_Any [] e = absurd e
      modules_of_Any (m ∷ ms) e = refl

-- What the scan of a table says.
abbrev ScanOutcome : List EmbeddedVersion → List BuildId → Option EmbeddedVersion → Type 0
ScanOutcome vs modules none = All (λ v. ¬ All (Holds v) modules) vs
ScanOutcome vs modules (some v) = Any (λ w. w ≡ v) vs × All (Holds v) modules

module _ (modules : List BuildId) (ne : modules ≢ []) (named : AllNamed modules) where
  skip_one :
      (v : EmbeddedVersion) (vs : List EmbeddedVersion) (o : Option EmbeddedVersion)
      → ¬ All (Holds v) modules
      → ScanOutcome vs modules o
      → ScanOutcome (v ∷ vs) modules o
  skip_one v vs none n h = (n, h)
  skip_one v vs (some w) n (m, h) = (inr m, h)

  scan_step :
      (v : EmbeddedVersion) (vs : List EmbeddedVersion) (b : Bool)
      → is_match modules v ≡ b
      → ScanOutcome vs modules (scan modules vs)
      → ScanOutcome (v ∷ vs) modules (if b then some v else scan modules vs)
  unfolding is_match
  scan_step v vs true e h = (inl refl, Holds-all v modules named (ground arith))
  scan_step v vs false e h =
      skip_one v vs _ (λ all. absurd (cc (match_of_Holds v modules ne all))) h

  scan-outcome : (vs : List EmbeddedVersion) → ScanOutcome vs modules (scan modules vs)
  unfolding scan
  scan-outcome [] = tt
  scan-outcome (v ∷ vs) = scan_step v vs _ refl (scan-outcome vs)

  found :
      (vs : List EmbeddedVersion) (o : Option EmbeddedVersion)
      → ScanOutcome vs modules o
      → MatchOutcome vs modules o
  found vs none h = inr (inr h)
  found vs (some v) (m, h) = (ne, m, h)

abbrev search : List EmbeddedVersion → List BuildId → Option EmbeddedVersion
search vs modules = elim (wanted modules) [ none ↦ none | some want ↦ scan want vs ]

search_step :
    (vs : List EmbeddedVersion) (m : BuildId) (ms : List BuildId) (b : Bool)
    → any (λ w. is_empty w.build_id) (m ∷ ms) ≡ b
    → MatchOutcome vs
        (m ∷ ms)
        (elim (if b then none else some (m ∷ ms)) [ none ↦ none | some want ↦ scan want vs ])
search_step vs m ms true e = inr (inl (empty_of_any (m ∷ ms) e))
search_step vs m ms false e =
    let ne : (m ∷ ms) ≢ [] = nonempty (m ∷ ms) refl in
    let named = named_of_any (m ∷ ms) e in
    found (m ∷ ms) ne named vs _ (scan-outcome (m ∷ ms) ne named vs)

search-outcome :
    (vs : List EmbeddedVersion) (modules : List BuildId)
    → MatchOutcome vs modules (search vs modules)
unfolding wanted
search-outcome vs [] = inl refl
search-outcome vs (m ∷ ms) = search_step vs m ms _ refl

-- A lookup in the table of a tool finds an entry of the table that lists every requested module
-- under its build id, none of which is empty. If it finds none, then no module was requested, or a
-- build id was empty, or no entry of the table is such.
pub find_embedded_match-outcome :
    (tables : EmbeddedTables) (modules : List BuildId) (trace_type : TraceType)
    (versions : List EmbeddedVersion)
    → table_of tables trace_type ≡ some versions
    → MatchOutcome versions modules (find_embedded_match tables modules trace_type)
unfolding find_embedded_match
find_embedded_match-outcome tables modules trace_type versions e =
    rw (find_embedded_match, e) (search-outcome versions modules)
