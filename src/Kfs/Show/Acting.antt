-- ===== src/Kfs/Show/Acting.antt =====
-- The text of the acting set fits its buffer.
use mathlib.Core.List.{append-nil, append_assoc}
use cephtrace.Base.{
  ℕ, zero, suc, ◌+◌, ◌-◌, ◌*◌, ◌/◌, ◌%◌, ◌<◌, ◌≤◌, ◌≡◌, refl, ap, sym, ◌∙◌, arith, Bool, true,
  false, List, [], ◌∷◌, ◌++◌, Option, none, some, ltb, leb, if◌then◌else◌, get_or, length,
  length-append, take, codes,
}
use cephtrace.Bpf.Queue.{require}
use cephtrace.Bpf.Rules.{require_some, if_rule}
use cephtrace.Select.OsdId.Spelled.{decimal}
use cephtrace.Kfs.Types.{KernelTraceEvent, ceph_pg_max_size}
use cephtrace.Kfs.Show.{
  Buffer, buffer_size, put_text, put_osd, acting_rounds, no_text, acting_buffer,
}

length-decimal : (fuel n : ℕ) → length (decimal fuel n) ≤ fuel
unfolding decimal
length-decimal zero n = omega arith
length-decimal (suc fuel) n = ground (
  arith,
  length-decimal fuel (n / 10),
  length-append (decimal fuel (n / 10)) ((b'0' + n % 10) ∷ []),
)

take_all : {A : Type 0} (n : ℕ) (xs : List A) → length xs ≤ n → take n xs ≡ xs
take_all zero [] h = refl
take_all (suc n) [] h = refl
take_all zero (x ∷ xs) h = absurd (ground arith)
take_all (suc n) (x ∷ xs) h = ap (λ ys. x ∷ ys) (take_all n xs (ground arith))

-- A buffer that nothing was cut from.
abbrev pub holds : List ℕ → Buffer
holds text = record { bytes = text; pos = length text }

put_text-fits :
    (text more : List ℕ)
    → length text + length more < buffer_size
    → put_text more (holds text) ≡ some (holds (text ++ more))
unfolding put_text
put_text-fits text more h =
    let kept = take_all (length text) text (omega arith) in
    let added = take_all (buffer_size - length text - 1) more (ground arith) in
    let both = length-append text more in
    let passed : ltb buffer_size (length text) ≡ false = ground arith in cc

-- The id at index i, with a comma in front unless i is 0.
abbrev piece : KernelTraceEvent → ℕ → List ℕ
piece e i = (if ltb 0 i then codes "," else []) ++ decimal 10 (get_or e.acting_osds i 0)

abbrev pub listed : KernelTraceEvent → ℕ → ℕ → List ℕ
listed e zero i = []
listed e (suc rounds) i = if ltb i e.acting_size then piece e i ++ listed e rounds (i + 1) else []

length-piece : (e : KernelTraceEvent) (i : ℕ) → length (piece e i) ≤ 11
length-piece e i = by_comma (ltb 0 i)
  where
    digits : List ℕ
    digits = decimal 10 (get_or e.acting_osds i 0)

    by_comma : (b : Bool) → length ((if b then codes "," else []) ++ digits) ≤ 11
    by_comma true = ground (arith, length-decimal 10 (get_or e.acting_osds i 0))
    by_comma false = ground (arith, length-decimal 10 (get_or e.acting_osds i 0))

put_osd-fits :
    (e : KernelTraceEvent) (i : ℕ) (text : List ℕ)
    → length text + 11 < buffer_size
    → put_osd e i (holds text) ≡ some (holds (text ++ piece e i))
put_osd-fits e i text h = by_comma (ltb 0 i)
  where
    digits : List ℕ
    digits = decimal 10 (get_or e.acting_osds i 0)

    short : length digits ≤ 10
    short = length-decimal 10 (get_or e.acting_osds i 0)

    by_comma :
        (b : Bool)
        → require
            (if b then put_text (codes ",") (holds text) else some (holds text))
            none
            (put_text digits)
          ≡ some (holds (text ++ ((if b then codes "," else []) ++ digits)))
    by_comma true =
        require_some (λ o. o ≡ some (holds (text ++ (codes "," ++ digits))))
          (put_text (codes ",") (holds text)) (holds (text ++ codes ",")) none (put_text digits)
          (put_text-fits text (codes ",") (ground arith))
          (put_text-fits (text ++ codes ",") digits
              (ground (arith, short, length-append text (codes ",")))
            ∙ ap (λ z. some (holds z)) (append_assoc text (codes ",") digits))
    by_comma false = put_text-fits text digits (ground (arith, short))

acting_rounds-fits :
    (e : KernelTraceEvent) (rounds i : ℕ) (text : List ℕ)
    → length text + 11 * rounds < buffer_size
    → acting_rounds e rounds i (holds text) ≡ some (holds (text ++ listed e rounds i))
unfolding acting_rounds
acting_rounds-fits e zero i text h = ap (λ z. some (holds z)) (sym (append-nil text))
acting_rounds-fits e (suc rounds) i text h =
    let next = text ++ piece e i in
    let bound : length next + 11 * rounds < buffer_size =
      ground (arith, length-append text (piece e i), length-piece e i) in
    by_size (ltb i e.acting_size) (acting_rounds-fits e rounds (i + 1) next bound) (omega arith)
  where
    rest : List ℕ
    rest = listed e rounds (i + 1)

    next' : List ℕ
    next' = text ++ piece e i

    go : Buffer → Option Buffer
    go c = if leb buffer_size c.pos then some c else acting_rounds e rounds (i + 1) c

    by_size :
        (b : Bool)
        → acting_rounds e rounds (i + 1) (holds next') ≡ some (holds (next' ++ rest))
        → length next' < buffer_size
        → (if b then require (put_osd e i (holds text)) none go else some (holds text))
          ≡ some (holds (text ++ (if b then piece e i ++ rest else [])))
    by_size true more short =
        require_some (λ o. o ≡ some (holds (text ++ (piece e i ++ rest))))
          (put_osd e i (holds text)) (holds next') none go (put_osd-fits e i text (omega arith))
          (if_rule (λ o. o ≡ some (holds (text ++ (piece e i ++ rest))))
            (leb buffer_size (length next')) (some (holds next'))
            (acting_rounds e rounds (i + 1) (holds next')) (λ full. absurd (ground arith))
            (λ _. more ∙ ap (λ z. some (holds z)) (append_assoc text (piece e i) rest)))
    by_size false more short = ap (λ z. some (holds z)) (sym (append-nil text))

-- The ids of the acting set, or the primary if there are none, in brackets.
abbrev pub acting_text : KernelTraceEvent → List ℕ
acting_text e =
    if ltb 0 e.acting_size
    then (codes "[" ++ listed e ceph_pg_max_size 0) ++ codes "]"
    else codes "[" ++ decimal 10 e.primary_osd ++ codes "]"

length-listed : (e : KernelTraceEvent) (rounds i : ℕ) → length (listed e rounds i) ≤ 11 * rounds
length-listed e zero i = omega arith
length-listed e (suc rounds) i =
    let piece' = length-piece e i in
    let rest = length-listed e rounds (i + 1) in
    let both = length-append (piece e i) (listed e rounds (i + 1)) in
    if_rule (λ xs. length xs ≤ 11 * suc rounds) (ltb i e.acting_size)
      (piece e i ++ listed e rounds (i + 1)) [] (λ _. omega arith) (λ _. omega arith)

abbrev Fits : Option Buffer → List ℕ → Type 0
Fits o text = (o ≡ some (holds text)) × (length text < 92)

closed-Fits :
    (text : List ℕ)
    → length text < 91
    → Fits (put_text (codes "]") (holds text)) (text ++ codes "]")
closed-Fits text h =
    (put_text-fits text (codes "]") (omega arith), ground (arith, length-append text (codes "]")))

ids-Fits :
    (e : KernelTraceEvent) (rounds : ℕ)
    → rounds ≤ 8
    → Fits
        (require
          (put_text (codes "[") no_text)
          none
          λ b. require (acting_rounds e rounds 0 b) none (put_text (codes "]")))
        ((codes "[" ++ listed e rounds 0) ++ codes "]")
ids-Fits e rounds h =
    let opened = codes "[" ++ listed e rounds 0 in
    let short : length opened < 91 = ground (arith, length-listed e rounds 0) in
    let last : Fits (put_text (codes "]") (holds opened)) (opened ++ codes "]") =
      closed-Fits opened short in
    let loop : Buffer → Option Buffer = λ b. acting_rounds e rounds 0 b in
    require_some (λ o. Fits o (opened ++ codes "]")) (put_text (codes "[") no_text)
      (holds (codes "[")) none (λ b. require (loop b) none (put_text (codes "]")))
      (put_text-fits [] (codes "[") (omega arith))
      (require_some (λ o. Fits o (opened ++ codes "]")) (loop (holds (codes "["))) (holds opened)
        none (put_text (codes "]")) (acting_rounds-fits e rounds 0 (codes "[") (omega arith)) last)

primary-Fits :
    (e : KernelTraceEvent)
    → Fits
        (put_text (codes "[" ++ decimal 10 e.primary_osd ++ codes "]") no_text)
        (codes "[" ++ decimal 10 e.primary_osd ++ codes "]")
primary-Fits e =
    let text = codes "[" ++ decimal 10 e.primary_osd ++ codes "]" in
    let short : length text ≤ 12 = ground (
      arith,
      length-decimal 10 e.primary_osd,
      length-append (decimal 10 e.primary_osd) (codes "]"),
    ) in
    (put_text-fits [] text (omega arith), omega arith)

-- Whatever the record says, the acting set is printed in full: the ids of at most eight OSDs with
-- commas between them, or the primary if there are none, in brackets; nothing is cut, no byte is
-- written behind the end of the buffer, and at most 91 of its 256 bytes are used.
pub acting_buffer-fits :
    (e : KernelTraceEvent)
    → (acting_buffer e ≡ some (holds (acting_text e))) × (length (acting_text e) < 92)
unfolding acting_buffer
acting_buffer-fits e = by_size (ltb 0 e.acting_size) (ids-Fits e 8 (omega arith)) (primary-Fits e)
  where
    by_size :
        (b : Bool) {o p : Option Buffer} {x y : List ℕ}
        → Fits o x
        → Fits p y
        → Fits (if b then o else p) (if b then x else y)
    by_size true h g = h
    by_size false h g = g
