-- ===== src/Cgroups/Reading.antt =====
-- go/worker/sandbox/cgroups/cgroup.go: reading the value of a key from a file of a group.
use open_lambda.Prelude.{
  ℕ, zero, suc, ◌+◌, ◌-◌, ◌*◌, ◌/◌, ◌%◌, ◌^◌, ◌≤◌, ◌<◌, ◌≡◌, ◌≢◌, refl, ap, ◌∙◌, true, false, ◌&&◌,
  List, [], ◌∷◌, ◌++◌, Option, none, some, arith, if◌then◌else◌, ◌==◌, ltb, leb, All, All-append,
  All-map, Bool-cases, inl, inr,
}
use open_lambda.Prelude.Int.{pos}
use open_lambda.Prelude.Texts.{split, Digit, digits-Digit, Text, same_text, digits, decimal}
use open_lambda.Cgroups.Files.{
  is_space, trim_left, trim_right, trim_space, keep, parse_digits, parse_int, Reading, reads,
  panics, parsed, read_lines, try_read_int_kv,
}

-- The bytes of a word: no space and no end of a line.
abbrev pub Solid : ℕ → Type 0
Solid c = (is_space c ≡ false)

Digit-Solid : (c : ℕ) → Digit c → Solid c
Digit-Solid c h = ground (arith, h)

parse_digits-append :
    (n : ℕ) (ds es : Text)
    → All Digit ds
    → (m : ℕ) → parse_digits n ds ≡ some m
    → parse_digits n (ds ++ es) ≡ parse_digits m es
parse_digits-append n [] es h m e = ground (arith, e)
parse_digits-append n (d ∷ ds) es (h, hs) m e =
    let is_digit : leb 48 d && leb d 57 ≡ true = ground (arith, h) in
    rw is_digit (parse_digits-append (n * 10 + (d - 48)) ds es hs m (ground (arith, e, is_digit)))

parse_digits-digits : (fuel n : ℕ) → n < fuel → parse_digits 0 (digits fuel n) ≡ some n
parse_digits-digits zero n h = let bad : ⊥ = omega (arith, h) in elim bad [ ]
parse_digits-digits (suc fuel) n h = elim (Bool-cases (ltb n 10)) [
  | inl small ↦ rw small (ground (arith, small))
  | inr large ↦
      let last : Text = (48 + n % 10) ∷ [] in
      let many : 10 ≤ n = ground (arith, large) in
      let below = parse_digits-digits fuel (n / 10) (omega (arith, h, many)) in
      rw
        (
          large,
          parse_digits-append 0 (digits fuel (n / 10)) last (digits-Digit fuel (n / 10)) (n / 10)
              below,
        )
        (ground arith)
]

split_solid : (sep : ℕ) (w : Text) → All (λ (c : ℕ). (c == sep) ≡ false) w → split sep w ≡ w ∷ []
split_solid sep [] h = refl
split_solid sep (c ∷ cs) (h, hs) = rw (h, split_solid sep cs hs) refl

split-append :
    (sep : ℕ) (w cs : Text)
    → All (λ (c : ℕ). (c == sep) ≡ false) w
    → split sep (w ++ sep ∷ cs) ≡ w ∷ split sep cs
split-append sep [] cs h = let self : sep == sep ≡ true = ground arith in rw self refl
split-append sep (c ∷ w) cs (h, hs) = rw (h, split-append sep w cs hs) refl

trim_left-Solid : (w : Text) → All Solid w → trim_left w ≡ w
trim_left-Solid [] h = refl
trim_left-Solid (c ∷ cs) (h, hs) = rw h refl

keep-Solid : (c : ℕ) (cs : Text) → Solid c → keep c cs ≡ c ∷ cs
keep-Solid c [] h = rw h refl
keep-Solid c (d ∷ ds) h = refl

trim_right-Solid : (w : Text) → All Solid w → trim_right w ≡ w
trim_right-Solid [] h = refl
trim_right-Solid (c ∷ cs) (h, hs) = rw (trim_right-Solid cs hs) (keep-Solid c cs h)

pub trim_space-Solid : (w : Text) → All Solid w → trim_space w ≡ w
trim_space-Solid w h = rw (trim_left-Solid w h) (trim_right-Solid w h)

-- The file of the kernel: a line for each key, with its value.
abbrev pub print_file : List (Text × ℕ) → Text
print_file [] = []
print_file ((k, v) ∷ es) = (k ++ 32 ∷ decimal v) ++ 10 ∷ print_file es

abbrev pub first_value : Text → List (Text × ℕ) → Option ℕ
first_value key [] = none
first_value key ((k, v) ∷ es) = if same_text k key then some v else first_value key es

abbrev pub Entry : Text × ℕ → Type 0
Entry (k, v) = All Solid k × (v < 2 ^ 63)

abbrev pub found : Option ℕ → Reading
found none = panics
found (some v) = reads (pos v)

decimal-Solid : (n : ℕ) → All Solid (decimal n)
decimal-Solid n = All-map Digit Solid (decimal n) Digit-Solid (digits-Digit (suc n) n)

parse_int-Digit :
    (c n : ℕ) (cs : Text)
    → Digit c
    → n < 2 ^ 63
    → parse_digits 0 (c ∷ cs) ≡ some n
    → parse_int (c ∷ cs) ≡ some (pos n)
parse_int-Digit c n cs digit small e =
    let minus : c == 45 ≡ false = ground (arith, digit) in
    let plus : c == 43 ≡ false = ground (arith, digit) in
    let fits : ltb n (2 ^ 63) ≡ true = ground (arith, small) in rw (minus, plus, e, fits) refl

parse_int_word :
    (n : ℕ) (w : Text)
    → All Digit w
    → w ≢ []
    → n < 2 ^ 63
    → parse_digits 0 w ≡ some n
    → parse_int w ≡ some (pos n)
parse_int_word n [] h some_digit small e = elim (some_digit refl) [ ]
parse_int_word n (c ∷ cs) (h, hs) some_digit small e = parse_int-Digit c n cs h small e

append-nonempty : (ds : Text) (d : ℕ) → ds ++ d ∷ [] ≢ []
append-nonempty [] d e = let bad : ⊥ = cc in bad
append-nonempty (c ∷ cs) d e = let bad : ⊥ = cc in bad

decimal-nonempty : (n : ℕ) → decimal n ≢ []
decimal-nonempty n = elim (Bool-cases (ltb n 10)) [
  | inl small ↦ rw small (λ e. append-nonempty [] (48 + n) e)
  | inr large ↦ rw large (append-nonempty (digits n (n / 10)) (48 + n % 10))
]

parse_int-decimal : (n : ℕ) → n < 2 ^ 63 → parse_int (decimal n) ≡ some (pos n)
parse_int-decimal n small =
    parse_int_word n (decimal n) (digits-Digit (suc n) n) (decimal-nonempty n) small
      (parse_digits-digits (suc n) n (omega arith))

Solid-no_space : (c : ℕ) → Solid c → (c == 32) ≡ false
Solid-no_space c h = ground (arith, h)

Solid-no_line : (c : ℕ) → Solid c → (c == 10) ≡ false
Solid-no_line c h = ground (arith, h)

split_line : (k : Text) (v : ℕ) → All Solid k → split 32 (k ++ 32 ∷ decimal v) ≡ k ∷ decimal v ∷ []
split_line k v h =
    split-append 32 k (decimal v) (All-map Solid (λ c. (c == 32) ≡ false) k Solid-no_space h)
    ∙ ap (λ (ws : List Text). k ∷ ws)
        (split_solid 32 (decimal v)
          (All-map Solid (λ c. (c == 32) ≡ false) (decimal v) Solid-no_space (decimal-Solid v)))

line_no_line :
    (k : Text) (v : ℕ) → All Solid k → All (λ (c : ℕ). (c == 10) ≡ false) (k ++ 32 ∷ decimal v)
line_no_line k v h =
    All-append (λ (c : ℕ). (c == 10) ≡ false) k (32 ∷ decimal v)
      (All-map Solid (λ c. (c == 10) ≡ false) k Solid-no_line h)
      (refl, All-map Solid (λ c. (c == 10) ≡ false) (decimal v) Solid-no_line (decimal-Solid v))

read_lines-found :
    (key : Text) (es : List (Text × ℕ))
    → All Entry es
    → read_lines key (split 10 (print_file es)) ≡ found (first_value key es)
read_lines-found key [] h = refl
read_lines-found key ((k, v) ∷ es) ((solid, small), hs) =
    let line : Text = k ++ 32 ∷ decimal v in
    let value : parsed (parse_int (trim_space (decimal v))) ≡ reads (pos v) =
      rw (trim_space-Solid (decimal v) (decimal-Solid v), parse_int-decimal v small) refl in
    rw (split-append 10 line (print_file es) (line_no_line k v solid), split_line k v solid)
      (elim (Bool-cases (same_text k key)) [
        | inl same ↦ rw same value
        | inr other ↦ rw other (read_lines-found key es hs)
      ])

-- From a file that lists keys without white space and their values, each below 2 ^ 63, a line for each,
-- `TryReadIntKV` reads the value of the first line with the key. Where no line has the key, it panics:
-- its error that the key could not be found is never returned.
pub try_read_int_kv-print_file :
    (key : Text) (es : List (Text × ℕ))
    → All Entry es
    → try_read_int_kv key (some (print_file es)) ≡ found (first_value key es)
unfolding try_read_int_kv
try_read_int_kv-print_file key es h = read_lines-found key es h
