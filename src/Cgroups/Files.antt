-- ===== src/Cgroups/Files.antt =====
-- go/worker/sandbox/cgroups/cgroup.go: what is read from the files of a group, as texts of bytes.
use open_lambda.Prelude.{
  ℕ, zero, suc, ◌+◌, ◌-◌, ◌*◌, ◌^◌, Bool, true, false, ◌&&◌, ◌||◌, List, [], ◌∷◌, Option, none,
  some, if◌then◌else◌, ◌==◌, ltb, leb,
}
use open_lambda.Prelude.Int.{ℤ, pos, negsuc, quot, ◌+ℤ◌}
use open_lambda.Prelude.Texts.{Text, same_text, split}

-- `strings.TrimSpace` on ASCII.
abbrev pub is_space : ℕ → Bool
is_space c = c == 32 || leb 9 c && leb c 13

abbrev pub trim_left : Text → Text
trim_left [] = []
trim_left (c ∷ cs) = let rest = trim_left cs in if is_space c then rest else c ∷ cs

abbrev pub keep : ℕ → Text → Text
keep c [] = if is_space c then [] else c ∷ []
keep c (d ∷ ds) = c ∷ d ∷ ds

abbrev pub trim_right : Text → Text
trim_right [] = []
trim_right (c ∷ cs) = keep c (trim_right cs)

abbrev pub trim_space : Text → Text
trim_space cs = trim_right (trim_left cs)

-- `strconv.ParseInt(s, 10, 64)`: `none` is its error.
abbrev pub parse_digits : ℕ → Text → Option ℕ
parse_digits n [] = some n
parse_digits n (d ∷ ds) =
    let rest = parse_digits (n * 10 + (d - 48)) ds in if leb 48 d && leb d 57 then rest else none

abbrev pub in_range : Bool → Option ℕ → Option ℤ
in_range negative none = none
in_range false (some n) = if ltb n (2 ^ 63) then some (pos n) else none
in_range true (some zero) = some (pos 0)
in_range true (some (suc n)) = if ltb n (2 ^ 63) then some (negsuc n) else none

abbrev pub parse_unsigned : Bool → Text → Option ℤ
parse_unsigned negative [] = none
parse_unsigned negative (d ∷ ds) = in_range negative (parse_digits 0 (d ∷ ds))

abbrev pub parse_int : Text → Option ℤ
parse_int [] = none
parse_int (c ∷ cs) =
    if c == 45
    then parse_unsigned true cs
    else if c == 43
    then parse_unsigned false cs
    else parse_unsigned false (c ∷ cs)

-- An error, a value, or a panic.
pub data Reading : Type 0 where
  fails : Reading
  reads : ℤ → Reading
  panics : Reading

abbrev pub parsed : Option ℤ → Reading
parsed none = fails
parsed (some v) = reads v

-- A line of two words, the first of which is the key.
abbrev pub value_of : Text → List Text → Option Text
value_of key [] = none
value_of key (k ∷ []) = none
value_of key (k ∷ v ∷ []) = if same_text k key then some v else none
value_of key (k ∷ v ∷ w ∷ ws) = none

abbrev pub line_reading : Option Text → Reading → Reading
line_reading none rest = rest
line_reading (some v) rest = parsed (parse_int (trim_space v))

-- The loop of `TryReadIntKVFromFile`. It runs to `i == len(lines)`, where `lines[i]` panics.
abbrev pub read_lines : Text → List Text → Reading
read_lines key [] = panics
read_lines key (l ∷ ls) = line_reading (value_of key (split 32 l)) (read_lines key ls)

-- `none` is a file that cannot be read.
unfoldable pub try_read_int_kv : Text → Option Text → Reading
try_read_int_kv key none = fails
try_read_int_kv key (some body) = read_lines key (split 10 body)

unfoldable pub try_read_int : Option Text → Reading
try_read_int none = fails
try_read_int (some body) = parsed (parse_int (trim_space body))

-- `none` is the panic of `ReadInt`.
unfoldable pub get_mem_usage_mb : Reading → Option ℤ
get_mem_usage_mb fails = none
get_mem_usage_mb (reads usage) = some (quot (usage +ℤ pos (1024 * 1024 - 1)) (1024 * 1024))
get_mem_usage_mb panics = none

abbrev pub pids_of : Text → Option (List Text)
pids_of [] = some []
pids_of (c ∷ cs) = some (split 10 (c ∷ cs))

unfoldable pub get_pids : Option Text → Option (List Text)
get_pids none = none
get_pids (some body) = pids_of (trim_space body)

-- One round of the loop of `WriteEventAndWait`: the milliseconds since its start, whether the poll
-- failed, and what was read then.
pub record Round : Type 0 where
  pub elapsed : ℕ
  pub poll_failed : Bool
  pub read : Reading

pub data Waited : Type 0 where
  reached : Waited
  timed_out : Waited
  failed : Waited
  crashed : Waited
  polling : Waited

abbrev pub same_int : ℤ → ℤ → Bool
same_int (pos m) (pos n) = m == n
same_int (pos m) (negsuc n) = false
same_int (negsuc m) (pos n) = false
same_int (negsuc m) (negsuc n) = m == n

abbrev pub after_read : ℤ → Reading → Waited → Waited
after_read state fails rest = failed
after_read state (reads v) rest = if same_int v state then reached else rest
after_read state panics rest = crashed

-- `polling` where the rounds end before the call does.
unfoldable pub write_event_and_wait : ℕ → ℤ → List Round → Waited
write_event_and_wait timeout state [] = polling
write_event_and_wait timeout state (r ∷ rs) =
    let rest = write_event_and_wait timeout state rs in
    if ltb timeout r.elapsed
    then timed_out
    else if r.poll_failed
    then failed
    else after_read state r.read rest
