-- ===== src/RollingAvg.antt =====
-- go/common/stats.go: the rolling average of the last `size` numbers. The numbers are milliseconds of
-- execution, which are not negative. The front of the list is its head. `none` is the division by 0.
pub mod Window
use open_lambda.Prelude.{
  ℕ, suc, ◌+◌, ◌-◌, ◌/◌, List, [], ◌∷◌, Option, none, some, if◌then◌else◌, ltb, ◌==◌, length,
}

pub record RollingAvg : Type 0 where
  pub size : ℕ
  pub nums : List ℕ
  pub sum : ℕ
  pub avg : ℕ

unfoldable pub new_rolling_avg : ℕ → RollingAvg
new_rolling_avg size = record { size = size; nums = []; sum = 0; avg = 0 }

-- `nums.Back()`, 0 if there is none, and the list without it.
abbrev pub back : List ℕ → ℕ
back [] = 0
back (x ∷ []) = x
back (x ∷ y ∷ xs) = back (y ∷ xs)

abbrev pub remove_back : List ℕ → List ℕ
remove_back [] = []
remove_back (x ∷ []) = []
remove_back (x ∷ y ∷ xs) = x ∷ remove_back (y ∷ xs)

-- The last line of `Add`.
unfoldable pub set_avg : RollingAvg → Option RollingAvg
set_avg r = if length r.nums == 0 then none else some (record r { avg = r.sum / length r.nums })

unfoldable pub add : RollingAvg → ℕ → Option RollingAvg
unfolding set_avg
add r num =
    let pushed = record r { sum = r.sum + num; nums = num ∷ r.nums } in
    let popped = record pushed {
      sum = pushed.sum - back pushed.nums;
      nums = remove_back pushed.nums;
    } in
    if ltb r.size (length pushed.nums) then set_avg popped else set_avg pushed

-- Several numbers, in order.
unfoldable pub add_all : RollingAvg → List ℕ → Option RollingAvg
add_all r [] = some r
add_all r (num ∷ nums) = elim (add r num) [ none ↦ none | some r' ↦ add_all r' nums ]
