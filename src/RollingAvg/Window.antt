-- ===== src/RollingAvg/Window.antt =====
-- The rolling average of go/common/stats.go is the average of a window over the history.
use open_lambda.Prelude.{
  ℕ, zero, suc, ◌+◌, ◌/◌, ◌≤◌, ◌<◌, ◌≡◌, refl, sym, ap, List, [], ◌∷◌, none, some, arith, length,
}
use open_lambda.RollingAvg.{RollingAvg, new_rolling_avg, back, remove_back, add, add_all}

abbrev pub take : ℕ → List ℕ → List ℕ
take zero xs = []
take (suc n) [] = []
take (suc n) (x ∷ xs) = x ∷ take n xs

abbrev pub total : List ℕ → ℕ
total [] = 0
total (x ∷ xs) = x + total xs

take-nil : (n : ℕ) → take n [] ≡ []
take-nil zero = refl
take-nil (suc n) = refl

length-take-le : (n : ℕ) (xs : List ℕ) → length (take n xs) ≤ n
length-take-le zero xs = omega arith
length-take-le (suc n) [] = omega arith
length-take-le (suc n) (x ∷ xs) = omega (arith, length-take-le n xs)

total-remove_back :
    (x : ℕ) (xs : List ℕ) → total (remove_back (x ∷ xs)) + back (x ∷ xs) ≡ total (x ∷ xs)
total-remove_back x [] = omega arith
total-remove_back x (y ∷ xs) = omega (arith, total-remove_back y xs)

-- A full window moves on by one.
remove_back-take :
    (n : ℕ) (x : ℕ) (h : List ℕ)
    → n < length (x ∷ take n h)
    → remove_back (x ∷ take n h) ≡ take n (x ∷ h)
remove_back-take zero x h l = refl
remove_back-take (suc n) x [] l = absurd (omega arith)
remove_back-take (suc n) x (y ∷ h) l = ap (◌∷◌ x) (remove_back-take n y h (omega arith))

-- A window with room takes the number in.
take_room : (n : ℕ) (x : ℕ) (h : List ℕ) → length (x ∷ take n h) ≤ n → x ∷ take n h ≡ take n (x ∷ h)
take_room zero x h l = absurd (omega arith)
take_room (suc n) x [] l = ap (◌∷◌ x) (sym (take-nil n))
take_room (suc n) x (y ∷ h) l = ap (◌∷◌ x) (take_room n y h (omega arith))

-- The state after a history, newest first.
pub record IsWindow (size : ℕ) (h : List ℕ) (r : RollingAvg) : Type 0 where
  pub same_size : r.size ≡ size
  pub window : r.nums ≡ take size h
  pub summed : r.sum ≡ total r.nums

add-IsWindow :
    (k num : ℕ) (h : List ℕ) (r : RollingAvg)
    → IsWindow (suc k) h r
    → (r' : RollingAvg) × (add r num ≡ some r')
      × IsWindow (suc k) (num ∷ h) r'
      × (r'.avg ≡ r'.sum / length r'.nums)
unfolding add
add-IsWindow k num h r w =
    let nums = take (suc k) (num ∷ h) in
    (
      record r { nums = nums; sum = total nums; avg = total nums / length nums },
      ground (
        arith,
        w.window,
        remove_back-take (suc k) num h,
        take_room (suc k) num h,
        total-remove_back num (take (suc k) h),
      ),
      record { same_size = w.same_size; window = refl; summed = refl },
      refl,
    )

-- The history after some more numbers, newest first.
abbrev pub newest : List ℕ → List ℕ → List ℕ
newest h [] = h
newest h (x ∷ xs) = newest (x ∷ h) xs

add_all-IsWindow :
    (k : ℕ) (num : ℕ) (nums h : List ℕ) (r : RollingAvg)
    → IsWindow (suc k) h r
    → (r' : RollingAvg) × (add_all r (num ∷ nums) ≡ some r')
      × IsWindow (suc k) (newest h (num ∷ nums)) r'
      × (r'.avg ≡ r'.sum / length r'.nums)
unfolding add_all
add_all-IsWindow k num [] h r w =
    let (r', e, w', a) = add-IsWindow k num h r w in (r', rw (e, add_all) refl, w', a)
add_all-IsWindow k num (next ∷ nums) h r w =
    let (r₁, e₁, w₁, _) = add-IsWindow k num h r w in
    let (r', e, w', a) = add_all-IsWindow k next nums (num ∷ h) r₁ w₁ in
    (r', rw (e₁, add_all) e, w', a)

-- A rolling average of positive size takes any numbers in. It then holds the newest of them, as many
-- as its size allows, with their sum, and its average is that sum over their number.
pub add_all_lem :
    (k num : ℕ) (nums : List ℕ)
    → (r : RollingAvg) × (add_all (new_rolling_avg (suc k)) (num ∷ nums) ≡ some r)
      × (r.nums ≡ take (suc k) (newest [] (num ∷ nums)))
      × (r.sum ≡ total r.nums)
      × (r.avg ≡ r.sum / length r.nums)
unfolding new_rolling_avg
add_all_lem k num nums =
    let start = new_rolling_avg (suc k) in
    let (r, e, w, a) =
      add_all-IsWindow k num nums [] start
        (record { same_size = refl; window = refl; summed = refl }) in
    (r, e, w.window, w.summed, a)

-- A rolling average of size 0 divides by 0 at the first number.
pub add-size_zero : (num : ℕ) → add (new_rolling_avg 0) num ≡ none
unfolding add new_rolling_avg
add-size_zero num = ground arith
