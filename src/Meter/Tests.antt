-- ===== src/Meter/Tests.antt =====
-- An average of whole numbers.
use net_isdn.Common.{ℕ, ◌+◌, ◌-◌, ◌*◌, ◌/◌, ◌≡◌, refl, min, [], ◌∷◌, length, arith}
use net_isdn.Meter.{
  Doubles, new_average, average, add_value, add_values, taken_off, preset, length-add_values,
}

abbrev whole : Doubles ℕ
whole = record {
  nothing = 0;
  plus = λ a b. a + b;
  minus = λ a b. a - b;
  divide = λ a n. a / n;
  times = λ a n. a * n;
}

last_two : average whole (add_values whole (new_average whole 2) (1 ∷ 5 ∷ 7 ∷ [])) ≡ 6
unfolding average add_values add_value taken_off
last_two = refl

length-add_values_example :
    (length (add_values whole (new_average whole 2) (1 ∷ 5 ∷ 7 ∷ [])).values ≡ min (0 + 3) 2)
    × ((v : ℕ) → length (preset whole (new_average whole 2) v).values ≡ 2)
length-add_values_example =
    length-add_values whole (new_average whole 2) (1 ∷ 5 ∷ 7 ∷ []) (omega arith)
