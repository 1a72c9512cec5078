-- ===== src/Meter.antt =====
-- lib/meteraverage.cpp: the moving average of the meters and of the phase-locked loop of the codec.
mod Tests
use net_isdn.Common.{
  ℕ, zero, suc, ◌+◌, ◌-◌, ◌≤◌, ◌≡◌, refl, ◌∙◌, min, List, [], ◌∷◌, ◌++◌, length, length-append,
  drop, length-drop, replicate, length-replicate, ◌==◌, if◌then◌else◌, arith,
}

-- The operations on a `double`, the last two with a number converted to one.
pub record Doubles (D : Type 0) : Type 0 where
  pub nothing : D
  pub plus : D → D → D
  pub minus : D → D → D
  pub divide : D → ℕ → D
  pub times : D → ℕ → D

pub record MeterAverage (D : Type 0) : Type 0 where
  pub maxsize : ℕ
  pub total : D
  pub values : List D

module _ {D : Type 0} (op : Doubles D) where
  -- The constructor.
  abbrev pub new_average : ℕ → MeterAverage D
  new_average maxsize = record { maxsize = maxsize; total = op.nothing; values = [] }

  unfoldable pub average : MeterAverage D → D
  average a = if length a.values == 0 then op.nothing else op.divide a.total (length a.values)

  -- The total after the first `n` values are taken off; the values that are left are `drop n`.
  unfoldable pub taken_off : ℕ → D → List D → D
  taken_off zero total vs = total
  taken_off (suc n) total [] = total
  taken_off (suc n) total (v ∷ vs) = taken_off n (op.minus total v) vs

  unfoldable pub add_value : MeterAverage D → D → MeterAverage D
  add_value a v =
      let vs = a.values ++ (v ∷ []) in
      let n = length vs - a.maxsize in
      record a { total = taken_off n (op.plus a.total v) vs; values = drop n vs }

  unfoldable pub preset : MeterAverage D → D → MeterAverage D
  preset a v = record a { total = op.times v a.maxsize; values = replicate a.maxsize v }

  unfoldable pub add_values : MeterAverage D → List D → MeterAverage D
  add_values a [] = a
  add_values a (v ∷ vs) = add_values (add_value a v) vs

  length-add_value :
      (a : MeterAverage D) (v : D)
      → length (add_value a v).values ≡ min (length a.values + 1) a.maxsize
  unfolding add_value
  length-add_value a v =
      length-drop (length (a.values ++ (v ∷ [])) - a.maxsize) (a.values ++ (v ∷ []))
      ∙ omega (arith, length-append a.values (v ∷ []))

  maxsize-add_value : (a : MeterAverage D) (v : D) → (add_value a v).maxsize ≡ a.maxsize
  unfolding add_value
  maxsize-add_value a v = refl

  -- From an average of at most `maxsize` values on, as many values as were added and were there are
  -- held, but never more than `maxsize`; a preset average holds `maxsize`.
  pub length-add_values :
      (a : MeterAverage D) (vs : List D)
      → length a.values ≤ a.maxsize
      → (length (add_values a vs).values ≡ min (length a.values + length vs) a.maxsize)
        × ((v : D) → length (preset a v).values ≡ a.maxsize)
  unfolding add_values preset
  length-add_values a [] h = (omega arith, λ v. length-replicate a.maxsize v)
  length-add_values a (v ∷ vs) h =
      let one = length-add_value a v in
      let same = maxsize-add_value a v in
      let (rest, others) = length-add_values (add_value a v) vs (omega (arith, one, same)) in
      (omega (arith, one, same, rest), λ w. length-replicate a.maxsize w)
