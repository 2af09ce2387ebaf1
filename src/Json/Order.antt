-- ===== src/Json/Order.antt =====
-- The comparisons of float64: a strict order on the numbers, which NaN stands outside of.
use energy_plant_monitoring.Base.{true, false, not, ◌≡◌, arith}
use energy_plant_monitoring.Json.{Float64, is_nan, number_lt, float_lt, float_le}

number_lt_trans :
    (a b c : Float64) → number_lt a b ≡ true → number_lt b c ≡ true → number_lt a c ≡ true
unfolding number_lt
number_lt_trans a b c h k = ground arith

pub float_lt_trans :
    (a b c : Float64) → float_lt a b ≡ true → float_lt b c ≡ true → float_lt a c ≡ true
unfolding float_lt
float_lt_trans a b c h k = ground (arith, number_lt_trans a b c)

-- For numbers, not NaN, one comparison is the negation of the opposite one.
pub float_le-eq-not_lt :
    (a b : Float64) → is_nan a ≡ false → is_nan b ≡ false → float_le a b ≡ not (float_lt b a)
unfolding float_lt float_le
float_le-eq-not_lt a b h k = ground arith
