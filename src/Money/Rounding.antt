-- ===== src/Money/Rounding.antt =====
-- `bankers_round` of app/domain/payment_extract.py.
use laa_inquests_api.Prelude.{ℕ, suc, ◌+◌, ◌-◌, ◌*◌, ◌%◌, ◌≤◌, ◌<◌, ◌≡◌, ◌⊎◌, arith}
use laa_inquests_api.Prelude.Int.{ℤ, pos, negsuc, pos_part, neg_part, neg_ℤ}
use laa_inquests_api.Money.{round_half_even, bankers_round, at_rate, as_fine}

round_half_even_lem :
    (n : ℕ)
    → (100 * round_half_even n ≤ n + 50)
      × (n ≤ 100 * round_half_even n + 50)
      × ((100 * round_half_even n ≡ n + 50) ⊎ (n ≡ 100 * round_half_even n + 50)
          → round_half_even n % 2 ≡ 0)
unfolding round_half_even
round_half_even_lem n = ground arith

round_half_even-hundred : (n : ℕ) → round_half_even (100 * n) ≡ n
unfolding round_half_even
round_half_even-hundred n = ground arith

-- The distance of two integers.
abbrev pub distance : ℤ → ℤ → ℕ
distance a b =
    (pos_part a + neg_part b - (pos_part b + neg_part a))
    + (pos_part b + neg_part a - (pos_part a + neg_part b))

-- The rounded amount, in ten-thousandths, is less than half a penny from the exact one, or it is
-- half a penny from it and its number of pence is even.
pub bankers_round_lem :
    (x : ℤ)
    → let r : ℤ = bankers_round x in
      (distance (at_rate 100 r) x < 50)
      ⊎ ((distance (at_rate 100 r) x ≡ 50) × ((pos_part r + neg_part r) % 2 ≡ 0))
unfolding bankers_round at_rate neg_ℤ
bankers_round_lem (pos n) = ground (arith, round_half_even_lem n)
bankers_round_lem (negsuc n) = ground (arith, round_half_even_lem (suc n))

-- A whole number of pence is kept.
pub bankers_round-as_fine : (x : ℤ) → bankers_round (as_fine x) ≡ x
unfolding bankers_round at_rate neg_ℤ
bankers_round-as_fine (pos n) = ground (arith, round_half_even-hundred n)
bankers_round-as_fine (negsuc n) = ground (arith, round_half_even-hundred (suc n))
