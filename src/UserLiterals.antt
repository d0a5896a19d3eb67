-- ===== src/UserLiterals.antt =====
-- example-udl/main.cc: the literals of sizes, shifts of a 64-bit integer.
mod Tests
use c_plus_plus_examples.Base.{ℕ, ◌*◌, ◌%◌, ◌^◌, ◌<◌, ◌≡◌, arith}

-- `operator"" _K` and so on.
unfoldable pub literal_k : ℕ → ℕ
literal_k n = (n * 2 ^ 10) % 2 ^ 64

unfoldable pub literal_m : ℕ → ℕ
literal_m n = (n * 2 ^ 20) % 2 ^ 64

unfoldable pub literal_g : ℕ → ℕ
literal_g n = (n * 2 ^ 30) % 2 ^ 64

unfoldable pub literal_t : ℕ → ℕ
literal_t n = (n * 2 ^ 40) % 2 ^ 64

-- Each unit is 1024 of the one below it, up to 2^24 of the largest, from where the shift overflows.
literal_units :
    (n : ℕ)
    → n < 2 ^ 24
    → (literal_k n ≡ 1024 * n)
      × (literal_m n ≡ 1024 * literal_k n)
      × (literal_g n ≡ 1024 * literal_m n)
      × (literal_t n ≡ 1024 * literal_g n)
unfolding literal_k literal_m literal_g literal_t
literal_units n small = (omega arith, omega arith, omega arith, omega arith)
