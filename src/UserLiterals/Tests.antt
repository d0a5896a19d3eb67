-- ===== src/UserLiterals/Tests.antt =====
-- Tests of the literals of sizes, as those of example-udl/main.cc.
use c_plus_plus_examples.Base.{◌*◌, ◌≡◌, refl}
use c_plus_plus_examples.UserLiterals.{literal_k, literal_m, literal_g, literal_t}

literal_k_test : literal_k 2 ≡ 2 * 1024
unfolding literal_k
literal_k_test = refl

literal_m_test : literal_m 3 ≡ 3 * 1024 * 1024
unfolding literal_m
literal_m_test = refl

literal_g_test : literal_g 4 ≡ 4 * 1024 * 1024 * 1024
unfolding literal_g
literal_g_test = refl

literal_t_test : literal_t 5 ≡ 5 * 1024 * 1024 * 1024 * 1024
unfolding literal_t
literal_t_test = refl
