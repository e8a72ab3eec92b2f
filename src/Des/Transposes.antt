-- ===== src/Des/Transposes.antt =====
-- The tables of the initial and of the final transposition of DES (src/leo_des_crypto.c).
use leo_net.Base.{ℕ, List, [], ◌∷◌}

unfoldable pub ip_l : List ℕ
ip_l =
    0x00000000 ∷ 0x00000080 ∷ 0x00000000 ∷ 0x00000080 ∷ 0x00008000 ∷ 0x00008080 ∷ 0x00008000
    ∷ 0x00008080 ∷ 0x00000000 ∷ 0x00000080 ∷ 0x00000000 ∷ 0x00000080 ∷ 0x00008000 ∷ 0x00008080
    ∷ 0x00008000 ∷ 0x00008080 ∷ 0x00800000 ∷ 0x00800080 ∷ 0x00800000 ∷ 0x00800080 ∷ 0x00808000
    ∷ 0x00808080 ∷ 0x00808000 ∷ 0x00808080 ∷ 0x00800000 ∷ 0x00800080 ∷ 0x00800000 ∷ 0x00800080
    ∷ 0x00808000 ∷ 0x00808080 ∷ 0x00808000 ∷ 0x00808080 ∷ 0x00000000 ∷ 0x00000080 ∷ 0x00000000
    ∷ 0x00000080 ∷ 0x00008000 ∷ 0x00008080 ∷ 0x00008000 ∷ 0x00008080 ∷ 0x00000000 ∷ 0x00000080
    ∷ 0x00000000 ∷ 0x00000080 ∷ 0x00008000 ∷ 0x00008080 ∷ 0x00008000 ∷ 0x00008080 ∷ 0x00800000
    ∷ 0x00800080 ∷ 0x00800000 ∷ 0x00800080 ∷ 0x00808000 ∷ 0x00808080 ∷ 0x00808000 ∷ 0x00808080
    ∷ 0x00800000 ∷ 0x00800080 ∷ 0x00800000 ∷ 0x00800080 ∷ 0x00808000 ∷ 0x00808080 ∷ 0x00808000
    ∷ 0x00808080 ∷ 0x80000000 ∷ 0x80000080 ∷ 0x80000000 ∷ 0x80000080 ∷ 0x80008000 ∷ 0x80008080
    ∷ 0x80008000 ∷ 0x80008080 ∷ 0x80000000 ∷ 0x80000080 ∷ 0x80000000 ∷ 0x80000080 ∷ 0x80008000
    ∷ 0x80008080 ∷ 0x80008000 ∷ 0x80008080 ∷ 0x80800000 ∷ 0x80800080 ∷ 0x80800000 ∷ 0x80800080
    ∷ 0x80808000 ∷ 0x80808080 ∷ 0x80808000 ∷ 0x80808080 ∷ 0x80800000 ∷ 0x80800080 ∷ 0x80800000
    ∷ 0x80800080 ∷ 0x80808000 ∷ 0x80808080 ∷ 0x80808000 ∷ 0x80808080 ∷ 0x80000000 ∷ 0x80000080
    ∷ 0x80000000 ∷ 0x80000080 ∷ 0x80008000 ∷ 0x80008080 ∷ 0x80008000 ∷ 0x80008080 ∷ 0x80000000
    ∷ 0x80000080 ∷ 0x80000000 ∷ 0x80000080 ∷ 0x80008000 ∷ 0x80008080 ∷ 0x80008000 ∷ 0x80008080
    ∷ 0x80800000 ∷ 0x80800080 ∷ 0x80800000 ∷ 0x80800080 ∷ 0x80808000 ∷ 0x80808080 ∷ 0x80808000
    ∷ 0x80808080 ∷ 0x80800000 ∷ 0x80800080 ∷ 0x80800000 ∷ 0x80800080 ∷ 0x80808000 ∷ 0x80808080
    ∷ 0x80808000 ∷ 0x80808080 ∷ 0x00000000 ∷ 0x00000080 ∷ 0x00000000 ∷ 0x00000080 ∷ 0x00008000
    ∷ 0x00008080 ∷ 0x00008000 ∷ 0x00008080 ∷ 0x00000000 ∷ 0x00000080 ∷ 0x00000000 ∷ 0x00000080
    ∷ 0x00008000 ∷ 0x00008080 ∷ 0x00008000 ∷ 0x00008080 ∷ 0x00800000 ∷ 0x00800080 ∷ 0x00800000
    ∷ 0x00800080 ∷ 0x00808000 ∷ 0x00808080 ∷ 0x00808000 ∷ 0x00808080 ∷ 0x00800000 ∷ 0x00800080
    ∷ 0x00800000 ∷ 0x00800080 ∷ 0x00808000 ∷ 0x00808080 ∷ 0x00808000 ∷ 0x00808080 ∷ 0x00000000
    ∷ 0x00000080 ∷ 0x00000000 ∷ 0x00000080 ∷ 0x00008000 ∷ 0x00008080 ∷ 0x00008000 ∷ 0x00008080
    ∷ 0x00000000 ∷ 0x00000080 ∷ 0x00000000 ∷ 0x00000080 ∷ 0x00008000 ∷ 0x00008080 ∷ 0x00008000
    ∷ 0x00008080 ∷ 0x00800000 ∷ 0x00800080 ∷ 0x00800000 ∷ 0x00800080 ∷ 0x00808000 ∷ 0x00808080
    ∷ 0x00808000 ∷ 0x00808080 ∷ 0x00800000 ∷ 0x00800080 ∷ 0x00800000 ∷ 0x00800080 ∷ 0x00808000
    ∷ 0x00808080 ∷ 0x00808000 ∷ 0x00808080 ∷ 0x80000000 ∷ 0x80000080 ∷ 0x80000000 ∷ 0x80000080
    ∷ 0x80008000 ∷ 0x80008080 ∷ 0x80008000 ∷ 0x80008080 ∷ 0x80000000 ∷ 0x80000080 ∷ 0x80000000
    ∷ 0x80000080 ∷ 0x80008000 ∷ 0x80008080 ∷ 0x80008000 ∷ 0x80008080 ∷ 0x80800000 ∷ 0x80800080
    ∷ 0x80800000 ∷ 0x80800080 ∷ 0x80808000 ∷ 0x80808080 ∷ 0x80808000 ∷ 0x80808080 ∷ 0x80800000
    ∷ 0x80800080 ∷ 0x80800000 ∷ 0x80800080 ∷ 0x80808000 ∷ 0x80808080 ∷ 0x80808000 ∷ 0x80808080
    ∷ 0x80000000 ∷ 0x80000080 ∷ 0x80000000 ∷ 0x80000080 ∷ 0x80008000 ∷ 0x80008080 ∷ 0x80008000
    ∷ 0x80008080 ∷ 0x80000000 ∷ 0x80000080 ∷ 0x80000000 ∷ 0x80000080 ∷ 0x80008000 ∷ 0x80008080
    ∷ 0x80008000 ∷ 0x80008080 ∷ 0x80800000 ∷ 0x80800080 ∷ 0x80800000 ∷ 0x80800080 ∷ 0x80808000
    ∷ 0x80808080 ∷ 0x80808000 ∷ 0x80808080 ∷ 0x80800000 ∷ 0x80800080 ∷ 0x80800000 ∷ 0x80800080
    ∷ 0x80808000 ∷ 0x80808080 ∷ 0x80808000 ∷ 0x80808080 ∷ []

unfoldable pub ip_r : List ℕ
ip_r =
    0x00000000 ∷ 0x00000000 ∷ 0x00000080 ∷ 0x00000080 ∷ 0x00000000 ∷ 0x00000000 ∷ 0x00000080
    ∷ 0x00000080 ∷ 0x00008000 ∷ 0x00008000 ∷ 0x00008080 ∷ 0x00008080 ∷ 0x00008000 ∷ 0x00008000
    ∷ 0x00008080 ∷ 0x00008080 ∷ 0x00000000 ∷ 0x00000000 ∷ 0x00000080 ∷ 0x00000080 ∷ 0x00000000
    ∷ 0x00000000 ∷ 0x00000080 ∷ 0x00000080 ∷ 0x00008000 ∷ 0x00008000 ∷ 0x00008080 ∷ 0x00008080
    ∷ 0x00008000 ∷ 0x00008000 ∷ 0x00008080 ∷ 0x00008080 ∷ 0x00800000 ∷ 0x00800000 ∷ 0x00800080
    ∷ 0x00800080 ∷ 0x00800000 ∷ 0x00800000 ∷ 0x00800080 ∷ 0x00800080 ∷ 0x00808000 ∷ 0x00808000
    ∷ 0x00808080 ∷ 0x00808080 ∷ 0x00808000 ∷ 0x00808000 ∷ 0x00808080 ∷ 0x00808080 ∷ 0x00800000
    ∷ 0x00800000 ∷ 0x00800080 ∷ 0x00800080 ∷ 0x00800000 ∷ 0x00800000 ∷ 0x00800080 ∷ 0x00800080
    ∷ 0x00808000 ∷ 0x00808000 ∷ 0x00808080 ∷ 0x00808080 ∷ 0x00808000 ∷ 0x00808000 ∷ 0x00808080
    ∷ 0x00808080 ∷ 0x00000000 ∷ 0x00000000 ∷ 0x00000080 ∷ 0x00000080 ∷ 0x00000000 ∷ 0x00000000
    ∷ 0x00000080 ∷ 0x00000080 ∷ 0x00008000 ∷ 0x00008000 ∷ 0x00008080 ∷ 0x00008080 ∷ 0x00008000
    ∷ 0x00008000 ∷ 0x00008080 ∷ 0x00008080 ∷ 0x00000000 ∷ 0x00000000 ∷ 0x00000080 ∷ 0x00000080
    ∷ 0x00000000 ∷ 0x00000000 ∷ 0x00000080 ∷ 0x00000080 ∷ 0x00008000 ∷ 0x00008000 ∷ 0x00008080
    ∷ 0x00008080 ∷ 0x00008000 ∷ 0x00008000 ∷ 0x00008080 ∷ 0x00008080 ∷ 0x00800000 ∷ 0x00800000
    ∷ 0x00800080 ∷ 0x00800080 ∷ 0x00800000 ∷ 0x00800000 ∷ 0x00800080 ∷ 0x00800080 ∷ 0x00808000
    ∷ 0x00808000 ∷ 0x00808080 ∷ 0x00808080 ∷ 0x00808000 ∷ 0x00808000 ∷ 0x00808080 ∷ 0x00808080
    ∷ 0x00800000 ∷ 0x00800000 ∷ 0x00800080 ∷ 0x00800080 ∷ 0x00800000 ∷ 0x00800000 ∷ 0x00800080
    ∷ 0x00800080 ∷ 0x00808000 ∷ 0x00808000 ∷ 0x00808080 ∷ 0x00808080 ∷ 0x00808000 ∷ 0x00808000
    ∷ 0x00808080 ∷ 0x00808080 ∷ 0x80000000 ∷ 0x80000000 ∷ 0x80000080 ∷ 0x80000080 ∷ 0x80000000
    ∷ 0x80000000 ∷ 0x80000080 ∷ 0x80000080 ∷ 0x80008000 ∷ 0x80008000 ∷ 0x80008080 ∷ 0x80008080
    ∷ 0x80008000 ∷ 0x80008000 ∷ 0x80008080 ∷ 0x80008080 ∷ 0x80000000 ∷ 0x80000000 ∷ 0x80000080
    ∷ 0x80000080 ∷ 0x80000000 ∷ 0x80000000 ∷ 0x80000080 ∷ 0x80000080 ∷ 0x80008000 ∷ 0x80008000
    ∷ 0x80008080 ∷ 0x80008080 ∷ 0x80008000 ∷ 0x80008000 ∷ 0x80008080 ∷ 0x80008080 ∷ 0x80800000
    ∷ 0x80800000 ∷ 0x80800080 ∷ 0x80800080 ∷ 0x80800000 ∷ 0x80800000 ∷ 0x80800080 ∷ 0x80800080
    ∷ 0x80808000 ∷ 0x80808000 ∷ 0x80808080 ∷ 0x80808080 ∷ 0x80808000 ∷ 0x80808000 ∷ 0x80808080
    ∷ 0x80808080 ∷ 0x80800000 ∷ 0x80800000 ∷ 0x80800080 ∷ 0x80800080 ∷ 0x80800000 ∷ 0x80800000
    ∷ 0x80800080 ∷ 0x80800080 ∷ 0x80808000 ∷ 0x80808000 ∷ 0x80808080 ∷ 0x80808080 ∷ 0x80808000
    ∷ 0x80808000 ∷ 0x80808080 ∷ 0x80808080 ∷ 0x80000000 ∷ 0x80000000 ∷ 0x80000080 ∷ 0x80000080
    ∷ 0x80000000 ∷ 0x80000000 ∷ 0x80000080 ∷ 0x80000080 ∷ 0x80008000 ∷ 0x80008000 ∷ 0x80008080
    ∷ 0x80008080 ∷ 0x80008000 ∷ 0x80008000 ∷ 0x80008080 ∷ 0x80008080 ∷ 0x80000000 ∷ 0x80000000
    ∷ 0x80000080 ∷ 0x80000080 ∷ 0x80000000 ∷ 0x80000000 ∷ 0x80000080 ∷ 0x80000080 ∷ 0x80008000
    ∷ 0x80008000 ∷ 0x80008080 ∷ 0x80008080 ∷ 0x80008000 ∷ 0x80008000 ∷ 0x80008080 ∷ 0x80008080
    ∷ 0x80800000 ∷ 0x80800000 ∷ 0x80800080 ∷ 0x80800080 ∷ 0x80800000 ∷ 0x80800000 ∷ 0x80800080
    ∷ 0x80800080 ∷ 0x80808000 ∷ 0x80808000 ∷ 0x80808080 ∷ 0x80808080 ∷ 0x80808000 ∷ 0x80808000
    ∷ 0x80808080 ∷ 0x80808080 ∷ 0x80800000 ∷ 0x80800000 ∷ 0x80800080 ∷ 0x80800080 ∷ 0x80800000
    ∷ 0x80800000 ∷ 0x80800080 ∷ 0x80800080 ∷ 0x80808000 ∷ 0x80808000 ∷ 0x80808080 ∷ 0x80808080
    ∷ 0x80808000 ∷ 0x80808000 ∷ 0x80808080 ∷ 0x80808080 ∷ []

unfoldable pub ip_inv_l : List ℕ
ip_inv_l =
    0x00000000 ∷ 0x80000000 ∷ 0x00800000 ∷ 0x80800000 ∷ 0x00008000 ∷ 0x80008000 ∷ 0x00808000
    ∷ 0x80808000 ∷ 0x00000080 ∷ 0x80000080 ∷ 0x00800080 ∷ 0x80800080 ∷ 0x00008080 ∷ 0x80008080
    ∷ 0x00808080 ∷ 0x80808080 ∷ 0x00000000 ∷ 0x80000000 ∷ 0x00800000 ∷ 0x80800000 ∷ 0x00008000
    ∷ 0x80008000 ∷ 0x00808000 ∷ 0x80808000 ∷ 0x00000080 ∷ 0x80000080 ∷ 0x00800080 ∷ 0x80800080
    ∷ 0x00008080 ∷ 0x80008080 ∷ 0x00808080 ∷ 0x80808080 ∷ 0x00000000 ∷ 0x80000000 ∷ 0x00800000
    ∷ 0x80800000 ∷ 0x00008000 ∷ 0x80008000 ∷ 0x00808000 ∷ 0x80808000 ∷ 0x00000080 ∷ 0x80000080
    ∷ 0x00800080 ∷ 0x80800080 ∷ 0x00008080 ∷ 0x80008080 ∷ 0x00808080 ∷ 0x80808080 ∷ 0x00000000
    ∷ 0x80000000 ∷ 0x00800000 ∷ 0x80800000 ∷ 0x00008000 ∷ 0x80008000 ∷ 0x00808000 ∷ 0x80808000
    ∷ 0x00000080 ∷ 0x80000080 ∷ 0x00800080 ∷ 0x80800080 ∷ 0x00008080 ∷ 0x80008080 ∷ 0x00808080
    ∷ 0x80808080 ∷ 0x00000000 ∷ 0x80000000 ∷ 0x00800000 ∷ 0x80800000 ∷ 0x00008000 ∷ 0x80008000
    ∷ 0x00808000 ∷ 0x80808000 ∷ 0x00000080 ∷ 0x80000080 ∷ 0x00800080 ∷ 0x80800080 ∷ 0x00008080
    ∷ 0x80008080 ∷ 0x00808080 ∷ 0x80808080 ∷ 0x00000000 ∷ 0x80000000 ∷ 0x00800000 ∷ 0x80800000
    ∷ 0x00008000 ∷ 0x80008000 ∷ 0x00808000 ∷ 0x80808000 ∷ 0x00000080 ∷ 0x80000080 ∷ 0x00800080
    ∷ 0x80800080 ∷ 0x00008080 ∷ 0x80008080 ∷ 0x00808080 ∷ 0x80808080 ∷ 0x00000000 ∷ 0x80000000
    ∷ 0x00800000 ∷ 0x80800000 ∷ 0x00008000 ∷ 0x80008000 ∷ 0x00808000 ∷ 0x80808000 ∷ 0x00000080
    ∷ 0x80000080 ∷ 0x00800080 ∷ 0x80800080 ∷ 0x00008080 ∷ 0x80008080 ∷ 0x00808080 ∷ 0x80808080
    ∷ 0x00000000 ∷ 0x80000000 ∷ 0x00800000 ∷ 0x80800000 ∷ 0x00008000 ∷ 0x80008000 ∷ 0x00808000
    ∷ 0x80808000 ∷ 0x00000080 ∷ 0x80000080 ∷ 0x00800080 ∷ 0x80800080 ∷ 0x00008080 ∷ 0x80008080
    ∷ 0x00808080 ∷ 0x80808080 ∷ 0x00000000 ∷ 0x80000000 ∷ 0x00800000 ∷ 0x80800000 ∷ 0x00008000
    ∷ 0x80008000 ∷ 0x00808000 ∷ 0x80808000 ∷ 0x00000080 ∷ 0x80000080 ∷ 0x00800080 ∷ 0x80800080
    ∷ 0x00008080 ∷ 0x80008080 ∷ 0x00808080 ∷ 0x80808080 ∷ 0x00000000 ∷ 0x80000000 ∷ 0x00800000
    ∷ 0x80800000 ∷ 0x00008000 ∷ 0x80008000 ∷ 0x00808000 ∷ 0x80808000 ∷ 0x00000080 ∷ 0x80000080
    ∷ 0x00800080 ∷ 0x80800080 ∷ 0x00008080 ∷ 0x80008080 ∷ 0x00808080 ∷ 0x80808080 ∷ 0x00000000
    ∷ 0x80000000 ∷ 0x00800000 ∷ 0x80800000 ∷ 0x00008000 ∷ 0x80008000 ∷ 0x00808000 ∷ 0x80808000
    ∷ 0x00000080 ∷ 0x80000080 ∷ 0x00800080 ∷ 0x80800080 ∷ 0x00008080 ∷ 0x80008080 ∷ 0x00808080
    ∷ 0x80808080 ∷ 0x00000000 ∷ 0x80000000 ∷ 0x00800000 ∷ 0x80800000 ∷ 0x00008000 ∷ 0x80008000
    ∷ 0x00808000 ∷ 0x80808000 ∷ 0x00000080 ∷ 0x80000080 ∷ 0x00800080 ∷ 0x80800080 ∷ 0x00008080
    ∷ 0x80008080 ∷ 0x00808080 ∷ 0x80808080 ∷ 0x00000000 ∷ 0x80000000 ∷ 0x00800000 ∷ 0x80800000
    ∷ 0x00008000 ∷ 0x80008000 ∷ 0x00808000 ∷ 0x80808000 ∷ 0x00000080 ∷ 0x80000080 ∷ 0x00800080
    ∷ 0x80800080 ∷ 0x00008080 ∷ 0x80008080 ∷ 0x00808080 ∷ 0x80808080 ∷ 0x00000000 ∷ 0x80000000
    ∷ 0x00800000 ∷ 0x80800000 ∷ 0x00008000 ∷ 0x80008000 ∷ 0x00808000 ∷ 0x80808000 ∷ 0x00000080
    ∷ 0x80000080 ∷ 0x00800080 ∷ 0x80800080 ∷ 0x00008080 ∷ 0x80008080 ∷ 0x00808080 ∷ 0x80808080
    ∷ 0x00000000 ∷ 0x80000000 ∷ 0x00800000 ∷ 0x80800000 ∷ 0x00008000 ∷ 0x80008000 ∷ 0x00808000
    ∷ 0x80808000 ∷ 0x00000080 ∷ 0x80000080 ∷ 0x00800080 ∷ 0x80800080 ∷ 0x00008080 ∷ 0x80008080
    ∷ 0x00808080 ∷ 0x80808080 ∷ 0x00000000 ∷ 0x80000000 ∷ 0x00800000 ∷ 0x80800000 ∷ 0x00008000
    ∷ 0x80008000 ∷ 0x00808000 ∷ 0x80808000 ∷ 0x00000080 ∷ 0x80000080 ∷ 0x00800080 ∷ 0x80800080
    ∷ 0x00008080 ∷ 0x80008080 ∷ 0x00808080 ∷ 0x80808080 ∷ []

unfoldable pub ip_inv_r : List ℕ
ip_inv_r =
    0x00000000 ∷ 0x00000000 ∷ 0x00000000 ∷ 0x00000000 ∷ 0x00000000 ∷ 0x00000000 ∷ 0x00000000
    ∷ 0x00000000 ∷ 0x00000000 ∷ 0x00000000 ∷ 0x00000000 ∷ 0x00000000 ∷ 0x00000000 ∷ 0x00000000
    ∷ 0x00000000 ∷ 0x00000000 ∷ 0x80000000 ∷ 0x80000000 ∷ 0x80000000 ∷ 0x80000000 ∷ 0x80000000
    ∷ 0x80000000 ∷ 0x80000000 ∷ 0x80000000 ∷ 0x80000000 ∷ 0x80000000 ∷ 0x80000000 ∷ 0x80000000
    ∷ 0x80000000 ∷ 0x80000000 ∷ 0x80000000 ∷ 0x80000000 ∷ 0x00800000 ∷ 0x00800000 ∷ 0x00800000
    ∷ 0x00800000 ∷ 0x00800000 ∷ 0x00800000 ∷ 0x00800000 ∷ 0x00800000 ∷ 0x00800000 ∷ 0x00800000
    ∷ 0x00800000 ∷ 0x00800000 ∷ 0x00800000 ∷ 0x00800000 ∷ 0x00800000 ∷ 0x00800000 ∷ 0x80800000
    ∷ 0x80800000 ∷ 0x80800000 ∷ 0x80800000 ∷ 0x80800000 ∷ 0x80800000 ∷ 0x80800000 ∷ 0x80800000
    ∷ 0x80800000 ∷ 0x80800000 ∷ 0x80800000 ∷ 0x80800000 ∷ 0x80800000 ∷ 0x80800000 ∷ 0x80800000
    ∷ 0x80800000 ∷ 0x00008000 ∷ 0x00008000 ∷ 0x00008000 ∷ 0x00008000 ∷ 0x00008000 ∷ 0x00008000
    ∷ 0x00008000 ∷ 0x00008000 ∷ 0x00008000 ∷ 0x00008000 ∷ 0x00008000 ∷ 0x00008000 ∷ 0x00008000
    ∷ 0x00008000 ∷ 0x00008000 ∷ 0x00008000 ∷ 0x80008000 ∷ 0x80008000 ∷ 0x80008000 ∷ 0x80008000
    ∷ 0x80008000 ∷ 0x80008000 ∷ 0x80008000 ∷ 0x80008000 ∷ 0x80008000 ∷ 0x80008000 ∷ 0x80008000
    ∷ 0x80008000 ∷ 0x80008000 ∷ 0x80008000 ∷ 0x80008000 ∷ 0x80008000 ∷ 0x00808000 ∷ 0x00808000
    ∷ 0x00808000 ∷ 0x00808000 ∷ 0x00808000 ∷ 0x00808000 ∷ 0x00808000 ∷ 0x00808000 ∷ 0x00808000
    ∷ 0x00808000 ∷ 0x00808000 ∷ 0x00808000 ∷ 0x00808000 ∷ 0x00808000 ∷ 0x00808000 ∷ 0x00808000
    ∷ 0x80808000 ∷ 0x80808000 ∷ 0x80808000 ∷ 0x80808000 ∷ 0x80808000 ∷ 0x80808000 ∷ 0x80808000
    ∷ 0x80808000 ∷ 0x80808000 ∷ 0x80808000 ∷ 0x80808000 ∷ 0x80808000 ∷ 0x80808000 ∷ 0x80808000
    ∷ 0x80808000 ∷ 0x80808000 ∷ 0x00000080 ∷ 0x00000080 ∷ 0x00000080 ∷ 0x00000080 ∷ 0x00000080
    ∷ 0x00000080 ∷ 0x00000080 ∷ 0x00000080 ∷ 0x00000080 ∷ 0x00000080 ∷ 0x00000080 ∷ 0x00000080
    ∷ 0x00000080 ∷ 0x00000080 ∷ 0x00000080 ∷ 0x00000080 ∷ 0x80000080 ∷ 0x80000080 ∷ 0x80000080
    ∷ 0x80000080 ∷ 0x80000080 ∷ 0x80000080 ∷ 0x80000080 ∷ 0x80000080 ∷ 0x80000080 ∷ 0x80000080
    ∷ 0x80000080 ∷ 0x80000080 ∷ 0x80000080 ∷ 0x80000080 ∷ 0x80000080 ∷ 0x80000080 ∷ 0x00800080
    ∷ 0x00800080 ∷ 0x00800080 ∷ 0x00800080 ∷ 0x00800080 ∷ 0x00800080 ∷ 0x00800080 ∷ 0x00800080
    ∷ 0x00800080 ∷ 0x00800080 ∷ 0x00800080 ∷ 0x00800080 ∷ 0x00800080 ∷ 0x00800080 ∷ 0x00800080
    ∷ 0x00800080 ∷ 0x80800080 ∷ 0x80800080 ∷ 0x80800080 ∷ 0x80800080 ∷ 0x80800080 ∷ 0x80800080
    ∷ 0x80800080 ∷ 0x80800080 ∷ 0x80800080 ∷ 0x80800080 ∷ 0x80800080 ∷ 0x80800080 ∷ 0x80800080
    ∷ 0x80800080 ∷ 0x80800080 ∷ 0x80800080 ∷ 0x00008080 ∷ 0x00008080 ∷ 0x00008080 ∷ 0x00008080
    ∷ 0x00008080 ∷ 0x00008080 ∷ 0x00008080 ∷ 0x00008080 ∷ 0x00008080 ∷ 0x00008080 ∷ 0x00008080
    ∷ 0x00008080 ∷ 0x00008080 ∷ 0x00008080 ∷ 0x00008080 ∷ 0x00008080 ∷ 0x80008080 ∷ 0x80008080
    ∷ 0x80008080 ∷ 0x80008080 ∷ 0x80008080 ∷ 0x80008080 ∷ 0x80008080 ∷ 0x80008080 ∷ 0x80008080
    ∷ 0x80008080 ∷ 0x80008080 ∷ 0x80008080 ∷ 0x80008080 ∷ 0x80008080 ∷ 0x80008080 ∷ 0x80008080
    ∷ 0x00808080 ∷ 0x00808080 ∷ 0x00808080 ∷ 0x00808080 ∷ 0x00808080 ∷ 0x00808080 ∷ 0x00808080
    ∷ 0x00808080 ∷ 0x00808080 ∷ 0x00808080 ∷ 0x00808080 ∷ 0x00808080 ∷ 0x00808080 ∷ 0x00808080
    ∷ 0x00808080 ∷ 0x00808080 ∷ 0x80808080 ∷ 0x80808080 ∷ 0x80808080 ∷ 0x80808080 ∷ 0x80808080
    ∷ 0x80808080 ∷ 0x80808080 ∷ 0x80808080 ∷ 0x80808080 ∷ 0x80808080 ∷ 0x80808080 ∷ 0x80808080
    ∷ 0x80808080 ∷ 0x80808080 ∷ 0x80808080 ∷ 0x80808080 ∷ []
