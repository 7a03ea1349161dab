-- ===== src/Text/CType.antt =====
-- apps/lib/ctype.c and the macros of inc/dragonstub/linux/ctype.h.
use dragon_stub.Base.{
  ℕ, ◌<◌, ◌≡◌, refl, Bool, true, false, not, ◌&&◌, ◌||◌, List, ◌∷◌, ◌++◌, bit_and, bit_or, ◌==◌,
  leb, get_or, replicate, holds_below, holds_below-lt, beq, beq_iff,
}

-- The masks _U _L _D _C _P _S _X _SP.
abbrev u_bit : ℕ
u_bit = 0x01

abbrev l_bit : ℕ
l_bit = 0x02

abbrev d_bit : ℕ
d_bit = 0x04

abbrev c_bit : ℕ
c_bit = 0x08

abbrev p_bit : ℕ
p_bit = 0x10

abbrev s_bit : ℕ
s_bit = 0x20

abbrev x_bit : ℕ
x_bit = 0x40

abbrev sp_bit : ℕ
sp_bit = 0x80

-- The table, the runs of one value written once.
ctype : List ℕ
ctype =
    replicate 9 c_bit
    ++ (replicate 5 (bit_or c_bit s_bit)
        ++ (replicate 18 c_bit
            ++ (bit_or s_bit sp_bit
                ∷ (replicate 15 p_bit
                    ++ (replicate 10 d_bit
                        ++ (replicate 7 p_bit
                            ++ (replicate 6 (bit_or u_bit x_bit)
                                ++ (replicate 20 u_bit
                                    ++ (replicate 6 p_bit
                                        ++ (replicate 6 (bit_or l_bit x_bit)
                                            ++ (replicate 20 l_bit
                                                ++ (replicate 4 p_bit
                                                    ++ (c_bit
                                                        ∷ (replicate 32 0
                                                            ++ (bit_or s_bit sp_bit
                                                            ∷ (replicate 31 p_bit
                                                            ++ (replicate 23 u_bit
                                                            ++ (p_bit
                                                            ∷ (replicate 7 u_bit
                                                            ++ (l_bit
                                                            ∷ (replicate 23 l_bit
                                                            ++ (p_bit
                                                            ∷ replicate 8
                                                            l_bit))))))))))))))))))))))

-- __ismask
ismask : ℕ → ℕ → Bool
unfolding ctype
ismask c mask = not (bit_and (get_or ctype c 0) mask == 0)

unfoldable pub isspace : ℕ → Bool
unfolding ismask
isspace c = ismask c s_bit

unfoldable pub isxdigit : ℕ → Bool
unfolding ismask
isxdigit c = ismask c (bit_or d_bit x_bit)

unfoldable pub isalnum : ℕ → Bool
unfolding ismask
isalnum c = ismask c (bit_or (bit_or u_bit l_bit) d_bit)

-- isdigit is not read from the table.
unfoldable pub isdigit : ℕ → Bool
isdigit c = leb b'0' c && leb c b'9'

-- _tolower of ctype.h and TOLOWER of string.c.
unfoldable pub to_lower : ℕ → ℕ
to_lower c = bit_or c 0x20

-- What the table means for white space and for hexadecimal digits.
abbrev pub is_space_code : ℕ → Bool
is_space_code c = (leb 9 c && leb c 13) || (c == 32 || c == 160)

abbrev pub is_hex_code : ℕ → Bool
is_hex_code c =
    (leb b'0' c && leb c b'9') || ((leb b'A' c && leb c b'F') || (leb b'a' c && leb c b'f'))

isspace_table : holds_below (λ c. beq (isspace c) (is_space_code c)) 256 ≡ true
unfolding isspace holds_below
isspace_table = refl

isxdigit_table : holds_below (λ c. beq (isxdigit c) (is_hex_code c)) 256 ≡ true
unfolding isxdigit holds_below
isxdigit_table = refl

-- For every byte, the table answers isspace by the ranges 9 to 13, 32 and 160, and isxdigit by
-- the digits and the letters a to f in both cases.
isspace-isxdigit_codes :
    (c : ℕ) → c < 256 → (isspace c ≡ is_space_code c) × (isxdigit c ≡ is_hex_code c)
isspace-isxdigit_codes c h = (
  (beq_iff _ _).0 (holds_below-lt (λ c. beq (isspace c) (is_space_code c)) 256 c h isspace_table),
  (beq_iff _ _).0 (holds_below-lt (λ c. beq (isxdigit c) (is_hex_code c)) 256 c h isxdigit_table),
)

pub isspace_zero : isspace 0 ≡ false
unfolding isspace
isspace_zero = refl
