-- ===== src/SignExtend/RoundTrip.antt =====
-- The immediates that rtl/sign_extend/sign_extend.sv takes out of an instruction are those that the
-- instruction formats put in. `mid` stands for the register and funct3 fields between them.
use risc_v_cpu.Base.{ℕ, ◌+◌, ◌-◌, ◌*◌, ◌%◌, ◌^◌, ◌≤◌, ◌<◌, ◌≡◌, ◌⊎◌, IsWord, arith, slice}
use risc_v_cpu.SignExtend.{sign_extend}

-- A word that sign extension from `k + 1` bits leaves as it is.
abbrev pub IsSigned : ℕ → ℕ → Type 0
IsSigned k imm = (imm < 2 ^ k) ⊎ ((2 ^ 32 - 2 ^ k ≤ imm) × (imm < 2 ^ 32))

-- The instruction formats: the fields from the top bit down.
abbrev pub encode_i : ℕ → ℕ → ℕ
encode_i imm low = slice imm 0 12 * 2 ^ 20 + low

abbrev pub encode_s : ℕ → ℕ → ℕ → ℕ
encode_s imm mid op = slice imm 5 7 * 2 ^ 25 + mid * 2 ^ 12 + slice imm 0 5 * 2 ^ 7 + op

abbrev pub encode_b : ℕ → ℕ → ℕ → ℕ
encode_b imm mid op =
    slice imm 12 1 * 2 ^ 31
    + slice imm 5 6 * 2 ^ 25
    + mid * 2 ^ 12
    + slice imm 1 4 * 2 ^ 8
    + slice imm 11 1 * 2 ^ 7
    + op

abbrev pub encode_u : ℕ → ℕ → ℕ
encode_u imm low = slice imm 12 20 * 2 ^ 12 + low

abbrev pub encode_j : ℕ → ℕ → ℕ
encode_j imm low =
    slice imm 20 1 * 2 ^ 31
    + slice imm 1 10 * 2 ^ 21
    + slice imm 11 1 * 2 ^ 20
    + slice imm 12 8 * 2 ^ 12
    + low

-- An immediate of 12 bits with its sign is read back from the I format.
pub sign_extend-encode_i :
    (imm low : ℕ) → IsSigned 11 imm → low < 2 ^ 20 → sign_extend (encode_i imm low) 0b000 ≡ imm
unfolding sign_extend
sign_extend-encode_i imm low h l = ground arith

-- An immediate of 12 bits with its sign is read back from the S format.
pub sign_extend-encode_s :
    (imm mid op : ℕ)
    → IsSigned 11 imm
    → mid < 2 ^ 13
    → op < 2 ^ 7
    → sign_extend (encode_s imm mid op) 0b001 ≡ imm
unfolding sign_extend
sign_extend-encode_s imm mid op h m o = ground arith

-- An even immediate of 13 bits with its sign is read back from the B format.
pub sign_extend-encode_b :
    (imm mid op : ℕ)
    → IsSigned 12 imm
    → imm % 2 ≡ 0
    → mid < 2 ^ 13
    → op < 2 ^ 7
    → sign_extend (encode_b imm mid op) 0b010 ≡ imm
unfolding sign_extend
sign_extend-encode_b imm mid op h e m o = ground arith

-- A word with its low 12 bits clear is read back from the U format.
pub sign_extend-encode_u :
    (imm low : ℕ)
    → IsWord imm
    → imm % 2 ^ 12 ≡ 0
    → low < 2 ^ 12
    → sign_extend (encode_u imm low) 0b011 ≡ imm
unfolding sign_extend
sign_extend-encode_u imm low h e l = ground arith

-- An even immediate of 21 bits with its sign is read back from the J format.
pub sign_extend-encode_j :
    (imm low : ℕ)
    → IsSigned 20 imm
    → imm % 2 ≡ 0
    → low < 2 ^ 12
    → sign_extend (encode_j imm low) 0b100 ≡ imm
unfolding sign_extend
sign_extend-encode_j imm low h e l = ground arith

-- The formats, the selection of each on `imm_src`, and the encoding of an immediate with the fields between
-- it and the opcode, which `mid` stands for.
pub data Format : Type 0 where
  i_format s_format b_format u_format j_format : Format

abbrev pub imm_src_of : Format → ℕ
imm_src_of i_format = 0b000
imm_src_of s_format = 0b001
imm_src_of b_format = 0b010
imm_src_of u_format = 0b011
imm_src_of j_format = 0b100

abbrev pub encode : Format → ℕ → ℕ → ℕ → ℕ
encode i_format imm mid op = encode_i imm (mid * 2 ^ 7 + op)
encode s_format imm mid op = encode_s imm mid op
encode b_format imm mid op = encode_b imm mid op
encode u_format imm mid op = encode_u imm (mid * 2 ^ 7 + op)
encode j_format imm mid op = encode_j imm (mid * 2 ^ 7 + op)

-- The width of the fields that `mid` stands for: rd alone, or two registers or one and funct3.
abbrev pub mid_width : Format → ℕ
mid_width i_format = 13
mid_width s_format = 13
mid_width b_format = 13
mid_width u_format = 5
mid_width j_format = 5

-- The immediates that a format has.
abbrev pub Fits : Format → ℕ → Type 0
Fits i_format imm = IsSigned 11 imm
Fits s_format imm = IsSigned 11 imm
Fits b_format imm = IsSigned 12 imm × (imm % 2 ≡ 0)
Fits u_format imm = IsWord imm × (imm % 2 ^ 12 ≡ 0)
Fits j_format imm = IsSigned 20 imm × (imm % 2 ≡ 0)

-- In each of the five formats, an immediate that the format has is read back from an instruction that
-- encodes it, sign-extended to 32 bits, whatever the other fields of the instruction are.
pub sign_extend-encode :
    (f : Format) (imm mid op : ℕ)
    → Fits f imm
    → mid < 2 ^ mid_width f
    → op < 2 ^ 7
    → sign_extend (encode f imm mid op) (imm_src_of f) ≡ imm
sign_extend-encode i_format imm mid op h m o =
    sign_extend-encode_i imm (mid * 2 ^ 7 + op) h (omega arith)
sign_extend-encode s_format imm mid op h m o = sign_extend-encode_s imm mid op h m o
sign_extend-encode b_format imm mid op (h, e) m o = sign_extend-encode_b imm mid op h e m o
sign_extend-encode u_format imm mid op (h, e) m o =
    sign_extend-encode_u imm (mid * 2 ^ 7 + op) h e (omega arith)
sign_extend-encode j_format imm mid op (h, e) m o =
    sign_extend-encode_j imm (mid * 2 ^ 7 + op) h e (omega arith)
