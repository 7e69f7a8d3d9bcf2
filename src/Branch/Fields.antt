-- ===== src/Branch/Fields.antt =====
-- The fields that stf-inc/stf_branch_decoder.hpp reads from an opcode, in plain arithmetic.
use stf_lib.Common.{ℕ, ◌+◌, ◌-◌, ◌*◌, ◌/◌, ◌%◌, ◌^◌, ◌<◌, ◌≤◌, ◌≡◌, sym, ◌∙◌, ◌==◌, ltb, arith}
use native.Mathlib.Nat.{mod-eq_of_lt, pow-le-pow_right}
use stf_lib.ByteUtils.{get_bit, get_bit_range, sign_extend, extract}
use stf_lib.ByteUtils.Fields.{get_arg-bit, get_arg-bit_range, extract_lem, fields_sum}
use stf_lib.Registers.{to_gpr}
use stf_lib.Registers.Codec.{combine_reg_type_lem}
use stf_lib.Branch.Decoder.{encode_reg_num, get_target, cj_args, cb_args, b_args, j_args}
use stf_lib.Branch.Encoding.{
  pc_relative, encode_jal, encode_jalr, encode_branch, encode_cj, encode_cb, encode_cr,
}

unmoved : (x n : ℕ) → x * 2 ^ (n - n) ≡ x
unmoved x n = let e : n - n ≡ 0 = omega arith in rw e (omega arith)

-- A field that is moved down to bit 0.
pub get_bit_range_lem :
    (w s e v : ℕ)
    → e ≤ s
    → s < w
    → w ≤ 64
    → get_bit_range w s e (s - e) v ≡ v / 2 ^ e % 2 ^ (s - e + 1)
unfolding get_bit_range
get_bit_range_lem w s e v he hs hw =
    get_arg-bit_range w s e (s - e) v he hs hw (omega arith) (omega arith)
    ∙ unmoved (v / 2 ^ e % 2 ^ (s - e + 1)) (s - e)

pub get_bit_lem : (w i v : ℕ) → i < w → get_bit w i v ≡ v / 2 ^ i % 2 * 2 ^ i
unfolding get_bit
get_bit_lem w i v hi = get_arg-bit w i i v hi hi

pub encode_reg_num_lem : (n : ℕ) → n < 2 ^ 16 → encode_reg_num n ≡ 2 ^ 16 + n
unfolding encode_reg_num
encode_reg_num_lem n h = ground (arith, combine_reg_type_lem n 1)

pub to_gpr_lem : (n : ℕ) → n < 2 ^ 16 → to_gpr n ≡ 2 ^ 16 + n
unfolding to_gpr
to_gpr_lem n h = combine_reg_type_lem n 1 h (omega arith)

pub encode_reg_num-to_gpr : (n : ℕ) → n < 2 ^ 16 → encode_reg_num n ≡ to_gpr n
encode_reg_num-to_gpr n h = encode_reg_num_lem n h ∙ sym (to_gpr_lem n h)

pub to_gpr-== : (n m : ℕ) → n < 2 ^ 16 → m < 2 ^ 16 → (to_gpr n == to_gpr m) ≡ (n == m)
to_gpr-== n m hn hm = rw (to_gpr_lem n hn, to_gpr_lem m hm) (ground arith)

-- The target of an immediate that the format's width holds.
pub get_target-sign_extend :
    (width pc imm : ℕ)
    → 0 < width
    → width ≤ 21
    → imm < 2 ^ width
    → get_target pc (sign_extend width imm) ≡ pc_relative width pc imm
unfolding get_target sign_extend pc_relative
get_target-sign_extend width pc imm h0 h1 h =
    ground (arith, mod-eq_of_lt h, pow-le-pow_right {n = 2} (omega arith) h1)

pub extract-jal :
    (rd imm : ℕ)
    → rd < 32
    → imm < 2 ^ 21
    → imm % 2 ≡ 0
    → extract 32 j_args (encode_jal rd imm) ≡ imm
unfolding encode_jal
extract-jal rd imm hr hi he = extract_lem 32 j_args _ (omega arith) (omega arith) ∙ omega arith

-- JAL
pub jal_fields :
    (rd imm : ℕ)
    → rd < 32
    → let op = encode_jal rd imm in
      (get_bit_range 32 6 5 1 op ≡ 3)
      × (get_bit_range 32 4 2 2 op ≡ 3)
      × (get_bit_range 32 11 7 4 op ≡ rd)
unfolding encode_jal
jal_fields rd imm hr = ground (
  arith,
  get_bit_range_lem 32 6 5 (encode_jal rd imm),
  get_bit_range_lem 32 4 2 (encode_jal rd imm),
  get_bit_range_lem 32 11 7 (encode_jal rd imm),
)

-- JALR
pub jalr_fields :
    (funct3 rd rs1 imm : ℕ)
    → funct3 < 8
    → rd < 32
    → rs1 < 32
    → let op = encode_jalr funct3 rd rs1 imm in
      (get_bit_range 32 6 5 1 op ≡ 3)
      × (get_bit_range 32 4 2 2 op ≡ 1)
      × (get_bit_range 32 11 7 4 op ≡ rd)
      × (get_bit_range 32 19 15 4 op ≡ rs1)
unfolding encode_jalr
jalr_fields funct3 rd rs1 imm hf hr hs =
    let op = encode_jalr funct3 rd rs1 imm in
    ground (
      arith,
      get_bit_range_lem 32 6 5 op,
      get_bit_range_lem 32 4 2 op,
      get_bit_range_lem 32 11 7 op,
      get_bit_range_lem 32 19 15 op,
    )

-- Conditional branches
pub branch_fields :
    (funct3 rs1 rs2 imm : ℕ)
    → funct3 < 8
    → rs1 < 32
    → rs2 < 32
    → let op = encode_branch funct3 rs1 rs2 imm in
      (get_bit_range 32 6 5 1 op ≡ 3)
      × (get_bit_range 32 4 2 2 op ≡ 0)
      × (get_bit_range 32 19 15 4 op ≡ rs1)
      × (get_bit_range 32 24 20 4 op ≡ rs2)
unfolding encode_branch
branch_fields funct3 rs1 rs2 imm hf hr hs =
    let op = encode_branch funct3 rs1 rs2 imm in
    ground (
      arith,
      get_bit_range_lem 32 6 5 op,
      get_bit_range_lem 32 4 2 op,
      get_bit_range_lem 32 19 15 op,
      get_bit_range_lem 32 24 20 op,
    )

pub branch_funct3 :
    (funct3 rs1 rs2 imm : ℕ)
    → funct3 < 8
    → rs1 < 32
    → rs2 < 32
    → let op = encode_branch funct3 rs1 rs2 imm in
      ((get_bit 32 14 op == 0) ≡ ltb funct3 4)
      × ((get_bit 32 13 op == 0) ≡ (funct3 / 2 % 2 == 0))
      × ((get_bit 32 12 op == 0) ≡ (funct3 % 2 == 0))
unfolding encode_branch
branch_funct3 funct3 rs1 rs2 imm hf hr hs =
    let op = encode_branch funct3 rs1 rs2 imm in
    ground (arith, get_bit_lem 32 14 op, get_bit_lem 32 13 op, get_bit_lem 32 12 op)

pub extract-branch :
    (funct3 rs1 rs2 imm : ℕ)
    → funct3 < 8
    → rs1 < 32
    → rs2 < 32
    → imm < 2 ^ 13
    → imm % 2 ≡ 0
    → extract 32 b_args (encode_branch funct3 rs1 rs2 imm) ≡ imm
unfolding encode_branch
extract-branch funct3 rs1 rs2 imm hf hr hs hi he =
    extract_lem 32 b_args _ (omega arith) (omega arith) ∙ omega arith

-- C.J and C.JAL
pub cj_fields :
    (funct3 imm : ℕ)
    → funct3 < 8
    → imm < 2 ^ 12
    → let op = encode_cj funct3 imm in
      (get_bit_range 16 15 13 2 op ≡ funct3) × (get_bit_range 16 1 0 1 op ≡ 1)
unfolding encode_cj
cj_fields funct3 imm hf hi =
    let op = encode_cj funct3 imm in
    ground (arith, get_bit_range_lem 16 15 13 op, get_bit_range_lem 16 1 0 op)

cj_bits :
    (funct3 imm : ℕ)
    → imm < 2 ^ 12
    → let op = encode_cj funct3 imm in
      (op / 2 ^ 12 % 2 ≡ imm / 2 ^ 11)
      × (op / 2 ^ 8 % 2 ≡ imm / 2 ^ 10 % 2)
      × (op / 2 ^ 9 % 2 ≡ imm / 2 ^ 8 % 2)
      × (op / 2 ^ 10 % 2 ≡ imm / 2 ^ 9 % 2)
      × (op / 2 ^ 6 % 2 ≡ imm / 2 ^ 7 % 2)
      × (op / 2 ^ 7 % 2 ≡ imm / 2 ^ 6 % 2)
      × (op / 2 ^ 2 % 2 ≡ imm / 2 ^ 5 % 2)
      × (op / 2 ^ 11 % 2 ≡ imm / 2 ^ 4 % 2)
      × (op / 2 ^ 3 % 2 ^ 3 ≡ imm / 2 % 2 ^ 3)
unfolding encode_cj
cj_bits funct3 imm hi = omega arith

-- The fields of the format, put back at their places.
cj_pieces :
    (imm : ℕ)
    → imm % 2 ≡ 0
    → imm / 2 ^ 11 * 2 ^ 11
        + imm / 2 ^ 10 % 2 * 2 ^ 10
        + imm / 2 ^ 9 % 2 * 2 ^ 9
        + imm / 2 ^ 8 % 2 * 2 ^ 8
        + imm / 2 ^ 7 % 2 * 2 ^ 7
        + imm / 2 ^ 6 % 2 * 2 ^ 6
        + imm / 2 ^ 5 % 2 * 2 ^ 5
        + imm / 2 ^ 4 % 2 * 2 ^ 4
        + imm / 2 % 2 ^ 3 * 2
      ≡ imm
cj_pieces imm he = omega arith

cj_sum :
    (funct3 imm : ℕ) → imm < 2 ^ 12 → imm % 2 ≡ 0 → fields_sum cj_args (encode_cj funct3 imm) ≡ imm
cj_sum funct3 imm hi he =
    let (b11, b10, b8, b9, b7, b6, b5, b4, b31) = cj_bits funct3 imm hi in
    rw (b11, b10, b9, b8, b7, b6, b5, b4, b31) (omega (arith, cj_pieces imm he))

pub extract-cj :
    (funct3 imm : ℕ) → imm < 2 ^ 12 → imm % 2 ≡ 0 → extract 16 cj_args (encode_cj funct3 imm) ≡ imm
extract-cj funct3 imm hi he =
    extract_lem 16 cj_args _ (omega arith) (omega arith) ∙ cj_sum funct3 imm hi he

-- C.BEQZ and C.BNEZ
pub cb_fields :
    (funct3 rs1 imm : ℕ)
    → funct3 < 8
    → 8 ≤ rs1
    → rs1 < 16
    → imm < 2 ^ 9
    → let op = encode_cb funct3 rs1 imm in
      (get_bit_range 16 15 13 2 op ≡ funct3)
      × (get_bit_range 16 1 0 1 op ≡ 1)
      × (get_bit_range 16 9 7 2 op + 8 ≡ rs1)
unfolding encode_cb
cb_fields funct3 rs1 imm hf h8 hr hi =
    let op = encode_cb funct3 rs1 imm in
    ground (
      arith,
      get_bit_range_lem 16 15 13 op,
      get_bit_range_lem 16 1 0 op,
      get_bit_range_lem 16 9 7 op,
    )

pub extract-cb :
    (funct3 rs1 imm : ℕ)
    → 8 ≤ rs1
    → rs1 < 16
    → imm < 2 ^ 9
    → imm % 2 ≡ 0
    → extract 16 cb_args (encode_cb funct3 rs1 imm) ≡ imm
unfolding encode_cb
extract-cb funct3 rs1 imm h8 hr hi he =
    extract_lem 16 cb_args _ (omega arith) (omega arith) ∙ omega arith

-- C.JR and C.JALR
pub cr_fields :
    (link rs1 : ℕ)
    → link < 2
    → rs1 < 32
    → let op = encode_cr link rs1 in
      (get_bit_range 16 15 13 2 op ≡ 4)
      × (get_bit_range 16 1 0 1 op ≡ 2)
      × (get_bit_range 16 11 7 4 op ≡ rs1)
      × (get_bit_range 16 6 2 4 op ≡ 0)
      × ((get_bit 16 12 op == 0) ≡ (link == 0))
unfolding encode_cr
cr_fields link rs1 hl hr =
    let op = encode_cr link rs1 in
    ground (
      arith,
      get_bit_range_lem 16 15 13 op,
      get_bit_range_lem 16 1 0 op,
      get_bit_range_lem 16 11 7 op,
      get_bit_range_lem 16 6 2 op,
      get_bit_lem 16 12 op,
    )
