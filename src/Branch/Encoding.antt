-- ===== src/Branch/Encoding.antt =====
-- The branch instructions of the RISC-V ISA as numbers: the formats that the decoder has to read.
-- An immediate is its two's complement pattern, of the width that the format gives it.
use stf_lib.Common.{ℕ, ◌+◌, ◌-◌, ◌*◌, ◌/◌, ◌%◌, ◌^◌, ltb, if◌then◌else◌}

-- `pc` plus the integer that the pattern `imm` of `width` bits stands for, in 64 bits.
unfoldable pub pc_relative : ℕ → ℕ → ℕ → ℕ
pc_relative width pc imm =
    if ltb imm (2 ^ (width - 1))
    then (pc + imm) % 2 ^ 64
    else (pc + 2 ^ 64 - (2 ^ width - imm)) % 2 ^ 64

-- J-type: imm[20|10:1|11|19:12] rd 1101111.
unfoldable pub encode_jal : ℕ → ℕ → ℕ
encode_jal rd imm =
    imm / 2 ^ 20 * 2 ^ 31
    + imm / 2 % 2 ^ 10 * 2 ^ 21
    + imm / 2 ^ 11 % 2 * 2 ^ 20
    + imm / 2 ^ 12 % 2 ^ 8 * 2 ^ 12
    + rd * 2 ^ 7
    + 0b1101111

-- I-type: imm[11:0] rs1 funct3 rd 1100111.
unfoldable pub encode_jalr : ℕ → ℕ → ℕ → ℕ → ℕ
encode_jalr funct3 rd rs1 imm =
    imm * 2 ^ 20 + rs1 * 2 ^ 15 + funct3 * 2 ^ 12 + rd * 2 ^ 7 + 0b1100111

-- B-type: imm[12|10:5] rs2 rs1 funct3 imm[4:1|11] 1100011.
unfoldable pub encode_branch : ℕ → ℕ → ℕ → ℕ → ℕ
encode_branch funct3 rs1 rs2 imm =
    imm / 2 ^ 12 * 2 ^ 31
    + imm / 2 ^ 5 % 2 ^ 6 * 2 ^ 25
    + rs2 * 2 ^ 20
    + rs1 * 2 ^ 15
    + funct3 * 2 ^ 12
    + imm / 2 % 2 ^ 4 * 2 ^ 8
    + imm / 2 ^ 11 % 2 * 2 ^ 7
    + 0b1100011

-- CJ-type: funct3 imm[11|4|9:8|10|6|7|3:1|5] 01.
unfoldable pub encode_cj : ℕ → ℕ → ℕ
encode_cj funct3 imm =
    funct3 * 2 ^ 13
    + imm / 2 ^ 11 * 2 ^ 12
    + imm / 2 ^ 4 % 2 * 2 ^ 11
    + imm / 2 ^ 8 % 2 ^ 2 * 2 ^ 9
    + imm / 2 ^ 10 % 2 * 2 ^ 8
    + imm / 2 ^ 6 % 2 * 2 ^ 7
    + imm / 2 ^ 7 % 2 * 2 ^ 6
    + imm / 2 % 2 ^ 3 * 2 ^ 3
    + imm / 2 ^ 5 % 2 * 2 ^ 2
    + 0b01

-- CB-type: funct3 imm[8|4:3] rs1' imm[7:6|2:1|5] 01; rs1' counts from x8.
unfoldable pub encode_cb : ℕ → ℕ → ℕ → ℕ
encode_cb funct3 rs1 imm =
    funct3 * 2 ^ 13
    + imm / 2 ^ 8 * 2 ^ 12
    + imm / 2 ^ 3 % 2 ^ 2 * 2 ^ 10
    + (rs1 - 8) * 2 ^ 7
    + imm / 2 ^ 6 % 2 ^ 2 * 2 ^ 5
    + imm / 2 % 2 ^ 2 * 2 ^ 3
    + imm / 2 ^ 5 % 2 * 2 ^ 2
    + 0b01

-- CR-type: 100 link rs1 00000 10.
unfoldable pub encode_cr : ℕ → ℕ → ℕ
encode_cr link rs1 = 0b100 * 2 ^ 13 + link * 2 ^ 12 + rs1 * 2 ^ 7 + 0b10
