-- ===== src/RegState/Bank.antt =====
-- The registers of a RISC-V machine, as STFRegState::initRegBank of lib/stf_reg_state.cpp puts them
-- into the bank.
use stf_lib.Common.{ℕ, List, [], ◌∷◌, ◌++◌, map, Result, ok, err, ◌>>=◌}
use stf_lib.Record.{Isa}
use stf_lib.Branch.Decoder.{InstIem}
use stf_lib.Registers.{to_gpr, to_fpr, to_vector, to_csr}
use stf_lib.RegState.{
  RegMapInfo, RegError, RegState, calc_reg_mask, insert_simple_register, insert_mapped_register,
}
use stf_lib.RegState.{invalid_iem, unsupported_isa, invalid_isa}

-- A call of insertSimpleRegister_ or insertMappedRegister_, with the width that calcRegMask takes.
pub data Insert : Type 0 where
  simple : (reg mask : ℕ) → Insert
  mapped : (reg mapped_reg width shift : ℕ) → Insert

-- MASK32 and MASK64
abbrev pub mask32 : ℕ
mask32 = calc_reg_mask 32

abbrev pub mask64 : ℕ
mask64 = calc_reg_mask 64

unfoldable pub simples : ℕ → (ℕ → ℕ) → List ℕ → List Insert
simples mask reg_of numbers = map (λ n. simple (reg_of n) mask) numbers

unfoldable pub insert : Insert → List (ℕ × RegMapInfo) → Result RegError (List (ℕ × RegMapInfo))
insert (simple reg mask) bank = ok (insert_simple_register reg mask bank)
insert (mapped reg mapped_reg width shift) bank =
    insert_mapped_register reg
      (record { mapped_reg = mapped_reg; mask = calc_reg_mask width; shift_bits = shift }) bank

unfoldable pub insert_all :
    List Insert → List (ℕ × RegMapInfo) → Result RegError (List (ℕ × RegMapInfo))
insert_all [] bank = ok bank
insert_all (i ∷ rest) bank = insert i bank >>= insert_all rest

unfoldable pub general_registers : ℕ → List Insert
general_registers mask =
    simples mask to_gpr (
      0 ∷ 1 ∷ 2 ∷ 3 ∷ 4 ∷ 5 ∷ 6 ∷ 7 ∷ 8 ∷ 9 ∷ 10 ∷ 11 ∷ 12 ∷ 13 ∷ 14 ∷ 15 ∷ 16 ∷ 17 ∷ 18 ∷ 19 ∷ 20
      ∷ 21 ∷ 22 ∷ 23 ∷ 24 ∷ 25 ∷ 26 ∷ 27 ∷ 28 ∷ 29 ∷ 30 ∷ 31 ∷ 32 ∷ [])
    ++ (simples mask to_fpr (
        0 ∷ 1 ∷ 2 ∷ 3 ∷ 4 ∷ 5 ∷ 6 ∷ 7 ∷ 8 ∷ 9 ∷ 10 ∷ 11 ∷ 12 ∷ 13 ∷ 14 ∷ 15 ∷ 16 ∷ 17 ∷ 18 ∷ 19 ∷ 20
        ∷ 21 ∷ 22 ∷ 23 ∷ 24 ∷ 25 ∷ 26 ∷ 27 ∷ 28 ∷ 29 ∷ 30 ∷ 31 ∷ []))

unfoldable pub csrs : ℕ → List Insert
csrs mask =
    simples mask to_csr (0x000 ∷ [])
    ++ (mapped (to_csr 0x004) (to_csr 0x000) 1 0 ∷ simples mask32 to_csr (0x003 ∷ [])
        ++ (mapped (to_csr 0x001) (to_csr 0x003) 5 0
              ∷ mapped (to_csr 0x002) (to_csr 0x003) 3 5
              ∷ simples mask to_csr (0x044 ∷ 0x100 ∷ [])
            ++ (mapped (to_csr 0x104) (to_csr 0x100) 1 1
                  ∷ simples mask to_csr (0x102 ∷ 0x103 ∷ 0x105 ∷ [])
                ++ (simples mask32 to_csr (0x106 ∷ [])
                    ++ (simples mask to_csr
                          (0x140 ∷ 0x141 ∷ 0x142 ∷ 0x143 ∷ 0x144 ∷ 0x180 ∷ 0x10a ∷ 0x19a ∷ [])
                        ++ (simples mask32 to_csr (0x010 ∷ 0x011 ∷ [])
                            ++ (simples mask to_csr (
                                  0x7a0 ∷ 0x7a1 ∷ 0x7a2 ∷ 0x7a3 ∷ 0x7a4 ∷ 0x7a5 ∷ 0x7a8 ∷ 0x7aa
                                  ∷ [])
                                ++ (simples mask32 to_csr (0x7b0 ∷ [])
                                    ++ (simples mask to_csr (
                                          0x7b1 ∷ 0x7b2 ∷ 0x7b3 ∷ 0x300 ∷ 0x301 ∷ 0x302 ∷ 0x303
                                          ∷ 0x304 ∷ 0x305 ∷ [])
                                        ++ (simples mask32 to_csr (0x306 ∷ [])
                                            ++ (simples mask to_csr (
                                                  0x340 ∷ 0x341 ∷ 0x342 ∷ 0x343 ∷ 0x344 ∷ 0x3a0
                                                  ∷ 0x3a1 ∷ 0x3a2 ∷ 0x3a3 ∷ 0x3a4 ∷ 0x3a5 ∷ 0x3a6
                                                  ∷ 0x3a7 ∷ 0x3a8 ∷ 0x3a9 ∷ 0x3aa ∷ 0x3ab ∷ 0x3ac
                                                  ∷ 0x3ad ∷ 0x3ae ∷ 0x3af ∷ 0x3b0 ∷ 0x3b1 ∷ 0x3b2
                                                  ∷ 0x3b3 ∷ 0x3b4 ∷ 0x3b5 ∷ 0x3b6 ∷ 0x3b7 ∷ 0x3b8
                                                  ∷ 0x3b9 ∷ 0x3ba ∷ 0x3bb ∷ 0x3bc ∷ 0x3bd ∷ 0x3be
                                                  ∷ 0x3bf ∷ 0x3c0 ∷ 0x3c1 ∷ 0x3c2 ∷ 0x3c3 ∷ 0x3c4
                                                  ∷ 0x3c5 ∷ 0x3c6 ∷ 0x3c7 ∷ 0x3c8 ∷ 0x3c9 ∷ 0x3ca
                                                  ∷ 0x3cb ∷ 0x3cc ∷ 0x3cd ∷ 0x3ce ∷ 0x3cf ∷ 0x3d0
                                                  ∷ 0x3d1 ∷ 0x3d2 ∷ 0x3d3 ∷ 0x3d4 ∷ 0x3d5 ∷ 0x3d6
                                                  ∷ 0x3d7 ∷ 0x3d8 ∷ 0x3d9 ∷ 0x3da ∷ 0x3db ∷ 0x3dc
                                                  ∷ 0x3dd ∷ 0x3de ∷ 0x3df ∷ 0x3e0 ∷ 0x3e1 ∷ 0x3e2
                                                  ∷ 0x3e3 ∷ 0x3e4 ∷ 0x3e5 ∷ 0x3e6 ∷ 0x3e7 ∷ 0x3e8
                                                  ∷ 0x3e9 ∷ 0x3ea ∷ 0x3eb ∷ 0x3ec ∷ 0x3ed ∷ 0x3ee
                                                  ∷ 0x3ef ∷ [])
                                                ++ (simples mask64 to_csr (0xb00 ∷ 0xb02 ∷ [])
                                                    ++ (simples mask to_csr (
                                                          0xb03 ∷ 0xb04 ∷ 0xb05 ∷ 0xb06 ∷ 0xb07
                                                          ∷ 0xb08 ∷ 0xb09 ∷ 0xb0a ∷ 0xb0b ∷ 0xb0c
                                                          ∷ 0xb0d ∷ 0xb0e ∷ 0xb0f ∷ 0xb10 ∷ 0xb11
                                                          ∷ 0xb12 ∷ 0xb13 ∷ 0xb14 ∷ 0xb15 ∷ 0xb16
                                                          ∷ 0xb17 ∷ 0xb18 ∷ 0xb19 ∷ 0xb1a ∷ 0xb1b
                                                          ∷ 0xb1c ∷ 0xb1d ∷ 0xb1e ∷ 0xb1f ∷ [])
                                                        ++ (simples mask64 to_csr
                                                            (0xc00 ∷ 0xc01 ∷ 0xc02 ∷ [])
                                                            ++ (simples mask to_csr (
                                                            0xc03 ∷ 0xc04 ∷ 0xc05 ∷ 0xc06 ∷ 0xc07
                                                            ∷ 0xc08 ∷ 0xc09 ∷ 0xc0a ∷ 0xc0b ∷ 0xc0c
                                                            ∷ 0xc0d ∷ 0xc0e ∷ 0xc0f ∷ 0xc10 ∷ 0xc11
                                                            ∷ 0xc12 ∷ 0xc13 ∷ 0xc14 ∷ 0xc15 ∷ 0xc16
                                                            ∷ 0xc17 ∷ 0xc18 ∷ 0xc19 ∷ 0xc1a ∷ 0xc1b
                                                            ∷ 0xc1c ∷ 0xc1d ∷ 0xc1e ∷ 0xc1f ∷ [])
                                                            ++ (simples mask64 to_csr (
                                                            0xc20 ∷ 0xc21 ∷ 0xc22
                                                            ∷ [])))))))))))))))))

unfoldable pub rv32_csrs : List Insert
rv32_csrs =
    mapped (to_csr 0xb80) (to_csr 0xb00) 32 32
    ∷ mapped (to_csr 0xb82) (to_csr 0xb02) 32 32
    ∷ mapped (to_csr 0xc80) (to_csr 0xc00) 32 32
    ∷ mapped (to_csr 0xc81) (to_csr 0xc01) 32 32
    ∷ mapped (to_csr 0xc82) (to_csr 0xc02) 32 32
    ∷ mapped (to_csr 0x757) (to_csr 0x747) 32 32
    ∷ mapped (to_csr 0x310) (to_csr 0x300) 32 32
    ∷ mapped (to_csr 0x31a) (to_csr 0x30a) 32 32
    ∷ []

unfoldable pub more_csrs : ℕ → List Insert
more_csrs mask =
    simples mask to_csr (
      0xf11 ∷ 0xf12 ∷ 0xf13 ∷ 0xf14 ∷ 0x747 ∷ 0x040 ∷ 0x041 ∷ 0x042 ∷ 0x043 ∷ 0x005 ∷ 0x600 ∷ 0x602
      ∷ 0x603 ∷ 0x604 ∷ 0x605 ∷ [])
    ++ (simples mask32 to_csr (0x606 ∷ [])
        ++ (simples mask to_csr
              (0x607 ∷ 0x60a ∷ 0x643 ∷ 0x644 ∷ 0x645 ∷ 0x64a ∷ 0x680 ∷ 0x6a8 ∷ 0xe12 ∷ 0xf15 ∷ [])
            ++ (simples mask64 to_csr (
                  0x007 ∷ 0x008 ∷ 0x009 ∷ 0x00a ∷ 0x00f ∷ 0x045 ∷ 0x046 ∷ 0x048 ∷ 0x049 ∷ 0x107
                  ∷ 0x145 ∷ 0x146 ∷ 0x148 ∷ 0x149 ∷ 0x200 ∷ 0x204 ∷ 0x205 ∷ 0x240 ∷ 0x241 ∷ 0x242
                  ∷ 0x243 ∷ 0x244 ∷ 0x280 ∷ 0x307 ∷ [])
                ++ (simples mask to_csr (0x30a ∷ [])
                    ++ (simples mask32 to_csr (0x320 ∷ [])
                        ++ (simples mask to_csr (
                              0x323 ∷ 0x324 ∷ 0x325 ∷ 0x326 ∷ 0x327 ∷ 0x328 ∷ 0x329 ∷ 0x32a ∷ 0x32b
                              ∷ 0x32c ∷ 0x32d ∷ 0x32e ∷ 0x32f ∷ 0x330 ∷ 0x331 ∷ 0x332 ∷ 0x333
                              ∷ 0x334 ∷ 0x335 ∷ 0x336 ∷ 0x337 ∷ 0x338 ∷ 0x339 ∷ 0x33a ∷ 0x33b
                              ∷ 0x33c ∷ 0x33d ∷ 0x33e ∷ 0x33f ∷ [])
                            ++ (simples mask64 to_csr
                                (0x345 ∷ 0x346 ∷ 0x348 ∷ 0x349 ∷ 0x34a ∷ 0x34b ∷ []))))))))

unfoldable pub vector_registers : List Insert
vector_registers = simples mask64 to_vector (
    0 ∷ 1 ∷ 2 ∷ 3 ∷ 4 ∷ 5 ∷ 6 ∷ 7 ∷ 8 ∷ 9 ∷ 10 ∷ 11 ∷ 12 ∷ 13 ∷ 14 ∷ 15 ∷ 16 ∷ 17 ∷ 18 ∷ 19 ∷ 20
    ∷ 21 ∷ 22 ∷ 23 ∷ 24 ∷ 25 ∷ 26 ∷ 27 ∷ 28 ∷ 29 ∷ 30 ∷ 31 ∷ [])

-- The calls in their order.
unfoldable pub riscv_registers : ℕ → List Insert → List Insert
riscv_registers mask rv32_only =
    general_registers mask ++ (csrs mask ++ (rv32_only ++ (more_csrs mask ++ vector_registers)))

unfoldable pub init_riscv : InstIem → Result RegError (List Insert)
init_riscv InstIem.rv32 = ok (riscv_registers mask32 rv32_csrs)
init_riscv InstIem.rv64 = ok (riscv_registers mask64 [])
init_riscv InstIem.invalid = err invalid_iem
init_riscv InstIem.reserved = err invalid_iem

unfoldable pub isa_registers : Isa → InstIem → Result RegError (List Insert)
isa_registers Isa.riscv iem = init_riscv iem
isa_registers Isa.arm iem = err unsupported_isa
isa_registers Isa.power iem = err unsupported_isa
isa_registers Isa.x86 iem = err unsupported_isa
isa_registers Isa.reserved iem = err invalid_isa

-- `initRegBank`
unfoldable pub init_reg_bank : Isa → InstIem → RegState → Result RegError RegState
init_reg_bank isa iem st = do
  calls ← isa_registers isa iem
  bank ← insert_all calls []
  ok (record st { regbank = bank })
