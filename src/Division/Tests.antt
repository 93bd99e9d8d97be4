-- ===== src/Division/Tests.antt =====
-- Tests of the division routines, and each property at concrete words.
use tddb.Base.{◌+◌, ◌-◌, ◌/◌, ◌^◌, some, none, ◌≡◌, refl, arith}
use tddb.Division.{divl, nlz, udiv_long, udiv64, udivdi3}
use tddb.Division.Long.{udiv64-div}

divl_traps : (divl 5 0 ≡ none) × (divl (2 ^ 40) 2 ≡ none)
unfolding divl
divl_traps = (refl, refl)

nlz_runs : (nlz 1 ≡ 31) × (nlz 0x00F0_0000 ≡ 8) × (nlz 0xFFFF_FFFF ≡ 0)
unfolding nlz
nlz_runs = (refl, refl, refl)

udivdi3_runs : udivdi3 (2 ^ 64 - 1) (2 ^ 33 + 1) ≡ some (2 ^ 31 - 1)
unfolding udivdi3 udiv64 udiv_long divl nlz
udivdi3_runs = refl

udiv64-div_example : udiv64 (2 ^ 64 - 1) (2 ^ 40 + 7) ≡ some ((2 ^ 64 - 1) / (2 ^ 40 + 7))
udiv64-div_example = udiv64-div (2 ^ 64 - 1) (2 ^ 40 + 7) (omega arith) (omega arith) (omega arith)
