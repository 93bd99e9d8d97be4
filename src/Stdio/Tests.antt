-- ===== src/Stdio/Tests.antt =====
-- Tests of printing, and each property at concrete conversions.
use tddb.Base.{ℕ, ◌+◌, ◌-◌, ◌≤◌, true, none, some, List, [], ◌∷◌, length, ◌≡◌, refl, arith}
use tddb.Stdlib.{atoi}
use tddb.Stdio.{
  Conversion, int, no_flags, base_d, base_o, parse_conversion, integer_buffer, integer_output,
  format_integer, digits_from, zeros_from,
}
use tddb.Stdio.Buffer.{integer_buffer-length}
use tddb.Stdio.Width.{content, format_integer-length, parse_conversion-format_integer}
use tddb.Stdio.Vprintf.{vprintf, convert, vprintf-atoi}

-- `%+08d`
abbrev wide : Conversion
wide = record {
  flags = record no_flags { plus = true; zero_flag = true };
  width = 8;
  precision = none;
  int_type = int;
}

vprintf_runs :
    (vprintf 9 (λ p. []) (97 ∷ (37 ∷ (43 ∷ (48 ∷ (56 ∷ (100 ∷ [])))))) (4294967254 ∷ [])
      ≡ some (97 ∷ (45 ∷ (48 ∷ (48 ∷ (48 ∷ (48 ∷ (48 ∷ (52 ∷ (50 ∷ []))))))))))
    × (vprintf 9 (λ p. []) (37 ∷ (35 ∷ (120 ∷ []))) (255 ∷ [])
        ≡ some (48 ∷ (120 ∷ (102 ∷ (102 ∷ [])))))
unfolding vprintf convert parse_conversion format_integer integer_buffer digits_from zeros_from
vprintf_runs = (refl, refl)

wide_parsed :
    parse_conversion (43 ∷ (48 ∷ (56 ∷ (100 ∷ [])))) (4294967254 ∷ [])
    ≡ some (wide, (100 ∷ [], 4294967254 ∷ []))
unfolding parse_conversion
wide_parsed = refl

vprintf-atoi_example :
    (out : List ℕ) × (vprintf 2 (λ p. []) (37 ∷ (43 ∷ (48 ∷ (56 ∷ (100 ∷ []))))) (4294967254 ∷ [])
      ≡ some out)
    × (atoi out ≡ 4294967254)
vprintf-atoi_example =
    vprintf-atoi (λ p. []) 43 (48 ∷ (56 ∷ (100 ∷ []))) (4294967254 ∷ []) wide 4294967254 refl
      wide_parsed refl refl (omega arith)

integer_buffer-length_example :
    (buf : List ℕ) × (integer_buffer 511 base_o wide ≡ some buf)
    × (length buf ≤ 64)
    × (1 ≤ length buf)
integer_buffer-length_example = integer_buffer-length 511 base_o wide (omega arith) (omega arith)

forty_two : integer_buffer 42 base_d wide ≡ some (52 ∷ (50 ∷ []))
unfolding integer_buffer digits_from zeros_from
forty_two = refl

format_integer-length_example :
    (out : List ℕ) × (format_integer 42 true true base_d wide ≡ some out) × (length out ≡ 8)
format_integer-length_example =
    format_integer-length 42 true true base_d wide (52 ∷ (50 ∷ [])) forty_two refl

parse_conversion-format_integer_example :
    (c : Conversion) × (parse_conversion (48 ∷ (42 ∷ (100 ∷ []))) (4294967291 ∷ [])
      ≡ some (c, (100 ∷ [], [])))
    × (c.width ≡ 5)
    × ((sign x : ℕ) (buf : List ℕ)
        → length (integer_output sign x c buf)
          ≡ content sign x buf + ((c.width - content sign x buf) + (c.width - content sign x buf)))
parse_conversion-format_integer_example =
    parse_conversion-format_integer 4294967291 [] (omega arith) (omega arith)
