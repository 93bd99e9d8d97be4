-- ===== src/Stdio/Vprintf.antt =====
-- `__vprintf` of lib/stdio.c. The argument list is a list of 32-bit words, of which a 64-bit argument takes two, the
-- low one first. `strings` gives the string at an address. `none` is a missing argument, a format that ends behind a
-- percent sign (there the source reads past its end), or a loop that ran out of fuel.
use mathlib.Core.List.{append-nil}
use tddb.Base.{
  ℕ, zero, suc, ◌+◌, ◌-◌, ◌*◌, ◌%◌, ◌<◌, Bool, true, false, not, ◌&&◌, ◌||◌, Option, none, some,
  List, [], ◌∷◌, ◌++◌, ◌==◌, ltb, leb, if◌then◌else◌, ◌>>=◌, ◌≡◌, ap, ◌∙◌, arith,
}
use tddb.Stdlib.{atoi}
use tddb.Stdio.{
  Conversion, IntegerType, char, short, int, intmax, long, longlong, ptrdifft, sizet, base_d,
  base_o, base_x, base_X, no_flags, format_integer, format_string, parse_conversion,
}
use tddb.Stdio.Digits.{int_word, format_integer-atoi}

-- `va_arg` of a 32-bit type, and of a 64-bit type
abbrev pub next_word : List ℕ → Option (ℕ × List ℕ)
next_word [] = none
next_word (w ∷ args) = some (w, args)

abbrev pub next_long : List ℕ → Option (ℕ × List ℕ)
next_long [] = none
next_long (low ∷ []) = none
next_long (low ∷ (high ∷ args)) = some (low + high * 4294967296, args)

-- A word of 8, 16 or 32 bits as a signed 64-bit word; `half` is its sign bit.
abbrev pub sign_extend : ℕ → ℕ → ℕ
sign_extend half w = if ltb w half then w else 18446744073709551616 - (half + half) + w

-- The value of a conversion `d` or `i`, as a 64-bit word
abbrev pub signed_argument : IntegerType → List ℕ → Option (ℕ × List ℕ)
signed_argument char args = next_word args >>= λ r. some (sign_extend 128 (r.0 % 256), r.1)
signed_argument short args = next_word args >>= λ r. some (sign_extend 32768 (r.0 % 65536), r.1)
signed_argument int args = next_word args >>= λ r. some (sign_extend 2147483648 (r.0), r.1)
signed_argument intmax args = next_long args
signed_argument long args = next_word args >>= λ r. some (sign_extend 2147483648 (r.0), r.1)
signed_argument longlong args = next_long args
signed_argument ptrdifft args = next_word args >>= λ r. some (sign_extend 2147483648 (r.0), r.1)
signed_argument sizet args = next_word args >>= λ r.
    some (if ltb 2147483647 (r.0) then (r.0 + 18446744073709551616 - 4294967295 - 1) else r.0, r.1)

-- The value of a conversion `o`, `u`, `x` or `X`
abbrev pub unsigned_argument : IntegerType → List ℕ → Option (ℕ × List ℕ)
unsigned_argument char args = next_word args >>= λ r. some (r.0 % 256, r.1)
unsigned_argument short args = next_word args >>= λ r. some (r.0 % 65536, r.1)
unsigned_argument int args = next_word args
unsigned_argument intmax args = next_long args
unsigned_argument long args = next_word args
unsigned_argument longlong args = next_long args
unsigned_argument ptrdifft args =
    next_word args >>= λ r. some (sign_extend 2147483648 (r.0) % 4294967296, r.1)
unsigned_argument sizet args = next_word args

-- `value < 0` and `value < 0 ? -value : value`
abbrev pub is_negative : ℕ → Bool
is_negative value = leb 9223372036854775808 value

abbrev pub absolute : ℕ → ℕ
absolute value = if is_negative value then 18446744073709551616 - value else value

-- the first `precision` characters of a string, all of them for a precision of -1
abbrev pub first : ℕ → List ℕ → List ℕ
first zero s = []
first (suc n) [] = []
first (suc n) (c ∷ s) = c ∷ first n s

abbrev pub limited : Option ℕ → List ℕ → List ℕ
limited none s = s
limited (some precision) s = first precision s

-- "(null)"
abbrev pub null_string : List ℕ
null_string = 40 ∷ (110 ∷ (117 ∷ (108 ∷ (108 ∷ (41 ∷ [])))))

-- "<<no %", " in kernel>>" and " conversion>>"
abbrev pub no_percent : List ℕ
no_percent = 60 ∷ (60 ∷ (110 ∷ (111 ∷ (32 ∷ (37 ∷ [])))))

abbrev pub in_kernel : List ℕ
in_kernel =
    32 ∷ (105 ∷ (110 ∷ (32 ∷ (107 ∷ (101 ∷ (114 ∷ (110 ∷ (101 ∷ (108 ∷ (62 ∷ (62 ∷ [])))))))))))

abbrev pub no_conversion : List ℕ
no_conversion =
    32
    ∷ (99
        ∷ (111 ∷ (110 ∷ (118 ∷ (101 ∷ (114 ∷ (115 ∷ (105 ∷ (111 ∷ (110 ∷ (62 ∷ (62 ∷ []))))))))))))

-- The switch of `__vprintf` over the conversion's letter: the output and the arguments that are left
unfoldable pub convert : (ℕ → List ℕ) → ℕ → Conversion → List ℕ → Option (List ℕ × List ℕ)
convert strings letter c args =
    if (letter == 100) || (letter == 105)
    then (signed_argument c.int_type args >>= λ r.
        format_integer (absolute (r.0)) true (is_negative (r.0)) base_d c >>= λ out.
        some (out, r.1))
    else if (letter == 111) || ((letter == 117) || ((letter == 120) || (letter == 88)))
    then (unsigned_argument c.int_type args >>= λ r.
        format_integer (r.0) false false
          (if letter == 111
            then base_o
            else if letter == 117
            then base_d
            else if letter == 120
            then base_x
            else base_X)
          c
        >>= λ out. some (out, r.1))
    else if letter == 99
    then (next_word args >>= λ r. some (format_string (r.0 % 256 ∷ []) c, r.1))
    else if letter == 115
    then (next_word args >>= λ r. some (
      format_string (limited c.precision (if r.0 == 0 then null_string else strings (r.0))) c,
      r.1,
    ))
    else if letter == 112
    then (next_word args >>= λ r.
        format_integer (r.0) false false base_x
          (record c { flags = record no_flags { pound = true } })
        >>= λ out. some (out, r.1))
    else if (leb 101 letter && leb letter 103)
        || ((letter == 69) || ((letter == 71) || (letter == 110)))
    then some (no_percent ++ (letter ∷ in_kernel), args)
    else some (no_percent ++ (letter ∷ no_conversion), args)

-- The conversion that a percent sign begins: the output, the rest of the format, the arguments that are left
abbrev pub convert_at :
    (ℕ → List ℕ) → Conversion → List ℕ → List ℕ → Option (List ℕ × (List ℕ × List ℕ))
convert_at strings c [] args = none
convert_at strings c (letter ∷ format) args =
    convert strings letter c args >>= λ r. some (r.0, (format, r.1))

-- One round of the loop of `__vprintf`, on the character `c` and what is behind it
abbrev pub vprintf_round : (ℕ → List ℕ) → ℕ → List ℕ → List ℕ → Option (List ℕ × (List ℕ × List ℕ))
vprintf_round strings c [] args = if c == 37 then none else some (c ∷ [], ([], args))
vprintf_round strings c (d ∷ format) args =
    if not (c == 37)
    then some (c ∷ [], (d ∷ format, args))
    else if d == 37
    then some (37 ∷ [], (format, args))
    else (parse_conversion (d ∷ format) args >>= λ r. convert_at strings (r.0) (r.1.0) (r.1.1))

unfoldable pub vprintf : ℕ → (ℕ → List ℕ) → List ℕ → List ℕ → Option (List ℕ)
vprintf zero strings format args = none
vprintf (suc fuel) strings [] args = some []
vprintf (suc fuel) strings (c ∷ format) args = vprintf_round strings c format args >>= λ r.
    vprintf fuel strings (r.1.0) (r.1.1) >>= λ out. some (r.0 ++ out)

absolute_lt : (w : ℕ) → w < 4294967296 → absolute (sign_extend 2147483648 w) < 18446744073709551616
absolute_lt w word = ground (arith, word)

int_word-absolute :
    (w : ℕ)
    → w < 4294967296
    → int_word (is_negative (sign_extend 2147483648 w)) (absolute (sign_extend 2147483648 w)) ≡ w
int_word-absolute w word = ground (arith, word)

-- What is printed with a conversion `d` of type int and without the flag that groups digits, `atoi` reads back, for
-- every int, width and precision.
pub vprintf-atoi :
    (strings : ℕ → List ℕ) (d : ℕ) (format args : List ℕ) (c : Conversion) (w : ℕ)
    → (d == 37) ≡ false
    → parse_conversion (d ∷ format) args ≡ some (c, (100 ∷ [], w ∷ []))
    → c.int_type ≡ int
    → c.flags.group ≡ false
    → w < 4294967296
    → (out : List ℕ) × (vprintf 2 strings (37 ∷ (d ∷ format)) args ≡ some out) × (atoi out ≡ w)
unfolding vprintf convert
vprintf-atoi strings d format args c w other parsed typed no_group word =
    let (out, run, read) =
      format_integer-atoi (absolute (sign_extend 2147483648 w))
        (is_negative (sign_extend 2147483648 w)) c (absolute_lt w word) no_group in
    (
      out,
      rw (other, parsed, ap (λ t. signed_argument t (w ∷ [])) typed, run)
          (ap some (append-nil out)),
      read ∙ int_word-absolute w word,
    )
