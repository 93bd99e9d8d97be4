-- ===== src/Stdio.antt =====
-- lib/stdio.c: parsing a conversion of `printf`, and printing integers and strings. A string is the list of its
-- character codes, and what a function passes to `output` the list that it returns. An int is its 32-bit word; `none` is
-- a missing argument, or a loop that ran out of fuel.
pub mod Digits
pub mod Buffer
pub mod Width
pub mod Vprintf
mod Tests
use tddb.Base.{
  ℕ, zero, suc, ◌+◌, ◌-◌, ◌*◌, ◌/◌, ◌%◌, Bool, true, false, not, ◌&&◌, ◌||◌, Option, none, some,
  List, [], ◌∷◌, ◌++◌, length, ◌==◌, ltb, leb, if◌then◌else◌, ◌>>=◌,
}
use tddb.Stdlib.{isdigit}

-- CHAR, SHORT, INT, INTMAX, LONG, LONGLONG, PTRDIFFT, SIZET
pub data IntegerType : Type 0 where
  char short int intmax long longlong ptrdifft sizet : IntegerType

-- The bits of `flags`; `zero_flag` is ZERO.
pub record Flags : Type 0 where
  pub minus : Bool
  pub plus : Bool
  pub space : Bool
  pub pound : Bool
  pub zero_flag : Bool
  pub group : Bool

-- `precision` is `none` where the source has -1.
pub record Conversion : Type 0 where
  pub flags : Flags
  pub width : ℕ
  pub precision : Option ℕ
  pub int_type : IntegerType

pub record IntegerBase : Type 0 where
  pub base : ℕ
  pub digits : ℕ → ℕ
  pub x : ℕ
  pub group : ℕ

-- the characters of "0123456789abcdef" and of "0123456789ABCDEF"
abbrev pub lower_digits : ℕ → ℕ
lower_digits d = if ltb d 10 then 48 + d else 87 + d

abbrev pub upper_digits : ℕ → ℕ
upper_digits d = if ltb d 10 then 48 + d else 55 + d

abbrev pub base_d : IntegerBase
base_d = record { base = 10; digits = lower_digits; x = 0; group = 3 }

abbrev pub base_o : IntegerBase
base_o = record { base = 8; digits = lower_digits; x = 0; group = 3 }

abbrev pub base_x : IntegerBase
base_x = record { base = 16; digits = lower_digits; x = 120; group = 4 }

abbrev pub base_X : IntegerBase
base_X = record { base = 16; digits = upper_digits; x = 88; group = 4 }

abbrev pub output_dup : ℕ → ℕ → List ℕ
output_dup ch zero = []
output_dup ch (suc cnt) = ch ∷ output_dup ch cnt

-- The sign character, 0 if none
abbrev pub sign_char : Bool → Bool → Flags → ℕ
sign_char is_signed negative f =
    if is_signed
    then (if f.plus
        then (if negative then 45 else 43)
        else if f.space
        then (if negative then 45 else 32)
        else if negative
        then 45
        else 0)
    else 0

-- The loop of `format_integer` over the digits. `buf` is the buffer with the character before `cp` first.
unfoldable pub digits_from : ℕ → IntegerBase → Bool → ℕ → ℕ → List ℕ → Option (List ℕ)
digits_from zero b group value digit_cnt buf = none
digits_from (suc fuel) b group value digit_cnt buf =
    let buf' = if group && (ltb 0 digit_cnt && (digit_cnt % b.group == 0)) then 44 ∷ buf else buf in
    let rest =
      digits_from fuel b group (value / b.base) (digit_cnt + 1)
        (b.digits (value % b.base) ∷ buf') in
    if ltb 0 value then rest else some buf

-- The loop that appends zeros; it stops at 63 characters at the latest, so that 64 rounds are enough.
unfoldable pub zeros_from : ℕ → ℕ → List ℕ → List ℕ
zeros_from zero precision buf = buf
zeros_from (suc fuel) precision buf =
    let rest = zeros_from fuel precision (48 ∷ buf) in
    if ltb (length buf) precision && ltb (length buf) 63 then rest else buf

-- `cp == buf || cp[-1] != '0'`
abbrev pub no_zero_first : List ℕ → Bool
no_zero_first [] = true
no_zero_first (c ∷ buf) = not (c == 48)

abbrev pub octal_zero : IntegerBase → Flags → List ℕ → List ℕ
octal_zero b f buf = if f.pound && ((b.base == 8) && no_zero_first buf) then 48 ∷ buf else buf

abbrev pub precision_of : Option ℕ → ℕ
precision_of none = 1
precision_of (some precision) = precision

-- The buffer of `format_integer` before it is output
unfoldable pub integer_buffer : ℕ → IntegerBase → Conversion → Option (List ℕ)
integer_buffer value b c = digits_from 64 b c.flags.group value 0 [] >>= λ buf.
    some (octal_zero b c.flags (zeros_from 64 (precision_of c.precision) buf))

-- The output of `format_integer`; `pad_cnt` stops at 0 as in the source.
abbrev pub integer_output : ℕ → ℕ → Conversion → List ℕ → List ℕ
integer_output sign x c buf =
    let pad_cnt =
      c.width - (length buf + (if x == 0 then 0 else 2) + (if sign == 0 then 0 else 1)) in
    (if c.flags.minus || c.flags.zero_flag then [] else output_dup 32 pad_cnt)
    ++ ((if sign == 0 then [] else sign ∷ [])
        ++ ((if x == 0 then [] else 48 ∷ (x ∷ []))
            ++ ((if c.flags.zero_flag then output_dup 48 pad_cnt else [])
                ++ (buf ++ (if c.flags.minus then output_dup 32 pad_cnt else [])))))

unfoldable pub format_integer : ℕ → Bool → Bool → IntegerBase → Conversion → Option (List ℕ)
format_integer value is_signed negative b c =
    let sign = sign_char is_signed negative c.flags in
    let x = if c.flags.pound && not (value == 0) then b.x else 0 in
    integer_buffer value b c >>= λ buf. some (integer_output sign x c buf)

unfoldable pub format_string : List ℕ → Conversion → List ℕ
format_string string c =
    (if ltb (length string) c.width && not c.flags.minus
      then output_dup 32 (c.width - length string)
      else [])
    ++ (string
        ++ (if ltb (length string) c.width && c.flags.minus
            then output_dup 32 (c.width - length string)
            else []))

-- The flag that a character sets
abbrev pub set_flag : ℕ → Flags → Option Flags
set_flag c f =
    if c == 45
    then some (record f { minus = true })
    else if c == 43
    then some (record f { plus = true })
    else if c == 32
    then some (record f { space = true })
    else if c == 35
    then some (record f { pound = true })
    else if c == 48
    then some (record f { zero_flag = true })
    else if c == 39
    then some (record f { group = true })
    else none

abbrev pub after_flag : {A : Type 0} → Option Flags → (Flags → A) → A → A
after_flag none go stop = stop
after_flag (some f) go stop = go f

-- The loop over the flag characters, with the rest of the format
abbrev pub parse_flags : List ℕ → Flags → Flags × List ℕ
parse_flags [] f = (f, [])
parse_flags (c ∷ format) f = after_flag (set_flag c f) (parse_flags format) (f, c ∷ format)

-- What `-` and `+` switch off
abbrev pub settle_flags : Flags → Flags
settle_flags f =
    let f1 = if f.minus then record f { zero_flag = false } else f in
    if f1.plus then record f1 { space = false } else f1

-- The loop over the digits of a width or a precision
abbrev pub parse_number : List ℕ → ℕ → ℕ × List ℕ
parse_number [] n = (n, [])
parse_number (c ∷ format) n =
    let rest = parse_number format ((n * 10 + c - 48) % 4294967296) in
    if isdigit c then rest else (n, c ∷ format)

-- A number, or `*` for the next argument: its word, the rest of the format and the other arguments
abbrev pub parse_star : List ℕ → List ℕ → Option (ℕ × (List ℕ × List ℕ))
parse_star [] args = some (0, ([], args))
parse_star (c ∷ format) [] =
    if c == 42 then none else some (let r = parse_number (c ∷ format) 0 in (r.0, (r.1, [])))
parse_star (c ∷ format) (arg ∷ args) =
    if c == 42
    then some (arg, (format, args))
    else some (let r = parse_number (c ∷ format) 0 in (r.0, (r.1, arg ∷ args)))

-- `if (c->width < 0)`
abbrev pub settle_width : Flags → ℕ → Flags × ℕ
settle_width f width =
    if leb 2147483648 width
    then (record f { minus = true }, (4294967296 - width) % 4294967296)
    else (f, width)

abbrev pub parse_precision : List ℕ → List ℕ → Option (Option ℕ × (List ℕ × List ℕ))
parse_precision [] args = some (none, ([], args))
parse_precision (c ∷ format) args =
    if c == 46
    then (parse_star format args >>= λ r.
        some (if leb 2147483648 (r.0) then none else some (r.0), r.1))
    else some (none, (c ∷ format, args))

abbrev pub settle_precision : Flags → Option ℕ → Flags
settle_precision f none = f
settle_precision f (some precision) = record f { zero_flag = false }

-- The type characters: the type and how many there are of them
abbrev pub parse_type : List ℕ → IntegerType × List ℕ
parse_type [] = (int, [])
parse_type (c ∷ []) =
    if c == 104
    then (short, [])
    else if c == 106
    then (intmax, [])
    else if c == 108
    then (long, [])
    else if c == 116
    then (ptrdifft, [])
    else if c == 122
    then (sizet, [])
    else (int, c ∷ [])
parse_type (c ∷ (d ∷ format)) =
    if c == 104
    then (if d == 104 then (char, format) else (short, d ∷ format))
    else if c == 106
    then (intmax, d ∷ format)
    else if c == 108
    then (if d == 108 then (longlong, format) else (long, d ∷ format))
    else if c == 116
    then (ptrdifft, d ∷ format)
    else if c == 122
    then (sizet, d ∷ format)
    else (int, c ∷ (d ∷ format))

abbrev pub no_flags : Flags
no_flags = record {
  minus = false;
  plus = false;
  space = false;
  pound = false;
  zero_flag = false;
  group = false;
}

-- The conversion, the rest of the format from its letter on, and the arguments that are left
unfoldable pub parse_conversion : List ℕ → List ℕ → Option (Conversion × (List ℕ × List ℕ))
parse_conversion format args =
    let f = parse_flags format no_flags in
    parse_star (f.1) args >>= λ w.
    let fw = settle_width (settle_flags (f.0)) (w.0) in
    parse_precision (w.1.0) (w.1.1) >>= λ p.
    let t = parse_type (p.1.0) in
    some (
      record {
        flags = settle_precision (fw.0) (p.0);
        width = fw.1;
        precision = p.0;
        int_type = t.0;
      },
      (t.1, p.1.1),
    )
