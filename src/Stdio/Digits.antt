-- ===== src/Stdio/Digits.antt =====
-- What `format_integer` of lib/stdio.c writes, and what `atoi` of lib/stdlib.c reads of it.
use mathlib.Core.List.{append_assoc}
use tddb.Base.{
  ℕ, zero, suc, ◌+◌, ◌-◌, ◌*◌, ◌/◌, ◌%◌, ◌^◌, ◌≤◌, ◌<◌, Bool, true, false, not, ◌&&◌, ◌||◌, some,
  List, [], ◌∷◌, ◌++◌, length, ◌==◌, ltb, if◌then◌else◌, ◌≡◌, refl, sym, ap, ◌∙◌, arith, Bool-cases,
  inl, inr,
}
use tddb.Stdlib.{isspace, isdigit, skip_space, atoi_from, positive, atoi_signed, atoi}
use tddb.Stdio.{
  Flags, Conversion, base_d, lower_digits, output_dup, sign_char, digits_from, zeros_from,
  octal_zero, precision_of, integer_buffer, integer_output, format_integer,
}

-- the number that decimal digits stand for, behind the digits of `v`
abbrev pub decimal : ℕ → List ℕ → ℕ
decimal v [] = v
decimal v (c ∷ s) = decimal (v * 10 + (c - 48)) s

abbrev pub AllDigits : List ℕ → Type 0
AllDigits [] = Unit
AllDigits (c ∷ s) = (isdigit c ≡ true) × AllDigits s

digits_from-decimal :
    (fuel value cnt : ℕ) (buf : List ℕ)
    → value < 8 ^ fuel
    → AllDigits buf
    → (out : List ℕ) × (digits_from (suc fuel) base_d false value cnt buf ≡ some out)
      × AllDigits out
      × (decimal 0 out ≡ decimal value buf)
unfolding digits_from
digits_from-decimal zero zero cnt buf lt d = (buf, refl, d, refl)
digits_from-decimal zero (suc value) cnt buf lt d = absurd (omega (arith, lt))
digits_from-decimal (suc fuel) zero cnt buf lt d = (buf, refl, d, refl)
digits_from-decimal (suc fuel) (suc value) cnt buf lt d =
    let (out, run, all, dec) =
      digits_from-decimal fuel (suc value / 10) (cnt + 1) (lower_digits (suc value % 10) ∷ buf)
        (omega (arith, lt)) (digit, d) in
    (out, rw some_value run, all, dec ∙ ap (λ v. decimal v buf) shifted)
  where
    some_value : ltb 0 (suc value) ≡ true
    some_value = ground arith

    digit : isdigit (lower_digits (suc value % 10)) ≡ true
    digit = ground arith

    shifted : suc value / 10 * 10 + (lower_digits (suc value % 10) - 48) ≡ suc value
    shifted = ground arith

zeros_from-decimal :
    (fuel precision : ℕ) (buf : List ℕ)
    → AllDigits buf
    → AllDigits (zeros_from fuel precision buf)
      × (decimal 0 (zeros_from fuel precision buf) ≡ decimal 0 buf)
unfolding zeros_from
zeros_from-decimal zero precision buf d = (d, refl)
zeros_from-decimal (suc fuel) precision buf d =
    elim (Bool-cases (ltb (length buf) precision && ltb (length buf) 63)) [
      | inl y ↦ rw y (zeros_from-decimal fuel precision (48 ∷ buf) (refl, d))
      | inr n ↦ rw n (d, refl)
    ]

-- the word of a number negated
abbrev pub minus_word : ℕ → ℕ
minus_word m = (4294967296 - m % 4294967296) % 4294967296

-- Digits and then what is none
atoi_from-decimal :
    (m : ℕ) (s : List ℕ) (cnt : ℕ)
    → AllDigits s
    → atoi_from (minus_word m) (s ++ output_dup 32 cnt) ≡ minus_word (decimal m s)
atoi_from-decimal m [] zero d = refl
atoi_from-decimal m [] (suc cnt) d = refl
atoi_from-decimal m (c ∷ s) cnt (digit, d) = rw digit (
    ap (λ v. atoi_from v (s ++ output_dup 32 cnt)) next
    ∙ atoi_from-decimal (m * 10 + (c - 48)) s cnt d)
  where
    next : (minus_word m * 10 + 4294967296 - (c - 48)) % 4294967296 ≡ minus_word (m * 10 + (c - 48))
    next = ground (arith, digit)

skip_space-output_dup : (cnt : ℕ) (s : List ℕ) → skip_space (output_dup 32 cnt ++ s) ≡ skip_space s
skip_space-output_dup zero s = refl
skip_space-output_dup (suc cnt) s = skip_space-output_dup cnt s

only_spaces : (cnt : ℕ) → skip_space (output_dup 32 cnt) ≡ []
only_spaces zero = refl
only_spaces (suc cnt) = only_spaces cnt

digit_space : (b : ℕ) → isdigit b ≡ true → isspace b ≡ false
digit_space b digit = ground (arith, digit)

digit_plus : (b : ℕ) → isdigit b ≡ true → (b == 43) ≡ false
digit_plus b digit = ground (arith, digit)

digit_minus : (b : ℕ) → isdigit b ≡ true → (b == 45) ≡ false
digit_minus b digit = ground (arith, digit)

zeros-decimal :
    (cnt : ℕ) (s : List ℕ)
    → AllDigits s
    → AllDigits (output_dup 48 cnt ++ s) × (decimal 0 (output_dup 48 cnt ++ s) ≡ decimal 0 s)
zeros-decimal zero s d = (d, refl)
zeros-decimal (suc cnt) s d = let (all, same) = zeros-decimal cnt s d in ((refl, all), same)

-- `atoi` behind each of the signs
module _ (body : List ℕ) (d : AllDigits body) (cnt : ℕ) where
  atoi_minus : atoi (45 ∷ (body ++ output_dup 32 cnt)) ≡ minus_word (decimal 0 body)
  unfolding atoi
  atoi_minus = atoi_from-decimal 0 body cnt d

  twice : (m : ℕ) → positive (minus_word m) ≡ m % 4294967296
  twice m = omega arith

  atoi_plus : atoi (43 ∷ (body ++ output_dup 32 cnt)) ≡ decimal 0 body % 4294967296
  unfolding atoi
  atoi_plus = ap positive (atoi_from-decimal 0 body cnt d) ∙ twice (decimal 0 body)

  atoi_unsigned : atoi (body ++ output_dup 32 cnt) ≡ decimal 0 body % 4294967296
  unfolding atoi
  atoi_unsigned = unsigned body d
    where
      unsigned :
          (body : List ℕ)
          → AllDigits body
          → atoi_signed (skip_space (body ++ output_dup 32 cnt)) ≡ decimal 0 body % 4294967296
      unsigned [] d = ap atoi_signed (only_spaces cnt)
      unsigned (b ∷ body) (digit, d) =
          rw (digit_space b digit, digit_plus b digit, digit_minus b digit)
            (ap positive (atoi_from-decimal 0 (b ∷ body) cnt (digit, d))
              ∙ twice (decimal 0 (b ∷ body)))

  atoi_space : atoi (32 ∷ (body ++ output_dup 32 cnt)) ≡ decimal 0 body % 4294967296
  unfolding atoi
  atoi_space = atoi_unsigned

pub dup_then :
    (b : Bool) (ch cnt : ℕ)
    → (if b then output_dup ch cnt else []) ≡ output_dup ch (if b then cnt else 0)
dup_then true ch cnt = refl
dup_then false ch cnt = refl

pub dup_else :
    (b : Bool) (ch cnt : ℕ)
    → (if b then [] else output_dup ch cnt) ≡ output_dup ch (if b then 0 else cnt)
dup_else true ch cnt = refl
dup_else false ch cnt = refl

-- what `atoi` is to read
abbrev pub int_word : Bool → ℕ → ℕ
int_word negative value = if negative then minus_word value else value % 4294967296

-- The sign, which may be none, in front of digits
sign-atoi :
    (f : Flags) (negative : Bool) (body : List ℕ) (cnt : ℕ)
    → AllDigits body
    → atoi (
        (if sign_char true negative f == 0 then [] else sign_char true negative f ∷ [])
        ++ (body ++ output_dup 32 cnt))
      ≡ int_word negative (decimal 0 body)
sign-atoi f true body cnt d = elim (Bool-cases (f.plus)) [
  | inl p ↦ rw p (atoi_minus body d cnt)
  | inr p ↦ elim (Bool-cases (f.space)) [
    | inl q ↦ rw (p, q) (atoi_minus body d cnt)
    | inr q ↦ rw (p, q) (atoi_minus body d cnt)
  ]
]
sign-atoi f false body cnt d = elim (Bool-cases (f.plus)) [
  | inl p ↦ rw p (atoi_plus body d cnt)
  | inr p ↦ elim (Bool-cases (f.space)) [
    | inl q ↦ rw (p, q) (atoi_space body d cnt)
    | inr q ↦ rw (p, q) (atoi_unsigned body d cnt)
  ]
]

-- The parts of the output, in order
laid_out :
    (f : Flags) (negative : Bool) (buf : List ℕ) (spaces zeros_cnt trailing : ℕ)
    → AllDigits buf
    → atoi (
        output_dup 32 spaces
        ++ ((if sign_char true negative f == 0 then [] else sign_char true negative f ∷ [])
            ++ (output_dup 48 zeros_cnt ++ (buf ++ output_dup 32 trailing))))
      ≡ int_word negative (decimal 0 buf)
unfolding atoi
laid_out f negative buf spaces zeros_cnt trailing d =
    let (all, same) = zeros-decimal zeros_cnt buf d in
    ap atoi_signed (
      skip_space-output_dup spaces
        (sign ++ (output_dup 48 zeros_cnt ++ (buf ++ output_dup 32 trailing))))
    ∙ ap (λ l. atoi (sign ++ l))
        (sym (append_assoc (output_dup 48 zeros_cnt) buf (output_dup 32 trailing)))
    ∙ sign-atoi f negative (output_dup 48 zeros_cnt ++ buf) trailing all
    ∙ ap (int_word negative) same
  where
    sign : List ℕ
    sign = if sign_char true negative f == 0 then [] else sign_char true negative f ∷ []

output-atoi :
    (negative : Bool) (c : Conversion) (buf : List ℕ)
    → AllDigits buf
    → atoi (integer_output (sign_char true negative c.flags) 0 c buf)
      ≡ int_word negative (decimal 0 buf)
output-atoi negative c buf d =
    rw
      (
        dup_else (c.flags.minus || c.flags.zero_flag) 32 pad,
        dup_then c.flags.zero_flag 48 pad,
        dup_then c.flags.minus 32 pad,
      )
      (laid_out c.flags negative buf (if c.flags.minus || c.flags.zero_flag then 0 else pad)
        (if c.flags.zero_flag then pad else 0) (if c.flags.minus then pad else 0) d)
  where
    pad : ℕ
    pad = c.width - (length buf + 0 + (if sign_char true negative c.flags == 0 then 0 else 1))

no_octal : (f : Flags) (buf : List ℕ) → octal_zero base_d f buf ≡ buf
no_octal f buf = elim (Bool-cases (f.pound)) [ inl y ↦ rw y refl | inr n ↦ rw n refl ]

no_x : (b : Bool) → ◌≡◌ {A = ℕ} (if b then 0 else 0) 0
no_x true = refl
no_x false = refl

-- `format_integer` of a signed decimal conversion ends, and `atoi` reads the number back from what it writes, modulo
-- 2^32, whatever the width, the precision and the flags are, but for the one that groups digits.
pub format_integer-atoi :
    (value : ℕ) (negative : Bool) (c : Conversion)
    → value < 18446744073709551616
    → c.flags.group ≡ false
    → (out : List ℕ) × (format_integer value true negative base_d c ≡ some out)
      × (atoi out ≡ int_word negative value)
unfolding format_integer integer_buffer
format_integer-atoi value negative c lt no_group =
    let (digits, run, all, same) =
      digits_from-decimal 63 value 0 [] (omega (arith, lt, large)) tt in
    let (all2, same2) = zeros_from-decimal 64 (precision_of c.precision) digits all in
    (
      integer_output (sign_char true negative c.flags) 0 c
          (zeros_from 64 (precision_of c.precision) digits),
      rw
          (
            no_group,
            run,
            no_octal c.flags (zeros_from 64 (precision_of c.precision) digits),
            no_x (c.flags.pound && not (value == 0)),
          )
          refl,
      output-atoi negative c (zeros_from 64 (precision_of c.precision) digits) all2
          ∙ ap (int_word negative) (same2 ∙ same),
    )
  where
    large : 18446744073709551616 ≤ 8 ^ 63
    large = omega arith
