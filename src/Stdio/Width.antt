-- ===== src/Stdio/Width.antt =====
-- The width of what `format_integer` and `format_string` of lib/stdio.c write, and the flags that `parse_conversion` leaves.
use tddb.Base.{
  ℕ, zero, suc, ◌+◌, ◌-◌, ◌%◌, ◌≤◌, ◌<◌, max, Bool, true, false, not, ◌&&◌, ◌||◌, Option, none,
  some, List, [], ◌∷◌, ◌++◌, length, length-append, ◌==◌, leb, if◌then◌else◌, ◌≡◌, refl, ap, ◌∙◌,
  arith, Bool-cases, Option-cases, inl, inr,
}
use tddb.Stdio.{
  Flags, Conversion, int, IntegerBase, output_dup, sign_char, integer_buffer, integer_output,
  format_integer, settle_flags, settle_width, settle_precision, parse_precision, parse_flags,
  parse_star, no_flags, parse_conversion,
}

length-output_dup : (ch cnt : ℕ) → length (output_dup ch cnt) ≡ cnt
length-output_dup ch zero = refl
length-output_dup ch (suc cnt) = ap suc (length-output_dup ch cnt)

-- How many characters stand for the value: the sign, `0x` and the buffer
abbrev pub content : ℕ → ℕ → List ℕ → ℕ
content sign x buf = length buf + (if x == 0 then 0 else 2) + (if sign == 0 then 0 else 1)

length_then :
    (b : Bool) (ch cnt : ℕ) → length (if b then output_dup ch cnt else []) ≡ (if b then cnt else 0)
length_then true ch cnt = length-output_dup ch cnt
length_then false ch cnt = refl

length_else :
    (b : Bool) (ch cnt : ℕ) → length (if b then [] else output_dup ch cnt) ≡ (if b then 0 else cnt)
length_else true ch cnt = refl
length_else false ch cnt = length-output_dup ch cnt

length_parts :
    (a s x z b t : List ℕ)
    → length (a ++ (s ++ (x ++ (z ++ (b ++ t)))))
      ≡ length a + (length s + (length x + (length z + (length b + length t))))
length_parts a s x z b t = omega (
  arith,
  length-append a (s ++ (x ++ (z ++ (b ++ t)))),
  length-append s (x ++ (z ++ (b ++ t))),
  length-append x (z ++ (b ++ t)),
  length-append z (b ++ t),
  length-append b t,
)

length-integer_output :
    (sign x : ℕ) (c : Conversion) (buf : List ℕ)
    → length (integer_output sign x c buf)
      ≡ content sign x buf
        + ((if c.flags.minus || c.flags.zero_flag then 0 else c.width - content sign x buf)
            + ((if c.flags.zero_flag then c.width - content sign x buf else 0)
                + (if c.flags.minus then c.width - content sign x buf else 0)))
length-integer_output sign x c buf =
    length_parts (if c.flags.minus || c.flags.zero_flag then [] else output_dup 32 pad)
      (if sign == 0 then [] else sign ∷ []) (if x == 0 then [] else 48 ∷ (x ∷ []))
      (if c.flags.zero_flag then output_dup 48 pad else []) buf
      (if c.flags.minus then output_dup 32 pad else [])
    ∙ omega (
      arith,
      length_else (c.flags.minus || c.flags.zero_flag) 32 pad,
      length_then c.flags.zero_flag 48 pad,
      length_then c.flags.minus 32 pad,
      sign_length,
      x_length,
    )
  where
    pad : ℕ
    pad = c.width - content sign x buf

    sign_length : length (if sign == 0 then [] else sign ∷ []) ≡ (if sign == 0 then 0 else 1)
    sign_length = ground arith

    x_length : length (if x == 0 then [] else 48 ∷ (x ∷ [])) ≡ (if x == 0 then 0 else 2)
    x_length = ground arith

-- `format_integer` writes as many characters as the value takes, or as the width if that is more, unless both the flag
-- MINUS and the flag ZERO are set.
pub format_integer-length :
    (value : ℕ) (is_signed negative : Bool) (b : IntegerBase) (c : Conversion) (buf : List ℕ)
    → integer_buffer value b c ≡ some buf
    → (c.flags.minus && c.flags.zero_flag) ≡ false
    → (out : List ℕ) × (format_integer value is_signed negative b c ≡ some out)
      × (length out
          ≡ max c.width (
              content
                (sign_char is_signed negative c.flags)
                (if c.flags.pound && not (value == 0) then b.x else 0)
                buf))
unfolding format_integer
format_integer-length value is_signed negative b c buf run apart =
    let sign = sign_char is_signed negative c.flags in
    let x = if c.flags.pound && not (value == 0) then b.x else 0 in
    (
      integer_output sign x c buf,
      rw run refl,
      length-integer_output sign x c buf ∙ once (content sign x buf),
    )
  where
    once :
        (n : ℕ)
        → n
            + ((if c.flags.minus || c.flags.zero_flag then 0 else c.width - n)
                + ((if c.flags.zero_flag then c.width - n else 0)
                    + (if c.flags.minus then c.width - n else 0)))
          ≡ max c.width n
    once n = ground (arith, apart)

-- `%0*d` with a negative width sets both flags, and `format_integer` then pads to the width twice, with zeros and with
-- spaces.
pub parse_conversion-format_integer :
    (w : ℕ) (args : List ℕ)
    → 2147483648 ≤ w
    → w < 4294967296
    → (c : Conversion) × (parse_conversion (48 ∷ (42 ∷ (100 ∷ []))) (w ∷ args)
        ≡ some (c, (100 ∷ [], args)))
      × (c.width ≡ 4294967296 - w)
      × ((sign x : ℕ) (buf : List ℕ)
          → length (integer_output sign x c buf)
            ≡ content sign x buf
              + ((c.width - content sign x buf) + (c.width - content sign x buf)))
unfolding parse_conversion
parse_conversion-format_integer w args negative word = (
  both,
  rw large refl,
  omega (arith, negative, word),
  λ sign x buf. length-integer_output sign x both buf ∙ omega arith,
)
  where
    large : leb 2147483648 w ≡ true
    large = ground (arith, negative)

    both : Conversion
    both = record {
      flags = record {
        minus = true;
        plus = false;
        space = false;
        pound = false;
        zero_flag = true;
        group = false;
      };
      width = (4294967296 - w) % 4294967296;
      precision = none;
      int_type = int;
    }

-- PLUS excludes SPACE, and a precision excludes ZERO.
abbrev pub Settled : Flags → Option ℕ → Type 0
Settled f precision =
    ((f.plus && f.space) ≡ false) × ((p : ℕ) → precision ≡ some p → f.zero_flag ≡ false)

abbrev pub IsSettled : Option (Conversion × (List ℕ × List ℕ)) → Type 0
IsSettled none = Unit
IsSettled (some (c, rest)) = Settled c.flags c.precision

settle_flags-Settled : (f : Flags) → ((settle_flags f).plus && (settle_flags f).space) ≡ false
settle_flags-Settled f = elim (Bool-cases (f.minus)) [
  | inl m ↦ elim (Bool-cases (f.plus)) [
    | inl p ↦ rw (m, p) (ground arith)
    | inr p ↦ rw (m, p) (ground (arith, p))
  ]
  | inr m ↦ elim (Bool-cases (f.plus)) [
    | inl p ↦ rw (m, p) (ground arith)
    | inr p ↦ rw (m, p) (ground (arith, p))
  ]
]

settle_width-flags :
    (f : Flags) (w : ℕ)
    → (((settle_width f w).0).plus && ((settle_width f w).0).space) ≡ (f.plus && f.space)
settle_width-flags f w = elim (Bool-cases (leb 2147483648 w)) [
  | inl y ↦ rw y refl
  | inr n ↦ rw n refl
]

settle_precision-Settled :
    (f : Flags) (p : Option ℕ) → (f.plus && f.space) ≡ false → Settled (settle_precision f p) p
settle_precision-Settled f none apart = (apart, λ q e. cc e)
settle_precision-Settled f (some p) apart = (apart, λ q e. refl)

-- Whatever the format is, `parse_conversion` leaves flags of which PLUS excludes SPACE, and a precision excludes ZERO.
pub parse_conversion-IsSettled : (format args : List ℕ) → IsSettled (parse_conversion format args)
unfolding parse_conversion
parse_conversion-IsSettled format args =
    let f = (parse_flags format no_flags).0 in
    elim (Option-cases (parse_star ((parse_flags format no_flags).1) args)) [
      | inl e ↦ rw e tt
      | inr (w, e) ↦ rw e (elim (Option-cases (parse_precision (w.1.0) (w.1.1))) [
        | inl e' ↦ rw e' tt
        | inr (p, e') ↦ rw e' (
            settle_precision-Settled ((settle_width (settle_flags f) (w.0)).0) (p.0)
              (settle_width-flags (settle_flags f) (w.0) ∙ settle_flags-Settled f))
      ])
    ]
