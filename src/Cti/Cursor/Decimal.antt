-- ===== src/Cti/Cursor/Decimal.antt =====
-- What a cursor stands for.
use axe_voice_desktop.Prelude.{
  value_from, value_grows, Bool, true, false, ℕ, zero, suc, ◌+◌, ◌-◌, ◌*◌, ◌/◌, ◌%◌, ◌≤◌, ◌<◌, ◌≡◌,
  ◌&&◌, not, if◌then◌else◌, leb, ltb, [], ◌∷◌, none, some, refl, ap, arith, length, u64_mod,
  u64_max, Text, is_empty, all, is_digit,
}
use axe_voice_desktop.Cti.Cursor.{cursor_from, parse_cti_event_cursor, digits, to_string}

-- Decimal digits, at most 20 and at least one, of a number below 2 ^ 64.
abbrev pub is_cursor : Text → Bool
is_cursor text =
    not (is_empty text)
    && leb (length text) 20
    && all is_digit text
    && leb (value_from 0 text) u64_max

cursor_from_lem :
    (cs : Text) (value : ℕ)
    → value ≤ u64_max
    → cursor_from value cs ≡ (
        if all is_digit cs && leb (value_from value cs) u64_max
        then some (value_from value cs)
        else none)
unfolding cursor_from
cursor_from_lem [] value h = ground arith
cursor_from_lem (c ∷ cs) value h =
    let next = value * 10 + (c - b'0') in
    let tail : next ≤ u64_max
        → cursor_from next cs ≡ (
            if all is_digit cs && leb (value_from next cs) u64_max
            then some (value_from next cs)
            else none) =
      λ k. cursor_from_lem cs next k in
    ground (arith, tail, value_grows cs next)

-- The cursor that a text is parsed into is the number its digits stand for, without any wrap-around; a
-- text is refused exactly if it is empty, longer than 20 characters, not all digits, or stands for a
-- number beyond 64 bits.
pub parse_cti_event_cursor_lem :
    (text : Text)
    → parse_cti_event_cursor text ≡ (if is_cursor text then some (value_from 0 text) else none)
unfolding parse_cti_event_cursor
parse_cti_event_cursor_lem text = ground (arith, cursor_from_lem text 0 (omega arith))

-- 10 to the power of the number.
abbrev power : ℕ → ℕ
power zero = 1
power (suc n) = 10 * power n

last_digit :
    (n : ℕ) (after : Text) → value_from (n / 10) ((b'0' + n % 10) ∷ after) ≡ value_from n after
last_digit n after =
    let same : n / 10 * 10 + (b'0' + n % 10 - b'0') ≡ n = omega arith in
    ap (λ v. value_from v after) same

only_digit :
    (n : ℕ) (after : Text) → n < 10 → value_from 0 ((b'0' + n % 10) ∷ after) ≡ value_from n after
only_digit n after h =
    let same : 0 * 10 + (b'0' + n % 10 - b'0') ≡ n = omega arith in
    ap (λ v. value_from v after) same

digits-suc :
    (fuel n : ℕ) (after : Text)
    → digits (suc fuel) n after ≡ (
        if ltb n 10
        then (b'0' + n % 10) ∷ after
        else digits fuel (n / 10) ((b'0' + n % 10) ∷ after))
unfolding digits
digits-suc fuel n after = refl

value-digits :
    (fuel n : ℕ) (after : Text)
    → n < power (suc fuel)
    → value_from 0 (digits (suc fuel) n after) ≡ value_from n after
value-digits zero n after h = ground (arith, digits-suc 0 n after, only_digit n after)
value-digits (suc fuel) n after h =
    let c = b'0' + n % 10 in
    let rest = value-digits fuel (n / 10) (c ∷ after) in
    ground (arith, digits-suc (suc fuel) n after, only_digit n after, last_digit n after, rest)

all-digits :
    (fuel n : ℕ) (after : Text)
    → all is_digit after ≡ true
    → all is_digit (digits fuel n after) ≡ true
unfolding digits
all-digits zero n after h = h
all-digits (suc fuel) n after h =
    let c = b'0' + n % 10 in
    let digit : is_digit c ≡ true = ground arith in
    ground (arith, all-digits fuel (n / 10) (c ∷ after))

length-digits : (fuel n : ℕ) (after : Text) → length (digits fuel n after) ≤ fuel + length after
unfolding digits
length-digits zero n after = omega arith
length-digits (suc fuel) n after =
    ground (arith, length-digits fuel (n / 10) ((b'0' + n % 10) ∷ after))

some-digits : (fuel n c : ℕ) (after : Text) → is_empty (digits fuel n (c ∷ after)) ≡ false
unfolding digits
some-digits zero n c after = refl
some-digits (suc fuel) n c after =
    ground (arith, some-digits fuel (n / 10) (b'0' + n % 10) (c ∷ after))

to_string_some : (n : ℕ) → is_empty (to_string n) ≡ false
to_string_some n = ground (arith, digits-suc 19 n [], some-digits 19 (n / 10) (b'0' + n % 10) [])

-- Every number of 64 bits that is written as a cursor is read back as it is.
pub parse_cti_event_cursor-to_string :
    (n : ℕ) → n < u64_mod → parse_cti_event_cursor (to_string n) ≡ some n
parse_cti_event_cursor-to_string n h =
    let t = to_string n in
    let value = value-digits 19 n [] (omega arith) in
    ground (
      arith,
      parse_cti_event_cursor_lem t,
      value,
      all-digits 20 n [] refl,
      length-digits 20 n [],
      to_string_some n,
    )
