-- ===== src/Engine/Quote/RoundTrip.antt =====
-- What was quoted is read back by the rule that the C runtime documents.
use axe_voice_desktop.Prelude.{
  Bool, true, false, ℕ, zero, suc, ◌+◌, ◌*◌, ◌/◌, ◌%◌, ◌≡◌, ◌∙◌, ◌==◌, ◌||◌, ◌&&◌, not,
  if◌then◌else◌, [], ◌∷◌, ◌++◌, append_assoc, append-nil, inl, inr, refl, sym, ap, arith,
  Bool-cases, replicate, Text,
}
use axe_voice_desktop.Engine.Quote.{backslash, quote_mark, quoted_from, quote_windows_argument}

-- The documented rule of the C runtime of Windows for an argument of a command line: blanks end it unless
-- they are quoted; backslashes are literal, unless a quotation mark follows; then each two of them stand
-- for one, and the mark is literal if one is left over, or else begins or ends a quoted part. Right behind
-- the end of a quoted part, a second mark is literal and the part goes on.
pub data Part : Type 0 where
  plain quoted closed : Part

abbrev pub is_blank : ℕ → Bool
is_blank c = c == 32 || c == 9

abbrev is_quoted : Part → Bool
is_quoted Part.quoted = true
is_quoted _ = false

abbrev is_closed : Part → Bool
is_closed Part.closed = true
is_closed _ = false

-- The part behind a character that stands for itself.
abbrev stay : Part → Part
stay Part.quoted = Part.quoted
stay _ = Part.plain

-- The part behind a mark that begins or ends one.
abbrev toggle : Part → Part
toggle Part.quoted = Part.closed
toggle _ = Part.quoted

abbrev before : Text → Text × Text → Text × Text
before start (value, rest) = (start ++ value, rest)

-- With the number of backslashes that wait: the argument, and what stands behind it.
unfoldable pub read_from : Part → ℕ → Text → Text × Text
read_from part slashes [] = (replicate slashes backslash, [])
read_from part slashes (c ∷ cs) =
    let waiting = read_from (stay part) (slashes + 1) cs in
    let literal = read_from (stay part) 0 cs in
    let reopened = read_from Part.quoted 0 cs in
    let toggled = read_from (toggle part) 0 cs in
    let half = replicate (slashes / 2) backslash in
    if c == backslash
    then waiting
    else if c == quote_mark
    then (if slashes % 2 == 1
        then before (half ++ (quote_mark ∷ [])) literal
        else if is_closed part
        then before (half ++ (quote_mark ∷ [])) reopened
        else before half toggled)
    else if not (is_quoted part) && is_blank c
    then (replicate slashes backslash, c ∷ cs)
    else before (replicate slashes backslash ++ (c ∷ [])) literal

abbrev pub read_windows_argument : Text → Text × Text
read_windows_argument text = read_from Part.plain 0 text

-- The argument ends here.
abbrev pub ends_argument : Text → Bool
ends_argument [] = true
ends_argument (c ∷ cs) = is_blank c

-- Backslashes are counted.
read_slashes :
    (k n : ℕ) (text : Text)
    → read_from Part.quoted n (replicate k backslash ++ text) ≡ read_from Part.quoted (n + k) text
unfolding read_from
read_slashes zero n text = ap (λ (m : ℕ). read_from Part.quoted m text) (omega arith)
read_slashes (suc k) n text =
    read_slashes k (n + 1) text ∙ ap (λ (m : ℕ). read_from Part.quoted m text) (omega arith)

replicate-last : (k c : ℕ) (text : Text) → replicate k c ++ (c ∷ text) ≡ replicate (suc k) c ++ text
replicate-last zero c text = refl
replicate-last (suc k) c text = ap (λ (t : Text). c ∷ t) (replicate-last k c text)

one_more : (k c : ℕ) (text : Text) → (replicate (k + 1) c ++ text) ≡ (replicate k c ++ (c ∷ text))
one_more k c text = let e : k + 1 ≡ suc k = omega arith in rw e (sym (replicate-last k c text))

read_char :
    (c n : ℕ) (text : Text)
    → (c == backslash) ≡ false
    → (c == quote_mark) ≡ false
    → read_from Part.quoted n (c ∷ text)
      ≡ before (replicate n backslash ++ (c ∷ [])) (read_from Part.quoted 0 text)
unfolding read_from
read_char c n text h k = rw (h, k) refl

-- A blank behind the closing mark, or nothing, ends the argument.
read_behind : (text : Text) → ends_argument text ≡ true → read_from Part.closed 0 text ≡ ([], text)
unfolding read_from
read_behind [] h = refl
read_behind (c ∷ cs) h = ground (arith, h)

read_mark :
    (n : ℕ) (text : Text)
    → n % 2 ≡ 0
    → read_from Part.quoted n (quote_mark ∷ text)
      ≡ before (replicate (n / 2) backslash) (read_from Part.closed 0 text)
unfolding read_from
read_mark n text even = rw even refl

read_end :
    (s : ℕ) (text : Text)
    → ends_argument text ≡ true
    → read_from Part.quoted (s * 2) (quote_mark ∷ text) ≡ (replicate s backslash, text)
read_end s text h =
    let even : (s * 2) % 2 ≡ 0 = omega arith in
    let half : (s * 2) / 2 ≡ s = omega arith in
    read_mark (s * 2) text even
    ∙ rw (half, read_behind text h)
        (ap (λ (t : Text). (t, text)) (append-nil (replicate s backslash)))

read_escaped :
    (s : ℕ) (text : Text)
    → read_from Part.quoted (s * 2 + 1) (quote_mark ∷ text)
      ≡ before (replicate s backslash ++ (quote_mark ∷ [])) (read_from Part.quoted 0 text)
unfolding read_from
read_escaped s text =
    let odd : (s * 2 + 1) % 2 ≡ 1 = omega arith in
    let half : (s * 2 + 1) / 2 ≡ s = omega arith in rw (odd, half) refl

-- Backslashes, a character, and what follows.
read_run :
    (n c : ℕ) (tail rest : Text)
    → read_from Part.quoted 0 ((replicate n backslash ++ (c ∷ tail)) ++ rest)
      ≡ read_from Part.quoted n (c ∷ (tail ++ rest))
read_run n c tail rest =
    ap (read_from Part.quoted 0) (append_assoc (replicate n backslash) (c ∷ tail) rest)
    ∙ read_slashes n 0 (c ∷ (tail ++ rest))
    ∙ ap (λ (m : ℕ). read_from Part.quoted m (c ∷ (tail ++ rest))) (omega arith)

read_quoted :
    (value : Text) (slashes : ℕ) (rest : Text)
    → ends_argument rest ≡ true
    → read_from Part.quoted 0 (quoted_from slashes value ++ rest)
      ≡ (replicate slashes backslash ++ value, rest)
unfolding quoted_from
read_quoted [] s rest h =
    read_run (s * 2) quote_mark [] rest
    ∙ read_end s rest h
    ∙ ap (λ (t : Text). (t, rest)) (sym (append-nil (replicate s backslash)))
read_quoted (c ∷ cs) s rest h = elim (Bool-cases (c == backslash)) [
  | inl e ↦
      let is_slash : c ≡ backslash = ground (arith, e) in
      rw e (
        read_quoted cs (s + 1) rest h
        ∙ ap (λ (t : Text). (t, rest)) (rw is_slash (one_more s backslash cs)))
  | inr e ↦ elim (Bool-cases (c == quote_mark)) [
    | inl q ↦
        let is_mark : c ≡ quote_mark = ground (arith, q) in
        rw (e, q, is_mark)
          (read_run (s * 2 + 1) quote_mark (quoted_from 0 cs) rest
            ∙ read_escaped s (quoted_from 0 cs ++ rest)
            ∙ ap (before (replicate s backslash ++ (quote_mark ∷ []))) (read_quoted cs 0 rest h)
            ∙ ap (λ (t : Text). (t, rest))
                (append_assoc (replicate s backslash) (quote_mark ∷ []) cs))
    | inr q ↦
        rw (e, q)
          (read_run s c (quoted_from 0 cs) rest
            ∙ read_char c s (quoted_from 0 cs ++ rest) e q
            ∙ ap (before (replicate s backslash ++ (c ∷ []))) (read_quoted cs 0 rest h)
            ∙ ap (λ (t : Text). (t, rest)) (append_assoc (replicate s backslash) (c ∷ []) cs))
  ]
]

read_open :
    (text : Text) → read_from Part.plain 0 (quote_mark ∷ text) ≡ read_from Part.quoted 0 text
unfolding read_from
read_open text = refl

-- An argument that is quoted is read back as it was by the documented rule of the C runtime, whatever its
-- blanks, backslashes and quotation marks, if a blank or nothing stands behind it on the command line;
-- that is left.
pub read_windows_argument-quote_windows_argument :
    (value rest : Text)
    → ends_argument rest ≡ true
    → read_windows_argument (quote_windows_argument value ++ rest) ≡ (value, rest)
read_windows_argument-quote_windows_argument value rest h =
    read_open (quoted_from 0 value ++ rest) ∙ read_quoted value 0 rest h
