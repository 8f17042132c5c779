-- ===== src/Engine/Tests.antt =====
-- The rule of the C runtime at its documented examples, and the theorem on quoted arguments at a concrete
-- input.
use axe_voice_desktop.Prelude.{◌≡◌, [], ◌++◌, refl, Text, codes}
use axe_voice_desktop.Engine.Quote.{quote_windows_argument}
use axe_voice_desktop.Engine.Quote.RoundTrip.{
  read_from, read_windows_argument, read_windows_argument-quote_windows_argument,
}

-- The examples that document the runtime's rule.
reads_quoted : read_windows_argument (codes "\"a b c\" d e") ≡ (codes "a b c", codes " d e")
unfolding read_from
reads_quoted = refl

reads_escaped : read_windows_argument (codes "\"ab\\\"c\" d") ≡ (codes "ab\"c", codes " d")
unfolding read_from
reads_escaped = refl

reads_slashes :
    read_windows_argument (codes "a\\\\\\b d\"e f\"g h") ≡ (codes "a\\\\\\b", codes " d\"e f\"g h")
unfolding read_from
reads_slashes = refl

reads_embedded : read_windows_argument (codes "d\"e f\"g h") ≡ (codes "de fg", codes " h")
unfolding read_from
reads_embedded = refl

reads_odd : read_windows_argument (codes "a\\\\\\\"b c d") ≡ (codes "a\\\"b", codes " c d")
unfolding read_from
reads_odd = refl

reads_even : read_windows_argument (codes "a\\\\\\\\\"b c\" d e") ≡ (codes "a\\\\b c", codes " d e")
unfolding read_from
reads_even = refl

reads_doubled : read_windows_argument (codes "a\"b\"\" c d") ≡ (codes "ab\" c d", [])
unfolding read_from
reads_doubled = refl

-- A folder that ends in a backslash, with a quotation mark inside.
abbrev folder : Text
folder = codes "C:\\a \\\"b\\"

read_windows_argument-quote_windows_argument_example :
    read_windows_argument (quote_windows_argument folder ++ codes " -v") ≡ (folder, codes " -v")
read_windows_argument-quote_windows_argument_example =
    read_windows_argument-quote_windows_argument folder (codes " -v") refl
