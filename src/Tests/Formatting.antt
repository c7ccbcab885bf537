-- ===== src/Tests/Formatting.antt =====
-- Runs of the formatter of tools/visuall-lsp/src/formatter.cpp, and the theorems at concrete inputs.
use visuall.Base.{refl, Bytes, codes, ◌++◌, ◌≡◌}
use visuall.Lexer.Indentation
use visuall.Lexer.Indentation.{spaces}
use visuall.Formatter.Lines.{normalize_indentation}
use visuall.Formatter.Shown.{shown, normalize_commas-shown, normalize_operators-shown}
use visuall.Formatter.Layout.{format}
use visuall.Lexer.Cursor.{first}
use visuall.Formatter.Spacing.{normalize_commas, normalize_operators}
use visuall.Formatter.Format.{format-shown}
use visuall.Formatter.Agrees.{normalize_indentation-agrees}
use visuall.Formatter.Indented.{normalize_indentation-twice}

abbrev unformatted : Bytes
unformatted = codes "\nx=1\n    y  ,z=f(a,b)  \n\tif x>-1:\n\n\t\tpass"

abbrev formatted : Bytes
formatted = codes "x = 1\n\ty, z = f(a, b)\n\tif x > -1:\n\t\tpass\n"

format-unformatted : format unformatted ≡ formatted
unfolding format first
format-unformatted = refl

-- An operator of three bytes is torn apart.
format-power : format (codes "x**=2") ≡ codes "x ** = 2\n"
unfolding format first
format-power = refl

-- Of the two blank lines in front of a class one is removed again.
format-class : format (codes "x = 1\nclass A:\n\tpass") ≡ codes "x = 1\n\nclass A:\n\tpass\n"
unfolding format first
format-class = refl

format-shown_example : shown (format unformatted) ≡ shown unformatted
format-shown_example = format-shown unformatted

normalize_operators-shown_example :
    shown (normalize_operators (codes "x<=y")) ≡ shown (codes "x<=y")
normalize_operators-shown_example = normalize_operators-shown (codes "x<=y")

normalize_commas-shown_example :
    shown (normalize_commas (codes "f(a  ,b)")) ≡ shown (codes "f(a  ,b)")
normalize_commas-shown_example = normalize_commas-shown (codes "f(a  ,b)")

normalize_indentation-agrees_example :
    Indentation.normalize_indentation (spaces 6 ++ codes "x = 1")
    ≡ normalize_indentation (spaces 6 ++ codes "x = 1")
normalize_indentation-agrees_example = normalize_indentation-agrees 6 b'x' (codes " = 1") refl refl

normalize_indentation-twice_example :
    normalize_indentation (normalize_indentation (codes "  \t  x = 1"))
    ≡ normalize_indentation (codes "  \t  x = 1")
normalize_indentation-twice_example = normalize_indentation-twice (codes "  \t  x = 1")
