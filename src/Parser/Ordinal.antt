-- ===== src/Parser/Ordinal.antt =====
-- The value of an enumerator in include/token.h, by which two token types are compared.
use visuall.Base.{ℕ}
use visuall.Lexer.Token.{TokenType}

unfoldable pub ordinal : TokenType → ℕ
ordinal TokenType.int_literal = 0
ordinal TokenType.float_literal = 1
ordinal TokenType.string_literal = 2
ordinal TokenType.fstring_literal = 3
ordinal TokenType.bool_literal = 4
ordinal TokenType.null_literal = 5
ordinal TokenType.identifier = 6
ordinal TokenType.error = 7
ordinal TokenType.kw_define = 8
ordinal TokenType.kw_init = 9
ordinal TokenType.kw_class = 10
ordinal TokenType.kw_if = 11
ordinal TokenType.kw_elsif = 12
ordinal TokenType.kw_else = 13
ordinal TokenType.kw_for = 14
ordinal TokenType.kw_while = 15
ordinal TokenType.kw_in = 16
ordinal TokenType.kw_return = 17
ordinal TokenType.kw_break = 18
ordinal TokenType.kw_continue = 19
ordinal TokenType.kw_pass = 20
ordinal TokenType.kw_and = 21
ordinal TokenType.kw_or = 22
ordinal TokenType.kw_not = 23
ordinal TokenType.kw_true = 24
ordinal TokenType.kw_false = 25
ordinal TokenType.kw_null = 26
ordinal TokenType.kw_import = 27
ordinal TokenType.kw_from = 28
ordinal TokenType.kw_try = 29
ordinal TokenType.kw_catch = 30
ordinal TokenType.kw_finally = 31
ordinal TokenType.kw_throw = 32
ordinal TokenType.kw_this = 33
ordinal TokenType.kw_lambda = 34
ordinal TokenType.kw_extends = 35
ordinal TokenType.kw_implements = 36
ordinal TokenType.kw_interface = 37
ordinal TokenType.kw_super = 38
ordinal TokenType.kw_assert = 39
ordinal TokenType.kw_del = 40
ordinal TokenType.kw_with = 41
ordinal TokenType.kw_as = 42
ordinal TokenType.kw_match = 43
ordinal TokenType.kw_case = 44
ordinal TokenType.kw_enum = 45
ordinal TokenType.kw_yield = 46
ordinal TokenType.kw_go = 47
ordinal TokenType.kw_chan = 48
ordinal TokenType.kw_const = 49
ordinal TokenType.kw_send = 50
ordinal TokenType.plus = 51
ordinal TokenType.minus = 52
ordinal TokenType.star = 53
ordinal TokenType.slash = 54
ordinal TokenType.double_slash = 55
ordinal TokenType.percent = 56
ordinal TokenType.double_star = 57
ordinal TokenType.assign = 58
ordinal TokenType.eq = 59
ordinal TokenType.neq = 60
ordinal TokenType.lt = 61
ordinal TokenType.gt = 62
ordinal TokenType.lte = 63
ordinal TokenType.gte = 64
ordinal TokenType.arrow = 65
ordinal TokenType.dot = 66
ordinal TokenType.plus_eq = 67
ordinal TokenType.minus_eq = 68
ordinal TokenType.star_eq = 69
ordinal TokenType.slash_eq = 70
ordinal TokenType.double_slash_eq = 71
ordinal TokenType.percent_eq = 72
ordinal TokenType.double_star_eq = 73
ordinal TokenType.amp_eq = 74
ordinal TokenType.pipe_eq = 75
ordinal TokenType.caret_eq = 76
ordinal TokenType.lshift_eq = 77
ordinal TokenType.rshift_eq = 78
ordinal TokenType.amp = 79
ordinal TokenType.pipe = 80
ordinal TokenType.caret = 81
ordinal TokenType.tilde = 82
ordinal TokenType.lshift = 83
ordinal TokenType.rshift = 84
ordinal TokenType.lparen = 85
ordinal TokenType.rparen = 86
ordinal TokenType.lbracket = 87
ordinal TokenType.rbracket = 88
ordinal TokenType.lbrace = 89
ordinal TokenType.rbrace = 90
ordinal TokenType.comma = 91
ordinal TokenType.colon = 92
ordinal TokenType.ellipsis = 93
ordinal TokenType.at = 94
ordinal TokenType.question = 95
ordinal TokenType.double_question = 96
ordinal TokenType.walrus = 97
ordinal TokenType.newline = 98
ordinal TokenType.indent = 99
ordinal TokenType.dedent = 100
ordinal TokenType.end_of_file = 101
