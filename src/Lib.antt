-- ===== src/Lib.antt =====
-- Visuall: the compiler of the language Visuall, in C++ (src, include), and its tools (tools).
--
-- A source text goes through the lexer (src/lexer.cpp), the parser, the analyzers, the type checker
-- and the LLVM code generator. Among the tools is a language server with a formatter of sources, and
-- a package tool. This library models the lexer, the parser and the formatter, every routine of them,
-- the garbage collector of compiled programs (stdlib/gc.c), the dependency resolver
-- (src/vsl_resolver.cpp), and the name handling of the package tool.
--
-- Base: names shared by all modules, Boolean tests on the native numbers, lists with a native
--   length.
-- Lexer: src/lexer.cpp, include/lexer.h and include/token.h. The private state of the class is the
--   record Lexer of Lexer.Tokenize. Source, offset, line and column are a Cursor (Lexer.Cursor): the
--   bytes that are left, and where they start. A routine that may throw is a function into Run
--   (Lexer.Run), which keeps the cursor where the throw leaves it.
--   Token: TokenType, Token, the keyword table. Names, KeywordNames: tokenTypeToString, toString.
--   Cursor: peek, peekNext, advance, isAtEnd.
--   Comments: skipWhitespace, skipSingleLineComment, skipMultiLineComment.
--   Words: makeToken, errorAt, lexIdentifierOrKeyword, lexNumber. Operators: match, lexOperator.
--   Utf8, Strings: lexString, with its escapes. FStrings: lexFString.
--   Indentation: normalizeIndentation, handleIndentation. Tokenize: the constructor and tokenize.
--   Span, Landing: how far each routine moves, and the kind of token that it makes.
--   Rounds: the invariant of the loop in tokenize, kept by each round. Stream, Reports, EmptyLine:
--   what follows for the tokens and the errors of a whole text.
-- Ast: include/ast.h. Expr and Stmt have the nodes, without their positions. Clone: cloneExpr of
--   src/parser.cpp; Copies: what a copy keeps.
-- Parser: src/parser.cpp. The state of a Parser object is the record State of Parser.Monad: the token
--   that was consumed last, and those that are left. A routine is a function from a state to a Reply.
--   Monad: current, check, match, expect, advance, error, skipNewlines, and the loops.
--   Expressions, FStrings, Primary, Levels: the routines from parsePrimary up to parseExpression.
--   Types: parseTypeAnnotation. Headers, Params, Definitions: functions, classes, enums, interfaces.
--   Blocks, Simple, Statements: the other statements, and their dispatch. Program: synchronize, parse.
--   Progress: the tokens that each routine consumes, by a rule for each operation of Monad. Ends,
--   Chains, Returns, AtEnd: what follows for whole expressions, statements and files.
-- Formatter: tools/visuall-lsp/src/formatter.cpp. Lines: the routines on one line that look at its
--   head or its end. Spacing: normalizeOperators and normalizeCommas, two loops of rounds over a line
--   with the state Spacing; a round says how far it moves. Layout: format, with the blank lines that
--   it adds and removes. Shown, Kept, Format: what all of them leave of a text. Agrees, Indented:
--   its indentation beside the lexer's, and done twice.
-- Gc: stdlib/gc.c and stdlib/gc.h. Object: GCHeader, what marking reads behind it, find_gc_header.
--   Marking: mark_internal and mark_roots; the roots are the words that the globals, the stack and the
--   ready queue hold. Pool: fl_class_for, fl_pop, fl_push. Collector: the state, __visuall_gc_init,
--   sweep and __visuall_collect. Allocator: __visuall_alloc, __visuall_alloc_object. PtrMap: the hash
--   table from addresses to headers, and the list of objects that it stands for. Steps, Walk, Reach:
--   what marking marks. Sweep: what a collection keeps. Ends, Sound, Allocation, Runs, Room: the
--   invariants of the runs in which no collection strays. Reuse: the blocks that a pool gives again.
-- Packages: Paths has sanitizeUrlForCache of src/vsl_paths.cpp. Versions has parseSemver,
--   semverGreater and the merge step of resolveDeps in src/vsl_resolver.cpp; Newest has the order.
--   Resolver: resolveDeps, with its work queue, aliases and lock file, and the data of
--   include/vsl_manifest.h. Required: what a root requires. Queue, Closed, Weight, Loop: the rounds of
--   the loop and its invariant. Selects, Aliases: what follows for the lock file and for the aliases.
-- Tests: runs on concrete texts, and the theorems at concrete inputs.
--
-- A text is a list of bytes, each a number; where the code compares a `char`, bytes above
-- 127 fail the comparison as negative numbers and as numbers above 127 alike.
-- The counters are natural numbers, where the program has int and size_t. A message of an error is a
-- constructor of Message in place of the text, and the name of the file is left out.
--
-- The loop in tokenize runs on fuel, two rounds for each byte of the normalised source and two more:
-- two rounds without a step forward do not follow each other, since the first clears at_line_start.
-- lexString runs on fuel of one for each byte, since each round of its loop consumes one.
--
-- In the parser, a loop runs on fuel of one more than the tokens that are left, since each of its rounds
-- consumes one, and an expression, a statement or a type that contains itself likewise, since a token
-- stands before the inner one. The f-strings inside f-strings are fuel of their own, in embedded_at: the
-- depth to which they are nested; the theorems on the parser take any parser of the text between braces
-- that returns. std::stod is a parameter, by how it ends. A read through a null pointer is the reply
-- `fault`. A call of advance at the end of the file leaves the state as it is.
--
-- The loop of resolveDeps runs on fuel of one for each dependency of the root, and of each package among
-- finitely many that have all that is required: an item is queued only by a package that was not seen.
-- The fetcher of manifests is a parameter.
--
-- In the collector, the recursion of mark_internal runs on fuel of one more than the objects, since each
-- call below another has set a mark. malloc is a parameter, Memory, by the addresses that it returns.
-- A search in the hash table runs on fuel of its capacity.
-- A collection strays where marking follows a word that no object begins at, as an address inside an
-- object. The program then takes the bytes in front of it for a header and goes on; the model has no
-- such bytes and stops, with `stray` in Marking and `strayed` in Collector. Unstrayed, in Runs, is the
-- states of the runs without that, behind one call of __visuall_gc_init and before
-- __visuall_gc_shutdown, where the program writes to nothing but the payloads of the objects.
--
-- Not modelled: what follows the parser, the rest of the package tool (reading
-- manifests, fetching), of the language server and of the runtime in stdlib; in the collector, what
-- follows a stray mark or a write past the end of a block, and __visuall_gc_shutdown.
pub mod Ast
pub mod Base
pub mod Formatter
pub mod Gc
pub mod Lexer
pub mod Packages
pub mod Parser
pub mod Tests
