-- ===== src/Lib.antt =====
-- SnapSurf Stage 0: the Rust compiler of prototypes/rust_stage0.
--
-- The program reads a package manifest and the source files (package.rs, source.rs), turns the
-- bytes of a file into tokens (lexer.rs), the tokens into a syntax tree (parser.rs), checks the
-- tree (sema.rs), prints assembly (codegen.rs) and calls an assembler and a linker (driver.rs,
-- main.rs). All stages report through diagnostics (diagnostic.rs).
--
-- Prelude: the helpers. `text` gives the bytes of a string literal, `Run` is a computation that
--   returns, panics or runs out of fuel, `loop` runs a round on fuel, and `Post X P m` says that
--   `m` returns with `P` or panics where `X` holds, and never runs out of fuel. Prelude.Maps has
--   the association lists that stand for BTreeMap and BTreeSet.
-- Diagnostic, Token, Source, Package, Ast: the data of diagnostic.rs, token.rs, source.rs,
--   package.rs and ast.rs under prototypes/rust_stage0/src, with their functions. Source.Load is
--   `load_snapsurf`, Source.Utf8, Source.Encoded and Source.Loaded what it takes; Source.Lossy is
--   `String::from_utf8_lossy` of the standard library. Package.Words
--   has what package.rs uses of `str`, Package.Fields the lines of surf.pkg, Package.Load the checks
--   of the package, with the file system as a parameter, Package.Versions and Package.Valid what
--   holds of a package that is loaded, and Package.Semver what a version is.
-- Lexer: prototypes/rust_stage0/src/lexer.rs. The fields that change are the record `Lexer`, the
--   source file is a parameter. Lexer.Cursor has `advance`, `peek`, `pos` and the spans,
--   Lexer.Scan one function per `lex_*` method with its loop's round by itself, Lexer.Main the
--   dispatch and `lex`. Each loop has one unit of fuel more than the file has bytes: each round
--   moves the index. Reading past the end is a panic, as indexing a slice is. Lexer.Positions
--   has the line and the column of an index, Lexer.Tiles what tokens that cover a file are, and
--   Lexer.Loops, Lexer.Quoted, Lexer.Tokens and Lexer.Ints take the methods to Lexer.Dispatch
--   and Lexer.Sound.
-- Parser: prototypes/rust_stage0/src/parser.rs. `Parse` is a step on the record `Parser`, with
--   the tokens, the path and the number of the file as parameters. Parser.Cursor has `bump`,
--   `expect`, `error` and the loops that skip tokens, Parser.Literals the values of literals,
--   Parser.Exprs paths, types and expressions, Parser.Stmts statements and blocks, Parser.Items
--   functions, items and `parse`. Functions that call each other take fuel: for expressions one
--   unit for each call, and five for each token that is left are enough; for statements one unit
--   for each of them in a block, and one for each token is enough; the loop of `parse` has its
--   fuel as an argument, since there are tokens on which it does not end. Parser.Moves says how
--   the operations move, Parser.Numerals and Parser.Quotes say what the literals are,
--   Parser.Strings, Parser.Primary and Parser.Total take expressions to their end, Parser.Steps
--   has the steps that end and never go back and what they compose to, Parser.Blocks and
--   Parser.Closed take them to blocks, Parser.Params and Parser.Rounds to the rounds of `parse`,
--   Parser.Stuck to the tokens on which it stays, Parser.Files to whole files.
-- Sema: prototypes/rust_stage0/src/sema.rs. `self.diagnostics` is only pushed to, so a method
--   gives its diagnostics with its result (Sema.Emit); the table of functions is read only once
--   it is built, and `FnCtx` is handed from statement to statement. Sema.Types has the types and
--   literals, Sema.Exprs `expr_type`, `call_type` and `require_type`, Sema.Stmts the statements,
--   functions and `check_program`. Next to these stand the rules by themselves: Sema.Typing for
--   expressions, Sema.WellFormed for statements, functions and programs
--   (Sema.WellFormed.Returning compares `block_returns` with its rule), Sema.Flow for the ways
--   in which a statement can end, Sema.Bounds for the range of the integer types.
--
-- Codegen: prototypes/rust_stage0/src/codegen.rs. What an operation appends to `asm` is its
--   result, a list of lines (Codegen.Asm, with their text); `strings` and `label_id` are handed
--   on. Codegen.Exprs has the code of expressions, Codegen.Stmts that of statements and the
--   table of variables, Codegen.Fns functions and files. Codegen.Labels, Codegen.Targets,
--   Codegen.Tidy and Codegen.Jumps say which labels the lines define and refer to, up to
--   functions in Codegen.FnLabels, and Codegen.Scopes what the names of labels stand for to
--   nasm, up to files in Codegen.Items and Codegen.Links. Codegen.Locals follows the names of
--   sema.rs through `collect_locals`, up to Codegen.Accepted. Codegen.Machine is a processor for
--   the lines of expressions, with the arithmetic that is not addition, subtraction or
--   multiplication of words, and the functions that are called, as parameters;
--   Codegen.Operators, Codegen.Args and Codegen.Values run the code on it. Codegen.Points adds
--   the jumps, Codegen.BigStep says what statements do, Codegen.Routes and Codegen.Leaps where
--   emitted lines lead, Codegen.Correct, Codegen.Rounds, Codegen.Ifs, Codegen.Loops,
--   Codegen.Whiles and Codegen.Preserves go through the statements, Codegen.Bodies finds the
--   body of a function in the code of its file, and Codegen.Arrivals follows it to the epilogue.
--   Codegen.Slots is about the offsets of variables, Codegen.Bools about the words of type bool.
-- Driver: prototypes/rust_stage0/src/driver.rs, the stages in their order; Driver.Stages is what
--   they hand to each other. Driver.Build has `init`, `run_build`, `run_executable` and `clean`:
--   what they do to files and which commands they run is a log, and what the system answers
--   after a log is a parameter. Driver.Built is what a build that succeeds has done.
-- CommandLine: prototypes/rust_stage0/src/main.rs, with the current directory as an argument of
--   `real_main`, and what is printed and the exit code as its result. CommandLine.Ends has the
--   rules for how the program ends, CommandLine.Exits that it does.
--
-- Machine integers: `usize` positions and depths are natural numbers, since they count bytes of a
-- file in memory and nested statements, and never pass 2^64; the `u128` value of a literal is the
-- number that the parser stored.
--
-- Machine integers in the code generator: an offset is an `i32`, kept as a number below 2^32.
--
-- Not modelled: the compiler in assembly (compiler/), the runtime, the build files and the samples.
pub mod Prelude
pub mod Diagnostic
pub mod Token
pub mod Source
pub mod Lexer
pub mod Package
pub mod Ast
pub mod Parser
pub mod Sema
pub mod Codegen
pub mod CommandLine
pub mod Driver
