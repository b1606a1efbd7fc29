-- ===== src/Lib.antt =====
-- mlir-rustc
--
-- A compiler for Rust in C++ on top of MLIR. This library models parts of it that stand beside
-- MLIR: the lexer, the names and paths, the scopes of the name resolver, the test whether two types
-- can be equal, the unification of types, the mangler of symbols, the reader of Cargo.toml, the
-- layout of types on AArch64 and parts of the parser. A definition stands for a function or a loop
-- of the source and takes the state that it changes as an argument. Numbers are natural numbers,
-- and the sums on `unsigned` in the lexer are taken modulo 2^32; text is the list of its bytes, a
-- name the list of its code points.
--
-- A run of code that can fail is an `Outcome` (Prelude/Runs.antt): `ok` with the result, `exited` for
-- `exit(EXIT_FAILURE)`, `aborted` for a failed `assert` or an exception that nothing catches,
-- `undefined` for undefined behaviour such as a read past the end or a cast to a class that the
-- object is not of, `diverges` for a loop that leaves its state as it was, and
-- `out_of_fuel`, which has no counterpart in the program.
--
-- Lexer: code/lexer and code/include/Lexer.
--   Lexer/KeyWords.antt    KeyWords.h and KeyWords.cpp: the table of keywords and both searches.
--   Lexer/Token.antt       Token.h, Token2String of Token.cpp, and code/include/Location.h.
--   Lexer/Scan.antt        the scanners tryLex* of Lexer.cpp that `lex` calls.
--   Lexer/Lex.antt         `lex` of Lexer.cpp. LexState holds the locals of its loop; lex_round is a
--                          round, of which lex_item is what follows the white space; Lex/Rules.antt
--                          is the chain of starts_with tests as a table. lex_loop runs on fuel, one
--                          unit for each byte and one more: a round takes a byte off at least.
--
-- Adt: code/ADT and code/include/ADT.
--   Adt/Names.antt         Utf8String.h and Utf8String.cpp, which Identifier passes on.
--   Adt/Paths.antt         CanonicalPath.h and CanonicalPath.cpp.
--
-- Resolver: code/sema/Resolver/Resolver.h and Resolver.cpp.
--   Resolver/Maps.antt     std::map with node ids as keys, as a list of entries.
--   Resolver/PathMaps.antt std::map with paths as keys, a parameter. Its laws ask that operator< of
--                          CanonicalPath is a strict weak order of the keys, which it is not of all.
--   Resolver/Ribs.antt     Rib: insertName, clearName, lookupName and the other members.
--   Resolver/Scopes.antt   Scope, the stack of ribs with the outermost first, and declNeedsCapture.
--                          Its ribs are values: no two entries of a stack are the same object.
--   Resolver/Closures.antt insertCapturedItem, insertResolvedName and the closure context, with
--                          what code/TyCtx/TyCtx.cpp records of captures and names.
--
-- TyTy: the types of the type checker.
--   TyTy/Types.antt        code/include/TyCtx/TyTy.h, as far as canEqual reads it. A type variable
--                          stands for the type that the type context finds for it, so a type is a
--                          finite tree. A field of a variant is a pointer, null or an address.
--   TyTy/Compare.antt      code/include/TyCtx/Compare.h, one definition for each class, and
--                          canEqual and boundsCompatible of code/TyCtx/TyTy.cpp. The recursion is on
--                          the type whose member is called.
--
-- Unification: code/TyCtx/Unification.cpp.
--   Unification/Store.antt  the type objects of code/include/TyCtx/TyTy.h at addresses, the map
--                          `resolved` of code/TyCtx/TyCtx.cpp and the counter of node ids of
--                          code/Basic/Ids.cpp. Store/Commands.antt has the accessors and
--                          Store/Clones.antt the members clone of code/TyCtx/TyTy.cpp.
--   Unification/Expect.antt expect and its members; they are given clone and unifyWithSite.
--   Unification/Unify.antt  unify, commit and unifyWithSite. The recursion is on fuel, since a type
--                          variable can name a type that holds it: one unit for each level of types,
--                          and one more for a clone.
--
-- Toml: code/toml and code/include/Toml.
--   Toml/Values.antt       tokens, pairs, tables and documents, with getNrOfTokens.
--   Toml/Lex.antt          tryLexToml of TomlLexer.cpp, on fuel: one round for each byte and one more.
--   Toml/Parse.antt        tryParse of Parser.cpp and readToml of Toml.cpp. Each loop runs on fuel, one
--                          round for each token and one more; a round of tryParse that takes no
--                          token off is followed by the same round for ever.
--
-- Mangler: code/Mangler/Mangler.cpp.
--   Mangler/Digits.antt    toBase62 and the decimal and hexadecimal numbers; the loop runs on fuel, one
--                          more than the value, which every round divides.
--   Mangler/Basic.antt     tryBasicType, as a table.
--   Mangler/Mangle.antt    mangle and its members for types, paths and generic arguments. The two
--                          static counters are a state, and undefined above INT_MAX; an array has the
--                          value of its length.
--
-- Target: code/TargetInfo and code/include/TargetInfo.
--   Target/Types.antt      Types.h, Struct.h and Actions.h; numbers of the type size_t are taken modulo
--                          2^64.
--   Target/Sizes.antt      getSizeOf and getAlignmentOf of Linux/AArch64.cpp.
--   Target/Structs.antt    getStruct of Linux/AArchStructBuilder.cpp; Layout holds its locals.
--   Target/Classes.antt    the classes of types of AArch64.cpp, from isHomogeneousAggregate on.
--   Target/Calls.antt      getCall, as the list of its calls of addAction, which has no body.
--
-- Parser: code/parser. The tokens from the parser's offset on stand for the stream.
--   Parser/Tokens.antt     the members of Parser.cpp that look at tokens, from check on.
--   Parser/TokenTrees.antt DelimTokenTree.cpp and code/ast/DelimTokenTree.cpp. The loops run on fuel,
--                          one round for each token and one more.
--   Parser/Paths.antt      parseSimplePath of Path.cpp and parseVisibility of Parser.cpp; the loop runs
--                          on one unit of fuel for each token that is left and one more.
--   Parser/UseTrees.antt   UseTree.cpp and UseDeclaration.cpp, on fuel that the caller gives, since not
--                          every call of parseUseTree ends.
--   Parser/MacroItems.antt checkMacroItem of Parser.cpp.
--   Parser/Macros.antt     parseMacroMatch, parseMacroMatcher and their parts of MacroRules.cpp.
--   Parser/MacroRules.antt the rules and the definitions of macros of MacroRules.cpp; both run on fuel
--                          that the caller gives, since their loops need not end.
--   Parser/RangePatterns.antt
--                          RangePattern.cpp; parsePathExpression is a parameter.
--   Parser/Attributes.antt Attributes.cpp, with one loop for both kinds of attributes, on fuel that the
--                          caller gives; parseExpression is a parameter.
--   Parser/Precedence.antt Precedence.cpp.
--
-- Scoped: the tables that forget what a block inserted.
--   Scoped/Tables.antt     code/include/ADT/ScopedHashTable.h; the chain of scopes is a list of maps,
--                          whose keys have an equality test as a parameter.
--   Scoped/Ribs.antt       Rib of code/sema/Rib.cpp and code/include/Sema/Rib.h.
--
-- The lexer makes the tokens whose names the resolver stores as segments of paths; paths are the keys
-- of the ribs; types hold names and node ids. Unification works on objects of the types that canEqual
-- compares. Locations are shared by tokens and declarations; the reader of TOML shares the tests of
-- bytes with the lexer. The parser reads the lexer's tokens; the target's types stand on their own.
--
-- Not modelled: the parser of expressions, most patterns, types, statements and items, type checking,
-- unification of algebraic data types, functions, closures and parameters, the second lexer
-- (code/lexer/Lexer2.cpp) and constant evaluation; and whatever builds or transforms MLIR
-- (crate_builder, hir, mir, Lir, Optimizer, analysis, codegen), whose data structures belong to
-- MLIR and LLVM. The output that the code prints is left out, as are tryLexChar, which `lex` does
-- not call, and Utf8String::getAsBytes, which rests on ICU.
pub mod Prelude
pub mod Lexer
pub mod Adt
pub mod Resolver
pub mod TyTy
pub mod Mangler
pub mod Parser
pub mod Scoped
pub mod Target
pub mod Toml
pub mod Unification
