-- ===== src/Lib.antt =====
-- A verification library for the Swift compiler and runtime: the lexer, the parser's token stream
-- and recovery, the diagnostic engine, parts of the type checker, structure layout, the mangling of
-- types, the cleanups of SIL generation, and the runtime's allocator, reference counts, metadata
-- and printing of numbers.
--
-- The parts and how they interact. The lexer (lib/Parse/Lexer.cpp) turns a buffer into tokens, one
-- ahead of the parser. The parser (lib/Parse/Parser.cpp) holds the current token, asks the lexer
-- for the next, and skips tokens to recover from errors. It leaves an expression with operators as
-- a sequence, which the type checker folds by the operators' precedence
-- (lib/Sema/TypeCheckExpr.cpp); the constraint solver then unifies type variables, matches types
-- and picks the best of the solutions that it finds (lib/Sema/TypeCheckConstraints.cpp). All of
-- them report through the diagnostic engine (lib/AST/DiagnosticEngine.cpp), which formats a text
-- and calls a consumer. SIL generation keeps a stack of cleanups (lib/SIL/SILGen/Cleanup.cpp) that
-- scopes end and branches thread through. IR generation lays out structures
-- (lib/IRGen/StructLayout.cpp) and gives symbols their names (lib/IRGen/Mangle.cpp). The program
-- that is compiled calls the runtime for objects, blocks and reference counts (runtime/Alloc.cpp),
-- for the metadata of types and for casts (runtime/Metadata.cpp), and for the text of numbers
-- (runtime/Stubs.cpp).
--
-- Where each part is modelled:
-- - Base: numbers, lists, loops on fuel and results that may fail.
-- - Parse.Utf8: EncodeToUTF8, CLO8, isStartOfUTF8Character and validateUTF8CharacterAndAdvance.
--   Parse.Chars: the C library's character classes in the "C" locale, and those of identifiers.
-- - Parse.Token: include/swift/Parse/Token.h.
-- - Parse.Lexer: State (the Lexer's fields, formToken, isPrecededBySpace), Comments, Identifiers,
--   Operators, Numbers, Characters, Strings, Encoded (getEncodedStringLiteral) and Main (lexImpl,
--   lex, getTokenKind, getLocForEndOfToken). Bounds, Nesting, Escapes and Overrun hold the proofs.
-- - Parse.Parser: consumeToken, consumeIf, skipUntil and its variants, parseToken,
--   parseMatchingToken, parseIdentifier, isStartOfDecl; Recovery holds the proofs.
-- - Ast.DiagnosticText: skipToDelimiter, formatSelectionArgument, formatDiagnosticArgument and
--   formatDiagnosticText; Options, Pieces and Nested hold the proofs. Ast.DiagnosticEngine:
--   DiagnosticEngine and InFlightDiagnostic; Reports holds the proofs.
-- - Sema.Folding: getInfixData, foldSequence and visitSequenceExpr, with Associativity and
--   InfixData of include/swift/AST/Attr.h; Precedence holds the proofs. Sema.TypeVariables:
--   getRepresentative, mergeEquivalenceClasses, getFixedType, assignFixedType and
--   restoreTypeVariableBindings; Roots, Classes and Types hold the proofs. Sema.Ranking:
--   findBestSolution; Best holds the proofs. Sema.Tuples: matchTupleTypes, with getNamedElementId
--   of lib/AST/Type.cpp; Shuffle, Matching and Positional hold the proofs. Sema.Functions:
--   matchFunctionTypes, without proofs.
-- - IrGen.StructLayout: the constructor of StructLayout; Placement holds the proofs. IrGen.Mangle:
--   the Mangler without its entities; Reader reads mangled types back, Words, Keys, Contexts,
--   Parts, Types and Ambiguity hold the proofs.
-- - SilGen.Cleanup: CleanupManager and Scope; Scopes holds the proofs.
-- - Runtime.Classes: the size classes; Runtime.Alloc: the caches; Runtime.FreeLists: what they
--   stand for; Runtime.Counts: swift_retain and swift_release. Runtime.Printing: print_int and
--   print_uint; Digits holds the proofs. Runtime.Metadata: the caches, swift_getGenericMetadata,
--   swift_getFunctionTypeMetadata, swift_getMetatypeMetadata, swift_getTupleTypeMetadata and
--   swift_dynamicCast; Unique, Types, Layout and Casts hold the proofs.
--
-- How state and operations correspond. A pointer into a buffer is the list of the bytes from it to
-- the end of the readable memory, so a comparison of pointers compares lengths, and a read of the
-- empty list is a read outside the memory. `none` is such a read, a failed assertion, a trap, or
-- fuel that has run out; `Returns` says that none of these happens. A C++ object that operations
-- change is a record that they take and return. Words of 32 and of 64 bits wrap where the code
-- computes in them. The diagnostics that the lexer, the parser and the folding emit are a list in
-- the state.
--
-- Fuel. The loops of the lexer take the length of the rest of the memory plus one, since every
-- round but the last consumes a byte; the parser's loops take that plus two for the tokens in hand,
-- since every token but `eof` takes a byte. The loop of endScope takes the height of the stack plus
-- one. The folding takes the length of the sequence, since every two calls take an operator and an
-- operand. Following the links of a type variable takes its ID plus one, since a link leads to no
-- newer variable. Formatting takes the length of the text plus one, for its recursion too. The
-- digits of a number take 128, the number of its bits. A cast takes the length of the chain of
-- superclasses plus one. Reading a mangled type takes the size of the type. The retry loop of
-- swift_slowAlloc has a fuel of its own, for it waits until memory is free.
--
-- Parameters. The C library's allocator is a record of malloc, calloc and free on a state of its
-- own. `operator new` is a function on another. LLVM's hexdigit and RoundUpToAlignment, and the
-- reading of the superclass of a class and of the metadata and value witnesses of a type are
-- functions. What a cleanup emits and the builder's branch are functions. How the stream prints a
-- number, how the mangler mangles the contexts inside functions, the kinds and texts of the
-- diagnostics, whether two types are equal, and compareSolutions are functions too. So is the
-- recursive call of matchTypes, on a state that stands for the constraint system. A type's size,
-- its alignment and the alignment that LLVM gives it are fields. LLVM's small vectors, string
-- references and bit counts are lists and arithmetic.
--
-- Not modelled. Parsing to syntax trees, name lookup, the rest of type checking, SIL and IR
-- generation at large, the value witnesses of tuples and the source manager: they build graphs of
-- objects or call LLVM and clang throughout. compareSolutions is left out, because the matching of
-- types gathers what it compares. The mangling of entities is left out, and so is the explosion
-- level of types, which the mangler passes on and does not look at. The assembly entry points of
-- the runtime are modelled by their portable C++ versions. In swift_release the metadata's destroy
-- function is only recorded.
pub mod Base
pub mod Parse
pub mod Runtime
pub mod IrGen
pub mod SilGen
pub mod Sema
pub mod Ast
