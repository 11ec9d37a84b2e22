-- ===== src/Lib.antt =====
-- wasitter runs tree-sitter as a WebAssembly guest from Go. The host compiles and validates
-- queries, evaluates their predicates, filters their matches by range and depth, and walks trees.
-- This library models that host-side logic, for any guest.
--
-- How the parts interact: `NewQuery` (query.go) checks a query's text, with the structural
-- validation of query_fallback_validate.go where the guest compiles no queries, and reports an
-- error with its row and column. Of a compiled query the guest keeps the predicates of each pattern
-- as a list of steps. `validateNativePredicates` refuses bad ones; `publicPredicatesFromSteps` and
-- `textPredicatesFromSteps` turn the steps into what callers see and what the host evaluates. A
-- match is kept if `satisfies` or `satisfiesWithText` holds of it, and if it lies within the
-- cursor's limits (`filterFallbackMatches`). `Iterator` (compat_iter.go) walks the nodes of a tree.
--
-- Prelude, with Prelude/Tests, Prelude/Lists and Prelude/Text: library names, Boolean tests on
--   native numbers, lists measured by them, and byte strings with what the code uses of Go's
--   `strings`.
-- Lexer: the scanners of query text (query.go `skipQueryComment`, `skipQueryQuoted`,
--   `skipQueryWhitespace`, `skipFallbackSpace`, `fallbackCaptureToken`,
--   `scanTextPredicateOperator`; query_fallback_validate.go `skipSpace`, `scanIdentifier`).
--   Lexer/Bounds: where they end.
-- Diagnostic: query.go `sourcePosition` and `fallbackSyntaxError`; Diagnostic/Position: where they
--   point.
-- Structure: query_fallback_validate.go. Structure/Arguments, Structure/Nodes and
--   Structure/Patterns have one function for each method of `fallbackStructureParser`, a function
--   `..._at` for a body behind the test of the next byte, and `..._loop` for a loop.
--   Structure/Bounds, Structure/NodeBounds and Structure/PatternBounds are about where each ends;
--   Structure/Brackets, Structure/Matching, Structure/NodeMatching and Structure/PatternMatching
--   are about the stack of open brackets.
-- Node: types.go `Point`, node.go `comparePoint`, query.go `nodeTextBytes`.
-- Predicate: Predicate/Steps (steps, operators, `predicateSemantics`), Predicate/Validate
--   (`validateNativePredicates`, `propertyValidationMessage`), Predicate/Extract and
--   Predicate/Collect (`textPredicatesFromSteps`, `publicPredicatesFromSteps`,
--   `publicPropertyFromSteps`), Predicate/Evaluate (`satisfiesWithTextBuffer`,
--   `evaluateTextPredicateBytes`), Predicate/Retained (`satisfies`, `evaluateTextPredicate`,
--   `satisfiesWithText`). Predicate/Agreement and Predicate/Complete compare validation and
--   extraction; Predicate/EvaluateLaws, Predicate/AnyOfLaws are about evaluation,
--   Predicate/RetainedLaws and Predicate/BufferLaws about the two evaluators.
-- Fallback: query.go, the predicates in a query's text. Fallback/Tokens
--   (`fallbackPredicateTokens`), Fallback/Validate (`validateFallbackPredicate`), Fallback/Scan
--   (`scanTextPredicateEnd`, `scanFallbackPredicateGroups`, `validateFallbackPredicates`),
--   Fallback/Metadata (`fallbackPropertyFromTokens`, `fallbackMetadataFromSource` but for its text
--   predicates). Fallback/TokensLaws and Fallback/ScanBounds are about where they end;
--   Fallback/Agreement and Fallback/MetadataLaws compare them with Predicate; Fallback/Complete and
--   Fallback/Kept put them together.
-- Range: Range/Overlap (`nodeIntersectsByteRange` and its three companions), Range/Filter
--   (`filterFallbackMatches`, `fallbackMatchAllowedLocked`, `fallbackCaptureAllowedLocked`,
--   `nodeDepthFromRoot`), Range/Laws (what they mean).
-- Iterator: compat_iter.go `Iterator`, `NewIterator`, `NewNamedIterator`, `Next`, `ForEach`,
--   `Close`; Iterator/Order and Iterator/Levels: the order of the nodes.
-- TreeCursor: cursor.go `fallbackVisibleSubtreeCount`, `fallbackChildDescendantIndex`,
--   `saturatingU32Add` and `fallbackPathToNode`; TreeCursor/Ancestors: the fields of a cursor,
--   `pushFallbackAncestor` and `popFallbackAncestor`; TreeCursor/Native: what a call of the guest
--   does to them; TreeCursor/Moves, TreeCursor/Across and TreeCursor/Descend: the moves.
--   TreeCursor/Counts and TreeCursor/Paths are about the indexes; TreeCursor/Located says what a
--   sound path is, TreeCursor/Places where its node stands in preorder; TreeCursor/MoveLaws,
--   TreeCursor/Neighbours, TreeCursor/AcrossLaws, TreeCursor/DescendLaws, TreeCursor/Reached and
--   TreeCursor/NativeLaws are about the moves, and TreeCursor/Runs has sequences of them.
-- Navigation: node.go, the searches among a node's descendants (`descendantFallback`,
--   `descendantPointFallback`, `firstChildForByteFallback`) and the functions that call them where
--   the guest has none of its own; Navigation/Narrowed and Navigation/Ranges: what they find.
--   Navigation/Sexp: `ToSExpression`, `DescendantCount` and `fieldNameForChildFallback`.
-- Utf16: node.go `Utf16Text` and `utf16UnitRangeForUTF8Bytes`; Utf16/Laws, Utf16/Covered and
--   Utf16/Bounds: the units that they give.
-- QueryCursor: query.go `QueryCursor` for a query whose matches the host finds. QueryCursor/State:
--   its fields; QueryCursor/Options: the setters and getters; QueryCursor/Stream: `Exec`,
--   `NextMatch`, `NextCapture`, `RemoveMatchE`, `Close`. QueryCursor/OptionLaws,
--   QueryCursor/MatchLaws and QueryCursor/CaptureLaws are about these; QueryCursor/Runs has
--   sequences of calls, and QueryCursor/Clean, QueryCursor/Invariant and QueryCursor/Removal are
--   about them.
-- MatchKey: query_iter.go `queryMatchKey`; MatchKey/Laws: what it tells. Matches: query_iter.go,
--   the sequences of matches and captures and the keys of captures; Matches/Laws and
--   Matches/Captures: what their `Next` gives.
-- Wire: the records that host and guest exchange (runtime.go `putU32`, `packPoint`; parser.go
--   `encodeRanges`, `encodeInputEdit`; tree.go `decodeRanges`, `pointForBytes`); Wire/RoundTrip:
--   what is read back.
-- Parser: parser.go. Parser/IncludedRanges: `SetIncludedRanges`, whose calls of the guest are the
--   fields of a record; Parser/RangeLaws: what it accepts. Parser/Input: `collectUTF8Input`;
--   Parser/InputLaws: what it collects.
-- Archive: internal/grammarbuild. Archive/Names: registry.go `validateArchivePath` and the parts of
--   a name; Archive/Extract: archive.go `ExtractTarGz`, entry by entry, with what the file system
--   answers as fields of the entry; Archive/Below and Archive/ExtractLaws: which paths it makes.
--   Archive/Registry: registry.go `Validate` and `Lookup`; Archive/RegistryLaws: what is found.
-- Command: cmd/wasitter-build/main.go. Command/Args: `reorderGrammarArgs`; Command/Mount:
--   `appendBindMount`, `dockerMountField`; Command/ArgsLaws, Command/Flags and Command/MountLaws
--   are about the two. Command/Csv is a reader of comma-separated values, as Docker reads the
--   argument; Command/Newlines is about the newlines in it.
-- Tests: runs on concrete values, in Tests/StructureTests, Tests/PredicateTests, Tests/MatchTests,
--   Tests/RangeTests, Tests/IteratorTests, Tests/TreeCursorTests, Tests/MoveTests,
--   Tests/NavigationTests, Tests/SexpTests, Tests/CollectedTests, Tests/Utf16Tests,
--   Tests/ParserTests, Tests/CommandTests, Tests/CursorTests, Tests/FallbackTests,
--   Tests/ArchiveTests and Tests/RegistryTests.
--
-- Representation: text is a list of bytes. A scanner's result is the position that Go has, with the
-- text behind it. An error of the predicate checks is the data that Go formats into its message. A
-- depth is taken modulo 2 ^ 32 where Go's type is uint32; byte offsets are only compared.
--
-- Fuel: the structural parser recurses on fuel, one more than the length of the text for the parser
-- and for each loop; each call consumes a byte before the next one. `for_each` runs on fuel, one
-- unit for each node and one for the end. The scans of Fallback run on one unit for each byte and
-- one for the end; each round passes over a byte. `collect_utf8_input` runs on Go's own limit of
-- calls.
--
-- Parameters, for what the modelled code calls and is no part of the model: strconv.Unquote,
-- path.Clean, strings.ToLower, strings.TrimSpace, unicode.IsControl, strconv.Quote,
-- strconv.FormatUint, utf16.Decode and the lengths of UTF-8 code points, regexp.Compile and
-- Regexp.MatchString; the string and capture tables and the pattern offsets of a query, which the
-- guest keeps; Node.Equal, Node.Parent and the siblings of a node, which call the guest; what the
-- guest answers to a move of the tree cursor. A node is the values of its accessors. What Range and
-- QueryCursor ask of a match's predicates (`satisfiesQueryMatchLocked`, which Predicate/Evaluate
-- models) and of the matcher is a function and a list that they are given.
--
-- Not modelled: the guest itself and the calls into it (most of runtime.go, parser.go and tree.go,
-- language.go, lookahead.go, most of node.go), locks, handles and their release; the loops over
-- named siblings, the field and the resets of the tree cursor (cursor.go), the setters and the
-- replay of ranges in query_iter.go, the pattern compiler of query.go that serves guests without
-- queries, and most of the grammar build (internal/grammarbuild, cmd/wasitter-build), which is
-- files and processes. The C sources under internal/wasm are not Go.
pub mod Prelude
pub mod Lexer
pub mod Diagnostic
pub mod Structure
pub mod Node
pub mod Predicate
pub mod Range
pub mod Iterator
pub mod TreeCursor
pub mod Wire
pub mod Parser
pub mod Command
pub mod QueryCursor
pub mod Fallback
pub mod Archive
pub mod Navigation
pub mod Utf16
pub mod MatchKey
pub mod Matches
mod Tests
