-- ===== src/Lib.antt =====
-- A model of the linter that the repository runs on its C++ sources (build_support/cpplint.py, called
-- by the target `check-lint` of CMakeLists.txt), with the theorems that make its parts correct.
--
-- The linter keeps a state for the whole run (class `_CppLintState` and module variables), reads each
-- file into lines, cleans the lines of strings and comments, and hands them to checks, which follow the
-- includes, the functions and the brackets and report to the handler `Error`. `Error` asks the NOLINT
-- suppressions, the verbosity and the filters whether to print.
--
-- Files (functions and classes are those of build_support/cpplint.py):
--   Prelude, Text, Dict    numbers, lists, Python's `str` over code points, dictionaries
--   Regex                  Python's `re`: patterns as data, a backtracking matcher; Reads
--                          relates the positions before and after a match, Search says
--                          where a search ends
--   Extensions             `ProcessExtensionsOption`, `ProcessHppHeadersOption` and their readers
--   State                  `_CppLintState.__init__` and the module's variables, in one record `World`
--   LintState              the methods of `_CppLintState`; Filters and Counts prove about them
--   Categories, Suppress   the category tables; `ParseNolintSuppressions`,
--                          `ProcessGlobalSuppresions`, `ResetNolintSuppressions`,
--                          `IsErrorSuppressedByNolint`; Comment has what the pattern of NOLINT
--                          finds in a line
--   ErrorLog               `_ShouldPrintError` and `Error`; Nolint has what a NOLINT comment
--                          suppresses where `Error` is the handler
--   FunctionState          class `_FunctionState`; Lengths has `CheckForFunctionLengths`
--   IncludeState           class `_IncludeState`
--   Expression             `FindEndOfExpressionInLine`, `CloseExpression` and their reverses
--   Cleanse                `IsCppString`, `RemoveMultiLineComments`, `CleanseComments`; Raw has
--                          `CleanseRawStrings`, Lines has class `CleansedLines`
--                          (RawPattern, RawLoop, StringPattern and StringLoop are
--                          about their patterns and loops)
--   Int, Logged            integers; results that may fail and carry reports
--   Nesting                classes `_BlockInfo`, `_ExternCInfo`, `_ClassInfo`, `_NamespaceInfo`,
--                          `_PreprocessorInfo`, `NestingState`: the data and the questions. Blocks
--                          has `CheckBegin`, `CheckEnd` and `GetIndentLevel`, Preprocessor
--                          `UpdatePreprocessor`, Template `InTemplateArgumentList`, Heads and
--                          Update the parts of `Update` in their order. Regions has the trees of
--                          conditionals, and an evaluation of them; Bodies counts braces
--   LineChecks             `CheckForMultilineCommentsAndStrings`, `CheckPosixThreading`,
--                          `CheckVlogArguments`, `CheckInvalidIncrement`,
--                          `CheckMakePairUsesDeduction`; Blank has `GetPreviousNonBlankLine` and
--                          `CheckSectionSpacing`, Namespaces `CheckForNamespaceIndentation`,
--                          Virtual `CheckRedundantVirtual` and `CheckRedundantOverrideOrFinal`,
--                          Features `FlagCxx11Features` and `FlagCxx14Features`, Functions
--                          `IsDerivedFunction`, `IsOutOfLineMethodDefinition`, `IsInitializerList`
--   TextInside             `_GetTextInside`, for patterns with neither `^` nor `$`, since the
--                          flag `re.M` of its search is left out; Nested has the texts whose
--                          brackets match
--   FileChecks             `CheckForBadCharacters`, `CheckForNewlineAtEOF`, and the lines that
--                          `ProcessFile` and `ProcessFileData` make of a text
--   Tests                  runs on concrete inputs, and the theorems at concrete inputs
--
-- State that the source mutates is passed and returned as a record; an exception is `none`, or a message
-- beside the state. Texts are lists of code points, and the character classes (`\s`, `\w`, `\d`, `lower`,
-- `strip`) are those of the ASCII characters. Line numbers, counts and the verbosity are natural numbers.
-- A position of -1 is `none`. The result of `math.log(lines / base, 2)`, cut off and capped at 5, is
-- modelled exactly, as the number of times that the base can be doubled. Of the object that
-- `previous_stack_top` shares with the stack, its place in the stack is kept.
--
-- Loops over the characters or lines are structural recursions, but for six. The loop of
-- `RemoveMultiLineComments` runs on as many rounds as there are lines, and one more: each round but the
-- last passes a line. The loop for raw strings of a line, that of `_CollapseStrings` and the two loops
-- of `Update` run on as many rounds as the line has characters, and one more: each round makes what is
-- left shorter. The loop of `InTemplateArgumentList` runs on as many rounds as there are characters and
-- ends of lines left, and one more: each round passes one of them. A repetition in a pattern runs at
-- most as often as characters are left, since a round that does not advance ends it.
--
-- Not modelled: the XML report, the command line, files and configuration files, and those checks of
-- lines that are not listed above; the benchmarks' plots, which only call the plotting library; and the
-- C++ headers under lamp/.
pub mod Prelude
pub mod Text
pub mod Regex
pub mod Dict
pub mod Extensions
pub mod Int
pub mod State
pub mod Logged
pub mod LintState
pub mod Categories
pub mod Suppress
pub mod ErrorLog
pub mod FunctionState
pub mod IncludeState
pub mod Cleanse
pub mod Expression
pub mod Nesting
pub mod FileChecks
pub mod LineChecks
pub mod TextInside
pub mod Tests
