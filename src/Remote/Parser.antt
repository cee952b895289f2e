-- ===== src/Remote/Parser.antt =====
-- src/remote_rule/parser.rs
use load_ants.Prelude.Words.{starts_with}
use load_ants.Prelude.{◌||◌, List, [], ◌∷◌, ◌++◌, none, some, is_empty, if◌then◌else◌}
use load_ants.Prelude.Texts.{Text, codes, text_eq, strip_prefix, trim, lines}
use load_ants.Errors.{Result, ok, err, AppError, not_implemented}
use load_ants.Config.Rule.{MatchType, exact, wildcard, regex}

abbrev pub ParsedRule : Type 0
ParsedRule = Text × MatchType

-- `push`, unless the text is empty.
abbrev pub push_some : List ParsedRule → Text → ParsedRule → List ParsedRule
push_some rules text rule = if is_empty text then rules else rules ++ rule ∷ []

abbrev pub wildcard_pattern : Text → Text
wildcard_pattern domain = if text_eq domain (codes "*") then domain else codes "*." ++ domain

-- The last branch, on a line that is no comment and has no prefix.
unfoldable pub push_wildcard : List ParsedRule → Text → List ParsedRule
push_wildcard rules line = push_some rules (trim line) (wildcard_pattern (trim line), wildcard)

-- One round of the loop, on the trimmed line.
unfoldable pub push_line : List ParsedRule → Text → List ParsedRule
push_line rules line =
    if is_empty line || starts_with line b'#'
    then rules
    else elim (strip_prefix (codes "full:") line) [
      | some stripped ↦ push_some rules (trim stripped) (trim stripped, exact)
      | none ↦ elim (strip_prefix (codes "regexp:") line) [
        | some stripped ↦ push_some rules (trim stripped) (trim stripped, regex)
        | none ↦ push_wildcard rules line
      ]
    ]

unfoldable pub parse_lines : List ParsedRule → List Text → List ParsedRule
parse_lines rules [] = rules
parse_lines rules (line ∷ rest) = parse_lines (push_line rules (trim line)) rest

-- `V2RayRuleParser::parse`
unfoldable pub parse_v2ray : Text → Result (List ParsedRule) AppError
parse_v2ray content = ok (parse_lines [] (lines content))

-- `ClashRuleParser::parse`
abbrev pub parse_clash : Text → Result (List ParsedRule) AppError
parse_clash content = err (
    not_implemented (
      codes
        "ClashRuleParser has not been implemented yet, it will be supported in future versions"))
