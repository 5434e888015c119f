-- ===== src/Style.antt =====
-- internal/attractor/style/stylesheet.go: the stylesheet's parser, its selectors and its cascade.
pub mod Cascade
pub mod Fuel
use dfgo.Prelude.{
  ℕ, zero, suc, ◌+◌, String, code, Bool, true, false, not, ◌&&◌, ◌||◌, ◌==◌, ltb, if◌then◌else◌,
  List, [], ◌∷◌, ◌++◌, some, none, str_eq, map,
}
use dfgo.Prelude.Result.{Result, ok, err}
use dfgo.Prelude.Dict.{Dict, get, put, merge, index}
use dfgo.Prelude.Sort.{sort}
use dfgo.Prelude.Text.{trim_space, cut, split, chars}
use dfgo.Model.Graph.{Node, Graph}

pub data SelectorType : Type 0 where
  universal by_id by_class : SelectorType

pub record Selector : Type 0 where
  pub kind : SelectorType
  pub value : String
  pub spec : ℕ

pub record Rule : Type 0 where
  pub selector : Selector
  pub properties : Dict String

-- a stylesheet is its rules, in order
abbrev pub Stylesheet : Type 0
Stylesheet = List Rule

pub data StyleError : Type 0 where
  unexpected_content unclosed_brace : String → StyleError
  empty_selector out_of_fuel : StyleError

abbrev selector_of : String → Selector
selector_of String.[] = record { kind = by_class; value = ""; spec = 1 }
selector_of (String.◌∷◌ c s) =
    if code c == b'#'
    then record { kind = by_id; value = s; spec = 2 }
    else if code c == b'.'
    then record { kind = by_class; value = s; spec = 1 }
    else record { kind = by_class; value = String.◌∷◌ c s; spec = 1 }

unfoldable pub parse_selector : String → Selector
parse_selector s0 =
    let s = trim_space s0 in
    if str_eq s "*" then record { kind = universal; value = ""; spec = 0 } else selector_of s

unfoldable pub any_class : String → List String → Bool
any_class value [] = false
any_class value (c ∷ cs) = str_eq (trim_space c) value || any_class value cs

abbrev pub matches_kind : SelectorType → String → Node → Bool
matches_kind universal value n = true
matches_kind by_id value n = str_eq n.id value
matches_kind by_class value n =
    str_eq (index n.attrs "shape") value || any_class value (split b',' (index n.attrs "class"))

unfoldable pub matches : Selector → Node → Bool
matches s n = matches_kind s.kind s.value n

-- one `key: value` of a body; a line without a colon, or with an empty side, is passed over
unfoldable pub parse_property : Dict String → String → Dict String
parse_property props line0 =
    let line = trim_space line0 in
    if str_eq line "" then props else elim (cut b':' line) [
      | none ↦ props
      | some (a, b) ↦
          let key = trim_space a in
          let val = trim_space b in
          if not (str_eq key "") && not (str_eq val "") then put props key val else props
    ]

unfoldable pub parse_lines : Dict String → List String → Dict String
parse_lines props [] = props
parse_lines props (l ∷ ls) = parse_lines (parse_property props l) ls

unfoldable pub parse_properties : String → Dict String
parse_properties body = parse_lines [] (split b';' body)

abbrev pub add_rule : Stylesheet → Selector → Dict String → Stylesheet
add_rule ss sel [] = ss
add_rule ss sel (p ∷ props) = ss ++ record { selector = sel; properties = p ∷ props } ∷ []

-- The loop of `ParseStylesheet`. `src` has been trimmed, so a rest without a brace is content.
unfoldable pub parse_rules : ℕ → Stylesheet → String → Result StyleError Stylesheet
parse_rules zero ss src = err out_of_fuel
parse_rules (suc fuel) ss src = elim (str_eq src "") [
  | true ↦ ok ss
  | false ↦ elim (cut b'{' src) [
    | none ↦
        if not (str_eq (trim_space src) "")
        then err (unexpected_content (trim_space src))
        else ok ss
    | some (sel_text, rest) ↦
        let selector_str = trim_space sel_text in
        elim (str_eq selector_str "") [
          | true ↦ err empty_selector
          | false ↦ elim (cut b'}' rest) [
            | none ↦ err (unclosed_brace selector_str)
            | some (body, after) ↦
                parse_rules fuel (add_rule ss (parse_selector selector_str) (parse_properties body))
                  (trim_space after)
          ]
        ]
  ]
]

unfoldable pub parse_stylesheet : String → Result StyleError Stylesheet
parse_stylesheet src = parse_rules (suc (chars (trim_space src))) [] (trim_space src)

pub record Match : Type 0 where
  pub spec : ℕ
  pub order : ℕ
  pub props : Dict String

-- the rules that match, with their positions from `i` on
unfoldable pub matches_from : ℕ → Stylesheet → Node → List Match
matches_from i [] n = []
matches_from i (r ∷ rs) n =
    let rest = matches_from (i + 1) rs n in
    if matches r.selector n
    then record { spec = r.selector.spec; order = i; props = r.properties } ∷ rest
    else rest

abbrev pub by_spec : Match → Match → Bool
by_spec a b = if not (a.spec == b.spec) then ltb a.spec b.spec else ltb a.order b.order

unfoldable pub merge_matches : Dict String → List Match → Dict String
merge_matches result [] = result
merge_matches result (m ∷ ms) = merge_matches (merge result m.props) ms

unfoldable pub resolve : Stylesheet → Node → Dict String
resolve ss n = merge_matches [] (sort by_spec (matches_from 0 ss n))

-- for k, v := range props { if _, exists := n.Attrs[k]; !exists { n.Attrs[k] = v } }
unfoldable pub fill : Dict String → Dict String → Dict String
fill attrs [] = attrs
fill attrs ((k, v) ∷ props) =
    let rest = fill attrs props in elim (get attrs k) [ some w ↦ rest | none ↦ put rest k v ]

abbrev pub style_node : Stylesheet → Node → Node
style_node ss n = record n { attrs = fill n.attrs (resolve ss n) }

unfoldable pub apply : Stylesheet → Graph → Graph
apply ss g = record g { nodes = map (style_node ss) g.nodes }
