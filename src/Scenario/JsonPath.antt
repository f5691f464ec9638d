-- ===== src/Scenario/JsonPath.antt =====
-- Looking a value up in a JSON document (apps/api/internal/scenario/jsonpath.go).
pub mod Segment
pub mod Printed
use Prim.Native.Char.{Char, code}
use Prim.Native.String.{String}
use wreckr.Prelude.{
  ℕ, zero, suc, ℤ, pos, negsuc, ◌+++◌, ◌==◌, Bool, true, false, not, List, [], ◌∷◌, ◌++◌, Option,
  none, some, length, quote, split, cut, atoi, is_nil, has_prefix, trim_prefix, eqb, if◌then◌else◌,
}
use wreckr.Platform.{Result, ok, err}
use wreckr.Value.{Float64, Json, Items, nil, cons, Fields, end, field}

unfoldable pub invalid_index : String → String
invalid_index segment = "invalid index segment " +++ quote segment

unfoldable pub unterminated_index : String → String
unterminated_index segment = "unterminated index segment " +++ quote segment

-- The loop over the indexes of a segment, a character at a time: outside of brackets, or inside with
-- the text behind the bracket.
unfoldable pub index_loop : String → Option String → String → List ℤ → Result (List ℤ)
unfolding invalid_index unterminated_index
index_loop segment none String.[] indexes = ok indexes
index_loop segment none (String.◌∷◌ c s) indexes =
    let inside = index_loop segment (some "") s indexes in
    if eqb (code c) 91 then inside else err (invalid_index segment)
index_loop segment (some read) String.[] indexes = err (unterminated_index segment)
index_loop segment (some read) (String.◌∷◌ c s) indexes =
    let closed = λ (n : ℤ). index_loop segment none s (indexes ++ n ∷ []) in
    let inside = index_loop segment (some (read +++ String.◌∷◌ c "")) s indexes in
    if eqb (code c) 93
    then (elim (atoi read) [
      | none ↦ err ("invalid array index " +++ quote read)
      | some n ↦ closed n
    ])
    else inside

abbrev named : String → Result (List ℤ) → Result (String × List ℤ)
named name (err e) = err e
named name (ok indexes) = ok (name, indexes)

unfoldable pub parse_segment : String → Result (String × List ℤ)
unfolding index_loop cut
parse_segment segment =
    let (name, rest) = cut 91 segment in named name (index_loop segment none rest [])

-- obj[name], where the value is an object.
find_field : String → Fields → Option Json
find_field name end = none
find_field name (field key value more) =
    let rest = find_field name more in if key == name then some value else rest

unfoldable pub member : String → Json → Option Json
unfolding find_field
member name (Json.obj fields) = find_field name fields
member name _ = none

find_item : ℕ → Items → Option Json
find_item n nil = none
find_item zero (cons item items) = some item
find_item (suc n) (cons item items) = find_item n items

-- list[index], where the value is a list and the index is in range.
unfoldable pub element : ℤ → Json → Option Json
unfolding find_item
element (pos n) (Json.arr items) = find_item n items
element _ _ = none

unfoldable pub follow : List ℤ → Option Json → Option Json
follow indexes none = none
follow [] (some value) = some value
follow (index ∷ indexes) (some value) = follow indexes (element index value)

unfoldable pub name_step : String → Json → Option Json
name_step name value = if is_nil name then some value else member name value

count_items : Items → ℕ
count_items nil = 0
count_items (cons item items) = suc (count_items items)

module _ (of_nat : ℕ → Float64) where
  -- The length of a list, as a number.
  unfoldable pub length_of : Json → Option Json
  unfolding count_items
  length_of (Json.arr items) = some (Json.num (of_nat (count_items items)))
  length_of _ = none

  -- One segment: the value that it leads to, none where there is none, or the error of its form.
  unfoldable pub segment_step : String → Json → Result (Option Json)
  unfolding length_of name_step
  segment_step segment value =
      if is_nil segment
      then err "invalid empty path segment"
      else if segment == "length"
      then ok (length_of value)
      else elim (parse_segment segment) [
        | err e ↦ err e
        | ok parsed ↦ ok (follow parsed.1 (name_step parsed.0 value))
      ]

  abbrev then_walk : Result (Option Json) → (Json → Result (Option Json)) → Result (Option Json)
  then_walk (err e) next = err e
  then_walk (ok none) next = ok none
  then_walk (ok (some value)) next = next value

  unfoldable pub walk : List String → Json → Result (Option Json)
  unfolding segment_step
  walk [] value = ok (some value)
  walk (segment ∷ segments) value = then_walk (segment_step segment value) (walk segments)

  abbrev whole : Result Json → Result (Option Json)
  whole (err e) = err e
  whole (ok root) = ok (some root)

  abbrev from_root : Result Json → (Json → Result (Option Json)) → Result (Option Json)
  from_root (err e) next = err e
  from_root (ok root) next = next root

  -- The value at a path of a document, by what json.Unmarshal makes of the document.
  unfoldable pub lookup_json_path : Result Json → String → Result (Option Json)
  unfolding walk split trim_prefix
  lookup_json_path decoded path =
      if path == ""
      then whole decoded
      else if path == "$"
      then whole decoded
      else if not (has_prefix path "$.")
      then err "only simple $.field paths are supported"
      else from_root decoded (walk (split 46 (trim_prefix path "$.")))
