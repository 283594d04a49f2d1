-- ===== src/Utils/Labels.antt =====
-- controllers/utils/common.go: the text of label values.
pub mod Laws
pub mod Tags
use qubership_monitoring_ope.Prelude.{
  ℕ, Bool, ◌&&◌, List, [], ◌∷◌, ◌++◌, length, take, leb, ◌==◌, if◌then◌else◌,
}
use qubership_monitoring_ope.Prelude.Text.{Bytes, is_empty}

-- `strings.TrimLeft(s, "-")` and `strings.TrimRight(s, "-")`
trim_left : Bytes → Bytes
trim_left [] = []
trim_left (c ∷ s) = let rest = trim_left s in if c == b'-' then rest else c ∷ s

trim_right : Bytes → Bytes
trim_right [] = []
trim_right (c ∷ s) = let rest = trim_right s in if c == b'-' && is_empty rest then [] else c ∷ rest

-- `strings.Trim(s, "-")`
trim : Bytes → Bytes
unfolding trim_left trim_right
trim s = trim_right (trim_left s)

unfoldable pub trunc_label : Bytes → Bytes
unfolding trim
trunc_label label = if leb 63 (length label) then trim (take 63 label) else trim label

unfoldable pub get_instance_label : Bytes → Bytes → Bytes
unfolding trunc_label
get_instance_label name namespace = trunc_label (name ++ (b'-' ∷ namespace))

-- `c` in front of the first part
extend : ℕ → List Bytes → List Bytes
extend c [] = (c ∷ []) ∷ []
extend c (part ∷ parts) = (c ∷ part) ∷ parts

-- `strings.Split(s, ":")`: never empty
split_colon : Bytes → List Bytes
unfolding extend
split_colon [] = [] ∷ []
split_colon (c ∷ s) = let rest = split_colon s in if c == b':' then [] ∷ rest else extend c rest

-- `parts[len(parts)-1]`
last_part : List Bytes → Bytes
last_part [] = []
last_part (part ∷ []) = part
last_part (part ∷ next ∷ parts) = last_part (next ∷ parts)

unfoldable pub get_tag_from_image : Bytes → Bytes
unfolding split_colon last_part
get_tag_from_image image = last_part (split_colon image)
