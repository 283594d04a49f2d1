-- ===== src/Utils/Labels/Tags.antt =====
-- `GetTagFromImage` returns what follows the last colon.
use qubership_monitoring_ope.Prelude.{
  ℕ, ◌≡◌, refl, ◌∙◌, Bool, true, false, ◌||◌, inl, inr, Bool-cases, List, [], ◌∷◌, ◌++◌, ◌==◌,
  arith,
}
use qubership_monitoring_ope.Prelude.Text.{Bytes}
use qubership_monitoring_ope.Utils.Labels.{extend, get_tag_from_image, last_part, split_colon}

unfoldable pub has_colon : Bytes → Bool
has_colon [] = false
has_colon (c ∷ s) = c == b':' || has_colon s

-- At least two parts.
abbrev many : List Bytes → Bool
many (a ∷ b ∷ parts) = true
many _ = false

many-extend : (c : ℕ) (parts : List Bytes) → many (extend c parts) ≡ many parts
unfolding extend
many-extend c [] = refl
many-extend c (a ∷ []) = refl
many-extend c (a ∷ b ∷ parts) = refl

last_part-extend :
    (c : ℕ) (parts : List Bytes) → many parts ≡ true → last_part (extend c parts) ≡ last_part parts
unfolding extend last_part
last_part-extend c [] h = cc
last_part-extend c (a ∷ []) h = cc
last_part-extend c (a ∷ b ∷ parts) h = refl

split_colon-plain : (t : Bytes) → has_colon t ≡ false → split_colon t ≡ t ∷ []
unfolding split_colon extend has_colon
split_colon-plain [] h = refl
split_colon-plain (c ∷ t) h = ground (arith, split_colon-plain t)

many-cons : (a : Bytes) (parts : List Bytes) → many parts ≡ true → many (a ∷ parts) ≡ true
many-cons a [] h = cc
many-cons a (b ∷ parts) h = refl

last_part-cons :
    (a : Bytes) (parts : List Bytes) → many parts ≡ true → last_part (a ∷ parts) ≡ last_part parts
unfolding last_part
last_part-cons a [] h = cc
last_part-cons a (b ∷ parts) h = refl

split_tail :
    (p t : Bytes)
    → has_colon t ≡ false
    → (many (split_colon (p ++ b':' ∷ t)) ≡ true) × (last_part (split_colon (p ++ b':' ∷ t)) ≡ t)
unfolding split_colon
split_tail [] t h = rw (split_colon-plain t h) (unfold last_part in (refl, refl))
split_tail (c ∷ p) t h =
    let (two, tail) = split_tail p t h in
    elim (Bool-cases (c == b':')) [
      | inl e ↦ rw e (many-cons [] _ two, last_part-cons [] _ two ∙ tail)
      | inr e ↦ rw e (many-extend c _ ∙ two, last_part-extend c _ two ∙ tail)
    ]

-- The tag of `p:t`, where `t` has no colon, is `t`, however long it is and whatever `p` is.
pub get_tag_from_image-append :
    (p t : Bytes) → has_colon t ≡ false → get_tag_from_image (p ++ b':' ∷ t) ≡ t
unfolding get_tag_from_image
get_tag_from_image-append p t h = (split_tail p t h).1

-- An image with no colon is its own tag.
pub get_tag_from_image_plain : (t : Bytes) → has_colon t ≡ false → get_tag_from_image t ≡ t
unfolding get_tag_from_image
get_tag_from_image_plain t h = rw (split_colon-plain t h)
