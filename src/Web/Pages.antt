-- ===== src/Web/Pages.antt =====
-- `strip_html` of apps/jit-worker/src/web_access.rs.
use Prim.Native.String.{[], ◌∷◌}
use jitforge.Base.{
  String, Char, code, Bool, true, false, not, ◌&&◌, ◌||◌, ◌==◌, ◌≡◌, refl, arith, if◌then◌else◌,
}
use jitforge.Text.{is_whitespace, all_chars}

abbrev pub less : Char → Bool
less c = code c == 60

abbrev pub greater : Char → Bool
greater c = code c == 62

abbrev pub tag_after : Bool → Char → Bool
tag_after in_tag c = if less c then true else if greater c then false else in_tag

abbrev pub spaced_after : Bool → Bool → Char → Bool
spaced_after in_tag spaced c =
    if less c
    then spaced
    else if greater c
    then true
    else if in_tag
    then spaced
    else is_whitespace c

-- What a character adds in front of the rest of the output.
abbrev pub emit : Bool → Bool → Char → String → String
emit in_tag spaced c rest =
    if less c
    then rest
    else if greater c
    then if spaced then rest else " " ∷ rest
    else if in_tag
    then rest
    else c ∷ rest

-- The output of the loop; `spaced` is whether the output so far ends with white space.
unfoldable pub without_tags : Bool → Bool → String → String
unfolding is_whitespace
without_tags in_tag spaced [] = []
without_tags in_tag spaced (c ∷ s) =
    emit in_tag spaced c (without_tags (tag_after in_tag c) (spaced_after in_tag spaced c) s)

-- What follows a gap: `pending` is whether a space is due before the next word.
unfoldable pub join_words : Bool → Bool → String → String
unfolding is_whitespace
join_words started pending [] = []
join_words started pending (c ∷ s) =
    let rest =
      join_words (started || not (is_whitespace c)) (is_whitespace c && (started || pending)) s in
    if is_whitespace c then rest else if started && pending then " " ∷ c ∷ rest else c ∷ rest

-- `split_whitespace().collect().join(" ")` of the output.
unfoldable pub strip_html : String → String
unfolding without_tags join_words
strip_html input = join_words false false (without_tags false false input)

-- A character that is no part of a tag.
abbrev pub is_plain : Char → Bool
is_plain c = not (code c == 60 || code c == 62)

without_tags-plain :
    (in_tag spaced : Bool) (s : String) → all_chars is_plain (without_tags in_tag spaced s) ≡ true
unfolding without_tags all_chars
without_tags-plain in_tag spaced [] = refl
without_tags-plain in_tag spaced (c ∷ s) =
    ground (arith, without_tags-plain (tag_after in_tag c) (spaced_after in_tag spaced c) s)

join_words-plain :
    (started pending : Bool) (s : String)
    → all_chars is_plain s ≡ true
    → all_chars is_plain (join_words started pending s) ≡ true
unfolding join_words all_chars
join_words-plain started pending [] h = refl
join_words-plain started pending (c ∷ s) h = ground (
  arith,
  join_words-plain (started || not (is_whitespace c)) (is_whitespace c && (started || pending)) s,
)

-- The text of a page has no `<` and no `>`.
pub strip_html-plain : (input : String) → all_chars is_plain (strip_html input) ≡ true
unfolding strip_html
strip_html-plain input = join_words-plain false false _ (without_tags-plain false false input)
