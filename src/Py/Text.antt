-- ===== src/Py/Text.antt =====
-- `str` methods, over the code points of a text: strip, replace, split, and the order of texts.
use Prim.Native.Char.{Char, code}
use Prim.Native.Nat.{Ordering}
use Prim.Native.String.{compare as compare_text, count, ◌++◌ as append}
use https_gitflic_ru_project.Base.{
  ℕ, zero, suc, ◌-◌, String, Bool, true, false, ◌||◌, ◌&&◌, Option, none, some, List, [], ◌∷◌, leb,
  nat_eq, if◌then◌else◌,
}

-- `str.isspace` of one character.
unfoldable pub is_space : Char → Bool
is_space c =
    let n = code c in
    leb 9 n && leb n 13
    || leb 28 n && leb n 32
    || nat_eq n 133
    || nat_eq n 160
    || nat_eq n 5760
    || leb 8192 n && leb n 8202
    || leb 8232 n && leb n 8233
    || nat_eq n 8239
    || nat_eq n 8287
    || nat_eq n 12288

-- `text.lstrip()`
unfoldable pub lstrip : String → String
unfolding is_space
lstrip String.[] = ""
lstrip (String.◌∷◌ c s) = if is_space c then lstrip s else String.◌∷◌ c s

-- One character before a text that has its trailing spaces removed.
unfoldable pub before : Char → String → String
unfolding is_space
before c String.[] = if is_space c then "" else String.◌∷◌ c ""
before c (String.◌∷◌ d s) = String.◌∷◌ c (String.◌∷◌ d s)

-- `text.rstrip()`
unfoldable pub rstrip : String → String
unfolding before
rstrip String.[] = ""
rstrip (String.◌∷◌ c s) = before c (rstrip s)

-- `text.strip()`
unfoldable pub strip : String → String
unfolding lstrip rstrip
strip s = lstrip (rstrip s)

-- The truth value of a text.
abbrev pub nonempty : String → Bool
nonempty String.[] = false
nonempty (String.◌∷◌ c s) = true

-- What is left of a text after a prefix, if it has that prefix.
unfoldable pub after : String → String → Option String
after String.[] s = some s
after (String.◌∷◌ c p) String.[] = none
after (String.◌∷◌ c p) (String.◌∷◌ d s) = if nat_eq (code c) (code d) then after p s else none

-- `text.replace(old, new)` for a text `old` of at least one character: `skip` characters of a match
-- are still to be passed over.
abbrev pub is_some : {A : Type 0} → Option A → Bool
is_some none = false
is_some (some a) = true

unfoldable pub replace_from : ℕ → String → String → String → String
unfolding after
replace_from skip old new String.[] = ""
replace_from (suc skip) old new (String.◌∷◌ c s) = replace_from skip old new s
replace_from zero old new (String.◌∷◌ c s) =
    let replaced = append new (replace_from (count old - 1) old new s) in
    let kept = String.◌∷◌ c (replace_from zero old new s) in
    if is_some (after old (String.◌∷◌ c s)) then replaced else kept

unfoldable pub replace : String → String → String → String
unfolding replace_from
replace old new s = replace_from zero old new s

-- `text.split(sep)` at one character: the pieces, and their number is one more than that of the
-- separators.
unfoldable pub push_char : Char → List String → List String
push_char c [] = String.◌∷◌ c "" ∷ []
push_char c (w ∷ ws) = String.◌∷◌ c w ∷ ws

unfoldable pub split : ℕ → String → List String
unfolding push_char
split sep String.[] = "" ∷ []
split sep (String.◌∷◌ c s) =
    let rest = split sep s in if nat_eq (code c) sep then "" ∷ rest else push_char c rest

-- `a < b` on texts: by code points.
abbrev pub text_lt : String → String → Bool
text_lt a b = elim (compare_text a b) [ Ordering.lt ↦ true | _ ↦ false ]
