-- ===== src/Text.antt =====
-- `String.prototype.split` with a separator of one character and `replace` of a part by nothing, as src/modules uses it for passwords,
-- file names and routes. Texts are walked by code points.
pub mod Laws
use Prim.Native.Char.{Char, code}
use Prim.Native.String
use Prim.Native.String.{String}
use node_back_end_boilerplat.Prelude.{
  ℕ, List, [], ◌∷◌, Option, none, some, if◌then◌else◌, eqb, ◌≡◌, false, or_else,
}

-- Puts a character before the first part.
abbrev pub push_front : Char → List String → List String
push_front c [] = (String.◌∷◌ c String.[]) ∷ []
push_front c (part ∷ parts) = String.◌∷◌ c part ∷ parts

-- `text.split(separator)`
unfoldable pub split : ℕ → String → List String
split separator String.[] = "" ∷ []
split separator (String.◌∷◌ c s) =
    if eqb (code c) separator then "" ∷ split separator s else push_front c (split separator s)

-- `parts[0]` and `parts[1]`
abbrev pub first : List String → Option String
first [] = none
first (part ∷ parts) = some part

abbrev pub second : List String → Option String
second [] = none
second (part ∷ parts) = first parts

-- The character stands nowhere in the text.
abbrev pub Lacks : ℕ → String → Type 0
Lacks separator String.[] = Unit
Lacks separator (String.◌∷◌ c s) = (eqb (code c) separator ≡ false) × Lacks separator s

-- What follows a beginning, if the text has it.
abbrev pub strip_prefix : String → String → Option String
strip_prefix String.[] s = some s
strip_prefix (String.◌∷◌ c p) String.[] = none
strip_prefix (String.◌∷◌ c p) (String.◌∷◌ d s) =
    let rest = strip_prefix p s in if eqb (code c) (code d) then rest else none

abbrev pub push : Char → String → Option String → String
push c replaced none = String.◌∷◌ c replaced
push c replaced (some rest) = rest

-- `text.replace(part, '')`: the first place of the part is taken out.
unfoldable pub remove_first : String → String → String
remove_first part String.[] = or_else (strip_prefix part "") ""
remove_first part (String.◌∷◌ c s) =
    let replaced = remove_first part s in push c replaced (strip_prefix part (String.◌∷◌ c s))
