-- ===== src/Bytes.antt =====
-- Go's strings as lists of bytes, with the operations of its package strings that the code uses, the search
-- that server/internal/relay/override/override.go writes out, and its maps with text keys.
pub mod Laws
use Prim.Native.Char.{code}
use token_flux.Base.{
  ℕ, zero, suc, ◌-◌, leb, ltb, ◌==◌, Bool, true, false, ◌&&◌, ◌||◌, String, Option, none, some,
  List, [], ◌∷◌, length, if◌then◌else◌,
}

abbrev pub Text : Type 0
Text = List ℕ

-- The bytes of an ASCII literal.
abbrev pub codes : String → Text
codes String.[] = []
codes (String.◌∷◌ c s) = code c ∷ codes s

unfoldable pub text_eq : Text → Text → Bool
text_eq [] [] = true
text_eq [] (b ∷ t) = false
text_eq (a ∷ s) [] = false
text_eq (a ∷ s) (b ∷ t) = a == b && text_eq s t

-- Go's `<` on strings.
unfoldable pub text_ltb : Text → Text → Bool
text_ltb s [] = false
text_ltb [] (b ∷ t) = true
text_ltb (a ∷ s) (b ∷ t) = if a == b then text_ltb s t else ltb a b

unfoldable pub take : ℕ → Text → Text
take zero s = []
take (suc n) [] = []
take (suc n) (c ∷ s) = c ∷ take n s

unfoldable pub drop : ℕ → Text → Text
drop zero s = s
drop (suc n) [] = []
drop (suc n) (c ∷ s) = drop n s

-- `strings.HasPrefix`, `HasSuffix`, `TrimPrefix` and `TrimSuffix`
unfoldable pub has_prefix : Text → Text → Bool
has_prefix s [] = true
has_prefix [] (b ∷ p) = false
has_prefix (a ∷ s) (b ∷ p) = a == b && has_prefix s p

unfoldable pub has_suffix : Text → Text → Bool
has_suffix s p = leb (length p) (length s) && text_eq (drop (length s - length p) s) p

unfoldable pub trim_prefix : Text → Text → Text
trim_prefix s p = if has_prefix s p then drop (length p) s else s

unfoldable pub trim_suffix : Text → Text → Text
trim_suffix s p = if has_suffix s p then take (length s - length p) s else s

abbrev pub next : Option ℕ → Option ℕ
next none = none
next (some i) = some (suc i)

-- `indexOfStr`, also `strings.Index`
unfoldable pub index_of_str : Text → Text → Option ℕ
index_of_str [] p = if has_prefix [] p then some 0 else none
index_of_str (c ∷ s) p = if has_prefix (c ∷ s) p then some 0 else next (index_of_str s p)

abbrev pub is_found : Option ℕ → Bool
is_found none = false
is_found (some i) = true

-- `strings.Contains`
unfoldable pub contains : Text → Text → Bool
contains s p = is_found (index_of_str s p)

unfoldable pub member : Text → List Text → Bool
member s [] = false
member s (t ∷ ts) = text_eq s t || member s ts

-- Go's maps with text keys: `m[k]`, `m[k] = v` and `delete(m, k)`. The order of the list is the order in
-- which a loop over the map meets its entries, which Go leaves open.
abbrev pub Map {ℓ} : Type ℓ → Type ℓ
Map V = List (Text × V)

module _ {ℓ} {V : Type ℓ} where
  unfoldable pub get_key : Text → Map V → Option V
  get_key k [] = none
  get_key k ((j, v) ∷ m) = if text_eq j k then some v else get_key k m

  unfoldable pub put_key : Text → V → Map V → Map V
  put_key k v [] = (k, v) ∷ []
  put_key k v ((j, w) ∷ m) = if text_eq j k then (j, v) ∷ m else (j, w) ∷ put_key k v m

  unfoldable pub delete_key : Text → Map V → Map V
  delete_key k [] = []
  delete_key k ((j, v) ∷ m) = if text_eq j k then delete_key k m else (j, v) ∷ delete_key k m
