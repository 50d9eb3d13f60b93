-- ===== src/Base/Json.antt =====
-- The JSON values that `core/canonical_json.py` serialises, and digests of them.
use Prim.Native.Nat.{ℕ}
use Prim.Native.Char.{code}
use Prim.Native.String.{String}
use mathlib.Core.Path.{◌≡◌}
use mathlib.Core.Bool.{Bool, true, ◌&&◌, ◌||◌}
use mathlib.Core.List.{List, [], ◌∷◌}
use mathlib.Core.Option.{Option, none, some}
use desk_pilot_agent.Base.Tests.{leb, ◌==◌}
use desk_pilot_agent.Base.Lists.{length, all_of}

mutual
  pub data Json : Type 0 where
    null : Json
    flag : Bool → Json
    num : ℕ → Json
    str : String → Json
    arr : Items → Json
    obj : Fields → Json

  pub data Items : Type 0 where
    nil : Items
    cons : Json → Items → Items

  pub data Fields : Type 0 where
    end : Fields
    field : String → Json → Fields → Fields

-- A tuple of texts.
unfoldable pub texts : List String → Items
texts [] = nil
texts (x ∷ xs) = cons (str x) (texts xs)

unfoldable pub opt_text : Option String → Json
opt_text none = null
opt_text (some s) = str s

unfoldable pub opt_num : Option ℕ → Json
opt_num none = null
opt_num (some n) = num n

-- The code points of a text.
unfoldable pub codes : String → List ℕ
codes String.[] = []
codes (String.◌∷◌ c s) = code c ∷ codes s

unfoldable pub is_digit : ℕ → Bool
is_digit c = leb b'0' c && leb c b'9'

unfoldable pub is_lower : ℕ → Bool
is_lower c = leb b'a' c && leb c b'z'

unfoldable pub is_upper : ℕ → Bool
is_upper c = leb b'A' c && leb c b'Z'

is_hex : ℕ → Bool
is_hex c = is_digit c || (leb b'a' c && leb c b'f')

-- `^[0-9a-f]{64}$`
unfoldable pub is_sha256 : String → Bool
unfolding is_hex codes all_of is_digit
is_sha256 s = (length (codes s) == 64) && all_of is_hex (codes s)

-- `sha256_digest`: SHA-256 of the canonical JSON text, a lower-case hexadecimal digest of 64 digits.
-- The hash itself is a parameter of the development.
pub record Hashing : Type 0 where
  pub sha256_digest : Json → String
  pub hex : (j : Json) → is_sha256 (sha256_digest j) ≡ true
