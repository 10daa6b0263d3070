-- ===== src/Base/Split.antt =====
-- Texts cut at separators: JavaScript's `split` with one character or a class of characters.
use Prim.Native.Char.{Char, code}
use Prim.Native.String
use Prim.Native.String.{String, [], ◌∷◌}
use text.Mathlib.TextLemmas.{nil-append, cons-append}
use mathlib.Core.Path.{◌≡◌, refl, ap}
use mathlib.Core.Bool.{Bool, true, false}
use mathlib.Core.List.{List, [], ◌∷◌}
use Prim.Native.Nat.{ℕ}
use stackaura_checkout_api.Base.Tests.{◌==◌, nat_eq, if◌then◌else◌}

-- No character of a text passes a test.
abbrev pub Avoids : (Char → Bool) → String → Type 0
Avoids p [] = Unit
Avoids p (c ∷ s) = (p c ≡ false) × Avoids p s

abbrev pub is_char : ℕ → Char → Bool
is_char n c = code c == n

-- A character put before the first piece.
abbrev pub onto_first : Char → List String → List String
onto_first c [] = (c ∷ []) ∷ []
onto_first c (w ∷ ws) = (c ∷ w) ∷ ws

-- `text.split(sep)`: a separator ends a piece, so there is always at least one.
abbrev pub split : (Char → Bool) → String → List String
split p [] = [] ∷ []
split p (c ∷ s) = let rest = split p s in if p c then [] ∷ rest else onto_first c rest

pub split_of_Avoids : (p : Char → Bool) (s : String) → Avoids p s → split p s ≡ s ∷ []
split_of_Avoids p [] h = refl
split_of_Avoids p (c ∷ s) (h, hs) = rw h (ap (onto_first c) (split_of_Avoids p s hs))

pub split-append :
    (p : Char → Bool) (s : String) (c : Char) (t : String)
    → Avoids p s
    → p c ≡ true
    → split p (String.◌++◌ s (c ∷ t)) ≡ s ∷ split p t
split-append p [] c t h k = rw (nil-append (c ∷ t)) (rw k refl)
split-append p (d ∷ s) c t (h, hs) k =
    rw (cons-append d s (c ∷ t)) (rw h (ap (onto_first d) (split-append p s c t hs k)))

-- A text of two parts, each of which avoids a character.
pub append-Avoids :
    (p : Char → Bool) (s t : String) → Avoids p s → Avoids p t → Avoids p (String.◌++◌ s t)
append-Avoids p [] t h k = rw (nil-append t) k
append-Avoids p (c ∷ s) t (h, hs) k = rw (cons-append c s t) (h, append-Avoids p s t hs k)
