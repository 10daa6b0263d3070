-- ===== src/Base/Text.antt =====
-- JavaScript's string operations that the sources use: `trim`, `toLowerCase`, `toUpperCase`,
-- `startsWith`. Case mapping is that of the ASCII letters; other characters are left as they are.
use Prim.Native.Nat.{zero, suc, ℕ, ◌-◌}
use Prim.Native.Char.{Char, code}
use Prim.Native.String
use Prim.Native.String.{String, [], ◌∷◌}
use mathlib.Core.Path.{◌≡◌, refl}
use mathlib.Core.Logic.{inl, inr}
use mathlib.Core.Bool.{Bool, true, false, ◌&&◌, ◌||◌}
use mathlib.Core.Option.{Option, none, some}
use stackaura_checkout_api.Base.Split.{Avoids}
use stackaura_checkout_api.Base.Tests.{leb, ◌==◌, nat_eq, if◌then◌else◌, Bool-cases, Option-cases}

-- White space and line terminators of ECMAScript.
is_space : ℕ → Bool
is_space c =
    leb 9 c && leb c 13
    || c == 32
    || c == 0xa0
    || c == 0x1680
    || leb 0x2000 c && leb c 0x200a
    || c == 0x2028
    || c == 0x2029
    || c == 0x202f
    || c == 0x205f
    || c == 0x3000
    || c == 0xfeff

trim_start : String → String
trim_start [] = []
trim_start (c ∷ s) = if is_space (code c) then trim_start s else c ∷ s

-- The last character is dropped while it is white space.
drop_blank : Char → String → String
drop_blank c [] = if is_space (code c) then [] else c ∷ []
drop_blank c (d ∷ s) = c ∷ d ∷ s

trim_end : String → String
trim_end [] = []
trim_end (c ∷ s) = drop_blank c (trim_end s)

unfoldable pub trim : String → String
unfolding trim_start trim_end drop_blank is_space
trim s = trim_end (trim_start s)

-- The letter at a place of an alphabet.
nth : String → ℕ → Char → Char
nth [] n d = d
nth (c ∷ s) zero d = c
nth (c ∷ s) (suc n) d = nth s n d

lower_char : Char → Char
unfolding nth
lower_char c =
    if leb b'A' (code c) && leb (code c) b'Z'
    then nth "abcdefghijklmnopqrstuvwxyz" (code c - b'A') c
    else c

upper_char : Char → Char
unfolding nth
upper_char c =
    if leb b'a' (code c) && leb (code c) b'z'
    then nth "ABCDEFGHIJKLMNOPQRSTUVWXYZ" (code c - b'a') c
    else c

unfoldable pub to_lower : String → String
unfolding lower_char
to_lower [] = []
to_lower (c ∷ s) = lower_char c ∷ to_lower s

unfoldable pub to_upper : String → String
unfolding upper_char
to_upper [] = []
to_upper (c ∷ s) = upper_char c ∷ to_upper s

squash_from : Bool → String → String
unfolding is_space
squash_from in_run [] = []
squash_from in_run (c ∷ s) =
    let gap = is_space (code c) || code c == b'-' in
    let rest = squash_from gap s in
    if gap then (if in_run then rest else String.◌++◌ "_" rest) else c ∷ rest

-- `.replace(/[\s-]+/g, '_')`
unfoldable pub squash : String → String
unfolding squash_from
squash = squash_from false

-- JavaScript's truth value of a string.
abbrev pub truthy : String → Bool
truthy [] = false
truthy (c ∷ s) = true

-- `value.trim() ? value.trim() : null`, for a text, and for one that may be missing.
unfoldable pub non_blank : String → Option String
non_blank s = if truthy (trim s) then some (trim s) else none

unfoldable pub trim_to_null : Option String → Option String
unfolding non_blank
trim_to_null none = none
trim_to_null (some s) = non_blank s

-- The truth value of a text that may be missing.
abbrev pub is_present : Option String → Bool
is_present none = false
is_present (some s) = truthy s

infixr 65 ◌<>◌
abbrev pub ◌<>◌ : String → String → String
s <> t = String.◌++◌ s t

StartsInk : String → Type 0
StartsInk [] = Unit
StartsInk (c ∷ s) = is_space (code c) ≡ false

trim_start-StartsInk : (s : String) → StartsInk (trim_start s)
unfolding trim_start StartsInk
trim_start-StartsInk [] = tt
trim_start-StartsInk (c ∷ s) = elim (Bool-cases (is_space (code c))) [
  | inl t ↦ rw t (trim_start-StartsInk s)
  | inr f ↦ rw f f
]

trim_start_of_StartsInk : (s : String) → StartsInk s → trim_start s ≡ s
unfolding trim_start StartsInk
trim_start_of_StartsInk [] h = refl
trim_start_of_StartsInk (c ∷ s) h = rw h

drop_blank-StartsInk :
    (c : Char) (s : String) → is_space (code c) ≡ false → StartsInk (drop_blank c s)
unfolding drop_blank StartsInk
drop_blank-StartsInk c [] h = rw h h
drop_blank-StartsInk c (d ∷ s) h = h

trim_end-StartsInk : (s : String) → StartsInk s → StartsInk (trim_end s)
unfolding trim_end StartsInk
trim_end-StartsInk [] h = tt
trim_end-StartsInk (c ∷ s) h = drop_blank-StartsInk c (trim_end s) h

-- A text that `trim_end` leaves as it is.
drop_blank-trim_end :
    (c : Char) (s : String) → trim_end s ≡ s → trim_end (drop_blank c s) ≡ drop_blank c s
unfolding drop_blank trim_end
drop_blank-trim_end c [] h = elim (Bool-cases (is_space (code c))) [
  | inl t ↦ rw t
  | inr f ↦ rw f (rw f)
]
drop_blank-trim_end c (d ∷ s) h = rw h

trim_end_idem : (s : String) → trim_end (trim_end s) ≡ trim_end s
unfolding trim_end
trim_end_idem [] = refl
trim_end_idem (c ∷ s) = drop_blank-trim_end c (trim_end s) (trim_end_idem s)

pub trim_idem : (s : String) → trim (trim s) ≡ trim s
unfolding trim
trim_idem s =
    rw
      (trim_start_of_StartsInk (trim_end (trim_start s))
        (trim_end-StartsInk (trim_start s) (trim_start-StartsInk s)))
      (trim_end_idem (trim_start s))

pub non_blank_idem : (s t : String) → non_blank s ≡ some t → non_blank t ≡ some t
unfolding non_blank
non_blank_idem s t h = elim (Bool-cases (truthy (trim s))) [
  | inl p ↦
      let e : some (trim s) ≡ some t = rw p at h in
      let d : trim s ≡ t = cc in rw (← d, trim_idem s, p)
  | inr q ↦ let e : none ≡ some t = rw q at h in cc
]

pub trim_to_null_idem : (o : Option String) → trim_to_null (trim_to_null o) ≡ trim_to_null o
unfolding trim_to_null
trim_to_null_idem none = refl
trim_to_null_idem (some s) = elim (Option-cases (non_blank s)) [
  | inl e ↦ rw e
  | inr (t, e) ↦ rw e (non_blank_idem s t e)
]

-- White space.
unfoldable pub is_blank : Char → Bool
unfolding is_space
is_blank c = is_space (code c)

-- A text without white space is left as it is.
trim_start_of_ink : (s : String) → Avoids is_blank s → trim_start s ≡ s
unfolding trim_start is_blank
trim_start_of_ink [] h = refl
trim_start_of_ink (c ∷ s) (h, hs) = rw h refl

trim_end_of_ink : (s : String) → Avoids is_blank s → trim_end s ≡ s
unfolding trim_end drop_blank is_blank
trim_end_of_ink [] h = refl
trim_end_of_ink (c ∷ []) (h, hs) = rw h refl
trim_end_of_ink (c ∷ d ∷ s) (h, hs) = rw (trim_end_of_ink (d ∷ s) hs) refl

pub trim_of_Avoids : (s : String) → Avoids is_blank s → trim s ≡ s
unfolding trim
trim_of_Avoids s h = rw (trim_start_of_ink s h) (trim_end_of_ink s h)

trim_test : (trim "  a b " ≡ "a b") × (to_lower "AbZ1" ≡ "abz1") × (to_upper "az-" ≡ "AZ-")
unfolding trim to_lower to_upper
trim_test = (refl, refl, refl)
