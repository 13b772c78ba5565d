-- ===== src/Common/Text.antt =====
-- Prefixes of texts, and their size in characters.
use Prim.Native.Char.{Char, code}
use Prim.Native.Nat.{ℕ, zero, suc, ◌≤◌, ◌<◌}
use Prim.Native.String.{String}
use mathlib.Core.Path.{◌≡◌, refl}
use mathlib.Core.Bool.{Bool, true, false}
use mathlib.Core.Logic.{inl, inr}
use mathlib.Core.Option.{Option, none, some}
use native.Mathlib.Omega.{arith}
use fair_drop.Common.Tests.{◌==◌, Bool-cases, if◌then◌else◌}

-- `text[:n]`
abbrev pub take_chars : ℕ → String → String
take_chars zero text = ""
take_chars (suc n) String.[] = ""
take_chars (suc n) (String.◌∷◌ c text) = String.◌∷◌ c (take_chars n text)

-- `len(text)`
abbrev pub chars : String → ℕ
chars String.[] = 0
chars (String.◌∷◌ c text) = suc (chars text)

-- `text[len(prefix):]` where `text.startswith(prefix)`
unfoldable pub strip_prefix : String → String → Option String
strip_prefix String.[] text = some text
strip_prefix (String.◌∷◌ p prefix) String.[] = none
strip_prefix (String.◌∷◌ p prefix) (String.◌∷◌ c text) =
    let rest = strip_prefix prefix text in if code p == code c then rest else none

-- `text in s`
unfoldable pub contains : String → String → Bool
unfolding strip_prefix
contains text String.[] = elim (strip_prefix text String.[]) [ none ↦ false | some _ ↦ true ]
contains text (String.◌∷◌ c s) =
    let rest = contains text s in
    elim (strip_prefix text (String.◌∷◌ c s)) [ none ↦ rest | some _ ↦ true ]

-- What is left after a first character with that code.
pub strip_char : ℕ → String → Option String
strip_char n String.[] = none
strip_char n (String.◌∷◌ c text) = if code c == n then some text else none

-- `text.lstrip(c)`
pub lstrip : ℕ → String → String
lstrip n String.[] = String.[]
lstrip n (String.◌∷◌ c text) =
    let rest = lstrip n text in if code c == n then rest else String.◌∷◌ c text

-- A text that is left of another when characters are dropped from its front.
pub data IsEndOf (t : String) : String → Type 0 where
  whole : IsEndOf t t
  later : (c : Char) {s : String} → IsEndOf t s → IsEndOf t (String.◌∷◌ c s)

pub IsEndOf-trans : {t u s : String} → IsEndOf t u → IsEndOf u s → IsEndOf t s
IsEndOf-trans h whole = h
IsEndOf-trans h (later c k) = later c (IsEndOf-trans h k)

pub strip_prefix-IsEndOf :
    (prefix text rest : String) → strip_prefix prefix text ≡ some rest → IsEndOf rest text
unfolding strip_prefix
strip_prefix-IsEndOf String.[] text rest h = let e : text ≡ rest = cc in rw e whole
strip_prefix-IsEndOf (String.◌∷◌ p prefix) String.[] rest h = cc
strip_prefix-IsEndOf (String.◌∷◌ p prefix) (String.◌∷◌ c text) rest h =
    elim (Bool-cases (code p == code c)) [
      | inl same ↦ later c (strip_prefix-IsEndOf prefix text rest (ground arith))
      | inr other ↦ absurd (ground arith)
    ]

pub chars-IsEndOf : {t s : String} → IsEndOf t s → chars t ≤ chars s
chars-IsEndOf whole = omega arith
chars-IsEndOf (later c k) = omega (arith, chars-IsEndOf k)

pub strip_char-IsEndOf :
    (n : ℕ) (text rest : String)
    → strip_char n text ≡ some rest
    → IsEndOf rest text × (chars rest < chars text)
unfolding strip_char
strip_char-IsEndOf n String.[] rest h = cc
strip_char-IsEndOf n (String.◌∷◌ c text) rest h = elim (Bool-cases (code c == n)) [
  | inl same ↦
      let e : text ≡ rest = ground arith in (rw (← e) (later c whole), rw (← e) (omega arith))
  | inr other ↦ absurd (ground arith)
]

pub lstrip-IsEndOf : (n : ℕ) (text : String) → IsEndOf (lstrip n text) text
unfolding lstrip
lstrip-IsEndOf n String.[] = whole
lstrip-IsEndOf n (String.◌∷◌ c text) = elim (Bool-cases (code c == n)) [
  | inl same ↦ rw same (later c (lstrip-IsEndOf n text))
  | inr other ↦ rw other whole
]

-- Nothing is left to strip.
pub strip_char-lstrip : (n : ℕ) (text : String) → strip_char n (lstrip n text) ≡ none
unfolding lstrip strip_char
strip_char-lstrip n String.[] = refl
strip_char-lstrip n (String.◌∷◌ c text) = elim (Bool-cases (code c == n)) [
  | inl same ↦ rw same (strip_char-lstrip n text)
  | inr other ↦ rw other (rw other refl)
]

pub lstrip_fixed : (n : ℕ) (text : String) → strip_char n text ≡ none → lstrip n text ≡ text
unfolding lstrip strip_char
lstrip_fixed n String.[] h = refl
lstrip_fixed n (String.◌∷◌ c text) h = elim (Bool-cases (code c == n)) [
  | inl same ↦ absurd (ground arith)
  | inr other ↦ rw other refl
]
