-- ===== src/Base/Texts.antt =====
-- `str.startswith` and `str.removeprefix`, character by character.
use Prim.Native.Char.{Char, code}
use Prim.Native.String.{String, [], ◌∷◌, ◌++◌}
use mathlib.Core.Path.{◌≡◌, ap}
use mathlib.Core.Logic.{inl, inr}
use mathlib.Core.Bool.{Bool, true, ◌||◌}
use text.Mathlib.Text.{◌==◌}
use mathlib.Core.Option.{Option, none, some}
use native.Mathlib.Omega.{arith}
use text.Mathlib.TextEquality.{Char-path}
use text.Mathlib.TextLemmas.{nil-append, cons-append}
use re_infra.Base.Tests.{num_eq, if◌then◌else◌, Bool-cases, is_some}

-- What follows the prefix in a text that starts with it.
unfoldable pub after_prefix : String → String → Option String
after_prefix [] s = some s
after_prefix (c ∷ p) [] = none
after_prefix (c ∷ p) (d ∷ s) = if num_eq (code c) (code d) then after_prefix p s else none

abbrev pub has_prefix : String → String → Bool
has_prefix p s = is_some (after_prefix p s)

same_code : (c : Char) → num_eq (code c) (code c) ≡ true
same_code c = ground arith

eq_of_codes : (c d : Char) → num_eq (code c) (code d) ≡ true → c ≡ d
eq_of_codes c d h = Char-path c d (ground arith)

pub after_prefix-append : (p s : String) → after_prefix p (p ++ s) ≡ some s
unfolding after_prefix
after_prefix-append [] s = rw nil-append
after_prefix-append (c ∷ p) s = rw cons-append (rw (same_code c) (after_prefix-append p s))

pub append_of_after_prefix : (p s r : String) → after_prefix p s ≡ some r → s ≡ p ++ r
unfolding after_prefix
append_of_after_prefix [] s r h = rw nil-append (cc h)
append_of_after_prefix (c ∷ p) [] r h = cc h
append_of_after_prefix (c ∷ p) (d ∷ s) r h = elim (Bool-cases (num_eq (code c) (code d))) [
  | inl e ↦
      rw cons-append
        (rw (eq_of_codes c d e) (ap (◌∷◌ d) (append_of_after_prefix p s r (rw e at h))))
  | inr e ↦ cc (rw e at h)
]

-- `text.endswith(suffix)`
unfoldable pub has_suffix : String → String → Bool
has_suffix suffix [] = suffix == ""
has_suffix suffix (c ∷ s) = (c ∷ s) == suffix || has_suffix suffix s

-- `part in text`
unfoldable pub contains_text : String → String → Bool
unfolding after_prefix
contains_text part [] = part == ""
contains_text part (c ∷ s) = has_prefix part (c ∷ s) || contains_text part s
