-- ===== src/EnvConfig/Names.antt =====
-- The names derived from an environment's name can be read back, and do not overlap.
use Prim.Native.Char.{Char, code}
use Prim.Native.String.{[] as empty, ◌∷◌ as ◌▹◌}
use text.Mathlib.TextLemmas.{
  nil-append, cons-append, append_assoc, append_cancel_left, cons-eq-cons,
}
use re_infra.Base.{
  ℕ, zero, suc, String, ◌<>◌, ◌≡◌, refl, sym, ◌∙◌, ap, ◌≢◌, true, none, some, arith, if◌then◌else◌,
  inl, inr, Bool-cases, Option-cases,
}
use re_infra.Base.Texts.{after_prefix, after_prefix-append, append_of_after_prefix}
use re_infra.EnvConfig.{
  EnvName, is_lower, is_name_char, at_end, tail_matches, name_matches, core_stack_prefix,
  core_stack_name, table_prefix, environment_from_core_stack,
}

-- The environment is read back from its core stack's name exactly if its name has the right form.
pub environment_from_core_stack-core_stack_name :
    (name : EnvName)
    → environment_from_core_stack (core_stack_name name)
      ≡ (if name_matches name then some name else none)
unfolding environment_from_core_stack core_stack_name
environment_from_core_stack-core_stack_name name =
    rw (after_prefix-append core_stack_prefix name, environment_from_core_stack)

-- A stack read as the core stack of an environment has that environment's core stack name.
pub core_stack_name_of_read :
    (stack : String) (name : EnvName)
    → environment_from_core_stack stack ≡ some name
    → (stack ≡ core_stack_name name) × (name_matches name ≡ true)
unfolding environment_from_core_stack core_stack_name
core_stack_name_of_read stack name h = elim (Option-cases (after_prefix core_stack_prefix stack)) [
  | inl e ↦ cc (rw e at h)
  | inr (rest, e) ↦ elim (Bool-cases (name_matches rest)) [
    | inl m ↦
        let same : rest ≡ name = ground (arith, (rw (e, m) at h)) in
        (rw (← same) (append_of_after_prefix core_stack_prefix stack rest e), rw (← same) m)
    | inr m ↦ ground (arith, (rw (e, m) at h))
  ]
]

abbrev Absent : Char → String → Type 0
Absent c empty = Unit
Absent c (d ▹ s) = (c ≢ d) × Absent c s

-- A text is cut at the first occurrence of a character in one way only.
cut_unique :
    (c : Char) (a b x y : String) → Absent c a → Absent c b → a <> (c ▹ x) ≡ b <> (c ▹ y) → a ≡ b
cut_unique c empty empty x y h k e = refl
cut_unique c empty (d ▹ b) x y h k e =
    absurd (k.0 ((cons-eq-cons).0 (rw (nil-append, cons-append) at e)).0)
cut_unique c (d ▹ a) empty x y h k e =
    absurd (h.0 (sym ((cons-eq-cons).0 (rw (nil-append, cons-append) at e)).0))
cut_unique c (d ▹ a) (f ▹ b) x y h k e =
    let both = (cons-eq-cons).0 (simp cons-append at e) in
    cc (both.0, cut_unique c a b x y h.1 k.1 both.1)

abbrev hyphen : Char
hyphen = "-"

other_char : (c d : Char) → code c ≢ code d → c ≢ d
other_char c d h e = h (ap code e)

at_end-Absent : (s : String) → at_end s ≡ true → Absent hyphen s
unfolding at_end
at_end-Absent empty h = tt
at_end-Absent (c ▹ empty) h = (other_char hyphen c (ground arith), tt)
at_end-Absent (c ▹ d ▹ s) h = cc

name_char-ne-hyphen : (c : Char) → is_name_char (code c) ≡ true → hyphen ≢ c
unfolding is_name_char
name_char-ne-hyphen c h = other_char hyphen c (ground arith)

lower-ne-hyphen : (c : Char) → is_lower (code c) ≡ true → hyphen ≢ c
unfolding is_lower
lower-ne-hyphen c h = other_char hyphen c (ground arith)

tail_matches-Absent : (k : ℕ) (s : String) → tail_matches k s ≡ true → Absent hyphen s
unfolding tail_matches
tail_matches-Absent zero s h = at_end-Absent s h
tail_matches-Absent (suc k) empty h = tt
tail_matches-Absent (suc k) (c ▹ s) h = elim (Bool-cases (is_name_char (code c))) [
  | inl e ↦ (name_char-ne-hyphen c e, tail_matches-Absent k s (rw e at h))
  | inr e ↦ at_end-Absent (c ▹ s) (rw e at h)
]

name_matches-Absent : (s : String) → name_matches s ≡ true → Absent hyphen s
unfolding name_matches
name_matches-Absent empty h = tt
name_matches-Absent (a ▹ empty) h = cc
name_matches-Absent (a ▹ b ▹ s) h = (
  lower-ne-hyphen a (ground arith),
  (name_char-ne-hyphen b (ground arith), tail_matches-Absent 18 s (ground arith)),
)

table_prefix-append : (a x : String) → table_prefix a <> x ≡ "rc2-" <> (a <> (hyphen ▹ x))
unfolding table_prefix
table_prefix-append a x =
    append_assoc "rc2-" (a <> "-") x
    ∙ ap (λ t. "rc2-" <> t) (append_assoc a "-" x ∙ ap (λ t. a <> t) (hyphen-append x))
  where
    hyphen-append : (y : String) → "-" <> y ≡ hyphen ▹ y
    hyphen-append y = cons-append hyphen empty y ∙ ap (λ t. hyphen ▹ t) (nil-append y)

-- No table belongs to two environments: a name that starts with the table prefixes of two
-- well-formed environment names has them equal.
pub table_prefix_unambiguous :
    (a b table rest_a rest_b : String)
    → name_matches a ≡ true
    → name_matches b ≡ true
    → after_prefix (table_prefix a) table ≡ some rest_a
    → after_prefix (table_prefix b) table ≡ some rest_b
    → a ≡ b
table_prefix_unambiguous a b table x y ha hb ea eb =
    cut_unique hyphen a b x y (name_matches-Absent a ha) (name_matches-Absent b hb) (
      append_cancel_left "rc2-" _ _ (
        sym (table_prefix-append a x)
        ∙ sym (append_of_after_prefix (table_prefix a) table x ea)
        ∙ append_of_after_prefix (table_prefix b) table y eb
        ∙ table_prefix-append b y))
