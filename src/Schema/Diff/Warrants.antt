-- ===== src/Schema/Diff/Warrants.antt =====
-- Why a deploy may carry out a finding.
use re_infra.Base.{◌≡◌, Bool, true, false, Exists}
use re_infra.Schema.Options.{
  OptionName, deletion_protection, point_in_time_recovery, OptionValue, flag, same_value, managed,
  Options,
}
use re_infra.Schema.Findings.{
  Remedy, delete_gsi, recreate_table, update_options, disable_protection, adopt_declaration,
  nothing, prune_undeclared, allow_table_recreate, allow_protection_downgrade, Subject, option,
  Finding, Granted, SchemaDiff, is_conflict, is_actionable,
}
use re_infra.Schema.Diff.Shapes.{Shapes}

abbrev pub is_protection : OptionName → Bool
is_protection deletion_protection = true
is_protection point_in_time_recovery = true
is_protection _ = false

module _ (granted : Granted) (declared live : Options) where
  -- What must hold for a remedy to be carried out on what a finding is about.
  abbrev pub Warrant : Remedy → Subject → Type 0
  Warrant disable_protection about =
      (granted allow_protection_downgrade ≡ true)
      × ((name : OptionName) × (about ≡ option name)
          × (is_protection name ≡ true)
          × (declared name ≡ managed (flag false))
          × (live name ≡ managed (flag true)))
  Warrant update_options about =
      (name : OptionName) × (about ≡ option name)
      × (d : OptionValue) × (l : OptionValue) × (declared name ≡ managed d)
      × (live name ≡ managed l)
      × (same_value d l ≡ false)
  Warrant recreate_table about = granted allow_table_recreate ≡ true
  Warrant delete_gsi about = granted prune_undeclared ≡ true
  Warrant adopt_declaration about = ⊥
  Warrant nothing about = ⊥
  Warrant _ about = Unit

  abbrev pub IsWarranted : Finding → Type 0
  IsWarranted f = is_actionable granted f ≡ true → Warrant f.remedy f.subject

-- An option that is declared, known live and different has a conflict of its own.
abbrev pub IsNoticed : Options → Options → SchemaDiff → OptionName → Type 0
IsNoticed declared live diff name =
    (d l : OptionValue)
    → declared name ≡ managed d
    → live name ≡ managed l
    → same_value d l ≡ false
    → Exists (λ (f : Finding). (f.subject ≡ option name) × (is_conflict f.severity ≡ true)) diff

abbrev IsConflictOf : OptionName → Finding → Type 0
IsConflictOf name f = (f.subject ≡ option name) × (is_conflict f.severity ≡ true)
