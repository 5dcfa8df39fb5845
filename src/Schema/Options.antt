-- ===== src/Schema/Options.antt =====
-- python_packages/rc_dynamo/src/rc_dynamo/schema/options.py: how a table is operated.
use package.text.Mathlib.TextPositions.{eq_refl}
use re_infra.Base.{String, ◌≡◌, refl, Bool, true, false, not, List, [], ◌∷◌, ◌==◌, elem}

-- In the order of OPTION_NAMES.
pub data OptionName : Type 0 where
  billing_mode table_class deletion_protection point_in_time_recovery ttl_attribute
        stream_view_type :
      OptionName

abbrev pub option_names : List OptionName
option_names =
    billing_mode ∷ table_class ∷ deletion_protection ∷ point_in_time_recovery ∷ ttl_attribute
    ∷ stream_view_type ∷ []

-- `off` is None: TTL or streams disabled.
pub data OptionValue : Type 0 where
  off : OptionValue
  flag : Bool → OptionValue
  text : String → OptionValue

abbrev pub same_flag : Bool → Bool → Bool
same_flag true b = b
same_flag false b = not b

-- `==`
abbrev pub same_value : OptionValue → OptionValue → Bool
same_value off off = true
same_value (flag a) (flag b) = same_flag a b
same_value (text a) (text b) = a == b
same_value _ _ = false

-- UNMANAGED, or a value.
pub data Setting : Type 0 where
  unmanaged : Setting
  managed : OptionValue → Setting

-- `options.get(name, UNMANAGED)`
abbrev pub Options : Type 0
Options = OptionName → Setting

abbrev pub billing_provisioned : String
billing_provisioned = "PROVISIONED"

abbrev pub table_class_infrequent_access : String
table_class_infrequent_access = "STANDARD_INFREQUENT_ACCESS"

abbrev pub billing_modes : List String
billing_modes = "PAY_PER_REQUEST" ∷ billing_provisioned ∷ []

abbrev pub table_classes : List String
table_classes = "STANDARD" ∷ table_class_infrequent_access ∷ []

abbrev pub stream_view_types : List String
stream_view_types = "KEYS_ONLY" ∷ "NEW_IMAGE" ∷ "OLD_IMAGE" ∷ "NEW_AND_OLD_IMAGES" ∷ []

-- Whether `__post_init__` accepts the value of an option.
abbrev pub accepts : OptionName → OptionValue → Bool
accepts billing_mode (text s) = elem s billing_modes
accepts table_class (text s) = elem s table_classes
accepts deletion_protection (flag b) = true
accepts point_in_time_recovery (flag b) = true
accepts ttl_attribute off = true
accepts ttl_attribute (text s) = not (s == "")
accepts stream_view_type off = true
accepts stream_view_type (text s) = elem s stream_view_types
accepts _ _ = false

-- `is_managed`
abbrev pub is_managed : Options → OptionName → Bool
is_managed options name = elim (options name) [ unmanaged ↦ false | managed v ↦ true ]

pub same_flag_refl : (b : Bool) → same_flag b b ≡ true
same_flag_refl true = refl
same_flag_refl false = refl

-- A value is the same as itself.
pub same_value_refl : (v : OptionValue) → same_value v v ≡ true
same_value_refl off = refl
same_value_refl (flag b) = same_flag_refl b
same_value_refl (text s) = eq_refl s
