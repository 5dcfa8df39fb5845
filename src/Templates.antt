-- ===== src/Templates.antt =====
-- src/rc_infra/templates.py: the templates' paths, and the ownership tags of the stacks.
-- `template_text` is `template_body(load_template(path))`; reading and parsing the file is a call.
use re_infra.Base.{String, ◌<>◌, Option, [], ◌∷◌, if◌then◌else◌}
use re_infra.Base.Dicts.{Dict, get, has_value}
use re_infra.Calls.{Call, Client}
use re_infra.Action.{Action, call}
use re_infra.EnvConfig.{Environment}

abbrev pub platform_template_path : String
platform_template_path = "infra/platform.yaml"

abbrev pub environment_template_path : String
environment_template_path = "infra/environment.yaml"

abbrev pub managed_by_tag : String
managed_by_tag = "ManagedBy"

abbrev pub managed_by_value : String
managed_by_value = "re-infra"

abbrev pub component_tag : String
component_tag = "Component"

abbrev pub environment_tag : String
environment_tag = "Environment"

unfoldable pub template_text : Client → String → Action String
template_text client path = call client (Call.read_template path)

unfoldable pub platform_tags : Dict String
platform_tags = (managed_by_tag, managed_by_value) ∷ (component_tag, "platform") ∷ []

unfoldable pub environment_tags : Environment → Dict String
environment_tags env =
    (managed_by_tag, managed_by_value)
    ∷ (component_tag, "environment")
    ∷ (environment_tag, env.name)
    ∷ []

unfoldable pub bucket_output_keys : String → String × String
bucket_output_keys logical_id = (logical_id <> "Name", logical_id <> "Arn")

-- The expected tags that are missing or have another value, with what is there instead:
-- `{key: tags.get(key) for key, value in expected.items() if tags.get(key) != value}`.
unfoldable pub mismatched_tags : Dict String → Dict String → Dict (Option String)
mismatched_tags [] tags = []
mismatched_tags ((key, value) ∷ expected) tags =
    let rest = mismatched_tags expected tags in
    if has_value value (get key tags) then rest else (key, get key tags) ∷ rest
