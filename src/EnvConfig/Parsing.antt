-- ===== src/EnvConfig/Parsing.antt =====
-- `parse_env_config` accepts a file exactly if it breaks no rule, and loses no environment.
use re_infra.Base.{
  String, ◌≡◌, refl, sym, ◌∙◌, true, List, [], ◌∷◌, map, arith, inl, inr, ◌⊎◌, Bool-cases, All,
  elem, is_some, is_nil, num_eq, any_of-map, append-eq-nil, map-eq-nil,
}
use re_infra.Base.Dicts.{Dict, get, keys}
use re_infra.Base.Sorting.{sort_by, any_of-sort_by}
use re_infra.EnvConfig.{
  EnvName, protected_environments, EnvironmentSpec, EnvConfigFile, Environment, EnvConfig, Problem,
  protected_removed, loaded, valid, name_matches, names, profile_name, Entry, problem, environment,
  entry_of, entries, version_problems, removed, by_name, problems_of, config_of, parse_env_config,
}

-- The rules for one declared environment: its name has the right form and its profile is defined.
abbrev pub IsGoodEntry : EnvConfigFile → String × EnvironmentSpec → Type 0
IsGoodEntry file (name, spec) =
    (name_matches name ≡ true)
    × (is_some (get (profile_name name spec file.identity_profiles) file.identity_profiles) ≡ true)

-- Every rule of the file.
pub record IsGoodFile (file : EnvConfigFile) : Type 0 where
  pub version : num_eq file.schema_version 1 ≡ true
  pub kept : All (λ name. elem name (keys file.environments) ≡ true) protected_environments
  pub listed : All (IsGoodEntry file) (sort_by by_name file.environments)

entry_of-environment :
    (file : EnvConfigFile) (name : EnvName) (spec : EnvironmentSpec) (e : Environment)
    → entry_of file name spec ≡ environment e
    → IsGoodEntry file (name, spec) × (e.name ≡ name)
unfolding entry_of
entry_of-environment file name spec e h = ground arith

entry_of_good :
    (file : EnvConfigFile) (name : EnvName) (spec : EnvironmentSpec) (p : Problem)
    → IsGoodEntry file (name, spec)
    → entry_of file name spec ≡ problem p
    → ⊥
unfolding entry_of
entry_of_good file name spec p good h = ground arith

Entry-cases :
    (x : Entry) → ((p : Problem) × (x ≡ problem p)) ⊎ ((e : Environment) × (x ≡ environment e))
Entry-cases (problem p) = inl (p, refl)
Entry-cases (environment e) = inr (e, refl)

-- A loop without problems met good entries only, and made an environment of each.
entries_good :
    (file : EnvConfigFile) (specs : Dict EnvironmentSpec)
    → (entries file specs).0 ≡ []
    → All (IsGoodEntry file) specs
      × (map (λ (e : Environment). e.name) (entries file specs).1 ≡ keys specs)
unfolding entries
entries_good file [] h = (tt, refl)
entries_good file ((name, spec) ∷ rest) h = elim (Entry-cases (entry_of file name spec)) [
  | inl (p, e) ↦ cc (rw e at h)
  | inr (env, e) ↦
      let (good, same) = entry_of-environment file name spec env e in
      let (all_good, all_same) = entries_good file rest (rw e at h) in
      ((good, all_good), rw e (cc (same, all_same)))
]

entries_of_good :
    (file : EnvConfigFile) (specs : Dict EnvironmentSpec)
    → All (IsGoodEntry file) specs
    → (entries file specs).0 ≡ []
unfolding entries
entries_of_good file [] h = refl
entries_of_good file ((name, spec) ∷ rest) h = elim (Entry-cases (entry_of file name spec)) [
  | inl (p, e) ↦ absurd (entry_of_good file name spec p h.0 e)
  | inr (env, e) ↦ rw e (entries_of_good file rest h.1)
]

removed-eq-nil :
    (file : EnvConfigFile)
    → removed file ≡ []
    → All (λ name. elem name (keys file.environments) ≡ true) protected_environments
unfolding removed
removed-eq-nil file h = ground arith

removed_of_kept :
    (file : EnvConfigFile)
    → All (λ name. elem name (keys file.environments) ≡ true) protected_environments
    → removed file ≡ []
unfolding removed
removed_of_kept file h = ground arith

is_nil-eq : {A : Type 0} (xs : List A) → is_nil xs ≡ true → xs ≡ []
is_nil-eq [] h = refl
is_nil-eq (x ∷ xs) h = cc

version_ok :
    (file : EnvConfigFile) → version_problems file ≡ [] → num_eq file.schema_version 1 ≡ true
unfolding version_problems
version_ok file h = ground arith

version_problems_ok :
    (file : EnvConfigFile) → num_eq file.schema_version 1 ≡ true → version_problems file ≡ []
unfolding version_problems
version_problems_ok file h = ground arith

problems_of-eq-nil : (file : EnvConfigFile) → problems_of file ≡ [] → IsGoodFile file
unfolding problems_of
problems_of-eq-nil file h =
    let (version, rest) = append-eq-nil (version_problems file) _ h in
    let (kept, listed) = append-eq-nil (map protected_removed (removed file)) _ rest in
    record {
      version = version_ok file version;
      kept = removed-eq-nil file (map-eq-nil protected_removed (removed file) kept);
      listed = (entries_good file (sort_by by_name file.environments) listed).0;
    }

problems_of_good : (file : EnvConfigFile) → IsGoodFile file → problems_of file ≡ []
unfolding problems_of
problems_of_good file good = rw (
  version_problems_ok file good.version,
  removed_of_kept file good.kept,
  entries_of_good file (sort_by by_name file.environments) good.listed,
)

loaded_names :
    (file : EnvConfigFile) (config : EnvConfig)
    → parse_env_config (valid file) ≡ loaded config
    → names config
      ≡ map (λ (e : Environment). e.name) (entries file (sort_by by_name file.environments)).1
unfolding parse_env_config names
loaded_names file config h = ground arith

loaded_no_problems :
    (file : EnvConfigFile) (config : EnvConfig)
    → parse_env_config (valid file) ≡ loaded config
    → problems_of file ≡ []
unfolding parse_env_config
loaded_no_problems file config h = elim (Bool-cases (is_nil (problems_of file))) [
  | inl e ↦ is_nil-eq (problems_of file) e
  | inr e ↦ cc (rw e at h)
]

entries_no_problems :
    (file : EnvConfigFile)
    → problems_of file ≡ []
    → (entries file (sort_by by_name file.environments)).0 ≡ []
unfolding problems_of
entries_no_problems file h =
    let (version, rest) = append-eq-nil (version_problems file) _ h in
    (append-eq-nil (map protected_removed (removed file)) _ rest).1

-- An accepted file breaks no rule, and its config has exactly the declared names, sorted.
pub parse_env_config-loaded :
    (file : EnvConfigFile) (config : EnvConfig)
    → parse_env_config (valid file) ≡ loaded config
    → IsGoodFile file × (names config ≡ keys (sort_by by_name file.environments))
parse_env_config-loaded file config h =
    let none_found = loaded_no_problems file config h in
    (
      problems_of-eq-nil file none_found,
      loaded_names file config h
          ∙ (entries_good file (sort_by by_name file.environments)
              (entries_no_problems file none_found)).1,
    )

-- The environments that an accepted config never lacks.
pub protected-names :
    (file : EnvConfigFile) (config : EnvConfig)
    → parse_env_config (valid file) ≡ loaded config
    → All (λ name. elem name (names config) ≡ true) protected_environments
protected-names file config h =
    let (good, same) = parse_env_config-loaded file config h in
    rw same
      (rw (elem-sorted "dev" file, elem-sorted "prod" file, elem-sorted "staging" file) good.kept)
  where
    elem-sorted :
        (name : String) (f : EnvConfigFile)
        → elem name (keys (sort_by by_name f.environments)) ≡ elem name (keys f.environments)
    elem-sorted name f =
        any_of-map _ _ (sort_by by_name f.environments)
        ∙ (any_of-sort_by _ by_name f.environments ∙ sym (any_of-map _ _ f.environments))

-- A file that breaks no rule is accepted.
pub parse_env_config_good :
    (file : EnvConfigFile)
    → IsGoodFile file
    → (config : EnvConfig) × (parse_env_config (valid file) ≡ loaded config)
unfolding parse_env_config
parse_env_config_good file good = (config_of file, rw (problems_of_good file good))
