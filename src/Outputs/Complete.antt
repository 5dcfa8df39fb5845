-- ===== src/Outputs/Complete.antt =====
-- What a contract that was returned holds.
use re_infra.Base.{
  ◌≡◌, refl, ap, sym, ◌∙◌, subst, inl, inr, String, false, Option, none, some, [], ◌∷◌, Bool-cases,
  Option-cases,
}
use re_infra.Base.Dicts.{Dict, get}
use re_infra.Aws.{Stack, Result, ok, err}
use re_infra.Calls.{History, Client}
use re_infra.Action.{pure, lift}
use re_infra.Action.Outcomes.{bind-ok, ok_injective}
use re_infra.EnvConfig.{Environment, bucket_logical_ids, platform_stack_name, core_stack_name}
use re_infra.Templates.{bucket_output_keys}
use re_infra.Cfn
use re_infra.Outputs.{
  with_bucket, with_output, platform_outputs, Contract, is_unsettled, trusted_outputs, require,
  bucket_entries, platform_entries, contract_of, stack_outputs, environment_contract,
}

-- Every bucket has its name and its ARN from the outputs.
abbrev pub HasBuckets : Dict String → Dict String → Dict (String × String) → Type 0
HasBuckets outputs [] [] = Unit
HasBuckets outputs ((purpose, id) ∷ ids) ((p, (name, arn)) ∷ found) =
    (purpose ≡ p)
    × (get (bucket_output_keys id).0 outputs ≡ some name)
    × (get (bucket_output_keys id).1 outputs ≡ some arn)
    × HasBuckets outputs ids found
HasBuckets outputs _ _ = ⊥

-- Every field has its value from the outputs.
abbrev pub HasOutputs : Dict String → Dict String → Dict String → Type 0
HasOutputs outputs [] [] = Unit
HasOutputs outputs ((field, key) ∷ fields) ((f, value) ∷ found) =
    (field ≡ f) × (get key outputs ≡ some value) × HasOutputs outputs fields found
HasOutputs outputs _ _ = ⊥

require-get :
    (outputs : Dict String) (stack key value : String)
    → require outputs stack key ≡ ok value
    → get key outputs ≡ some value
unfolding require
require-get outputs stack key value h = elim (Option-cases (get key outputs)) [
  | inl absent ↦ cc (rw (absent, require) at h)
  | inr (v, present) ↦ present ∙ ap some (ok_injective v value (rw (present, require) at h))
]

buckets-HasBuckets :
    (outputs : Dict String) (stack : String) (ids : Dict String) (found : Dict (String × String))
    → bucket_entries outputs stack ids ≡ ok found
    → HasBuckets outputs ids found
unfolding bucket_entries
buckets-HasBuckets outputs stack [] found h =
    subst (HasBuckets outputs []) (ok_injective [] found h) tt
buckets-HasBuckets outputs stack ((purpose, id) ∷ ids) found h =
    added (require outputs stack (bucket_output_keys id).0)
      (require outputs stack (bucket_output_keys id).1) (bucket_entries outputs stack ids)
      (require-get outputs stack (bucket_output_keys id).0)
      (require-get outputs stack (bucket_output_keys id).1) (buckets-HasBuckets outputs stack ids) h
  where
    added :
        (name arn : Result String) (rest : Result (Dict (String × String)))
        → ((v : String) → name ≡ ok v → get (bucket_output_keys id).0 outputs ≡ some v)
        → ((v : String) → arn ≡ ok v → get (bucket_output_keys id).1 outputs ≡ some v)
        → ((more : Dict (String × String)) → rest ≡ ok more → HasBuckets outputs ids more)
        → with_bucket purpose name arn rest ≡ ok found
        → HasBuckets outputs ((purpose, id) ∷ ids) found
    added (ok n) (ok a) (ok more) kn ka k h =
        subst (HasBuckets outputs ((purpose, id) ∷ ids))
          (ok_injective ((purpose, (n, a)) ∷ more) found h)
          (refl, kn n refl, ka a refl, k more refl)
    added (ok n) (ok a) (err e) kn ka k h = cc
    added (ok n) (err e) rest kn ka k h = cc
    added (err e) arn rest kn ka k h = cc

fields-HasOutputs :
    (outputs fields found : Dict String)
    → platform_entries outputs fields ≡ ok found
    → HasOutputs outputs fields found
unfolding platform_entries
fields-HasOutputs outputs [] found h = subst (HasOutputs outputs []) (ok_injective [] found h) tt
fields-HasOutputs outputs ((field, key) ∷ fields) found h =
    added (require outputs platform_stack_name key) (platform_entries outputs fields)
      (require-get outputs platform_stack_name key) (fields-HasOutputs outputs fields) h
  where
    added :
        (value : Result String) (rest : Result (Dict String))
        → ((v : String) → value ≡ ok v → get key outputs ≡ some v)
        → ((more : Dict String) → rest ≡ ok more → HasOutputs outputs fields more)
        → with_output field value rest ≡ ok found
        → HasOutputs outputs ((field, key) ∷ fields) found
    added (ok v) (ok more) kv k h =
        subst (HasOutputs outputs ((field, key) ∷ fields))
          (ok_injective ((field, v) ∷ more) found h) (refl, kv v refl, k more refl)
    added (ok v) (err e) kv k h = cc
    added (err e) rest kv k h = cc

-- A stack that AWS described at some time, and that was settled then.
abbrev pub WasSettled : Client → String → Stack → Type 0
WasSettled client name stack =
    (past : History) × ((Cfn.get_stack client name past).0 ≡ ok (some stack))
    × (is_unsettled stack ≡ false)

module _ (client : Client) where
  trusted_settled :
      (name : String) (past : History) (found : Option Stack) (outputs : Dict String)
      → (Cfn.get_stack client name past).0 ≡ ok found
      → trusted_outputs name found ≡ ok outputs
      → (stack : Stack) × WasSettled client name stack × (stack.outputs ≡ outputs)
  unfolding trusted_outputs
  trusted_settled name past none outputs seen h = cc
  trusted_settled name past (some stack) outputs seen h = elim (Bool-cases (is_unsettled stack)) [
    | inl e ↦ cc (rw e at h)
    | inr e ↦ (stack, (past, seen, e), ok_injective stack.outputs outputs (rw e at h))
  ]

  outputs_settled :
      (name : String) (past : History) (outputs : Dict String)
      → (stack_outputs client name past).0 ≡ ok outputs
      → (stack : Stack) × WasSettled client name stack × (stack.outputs ≡ outputs)
  unfolding stack_outputs lift
  outputs_settled name past outputs h =
      let (found, seen, rest) = bind-ok (Cfn.get_stack client name) _ past outputs h in
      trusted_settled name past found outputs seen rest

  -- A contract that is returned has every bucket and every field of the platform, each with the
  -- value of its output, of stacks that exist and were settled when they were described.
  pub environment_contract_complete :
      (env : Environment) (past : History) (contract : Contract)
      → (environment_contract client env past).0 ≡ ok contract
      → (platform core : Stack) × WasSettled client platform_stack_name platform
        × WasSettled client (core_stack_name env.name) core
        × HasBuckets core.outputs bucket_logical_ids contract.buckets
        × HasOutputs platform.outputs platform_outputs contract.platform
  unfolding environment_contract lift pure contract_of
  environment_contract_complete env past contract h =
      let (p, e1, h1) = bind-ok (stack_outputs client platform_stack_name) _ past contract h in
      let (c, e2, h2) = bind-ok (stack_outputs client (core_stack_name env.name)) _ _ contract h1 in
      let (buckets, e3, h3) =
        bind-ok (lift (bucket_entries c (core_stack_name env.name) bucket_logical_ids)) _ _ contract
          h2 in
      let (fields, e4, h4) = bind-ok (lift (platform_entries p platform_outputs)) _ _ contract h3 in
      let same = ok_injective (contract_of env buckets fields) contract h4 in
      let (platform, settled_platform, sp) = outputs_settled platform_stack_name past p e1 in
      let (core, settled_core, sc) = outputs_settled (core_stack_name env.name) _ c e2 in
      (
        platform,
        core,
        settled_platform,
        settled_core,
        subst (λ (k : Contract). HasBuckets core.outputs bucket_logical_ids k.buckets) same
            (subst (λ o. HasBuckets o bucket_logical_ids buckets) (sym sc)
              (buckets-HasBuckets c (core_stack_name env.name) bucket_logical_ids buckets e3)),
        subst (λ (k : Contract). HasOutputs platform.outputs platform_outputs k.platform) same
            (subst (λ o. HasOutputs o platform_outputs fields) (sym sp)
              (fields-HasOutputs p platform_outputs fields e4)),
      )
