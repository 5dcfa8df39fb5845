-- ===== src/Action.antt =====
-- Code that calls AWS and may raise. It is given the calls made so far and returns them with its
-- own in front, also where it raises: what was done before an exception stays done.
pub mod Extends
pub mod Keeps
pub mod Outcomes
pub mod Ensures
use re_infra.Base.{List, [], ◌∷◌, Bool, if◌then◌else◌}
use re_infra.Aws.{Error, Result, ok, err}
use re_infra.Calls.{Call, Answer, History, Client}

abbrev pub Action : Type 0 → Type 0
Action A = History → Result A × History

module _ {A : Type 0} where
  unfoldable pub pure : A → Action A
  pure a past = (ok a, past)

  unfoldable pub raise : Error → Action A
  raise e past = (err e, past)

  -- A check that makes no call.
  unfoldable pub lift : Result A → Action A
  lift r past = (r, past)

  -- `try`: the exception becomes a value.
  unfoldable pub attempt : Action A → Action (Result A)
  attempt m past = let (r, now) = m past in (ok r, now)

module _ {A B : Type 0} where
  abbrev pub continue : Result A → (A → Action B) → Action B
  continue (ok a) f past = f a past
  continue (err e) f past = (err e, past)

  infixl 5 ◌>>=◌ ◌>>◌
  unfoldable pub ◌>>=◌ : Action A → (A → Action B) → Action B
  ◌>>=◌ m f past = let (r, now) = m past in continue r f now

  abbrev pub ◌>>◌ : Action A → Action B → Action B
  m >> n = m >>= λ _. n

-- `if test: body`
unfoldable pub when : Bool → Action (Unit {0}) → Action (Unit {0})
when test m = if test then m else pure tt

unfoldable pub call : Client → (c : Call) → Action (Answer c)
call client c past = (client.reply past c, c ∷ past)

module _ {A : Type 0} where
  -- `for x in xs: body(x)`
  unfoldable pub for_each : (A → Action (Unit {0})) → List A → Action (Unit {0})
  for_each body [] = pure tt
  for_each body (x ∷ xs) = body x >> for_each body xs

  -- `[x for x in xs if test(x)]`, where the test makes calls.
  unfoldable pub keep_each : (A → Action Bool) → List A → Action (List A)
  keep_each test [] = pure []
  keep_each test (x ∷ xs) = do
    passed ← test x
    rest ← keep_each test xs
    pure (if passed then x ∷ rest else rest)
