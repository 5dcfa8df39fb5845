-- ===== src/Action/Keeps.antt =====
-- Invariants of the calls made: one rule for each way to build an action.
use re_infra.Base.{List, [], ◌∷◌, ◌≡◌, refl, Bool, true, false, if◌then◌else◌, All}
use re_infra.Aws.{Error, Result, ok, err}
use re_infra.Calls.{Call, History, Client}
use re_infra.Action.Extends.{Extends, here, next, Extends-trans, All-Extends}
use re_infra.Action.{
  Action, pure, raise, lift, attempt, continue, ◌>>=◌, when, call, for_each, keep_each,
}

-- Every call that the action makes is allowed, whatever was called before.
pub record Keeps {A : Type 0} (P : Call → Type 0) (m : Action A) : Type 0 where
  pub made : (past : History) → Extends P past (m past).1

pub Keeps-All :
    {A : Type 0} {P : Call → Type 0} (m : Action A) (past : History)
    → Keeps P m
    → All P past
    → All P (m past).1
Keeps-All m past k h = All-Extends (k.made past) h

module _ {A : Type 0} {P : Call → Type 0} where
  -- Each branch may use how the test came out.
  pub Keeps-if :
      (test : Bool) (a b : Action A)
      → (test ≡ true → Keeps P a)
      → (test ≡ false → Keeps P b)
      → Keeps P (if test then a else b)
  Keeps-if true a b ka kb = ka refl
  Keeps-if false a b ka kb = kb refl

module _ {A : Type 0} {P : Call → Type 0} where
  pub Keeps-pure : (a : A) → Keeps P (pure a)
  unfolding pure
  Keeps-pure a = record { made = λ past. here }

  pub Keeps-raise : (e : Error) → Keeps P (raise {A = A} e)
  unfolding raise
  Keeps-raise e = record { made = λ past. here }

  pub Keeps-lift : (r : Result A) → Keeps P (lift r)
  unfolding lift
  Keeps-lift r = record { made = λ past. here }

  pub Keeps-attempt : (m : Action A) → Keeps P m → Keeps P (attempt m)
  unfolding attempt
  Keeps-attempt m k = record { made = λ past. k.made past }

module _ {P : Call → Type 0} where
  pub Keeps-when :
      (test : Bool) (m : Action (Unit {0})) → (test ≡ true → Keeps P m) → Keeps P (when test m)
  unfolding when
  Keeps-when test m k = Keeps-if test m (pure tt) k (λ _. Keeps-pure tt)

  pub Keeps-call : (client : Client) (c : Call) → P c → Keeps P (call client c)
  unfolding call
  Keeps-call client c p = record { made = λ past. next c past p here }

module _ {A B : Type 0} {P : Call → Type 0} where
  -- What follows a check may use that the check passed.
  pub Keeps-check :
      (r : Result A) (f : A → Action B)
      → ((a : A) → r ≡ ok a → Keeps P (f a))
      → Keeps P (lift r >>= f)
  unfolding ◌>>=◌ lift
  Keeps-check (ok a) f k = k a refl
  Keeps-check (err e) f k = record { made = λ past. here }

  Keeps-continue :
      (r : Result A) (f : A → Action B)
      → ((a : A) → Keeps P (f a))
      → (past : History) → Extends P past (continue r f past).1
  Keeps-continue (ok a) f k past = (k a).made past
  Keeps-continue (err e) f k past = here

  pub Keeps-bind :
      (m : Action A) (f : A → Action B) → Keeps P m → ((a : A) → Keeps P (f a)) → Keeps P (m >>= f)
  unfolding ◌>>=◌
  Keeps-bind m f km kf = record {
    made =
        λ past. let (r, now) = m past in Extends-trans (km.made past) (Keeps-continue r f kf now);
  }

pub ruleset keeps_rules = (
  Keeps-pure, Keeps-raise, Keeps-lift, Keeps-attempt, Keeps-if, Keeps-when, Keeps-bind, Keeps-call,
)

module _ {A : Type 0} {P : Call → Type 0} where
  pub Keeps-for_each :
      (body : A → Action (Unit {0})) (xs : List A)
      → All (λ x. Keeps P (body x)) xs
      → Keeps P (for_each body xs)
  unfolding for_each
  Keeps-for_each body [] k = Keeps-pure tt
  Keeps-for_each body (x ∷ xs) k = Keeps-bind (body x) _ k.0 (λ _. Keeps-for_each body xs k.1)

  pub Keeps-keep_each :
      (test : A → Action Bool) (xs : List A)
      → ((x : A) → Keeps P (test x))
      → Keeps P (keep_each test xs)
  unfolding keep_each
  Keeps-keep_each test [] k = Keeps-pure []
  Keeps-keep_each test (x ∷ xs) k = Keeps-bind (test x) _ (k x) (λ passed.
      Keeps-bind (keep_each test xs) _ (Keeps-keep_each test xs k) (λ rest. Keeps-pure _))

module _ {A B : Type 0} {P : Call → Type 0} (Q : A → Type 0) where
  Keeps-continue_returning :
      (r : Result A) (f : A → Action B)
      → ((a : A) → r ≡ ok a → Q a)
      → ((a : A) → Q a → Keeps P (f a))
      → (past : History) → Extends P past (continue r f past).1
  Keeps-continue_returning (ok a) f returns k past = (k a (returns a refl)).made past
  Keeps-continue_returning (err e) f returns k past = here

  -- What follows an action may use what is known of its results.
  pub Keeps-bind_returning :
      (m : Action A) (f : A → Action B)
      → Keeps P m
      → ((past : History) (a : A) → (m past).0 ≡ ok a → Q a)
      → ((a : A) → Q a → Keeps P (f a))
      → Keeps P (m >>= f)
  unfolding ◌>>=◌
  Keeps-bind_returning m f km returns kf = record {
    made = λ past.
        let (r, now) = m past in
        Extends-trans (km.made past) (Keeps-continue_returning r f (returns past) kf now);
  }

module _ {A B : Type 0} {P : Call → Type 0} where
  Extends-continue :
      (r : Result A) (f : A → Action B) (now : History)
      → ((a : A) → r ≡ ok a → Keeps P (f a))
      → Extends P now (continue r f now).1
  Extends-continue (ok a) f now k = (k a refl).made now
  Extends-continue (err e) f now k = here

  -- What follows an action that begins at a known time may use its result.
  pub Extends-bind :
      (m : Action A) (f : A → Action B) (past : History)
      → Extends P past (m past).1
      → ((a : A) → (m past).0 ≡ ok a → Keeps P (f a))
      → Extends P past ((m >>= f) past).1
  unfolding ◌>>=◌
  Extends-bind m f past made k = Extends-trans made (Extends-continue (m past).0 f (m past).1 k)
