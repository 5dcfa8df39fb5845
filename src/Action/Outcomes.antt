-- ===== src/Action/Outcomes.antt =====
-- What a result tells about the steps of the code that returned it.
use re_infra.Base.{Bool, true, false, if◌then◌else◌, ◌∷◌, ◌≡◌, ◌≢◌, refl, subst}
use re_infra.Aws.{Error, Result, ok, err}
use re_infra.Calls.{Call, History, Client}
use re_infra.Action.{Action, pure, raise, lift, attempt, continue, ◌>>=◌, call}

module _ {A B : Type 0} where
  continue-ok :
      (r : Result A) (f : A → Action B) (past : History) (b : B)
      → (continue r f past).0 ≡ ok b
      → (a : A) × (r ≡ ok a) × ((f a past).0 ≡ ok b)
  continue-ok (ok a) f past b h = (a, refl, h)
  continue-ok (err e) f past b h = cc

  -- If the whole returned, the first part did, and the rest on what it returned.
  pub bind-ok :
      (m : Action A) (f : A → Action B) (past : History) (b : B)
      → ((m >>= f) past).0 ≡ ok b
      → (a : A) × ((m past).0 ≡ ok a) × ((f a (m past).1).0 ≡ ok b)
  unfolding ◌>>=◌
  bind-ok m f past b h = let (r, now) = m past in continue-ok r f now b h

module _ {A B : Type 0} where
  continue-run :
      (r : Result A) (f : A → Action B) (past : History) (a : A)
      → r ≡ ok a
      → continue r f past ≡ f a past
  continue-run r f past a h = rw h refl

  -- Where the first part returned, the whole is the rest on what it returned.
  pub bind-run :
      (m : Action A) (f : A → Action B) (past : History) (a : A)
      → (m past).0 ≡ ok a
      → (m >>= f) past ≡ f a (m past).1
  unfolding ◌>>=◌
  bind-run m f past a h = continue-run (m past).0 f (m past).1 a h

module _ {B : Type 0} where
  pub raise-ne-ok : (e : Error) (past : History) (b : B) → (raise e past).0 ≢ ok b
  unfolding raise
  raise-ne-ok e past b h = cc

  -- What ends by raising returns nothing.
  pub raise_after-ne-ok :
      {A : Type 0} (m : Action A) (e : Error) (past : History) (b : B)
      → ((m >>= λ _. raise e) past).0 ≢ ok b
  raise_after-ne-ok m e past b h =
      let (a, first, rest) = bind-ok m _ past b h in raise-ne-ok e (m past).1 b rest

module _ {A : Type 0} (B : Type 0) where
  continue-raise :
      (r : Result A) (e : Error) (past : History)
      → (continue {B = B} r (λ _. raise e) past).1 ≡ past
  unfolding raise
  continue-raise (ok a) e past = refl
  continue-raise (err e') e past = refl

-- One call, and then an exception.
pub call-raise :
    (B : Type 0) (client : Client) (c : Call) (e : Error) (past : History)
    → ((call client c >>= λ _. raise {A = B} e) past).1 ≡ c ∷ past
unfolding ◌>>=◌ call
call-raise B client c e past = continue-raise B (client.reply past c) e (c ∷ past)

-- Whatever the action returns has the property.
pub record Returns {A : Type 0} (Q : A → Type 0) (m : Action A) : Type 0 where
  pub holds : (past : History) (a : A) → (m past).0 ≡ ok a → Q a

pub ok_injective : {A : Type 0} (a b : A) → ok a ≡ ok b → a ≡ b
ok_injective a b h = cc

module _ {A : Type 0} (Q : A → Type 0) where
  pub Returns-pure : (a : A) → Q a → Returns Q (pure a)
  unfolding pure
  Returns-pure a q = record { holds = λ past b h. subst Q (ok_injective a b h) q }

  pub Returns-raise : (e : Error) → Returns Q (raise e)
  Returns-raise e = record { holds = λ past b h. absurd (raise-ne-ok e past b h) }

  pub Returns-if :
      (c : Bool) (m n : Action A)
      → (c ≡ true → Returns Q m)
      → (c ≡ false → Returns Q n)
      → Returns Q (if c then m else n)
  Returns-if true m n rm rn = rm refl
  Returns-if false m n rm rn = rn refl

module _ {A B : Type 0} (Q : B → Type 0) where
  pub Returns-bind :
      (m : Action A) (f : A → Action B) → ((a : A) → Returns Q (f a)) → Returns Q (m >>= f)
  Returns-bind m f k = record {
    holds = λ past b h. let (a, _, done) = bind-ok m f past b h in (k a).holds (m past).1 b done;
  }

  pub Returns-bind_using :
      (R : A → Type 0) (m : Action A) (f : A → Action B)
      → Returns R m
      → ((a : A) → R a → Returns Q (f a))
      → Returns Q (m >>= f)
  Returns-bind_using R m f r k = record {
    holds = λ past b h.
        let (a, first, done) = bind-ok m f past b h in
        (k a (r.holds past a first)).holds (m past).1 b done;
  }

module _ {A : Type 0} (Q : A → Type 0) where
  pub Returns-lift : (r : Result A) → ((a : A) → r ≡ ok a → Q a) → Returns Q (lift r)
  unfolding lift
  Returns-lift r k = record { holds = λ past a h. k a h }

  -- The property of a caught result, if it is no exception.
  abbrev pub OnOk : Result A → Type 0
  OnOk (ok a) = Q a
  OnOk (err e) = Unit

  OnOk-intro : (r : Result A) → ((a : A) → r ≡ ok a → Q a) → OnOk r
  OnOk-intro (ok a) k = k a refl
  OnOk-intro (err e) k = tt

  pub Returns-attempt : (m : Action A) → Returns Q m → Returns OnOk (attempt m)
  unfolding attempt
  Returns-attempt m r = record {
    holds = λ past found h.
        subst OnOk (ok_injective (m past).0 found h) (OnOk-intro (m past).0 (r.holds past));
  }

pub ruleset returns_rules = (Returns-pure, Returns-raise, Returns-if, Returns-bind)
