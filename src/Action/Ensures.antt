-- ===== src/Action/Ensures.antt =====
-- What is known of the calls made when an action ends: by its result, and along the way.
use re_infra.Base.{◌≡◌, refl, Bool, true, false, if◌then◌else◌, ◌∷◌}
use re_infra.Aws.{Error, Result, ok, err}
use re_infra.Calls.{Call, Answer, History, Client}
use re_infra.Action.Extends.{Extends}
use re_infra.Action.Keeps.{Keeps}
use re_infra.Action.{Action, pure, raise, continue, ◌>>=◌, call}

-- The invariant holds when the action ends, and on a result also what is promised of it.
module _ {A : Type 0} (I : History → Type 0) (Post : A → History → Type 0) where
  abbrev pub Ended : Result A → History → Type 0
  Ended (ok a) now = I now × Post a now
  Ended (err e) now = I now

-- An action that is begun with the invariant and the precondition.
pub record Ensures {A : Type 0} (I Pre : History → Type 0) (m : Action A)
    (Post : A → History → Type 0) : Type 0 where
  pub at : (past : History) → I past → Pre past → Ended I Post (m past).0 (m past).1

module _ {A B : Type 0} {I : History → Type 0} {Mid : A → History → Type 0}
    {Post : B → History → Type 0} where
  Ensures-continue :
      (r : Result A) (f : A → Action B) (now : History)
      → ((a : A) → Ensures I (Mid a) (f a) Post)
      → Ended I Mid r now
      → Ended I Post (continue r f now).0 (continue r f now).1
  Ensures-continue (ok a) f now k h = (k a).at now h.0 h.1
  Ensures-continue (err e) f now k h = h

  pub Ensures-bind :
      {Pre : History → Type 0} (m : Action A) (f : A → Action B)
      → Ensures I Pre m Mid
      → ((a : A) → Ensures I (Mid a) (f a) Post)
      → Ensures I Pre (m >>= f) Post
  unfolding ◌>>=◌
  Ensures-bind m f km kf = record {
    at = λ past i h. let (r, now) = m past in Ensures-continue r f now kf (km.at past i h);
  }

Ended-reply :
    (I : History → Type 0) (c : Call) (Post : Answer c → History → Type 0) (r : Result (Answer c))
    (now : History)
    → I now
    → ((a : Answer c) → r ≡ ok a → Post a now)
    → Ended I Post r now
Ended-reply I c Post (ok a) now i k = (i, k a refl)
Ended-reply I c Post (err e) now i k = i

module _ {I Pre : History → Type 0} where
  pub Ensures-call :
      (client : Client) (c : Call) (Post : Answer c → History → Type 0)
      → ((past : History) → I past → Pre past → I (c ∷ past))
      → ((past : History) (a : Answer c)
          → I past
          → Pre past
          → client.reply past c ≡ ok a
          → Post a (c ∷ past))
      → Ensures I Pre (call client c) Post
  unfolding call
  Ensures-call client c Post keep post = record {
    at = λ past i h.
        Ended-reply I c Post (client.reply past c) (c ∷ past) (keep past i h)
          (λ a e. post past a i h e);
  }

Ended-kept :
    {A : Type 0} (I Pre : History → Type 0) (r : Result A) (now : History)
    → I now
    → Pre now
    → Ended I (λ _. Pre) r now
Ended-kept I Pre (ok a) now i h = (i, h)
Ended-kept I Pre (err e) now i h = i

module _ {A : Type 0} {I Pre : History → Type 0} where
  pub Ensures-pure :
      (a : A) (Post : A → History → Type 0)
      → ((past : History) → I past → Pre past → Post a past)
      → Ensures I Pre (pure a) Post
  unfolding pure
  Ensures-pure a Post k = record { at = λ past i h. (i, k past i h) }

  pub Ensures-raise : (e : Error) (Post : A → History → Type 0) → Ensures I Pre (raise e) Post
  unfolding raise
  Ensures-raise e Post = record { at = λ past i h. i }

  pub Ensures-if :
      (test : Bool) (a b : Action A) (Post : A → History → Type 0)
      → (test ≡ true → Ensures I Pre a Post)
      → (test ≡ false → Ensures I Pre b Post)
      → Ensures I Pre (if test then a else b) Post
  Ensures-if true a b Post ka kb = ka refl
  Ensures-if false a b Post ka kb = kb refl

  pub Ensures-weaken :
      {Before : History → Type 0} {Post : A → History → Type 0} (m : Action A)
      → ((past : History) → Before past → Pre past)
      → Ensures I Pre m Post
      → Ensures I Before m Post
  Ensures-weaken m pre k = record { at = λ past i h. k.at past i (pre past h) }

  -- Calls that neither the invariant nor the precondition minds.
  pub Ensures-Keeps :
      {P : Call → Type 0} (m : Action A)
      → Keeps P m
      → ((past now : History) → Extends P past now → I past → I now)
      → ((past now : History) → Extends P past now → Pre past → Pre now)
      → Ensures I Pre m (λ _. Pre)
  Ensures-Keeps m k keep same = record {
    at = λ past i h.
        Ended-kept I Pre (m past).0 (m past).1 (keep past (m past).1 (k.made past) i)
          (same past (m past).1 (k.made past) h);
  }

-- An action that leaves the invariant as it is, whatever it returns.
pub record Preserves {A : Type 0} (I : History → Type 0) (m : Action A) : Type 0 where
  pub holds : (past : History) → I past → I (m past).1

Ended-holds :
    {A : Type 0} (I : History → Type 0) (Post : A → History → Type 0) (r : Result A) (now : History)
    → Ended I Post r now
    → I now
Ended-holds I Post (ok a) now h = h.0
Ended-holds I Post (err e) now h = h

module _ {A : Type 0} {I : History → Type 0} where
  pub Preserves-Ensures :
      {Pre : History → Type 0} {Post : A → History → Type 0} (m : Action A)
      → ((past : History) → Pre past)
      → Ensures I Pre m Post
      → Preserves I m
  Preserves-Ensures {Post = Post} m pre k = record {
    holds = λ past i. Ended-holds I Post (m past).0 (m past).1 (k.at past i (pre past));
  }

  pub Preserves-if :
      (test : Bool) (a b : Action A)
      → Preserves I a
      → Preserves I b
      → Preserves I (if test then a else b)
  Preserves-if true a b ka kb = ka
  Preserves-if false a b ka kb = kb

  pub Preserves-Keeps :
      {P : Call → Type 0} (m : Action A)
      → ((past now : History) → Extends P past now → I past → I now)
      → Keeps P m
      → Preserves I m
  Preserves-Keeps m keep k = record { holds = λ past i. keep past (m past).1 (k.made past) i }

module _ {A B : Type 0} {I : History → Type 0} where
  Preserves-continue :
      (r : Result A) (f : A → Action B) (now : History)
      → ((a : A) → Preserves I (f a))
      → I now
      → I (continue r f now).1
  Preserves-continue (ok a) f now k i = (k a).holds now i
  Preserves-continue (err e) f now k i = i

  pub Preserves-bind :
      (m : Action A) (f : A → Action B)
      → Preserves I m
      → ((a : A) → Preserves I (f a))
      → Preserves I (m >>= f)
  unfolding ◌>>=◌
  Preserves-bind m f km kf = record {
    holds = λ past i. let (r, now) = m past in Preserves-continue r f now kf (km.holds past i);
  }

Ended-also :
    {A : Type 0} (I Pre : History → Type 0) (Q : A → History → Type 0) (r : Result A)
    (now : History)
    → I now
    → Pre now
    → ((a : A) → r ≡ ok a → Q a now)
    → Ended I (λ a now. Pre now × Q a now) r now
Ended-also I Pre Q (ok a) now i h k = (i, (h, k a refl))
Ended-also I Pre Q (err e) now i h k = i

module _ {A : Type 0} {I Pre : History → Type 0} where
  -- Calls that neither minds, where a result tells more of them.
  pub Ensures-ok :
      {P : Call → Type 0} (Q : A → History → Type 0) (m : Action A)
      → Keeps P m
      → ((past now : History) → Extends P past now → I past → I now)
      → ((past now : History) → Extends P past now → Pre past → Pre now)
      → ((past : History) (a : A) → (m past).0 ≡ ok a → Q a (m past).1)
      → Ensures I Pre m (λ a now. Pre now × Q a now)
  Ensures-ok Q m k keep same known = record {
    at = λ past i h.
        Ended-also I Pre Q (m past).0 (m past).1 (keep past (m past).1 (k.made past) i)
          (same past (m past).1 (k.made past) h) (known past);
  }
