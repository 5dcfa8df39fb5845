-- ===== src/Transfer/Meets.antt =====
-- What holds of the report and of the calls made when a job of src/rc_infra/transfer ends.
use re_infra.Base.{◌≡◌, refl, Bool, true, false, if◌then◌else◌, ◌∷◌}
use re_infra.Aws.{Error, Result, ok, err}
use re_infra.Calls.{Call, Answer, History, Client}
use re_infra.Action.{Action, pure, attempt, call, continue, ◌>>=◌}
use re_infra.Transfer.{Report, Job, give, throw, update, ask, proceed, ◌then◌, rescue}

abbrev pub State : Type 1
State = Report → History → Type 0

-- On a result what is promised of it, and on an exception the invariant.
module _ {A : Type 0} (I : State) (Post : A → State) where
  abbrev pub Settled : Result (Result A × Report) → History → Type 0
  Settled (ok (ok a, report)) now = Post a report now
  Settled (ok (err e, report)) now = I report now
  Settled (err e) now = Unit

-- A job that is begun with the precondition.
pub record Meets {A : Type 0} (I Pre : State) (m : Job A) (Post : A → State) : Type 0 where
  pub at :
      (report : Report) (past : History)
      → Pre report past
      → Settled I Post (m report past).0 (m report past).1

module _ {A : Type 0} {I Pre : State} (Post : A → State) where
  pub Meets-give :
      (a : A)
      → ((report : Report) (past : History) → Pre report past → Post a report past)
      → Meets I Pre (give a) Post
  unfolding give pure
  Meets-give a k = record { at = k }

  pub Meets-throw :
      (e : Error)
      → ((report : Report) (past : History) → Pre report past → I report past)
      → Meets I Pre (throw e) Post
  unfolding throw pure
  Meets-throw e k = record { at = k }

module _ {I Pre : State} (Post : Unit {0} → State) where
  pub Meets-update :
      (f : Report → Report)
      → ((report : Report) (past : History) → Pre report past → Post tt (f report) past)
      → Meets I Pre (update f) Post
  unfolding update pure
  Meets-update f k = record { at = k }

module _ (I : State) (c : Call) (Post : Answer c → State) where
  answered :
      (r : Result (Answer c)) (report : Report) (now : History)
      → ((a : Answer c) → r ≡ ok a → Post a report now)
      → ((e : Error) → r ≡ err e → I report now)
      → Settled I Post (ok (r, report)) now
  answered (ok a) report now k l = k a refl
  answered (err e) report now k l = l e refl

module _ {I Pre : State} (client : Client) (c : Call) (Post : Answer c → State) where
  pub Meets-ask :
      ((report : Report) (past : History) (a : Answer c)
        → Pre report past
        → client.reply past c ≡ ok a
        → Post a report (c ∷ past))
      → ((report : Report) (past : History) (e : Error)
          → Pre report past
          → client.reply past c ≡ err e
          → I report (c ∷ past))
      → Meets I Pre (ask client c) Post
  unfolding ask attempt call ◌>>=◌ pure
  Meets-ask k l = record {
    at = λ report past h.
        answered I c Post (client.reply past c) report (c ∷ past) (λ a. k report past a h)
          (λ e. l report past e h);
  }

module _ {A B : Type 0} (I : State) (Mid : A → State) (Post : B → State) where
  proceeded :
      (f : A → Job B) (r : Result (Result A × Report)) (now : History)
      → ((a : A) → Meets I (Mid a) (f a) Post)
      → Settled I Mid r now
      → Settled I Post (continue r (proceed f) now).0 (continue r (proceed f) now).1
  unfolding pure
  proceeded f (ok (ok a, report)) now k h = (k a).at report now h
  proceeded f (ok (err e, report)) now k h = h
  proceeded f (err e) now k h = tt

module _ {A B : Type 0} {I Pre : State} (Mid : A → State) (Post : B → State) where
  pub Meets-then :
      (m : Job A) (f : A → Job B)
      → Meets I Pre m Mid
      → ((a : A) → Meets I (Mid a) (f a) Post)
      → Meets I Pre (m then f) Post
  unfolding ◌then◌ ◌>>=◌
  Meets-then m f k l = record {
    at = λ report past h.
        proceeded I Mid Post f (m report past).0 (m report past).1 l (k.at report past h);
  }

-- A job that leaves the invariant as it is.
pub record Stays {A : Type 0} (I : State) (m : Job A) : Type 0 where
  pub stays : Meets I I m (λ _. I)

module _ {A : Type 0} (I : State) where
  as_value : Result A × Report → Action (Result (Result A) × Report)
  as_value (r, report) = pure (ok r, report)

  caught :
      (r : Result (Result A × Report)) (now : History)
      → Settled I (λ (_ : A). I) r now
      → Settled I (λ (_ : Result A). I) (continue r as_value now).0 (continue r as_value now).1
  unfolding pure as_value
  caught (ok (ok a, report)) now h = h
  caught (ok (err e, report)) now h = h
  caught (err e) now h = tt

module _ {A : Type 0} {I : State} where
  pub Stays-give : (a : A) → Stays I (give a)
  Stays-give a = record { stays = Meets-give _ a (λ report past h. h) }

  pub Stays-throw : (e : Error) → Stays I (throw {A = A} e)
  Stays-throw e = record { stays = Meets-throw _ e (λ report past h. h) }

  pub Stays-if :
      (test : Bool) (m n : Job A) → Stays I m → Stays I n → Stays I (if test then m else n)
  Stays-if true m n km kn = km
  Stays-if false m n km kn = kn

  pub Stays-rescue : (m : Job A) → Stays I m → Stays I (rescue m)
  unfolding rescue ◌>>=◌ as_value
  Stays-rescue m k = record {
    stays = record {
      at = λ report past h. caught I (m report past).0 (m report past).1 (k.stays.at report past h);
    };
  }

module _ {A B : Type 0} {I : State} where
  pub Stays-then :
      (m : Job A) (f : A → Job B) → Stays I m → ((a : A) → Stays I (f a)) → Stays I (m then f)
  Stays-then m f k l = record {
    stays = Meets-then (λ _. I) (λ _. I) m f k.stays (λ a. (l a).stays);
  }

pub ruleset stays_rules = (Stays-give, Stays-throw, Stays-if, Stays-rescue, Stays-then)
