-- ===== src/Action/Extends.antt =====
-- A list of calls and how it went on.
use re_infra.Base.{◌∷◌, All}
use re_infra.Calls.{Call, History}

-- `now` is `past` with more calls, each of which is allowed.
pub data Extends (P : Call → Type 0) (past : History) : History → Type 0 where
  here : Extends P past past
  next : (c : Call) (now : History) → P c → Extends P past now → Extends P past (c ∷ now)

module _ {P : Call → Type 0} where
  pub Extends-trans :
      {past mid now : History} → Extends P past mid → Extends P mid now → Extends P past now
  Extends-trans e here = e
  Extends-trans e (next c now p f) = next c now p (Extends-trans e f)

module _ {P : Call → Type 0} where
  pub All-Extends : {past now : History} → Extends P past now → All P past → All P now
  All-Extends here h = h
  All-Extends (next c now p e) h = (p, All-Extends e h)

-- It held at some time before.
pub data Ever (F : History → Type 0) : History → Type 0 where
  this : (past : History) → F past → Ever F past
  before : (c : Call) (past : History) → Ever F past → Ever F (c ∷ past)

module _ {P : Call → Type 0} {F : History → Type 0} where
  pub Ever-Extends : {past now : History} → Extends P past now → Ever F past → Ever F now
  Ever-Extends here h = h
  Ever-Extends (next c now p e) h = before c now (Ever-Extends e h)
