-- ===== src/Enforce/Allow/Flow.antt =====
-- Inversion of the pipeline's control flow.
use a2g_cli.Base.{◌≡◌, refl, Bool, true, false, arith}
use a2g_cli.Error.{Message, ok, Result}
use a2g_cli.Enforce.Types.{
  allow, is_allow, Verdict, Request, Flow, next, halt, fail, ◌>>=◌, ◌>>◌, deny_if, finish, lift,
}

-- The flow does not stop with an allowing verdict.
abbrev pub StopsSafely : Flow (Unit {0}) → Type 0
StopsSafely (next u) = Unit
StopsSafely (halt v) = is_allow v.decision ≡ false
StopsSafely (fail e) = Unit

pub StopsSafely->> : (m k : Flow (Unit {0})) → StopsSafely m → StopsSafely k → StopsSafely (m >> k)
StopsSafely->> (next u) k hm hk = hk
StopsSafely->> (halt v) k hm hk = hm
StopsSafely->> (fail e) k hm hk = tt

pub StopsSafely-deny_if : (r : Request) (b : Bool) (rule : Message) → StopsSafely (deny_if r b rule)
StopsSafely-deny_if r true rule = refl
StopsSafely-deny_if r false rule = tt

pub StopsSafely-lift :
    {A : Type 0} (x : Result A) (k : A → Flow (Unit {0}))
    → ((a : A) → StopsSafely (k a))
    → StopsSafely (lift x >>= k)
StopsSafely-lift (ok a) k h = h a
StopsSafely-lift (Result.err e) k h = tt

-- Where the whole flow allows, its first step went on, and so did the rest.
pub finish-allow :
    (m : Flow (Unit {0})) (k : Flow Verdict) {v : Verdict}
    → StopsSafely m
    → finish (m >> k) ≡ ok v
    → v.decision ≡ allow
    → (m ≡ next tt) × (finish k ≡ ok v)
finish-allow (next u) k s h a = (refl, h)
finish-allow (halt w) k s h a = ground arith
finish-allow (fail e) k s h a = cc

pub >>-next : (m k : Flow (Unit {0})) → (m >> k) ≡ next tt → (m ≡ next tt) × (k ≡ next tt)
>>-next (next u) k h = (refl, h)
>>-next (halt v) k h = cc
>>-next (fail e) k h = cc
