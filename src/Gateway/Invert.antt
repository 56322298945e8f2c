-- ===== src/Gateway/Invert.antt =====
-- Inversion of the gateway's steps: what holds of the parts of a step that passed.
use a2g_cli.Vehicle.Attest.{bad, Attested, good}
use a2g_cli.Vehicle.Types.{VerifiedVehicleState}
use a2g_cli.Error.{err, A2gError, Result, ok, Message}
use a2g_cli.Base.{
  if◌then◌else◌, ap, ◌≡◌, refl, Bool, true, false, Option, none, some, inl, inr, ◌⊎◌,
}
use a2g_cli.Gateway.Types.{next, GatewayState, Reply, pass, refuse, panic, Action, ◌>>=◌, refuse_if}

pub next-eq-pass :
    {A B : Type 0} (r : Reply A) (s : GatewayState) (f : A → Action B) {b : B} {s' : GatewayState}
    → next r s f ≡ (pass b, s')
    → (a : A) × (r ≡ pass a) × (f a s ≡ (pass b, s'))
next-eq-pass (pass a) s f h = (a, refl, h)
next-eq-pass (refuse e) s f h = cc
next-eq-pass panic s f h = cc

-- Inversion of a chain of steps that passed.
pub >>=-eq-pass :
    {A B : Type 0} (m : Action A) (f : A → Action B) (s : GatewayState) {b : B} {s'' : GatewayState}
    → (m >>= f) s ≡ (pass b, s'')
    → (a : A) × (s' : GatewayState) × (m s ≡ (pass a, s')) × (f a s' ≡ (pass b, s''))
unfolding ◌>>=◌
>>=-eq-pass m f s h =
    let (a, e, rest) = next-eq-pass (m s).0 (m s).1 f h in
    (a, (m s).1, ap (λ r. (r, (m s).1)) e, rest)

pub refuse_if-eq-pass :
    (t : Bool) (e : Message) (s : GatewayState) {u : Unit} {s' : GatewayState}
    → refuse_if t e s ≡ (pass u, s')
    → (t ≡ false) × (s ≡ s')
refuse_if-eq-pass true e s h = cc
refuse_if-eq-pass false e s h = (refl, cc)

pub if-eq-pass :
    {B : Type 0} (t : Bool) (e : Message) (s : GatewayState) (k : Reply B × GatewayState) {b : B}
    {s' : GatewayState}
    → (if t then (refuse e, s) else k) ≡ (pass b, s')
    → (t ≡ false) × (k ≡ (pass b, s'))
if-eq-pass true e s k h = cc
if-eq-pass false e s k h = (refl, h)

pub skip-eq-pass :
    (t : Bool) (s : GatewayState) (k : Reply Unit × GatewayState) {u : Unit} {s' : GatewayState}
    → (if t then (pass tt, s) else k) ≡ (pass u, s')
    → ((t ≡ true) × (s ≡ s')) ⊎ ((t ≡ false) × (k ≡ (pass u, s')))
skip-eq-pass true s k h = inl (refl, ap (λ q. q.1) h)
skip-eq-pass false s k h = inr (refl, h)

pub choice-eq-pass :
    (t : Bool) (k l : Action Unit) (s : GatewayState) {u : Unit} {s' : GatewayState}
    → (if t then k else l) s ≡ (pass u, s')
    → ((t ≡ true) × (k s ≡ (pass u, s'))) ⊎ ((t ≡ false) × (l s ≡ (pass u, s')))
choice-eq-pass true k l s h = inl (refl, h)
choice-eq-pass false k l s h = inr (refl, h)

pub branch-eq-pass :
    (t : Bool) (k l : Reply Unit × GatewayState) {u : Unit} {s' : GatewayState}
    → (if t then k else l) ≡ (pass u, s')
    → ((t ≡ true) × (k ≡ (pass u, s'))) ⊎ ((t ≡ false) × (l ≡ (pass u, s')))
branch-eq-pass true k l h = inl (refl, h)
branch-eq-pass false k l h = inr (refl, h)

pub option-eq-pass :
    {A B : Type 0} (o : Option A) (e : Message) (s : GatewayState) (f : A → Reply B × GatewayState)
    {b : B} {s' : GatewayState}
    → (elim o as (λ _. Reply B × GatewayState) [ none ↦ (refuse e, s) | some a ↦ f a ])
      ≡ (pass b, s')
    → (a : A) × (o ≡ some a) × (f a ≡ (pass b, s'))
option-eq-pass none e s f h = cc
option-eq-pass (some a) e s f h = (a, refl, h)

pub result-eq-pass :
    {A B : Type 0} (o : Result A) (e : A2gError → Message) (s : GatewayState)
    (f : A → Reply B × GatewayState) {b : B} {s' : GatewayState}
    → (elim o as (λ _. Reply B × GatewayState) [ err x ↦ (refuse (e x), s) | ok a ↦ f a ])
      ≡ (pass b, s')
    → (a : A) × (o ≡ ok a) × (f a ≡ (pass b, s'))
result-eq-pass (err x) e s f h = cc
result-eq-pass (ok a) e s f h = (a, refl, h)

pub attest-eq-pass :
    (o : Attested VerifiedVehicleState) (e : Message) (s : GatewayState) {u : Unit}
    {s' : GatewayState}
    → (elim o as (λ _. Reply Unit × GatewayState) [ good v ↦ (pass tt, s) | bad x ↦ (refuse e, s) ])
      ≡ (pass u, s')
    → (v : VerifiedVehicleState) × (o ≡ good v) × (s ≡ s')
attest-eq-pass (good v) e s h = (v, refl, ap (λ q. q.1) h)
attest-eq-pass (bad x) e s h = cc
