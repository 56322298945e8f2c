-- ===== src/Error.antt =====
-- crates/a2g-core/src/error.rs: the error type, the messages that errors and verdicts carry, and
-- the result of a fallible call. A message is a format text with the values it is filled with.
use Prim.Native.String.{String}
use a2g_cli.Base.{arith, ◌⊎◌, inl, inr, ◌≡◌, refl, ℕ, Bool, true, false, Option, none, some}
use a2g_cli.Base.Int.{ℤ}
use a2g_cli.Base.Text.{Text}

mutual
  pub data A2gError : Type 0 where
    mandate_parse : Message → A2gError
    json : Message → A2gError
    hex_decode_error : A2gError
    signature_invalid : A2gError
    invalid_key : A2gError
    cbor_encode : A2gError
    cbor_decode : A2gError
    mandate_expired : A2gError
    mandate_invalid : Message → A2gError
    grant_expired : A2gError
    binding_mismatch : String → A2gError
    authority_chain : Message → A2gError
    invalid_speed : Message → A2gError
    attestation_bad_signature : A2gError
    attestation_invalid_key : A2gError
    attestation_stale_nonce : A2gError
    attestation_stale : A2gError
    path_error : Message → A2gError
    ledger_error : Message → A2gError
    issuer_untrusted : A2gError
    internal : Message → A2gError

  -- `format!(text, args…)`
  pub data Message : Type 0 where
    format : String → Args → Message

  pub data Args : Type 0 where
    end : Args
    text : Text → Args → Args
    number : ℕ → Args → Args
    signed : ℤ → Args → Args
    failure : A2gError → Args → Args

abbrev pub say : String → Message
say s = format s end

pub data Result {ℓ} (A : Type ℓ) : Type ℓ where
  ok : A → Result A
  err : A2gError → Result A

-- An early `return Err(e)` unless the test holds.
abbrev pub ensure : (test : Bool) (fault : A2gError) → Result (Unit {0})
ensure false fault = err fault
ensure true fault = ok tt

-- `?`
infixl 5 ◌>>=◌
abbrev pub ◌>>=◌ {ℓ κ} :
    {A : Type ℓ} {B : Type κ} (call : Result A) (rest : A → Result B) → Result B
err fault >>= rest = err fault
ok value >>= rest = rest value

infixl 5 ◌>>◌
abbrev pub ◌>>◌ {κ} : {B : Type κ} (call : Result (Unit {0})) (rest : Result B) → Result B
call >> rest = call >>= λ done. rest

-- `ok_or`, and `map_err` of a call with one way to fail.
abbrev pub ok_or {ℓ} : {A : Type ℓ} → Option A → A2gError → Result A
ok_or none e = err e
ok_or (some a) e = ok a

abbrev pub is_ok {ℓ} : {A : Type ℓ} → Result A → Bool
is_ok (ok a) = true
is_ok (err e) = false

-- Inversion of a successful chain of calls.
pub >>=-eq-ok {ℓ κ} :
    {A : Type ℓ} {B : Type κ} (call : Result A) (rest : A → Result B) {value : B}
    → (call >>= rest) ≡ ok value
    → (mid : A) × (call ≡ ok mid) × (rest mid ≡ ok value)
>>=-eq-ok (err fault) rest e = cc
>>=-eq-ok (ok mid) rest e = (mid, refl, e)

pub >>-eq-ok {ℓ} :
    {B : Type ℓ} (m : Result (Unit {0})) (k : Result B) {b : B}
    → (m >> k) ≡ ok b
    → (m ≡ ok tt) × (k ≡ ok b)
>>-eq-ok (ok u) k h = (refl, h)
>>-eq-ok (err e) k h = cc

pub ensure-eq-ok {ℓ} :
    {B : Type ℓ} (t : Bool) (e : A2gError) (k : Result B) {b : B}
    → (ensure t e >> k) ≡ ok b
    → (t ≡ true) × (k ≡ ok b)
ensure-eq-ok true e k h = (refl, h)
ensure-eq-ok false e k h = cc

pub ok_or-eq-ok {ℓ κ} :
    {A : Type ℓ} {B : Type κ} (o : Option A) (e : A2gError) (f : A → Result B) {b : B}
    → (ok_or o e >>= f) ≡ ok b
    → (a : A) × (o ≡ some a) × (f a ≡ ok b)
ok_or-eq-ok (some a) e f h = (a, refl, h)
ok_or-eq-ok none e f h = cc

pub is_ok-eq-true {ℓ} : {A : Type ℓ} (m : Result A) → is_ok m ≡ true → (a : A) × (m ≡ ok a)
is_ok-eq-true (ok a) h = (a, refl)
is_ok-eq-true (err e) h = cc

-- What a function reads off two results that are equal.
pub ok-injective {ℓ κ} : {A : Type ℓ} {B : Type κ} (f : A → B) {a b : A} → ok a ≡ ok b → f a ≡ f b
ok-injective f h = cc

pub Result-cases {ℓ} :
    {A : Type ℓ} (m : Result A) → ((e : A2gError) × (m ≡ err e)) ⊎ ((a : A) × (m ≡ ok a))
Result-cases (err e) = inl (e, refl)
Result-cases (ok a) = inr (a, refl)

pub some-injective {ℓ} : {A : Type ℓ} {x y : A} → some x ≡ some y → x ≡ y
some-injective e = ground arith

-- A call that may panic is an `Option (Result A)`, and `none` its panic.
abbrev pub and_then {ℓ} :
    {A B : Type ℓ} → Option (Result A) → (A → Option (Result B)) → Option (Result B)
and_then none f = none
and_then (some (err e)) f = some (err e)
and_then (some (ok a)) f = f a

abbrev pub or_panic {ℓ} : {A B : Type ℓ} → Option A → (A → Option (Result B)) → Option (Result B)
or_panic none f = none
or_panic (some a) f = f a

pub and_then-eq-ok {ℓ} :
    {A B : Type ℓ} (x : Option (Result A)) (f : A → Option (Result B)) {b : B}
    → and_then x f ≡ some (ok b)
    → (a : A) × (x ≡ some (ok a)) × (f a ≡ some (ok b))
and_then-eq-ok none f h = cc
and_then-eq-ok (some (err e)) f h = cc
and_then-eq-ok (some (ok a)) f h = (a, refl, h)

pub or_panic-eq-ok {ℓ} :
    {A B : Type ℓ} (x : Option A) (f : A → Option (Result B)) {b : B}
    → or_panic x f ≡ some (ok b)
    → (a : A) × (x ≡ some a) × (f a ≡ some (ok b))
or_panic-eq-ok none f h = cc
or_panic-eq-ok (some a) f h = (a, refl, h)
