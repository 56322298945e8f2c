-- ===== src/Ffi/Written.antt =====
-- crates/a2g-ffi/src/lib.rs: the code that a function returns and the handle that it writes agree.
use a2g_cli.Base.Text.{Text}
use a2g_cli.Base.{true, Option, none, some, ◌≡◌, refl, ◌≢◌, ◌⊎◌, inl, inr, arith}
use a2g_cli.Error.{Message}
use a2g_cli.Platform.{Platform}
use a2g_cli.Mandate.Types.{Bytes}
use a2g_cli.Enforce.Types.{Decision, Verdict}
use a2g_cli.Ffi.Types.{TrustAnchorOwned, code_of, code_error}
use a2g_cli.Ffi.Handle.{new_handle, A2gVerdictHandle, a2g_verdict_decision, make_error_verdict}
use a2g_cli.Ffi.Decide.{
  decide_under, approve_under, Serde, Arguments, Answer, answer_of, error_answer, a2g_decide,
  a2g_decide_with_approval,
}

-- The handle is written: it tells the returned code, or is the one of an error.
abbrev pub IsWritten : Answer → Type 0
IsWritten (code, out) =
    (h : A2gVerdictHandle) × (out ≡ some h)
    × (((code ≢ code_error) × (a2g_verdict_decision (some h) ≡ code))
        ⊎ ((code ≡ code_error) × (h ≡ make_error_verdict)))

code_of-ne-error : (d : Decision) → code_of d ≢ code_error
code_of-ne-error d = ground arith

module _ (p : Platform) (s : Serde) (render : Message → Text) (a : Arguments)
    (wants : a.has_out_verdict ≡ true) where
  error-IsWritten : IsWritten (error_answer a)
  error-IsWritten = rw wants (make_error_verdict, refl, inr (refl, refl))

  answer_of-IsWritten : (x : Option (Option Verdict)) → IsWritten (answer_of p s render a x)
  unfolding new_handle
  answer_of-IsWritten none = error-IsWritten
  answer_of-IsWritten (some none) = error-IsWritten
  answer_of-IsWritten (some (some v)) = rw wants (_, refl, inl (code_of-ne-error v.decision, refl))

  decide_under-IsWritten : (t : Option TrustAnchorOwned) → IsWritten (decide_under p s render a t)
  unfolding decide_under
  decide_under-IsWritten none = error-IsWritten
  decide_under-IsWritten (some trust) = answer_of-IsWritten _

  approve_under-IsWritten :
      (bj gj : Option Bytes) (t : Option TrustAnchorOwned) (key : Option Bytes)
      → IsWritten (approve_under p s render a bj gj t key)
  unfolding approve_under
  approve_under-IsWritten bj gj none key = error-IsWritten
  approve_under-IsWritten bj gj (some trust) none = error-IsWritten
  approve_under-IsWritten bj gj (some trust) (some key) = answer_of-IsWritten _

  -- If the caller passes a place for it, both functions of the C interface write a verdict handle
  -- on every branch: for which `a2g_verdict_decision` gives the code that they return, unless that
  -- is Error, where the handle is the fixed error verdict.
  pub a2g_decide-IsWritten :
      (signed_binding_json binding_pubkey grant_json : Option Bytes)
      → IsWritten (a2g_decide p s render a)
        × IsWritten
            (a2g_decide_with_approval p s render a signed_binding_json binding_pubkey grant_json)
  unfolding a2g_decide a2g_decide_with_approval
  a2g_decide-IsWritten bj pubkey gj =
      (decide_under-IsWritten a.trust, approve_under-IsWritten bj gj a.trust pubkey)
