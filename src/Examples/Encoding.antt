-- ===== src/Examples/Encoding.antt =====
-- Tests for equal mandates, for encoders that write one mandate only.
use a2g_cli.Base.{◌==◌, ==_iff, ◌≡◌, refl, Bool, true, false, ◌&&◌, List, [], ◌∷◌, arith}
use a2g_cli.Base.Text.{Text, text_eq, text_eq→eq}
use a2g_cli.Mandate.Types.{MandateTbs, CborMandate}

unfoldable pub texts_eq : List Text → List Text → Bool
unfolding text_eq
texts_eq [] [] = true
texts_eq [] (t ∷ ts) = false
texts_eq (s ∷ ss) [] = false
texts_eq (s ∷ ss) (t ∷ ts) = text_eq s t && texts_eq ss ts

texts_eq→eq : (ss ts : List Text) → texts_eq ss ts ≡ true → ss ≡ ts
unfolding texts_eq
texts_eq→eq [] [] h = refl
texts_eq→eq [] (t ∷ ts) h = cc
texts_eq→eq (s ∷ ss) [] h = cc
texts_eq→eq (s ∷ ss) (t ∷ ts) h = ground (arith, text_eq→eq s t, texts_eq→eq ss ts)

and-true : (s t : Bool) → (s && t) ≡ true → (s ≡ true) × (t ≡ true)
and-true true t h = (refl, h)
and-true false t h = cc

unfoldable pub same_tbs : MandateTbs → MandateTbs → Bool
unfolding texts_eq text_eq
same_tbs a b =
    text_eq a.tag b.tag
    && (text_eq a.agent_did b.agent_did
        && (text_eq a.issuer_did b.issuer_did
            && (text_eq a.agent_name b.agent_name
                && (text_eq a.issued_at b.issued_at
                    && (text_eq a.expires_at b.expires_at
                        && (text_eq a.proposal_hash b.proposal_hash
                            && (text_eq a.workspace_root b.workspace_root
                                && (text_eq a.capabilities_hash b.capabilities_hash
                                    && (texts_eq a.tools b.tools
                                        && (texts_eq a.fs_read b.fs_read
                                            && (texts_eq a.fs_write b.fs_write
                                                && (texts_eq a.fs_deny b.fs_deny
                                                    && (texts_eq a.net_allow b.net_allow
                                                        && (texts_eq a.net_deny b.net_deny
                                                            && (texts_eq a.cmd_allow b.cmd_allow
                                                            && (texts_eq a.cmd_deny b.cmd_deny
                                                            && ((a.max_calls_per_minute
                                                            == b.max_calls_per_minute)
                                                            && ((a.max_file_size_bytes
                                                            == b.max_file_size_bytes)
                                                            && ((a.max_output_tokens
                                                            == b.max_output_tokens)
                                                            && ((a.max_session_duration_sec
                                                            == b.max_session_duration_sec)
                                                            && (texts_eq a.deny_patterns
                                                            b.deny_patterns
                                                            && (texts_eq a.redact_patterns
                                                            b.redact_patterns
                                                            && ((a.max_output_length
                                                            == b.max_output_length)
                                                            && (text_eq a.region b.region
                                                            && (text_eq a.regulatory_framework
                                                            b.regulatory_framework
                                                            && (text_eq a.environment b.environment
                                                            && (text_eq a.classification
                                                            b.classification
                                                            && (text_eq a.operating_hours
                                                            b.operating_hours
                                                            && (texts_eq a.escalate_tools
                                                            b.escalate_tools
                                                            && (texts_eq a.escalate_paths
                                                            b.escalate_paths
                                                            && (texts_eq a.escalate_hosts
                                                            b.escalate_hosts
                                                            && (text_eq a.escalate_to
                                                            b.escalate_to))))))))))))))))))))))))))))))))

pub same_tbs→eq : (a b : MandateTbs) → same_tbs a b ≡ true → a ≡ b
unfolding same_tbs
same_tbs→eq a b h0 =
    let (t0, h1) = and-true _ _ h0 in
    let e0 = text_eq→eq a.tag b.tag t0 in
    let (t1, h2) = and-true _ _ h1 in
    let e1 = text_eq→eq a.agent_did b.agent_did t1 in
    let (t2, h3) = and-true _ _ h2 in
    let e2 = text_eq→eq a.issuer_did b.issuer_did t2 in
    let (t3, h4) = and-true _ _ h3 in
    let e3 = text_eq→eq a.agent_name b.agent_name t3 in
    let (t4, h5) = and-true _ _ h4 in
    let e4 = text_eq→eq a.issued_at b.issued_at t4 in
    let (t5, h6) = and-true _ _ h5 in
    let e5 = text_eq→eq a.expires_at b.expires_at t5 in
    let (t6, h7) = and-true _ _ h6 in
    let e6 = text_eq→eq a.proposal_hash b.proposal_hash t6 in
    let (t7, h8) = and-true _ _ h7 in
    let e7 = text_eq→eq a.workspace_root b.workspace_root t7 in
    let (t8, h9) = and-true _ _ h8 in
    let e8 = text_eq→eq a.capabilities_hash b.capabilities_hash t8 in
    let (t9, h10) = and-true _ _ h9 in
    let e9 = texts_eq→eq a.tools b.tools t9 in
    let (t10, h11) = and-true _ _ h10 in
    let e10 = texts_eq→eq a.fs_read b.fs_read t10 in
    let (t11, h12) = and-true _ _ h11 in
    let e11 = texts_eq→eq a.fs_write b.fs_write t11 in
    let (t12, h13) = and-true _ _ h12 in
    let e12 = texts_eq→eq a.fs_deny b.fs_deny t12 in
    let (t13, h14) = and-true _ _ h13 in
    let e13 = texts_eq→eq a.net_allow b.net_allow t13 in
    let (t14, h15) = and-true _ _ h14 in
    let e14 = texts_eq→eq a.net_deny b.net_deny t14 in
    let (t15, h16) = and-true _ _ h15 in
    let e15 = texts_eq→eq a.cmd_allow b.cmd_allow t15 in
    let (t16, h17) = and-true _ _ h16 in
    let e16 = texts_eq→eq a.cmd_deny b.cmd_deny t16 in
    let (t17, h18) = and-true _ _ h17 in
    let e17 = (==_iff a.max_calls_per_minute b.max_calls_per_minute).0 t17 in
    let (t18, h19) = and-true _ _ h18 in
    let e18 = (==_iff a.max_file_size_bytes b.max_file_size_bytes).0 t18 in
    let (t19, h20) = and-true _ _ h19 in
    let e19 = (==_iff a.max_output_tokens b.max_output_tokens).0 t19 in
    let (t20, h21) = and-true _ _ h20 in
    let e20 = (==_iff a.max_session_duration_sec b.max_session_duration_sec).0 t20 in
    let (t21, h22) = and-true _ _ h21 in
    let e21 = texts_eq→eq a.deny_patterns b.deny_patterns t21 in
    let (t22, h23) = and-true _ _ h22 in
    let e22 = texts_eq→eq a.redact_patterns b.redact_patterns t22 in
    let (t23, h24) = and-true _ _ h23 in
    let e23 = (==_iff a.max_output_length b.max_output_length).0 t23 in
    let (t24, h25) = and-true _ _ h24 in
    let e24 = text_eq→eq a.region b.region t24 in
    let (t25, h26) = and-true _ _ h25 in
    let e25 = text_eq→eq a.regulatory_framework b.regulatory_framework t25 in
    let (t26, h27) = and-true _ _ h26 in
    let e26 = text_eq→eq a.environment b.environment t26 in
    let (t27, h28) = and-true _ _ h27 in
    let e27 = text_eq→eq a.classification b.classification t27 in
    let (t28, h29) = and-true _ _ h28 in
    let e28 = text_eq→eq a.operating_hours b.operating_hours t28 in
    let (t29, h30) = and-true _ _ h29 in
    let e29 = texts_eq→eq a.escalate_tools b.escalate_tools t29 in
    let (t30, h31) = and-true _ _ h30 in
    let e30 = texts_eq→eq a.escalate_paths b.escalate_paths t30 in
    let (t31, h32) = and-true _ _ h31 in
    let e31 = texts_eq→eq a.escalate_hosts b.escalate_hosts t31 in
    let e32 = text_eq→eq a.escalate_to b.escalate_to h32 in
    λ i. record {
      tag = e0 i;
      agent_did = e1 i;
      issuer_did = e2 i;
      agent_name = e3 i;
      issued_at = e4 i;
      expires_at = e5 i;
      proposal_hash = e6 i;
      workspace_root = e7 i;
      capabilities_hash = e8 i;
      tools = e9 i;
      fs_read = e10 i;
      fs_write = e11 i;
      fs_deny = e12 i;
      net_allow = e13 i;
      net_deny = e14 i;
      cmd_allow = e15 i;
      cmd_deny = e16 i;
      max_calls_per_minute = e17 i;
      max_file_size_bytes = e18 i;
      max_output_tokens = e19 i;
      max_session_duration_sec = e20 i;
      deny_patterns = e21 i;
      redact_patterns = e22 i;
      max_output_length = e23 i;
      region = e24 i;
      regulatory_framework = e25 i;
      environment = e26 i;
      classification = e27 i;
      operating_hours = e28 i;
      escalate_tools = e29 i;
      escalate_paths = e30 i;
      escalate_hosts = e31 i;
      escalate_to = e32 i;
    }

unfoldable pub same_envelope : CborMandate → CborMandate → Bool
unfolding text_eq
same_envelope a b =
    text_eq a.tag b.tag
    && (text_eq a.tbs b.tbs
        && (text_eq a.signature b.signature && text_eq a.issuer_pubkey b.issuer_pubkey))

pub same_envelope→eq : (a b : CborMandate) → same_envelope a b ≡ true → a ≡ b
unfolding same_envelope
same_envelope→eq a b h0 =
    let (t0, h1) = and-true _ _ h0 in
    let (t1, h2) = and-true _ _ h1 in
    let (t2, h3) = and-true _ _ h2 in
    let e0 = text_eq→eq a.tag b.tag t0 in
    let e1 = text_eq→eq a.tbs b.tbs t1 in
    let e2 = text_eq→eq a.signature b.signature t2 in
    let e3 = text_eq→eq a.issuer_pubkey b.issuer_pubkey h3 in
    λ i. record { tag = e0 i; tbs = e1 i; signature = e2 i; issuer_pubkey = e3 i }
