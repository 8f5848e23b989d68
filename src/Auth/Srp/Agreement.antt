-- ===== src/Auth/Srp/Agreement.antt =====
-- The server against the client of SRP-6a (RFC 5054).
use sentinel_vault.Common.{
  ℕ, ◌+◌, ◌-◌, ◌*◌, ◌%◌, ◌^◌, ◌<◌, Bool, true, false, false≢true, ◌≡◌, ◌≢◌, ◌↔◌, inl, inr, refl,
  sym, ap, ◌∙◌, Option, none, some, [], ◌∷◌, length, eqb, arith, Bool-cases,
}
use native.Mathlib.Nat.{native_laws}
use sentinel_vault.Auth.Srp.{
  Buffer, Verification, judge, generator, mod_pow, multiplier_k, generate_server_ephemeral,
  calculate_u, premaster_secret, session_key_of, expected_m1, same_bytes, timing_safe_equal,
  verify_session, buffer_to_big_int,
}
use sentinel_vault.Auth.Srp.Power.{
  mul-mod_left, mul-mod_right, pow_mod, pow_add, pow_mul, mod_pow_lem,
}

same_bytes_iff : (xs ys : Buffer) → (same_bytes xs ys ≡ true) → xs ≡ ys
same_bytes_iff [] [] h = refl
same_bytes_iff [] (y ∷ ys) h = absurd (false≢true h)
same_bytes_iff (x ∷ xs) [] h = absurd (false≢true h)
same_bytes_iff (x ∷ xs) (y ∷ ys) h = ground (arith, same_bytes_iff xs ys)

same_bytes_refl : (xs : Buffer) → same_bytes xs xs ≡ true
same_bytes_refl [] = refl
same_bytes_refl (x ∷ xs) = ground (arith, same_bytes_refl xs)

equal_to_itself : (xs : Buffer) → timing_safe_equal xs xs ≡ some true
equal_to_itself xs =
    let n : (eqb (length xs) (length xs) ≡ true) = ground arith in rw (n, same_bytes_refl xs) refl

module _ (sha256 : Buffer → Buffer) (modulus : ℕ) where
  -- What the client computes: `A`, the verifier it registered, and its secret from `B`.
  abbrev pub client_public : ℕ → ℕ
  client_public a = (generator ^ a) % modulus

  abbrev pub verifier : ℕ → ℕ
  verifier x = (generator ^ x) % modulus

  abbrev pub client_secret : ℕ → ℕ → ℕ → ℕ → ℕ
  client_secret big_b a x u =
      ((big_b + (modulus - (multiplier_k sha256 modulus * verifier x) % modulus)) % modulus)
        ^ (a + u * x)
      % modulus

  server_secret :
      (a x u b : ℕ)
      → 1 < modulus
      → premaster_secret sha256 modulus (client_public a) (verifier x) u b
        ≡ (generator ^ ((a + u * x) * b)) % modulus
  unfolding premaster_secret
  server_secret a x u b h =
      let n = modulus in
      let ga = generator ^ a in
      let gx = generator ^ x in
      let power_u : (mod_pow (gx % n) u n ≡ gx ^ u % n) =
        mod_pow_lem (gx % n) u n h ∙ pow_mod gx u n in
      let base : ((ga % n * mod_pow (gx % n) u n) % n ≡ (generator ^ (a + x * u)) % n) =
        ap (λ y. (ga % n * y) % n) power_u
        ∙ mul-mod_right (ga % n) (gx ^ u) n
        ∙ mul-mod_left ga (gx ^ u) n
        ∙ ap (λ y. (ga * y) % n) (pow_mul generator x u)
        ∙ ap (λ y. y % n) (sym (pow_add generator a (x * u))) in
      mod_pow_lem ((ga % n * mod_pow (gx % n) u n) % n) b n h
      ∙ ap (λ y. (y ^ b) % n) base
      ∙ pow_mod (generator ^ (a + x * u)) b n
      ∙ ap (λ y. y % n) (pow_mul generator (a + x * u) b)
      ∙ ap (λ y. (generator ^ ((a + y) * b)) % n) (native_laws.mul_comm x u)

  -- The client recovers `g ^ b` from `B`.
  unblinded :
      (x : ℕ) (bytes : Buffer)
      → 1 < modulus
      → let (b, big_b) = generate_server_ephemeral sha256 modulus (verifier x) bytes in
        (big_b + (modulus - (multiplier_k sha256 modulus * verifier x) % modulus)) % modulus
        ≡ (generator ^ b) % modulus
  unfolding generate_server_ephemeral
  unblinded x bytes h =
      let n = modulus in
      let b = buffer_to_big_int bytes % n in
      let kv = (multiplier_k sha256 n * verifier x) % n in
      let gb = mod_pow generator b n in
      let below : (kv < n) =
        native_laws.mod-lt (multiplier_k sha256 n * verifier x) (omega arith) in
      let cancelled : (kv + gb + (n - kv) ≡ gb + n) = omega arith in
      native_laws.mod-add-mod (kv + gb) n (n - kv)
      ∙ ap (λ y. y % n) cancelled
      ∙ native_laws.add-mod_right gb n
      ∙ ap (λ y. y % n) (mod_pow_lem generator b n h)
      ∙ native_laws.mod-mod (generator ^ b) n

  -- For a modulus above 1: the server and a client that knows the password compute the same secret,
  -- whatever the two random numbers, the scrambling parameter and the hash function are.
  pub same_secret :
      (a x u : ℕ) (bytes : Buffer)
      → 1 < modulus
      → let (b, big_b) = generate_server_ephemeral sha256 modulus (verifier x) bytes in
        premaster_secret sha256 modulus (client_public a) (verifier x) u b
        ≡ client_secret big_b a x u
  same_secret a x u bytes h =
      let n = modulus in
      let (b, big_b) = generate_server_ephemeral sha256 n (verifier x) bytes in
      server_secret a x u b h
      ∙ ap (λ y. (generator ^ y) % n) (native_laws.mul_comm (a + u * x) b)
      ∙ ap (λ y. y % n) (sym (pow_mul generator b (a + u * x)))
      ∙ sym (pow_mod (generator ^ b) (a + u * x) n)
      ∙ ap (λ y. (y ^ (a + u * x)) % n) (sym (unblinded x bytes h))

  -- Whether a verification returned and succeeded.
  abbrev pub verified : Option Verification → Bool
  verified none = false
  verified (some v) = v.success

  judged_iff :
      (a : ℕ) (m1 key evidence : Buffer)
      → (verified (judge sha256 modulus a m1 key (timing_safe_equal evidence m1)) ≡ true)
        ↔ (evidence ≡ m1)
  judged_iff a m1 key evidence = (
    elim (Bool-cases (eqb (length evidence) (length m1))) [
      | inr other ↦ rw other (λ h. absurd (false≢true h))
      | inl same ↦ rw same (elim (Bool-cases (same_bytes evidence m1)) [
        | inl equal ↦ λ h. same_bytes_iff evidence m1 equal
        | inr differ ↦ rw differ (λ h. absurd (false≢true h))
      ])
    ],
    λ e. rw (e, equal_to_itself m1) refl,
  )

  -- A verification succeeds exactly if the client's public number is not zero modulo `N`, the
  -- scrambling parameter is not zero, and the evidence is the one of the secret that the server
  -- computes.
  pub verify_session_iff :
      (username salt : Buffer) (a big_b v b : ℕ) (evidence : Buffer)
      → let u = calculate_u sha256 modulus a big_b in
        let key = session_key_of sha256 modulus (premaster_secret sha256 modulus a v u b) in
        (verified (verify_session sha256 modulus username salt a big_b v b evidence) ≡ true) ↔ (
          (a % modulus ≢ 0)
          × (u ≢ 0)
          × (evidence ≡ expected_m1 sha256 modulus username salt a big_b key))
  unfolding verify_session
  verify_session_iff username salt a big_b v b evidence =
      let u = calculate_u sha256 modulus a big_b in
      let key = session_key_of sha256 modulus (premaster_secret sha256 modulus a v u b) in
      let judged =
        judged_iff a (expected_m1 sha256 modulus username salt a big_b key) key evidence in
      elim (Bool-cases (eqb (a % modulus) 0)) [
        | inl zero_a ↦
            rw zero_a (λ h. absurd (false≢true h), λ (na, nu, e). absurd (na (ground arith)))
        | inr some_a ↦ rw some_a (elim (Bool-cases (eqb u 0)) [
          | inl zero_u ↦
              rw zero_u (λ h. absurd (false≢true h), λ (na, nu, e). absurd (nu (ground arith)))
          | inr some_u ↦
              rw some_u
                (λ h. (λ e. ground arith, λ e. ground arith, judged.0 h), λ (na, nu, e). judged.1 e)
        ])
      ]

  -- For a modulus above 1, a client that knows the password is accepted: if neither its public
  -- number modulo `N` nor the scrambling parameter is zero, the evidence of the secret that the
  -- client computes passes the verification against the registered verifier.
  pub honest_client :
      (username salt bytes : Buffer) (a x : ℕ)
      → 1 < modulus
      → let (b, big_b) = generate_server_ephemeral sha256 modulus (verifier x) bytes in
        let u = calculate_u sha256 modulus (client_public a) big_b in
        let key = session_key_of sha256 modulus (client_secret big_b a x u) in
        client_public a % modulus ≢ 0
        → u ≢ 0
        → verified (
            verify_session sha256 modulus username salt
              (client_public a)
              big_b
              (verifier x)
              b
              (expected_m1 sha256 modulus username salt (client_public a) big_b key))
          ≡ true
  honest_client username salt bytes a x h na nu =
      let (b, big_b) = generate_server_ephemeral sha256 modulus (verifier x) bytes in
      let u = calculate_u sha256 modulus (client_public a) big_b in
      (verify_session_iff username salt (client_public a) big_b (verifier x) b _).1 (
        na,
        nu,
        ap
            (λ secret.
              expected_m1 sha256 modulus username salt (client_public a) big_b
                (session_key_of sha256 modulus secret))
            (sym (same_secret a x u bytes h)),
      )
