-- ===== src/Auth/Totp/Window.antt =====
-- Which codes `verifyCode` accepts.
use sentinel_vault.Common.{
  ℕ, zero, suc, ◌+◌, ◌-◌, ◌/◌, ◌%◌, ◌^◌, ◌≤◌, ◌<◌, String, true, false, false≢true, ◌≡◌, ◌≢◌, ◌⊎◌,
  inl, inr, refl, sym, ap, ◌∙◌, some, length, leb, ◌==◌, eq_iff, arith, Bool-cases,
}
use sentinel_vault.Auth.Srp.{Buffer, buffer_to_big_int}
use sentinel_vault.Auth.Totp.{decode_base32}
use sentinel_vault.Auth.Totp.Codes.{counter_loop, counter_bytes, code_at, verify_loop, verify_code}

-- The message of a step is the eight bytes that write its lowest 64 bits, the highest byte first.
pub counter_bytes-value :
    (step : ℕ)
    → (length (counter_bytes step) ≡ 8) × (buffer_to_big_int (counter_bytes step) ≡ step % 2 ^ 64)
unfolding counter_loop
counter_bytes-value step = (refl, omega arith)

later : (i j : ℕ) → i ≤ j → (i ≡ j) ⊎ (i + 1 ≤ j)
later i j h = omega arith

none_left : (i j : ℕ) → i ≤ j → j < i + 0 → ⊥
none_left i j lo hi = omega arith

-- A step at most `window` from the current one whose code it is.
abbrev pub InWindow : (Buffer → Buffer → Buffer) → Buffer → String → ℕ → ℕ → Type 0
InWindow hmac key code current window =
    (step : ℕ) × (current ≤ step + window)
    × (step ≤ current + window)
    × (code_at hmac key step ≡ code)

module _ (hmac : Buffer → Buffer → Buffer) (upper : String → String) where
  abbrev Hit : Buffer → String → ℕ → ℕ → ℕ → ℕ → Type 0
  Hit key code current window n i =
      (j : ℕ) × (i ≤ j) × (j < i + n) × (code_at hmac key (current + j - window) ≡ code)

  loop-cases :
      (secret code : String) (key : Buffer) (current window n i : ℕ)
      → decode_base32 upper secret ≡ some key
      → window ≤ current
      → (Hit key code current window n i
          × (verify_loop hmac upper secret code current window n i ≡ some true))
        ⊎ (((j : ℕ) → i ≤ j → j < i + n → code_at hmac key (current + j - window) ≢ code)
            × (verify_loop hmac upper secret code current window n i ≡ some false))
  unfolding verify_loop
  loop-cases secret code key current window zero i d w =
      inr (λ j lo hi e. none_left i j lo hi, refl)
  loop-cases secret code key current window (suc n) i d w =
      let inside : (leb window (current + i) ≡ true) = ground arith in
      rw d (
        rw inside (elim (Bool-cases (code_at hmac key (current + i - window) == code)) [
          | inl hit ↦ inl (
            (
              i,
              omega arith,
              omega arith,
              (eq_iff (code_at hmac key (current + i - window)) code).0 hit,
            ),
            rw hit refl,
          )
          | inr miss ↦ elim (loop-cases secret code key current window n (i + 1) d w) [
            | inl ((j, lo, hi, hit), accepted) ↦
                inl ((j, omega arith, omega arith, hit), rw miss accepted)
            | inr (none_hits, refused) ↦ inr (
              λ j lo hi hit. elim (later i j lo) [
                | inl same ↦ false≢true (
                    sym miss
                    ∙ (eq_iff (code_at hmac key (current + i - window)) code).1
                        (ap (λ k. code_at hmac key (current + k - window)) same ∙ hit))
                | inr more ↦ none_hits j more (omega arith) hit
              ],
              rw miss refused,
            )
          ]
        ]))

  -- With a secret that decodes to `key`, and in a time that is not before the window, a code that
  -- is the code of `key` at a step at most `window` from the current one is accepted, and any other
  -- code is refused without an error.
  pub verify_code-cases :
      (now window : ℕ) (secret code : String) (key : Buffer)
      → decode_base32 upper secret ≡ some key
      → window ≤ now / 1000 / 30
      → (InWindow hmac key code (now / 1000 / 30) window
          × (verify_code hmac upper now secret code window ≡ some true))
        ⊎ (¬ InWindow hmac key code (now / 1000 / 30) window
            × (verify_code hmac upper now secret code window ≡ some false))
  unfolding verify_code
  verify_code-cases now window secret code key d w =
      elim (loop-cases secret code key (now / 1000 / 30) window (window + window + 1) 0 d w) [
        | inl ((j, lo, hi, hit), accepted) ↦
            inl ((now / 1000 / 30 + j - window, omega arith, omega arith, hit), accepted)
        | inr (none_hits, refused) ↦ inr (
          λ (step, lo, hi, hit).
              none_hits (step + window - now / 1000 / 30) (omega arith) (omega arith)
                (ap (code_at hmac key) (omega arith) ∙ hit),
          refused,
        )
      ]
