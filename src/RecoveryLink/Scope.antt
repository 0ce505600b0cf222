-- ===== src/RecoveryLink/Scope.antt =====
-- Which tokens a verification accepts, and for what (src/recovery_link.py).
use payment_recovery_engine.Prelude.{
  ℕ, Bool, true, false, ◌&&◌, Option, none, some, List, [], ◌∷◌, ◌++◌, ltb, ◌==◌, ◌≤◌, is_some, ◌≡◌,
  refl, ap, ◌∙◌, inl, inr, arith, Bool-cases, Option-cases, if◌then◌else◌,
}
use payment_recovery_engine.Prelude.Int.{ℤ, pos}
use payment_recovery_engine.Settings.{Settings}
use payment_recovery_engine.RecoveryLink.{
  Text, sep, is_plain, is_ascii, last_second, with_datetime, split, text_eq, is_unset, Codec,
  IsCodec, two_fields, three_fields, expiry_of, account_scope, customer_scope, seal, mint, unseal,
  read_case, read_scoped, verify_with_expiry, verify_scoped,
}

text_eq_refl : (t : Text) → text_eq t t ≡ true
text_eq_refl [] = refl
text_eq_refl (x ∷ xs) = ground (arith, text_eq_refl xs)

split-plain : (t : Text) → is_plain t ≡ true → split t ≡ t ∷ []
split-plain [] h = refl
split-plain (x ∷ xs) h = elim (Bool-cases (x == sep)) [
  | inl e ↦ let k : false ≡ true = rw e at h in cc
  | inr e ↦ rw (e, split-plain xs (rw e at h)) refl
]

split-sep : (t u : Text) → is_plain t ≡ true → split (t ++ sep ∷ u) ≡ t ∷ split u
split-sep [] u h = refl
split-sep (x ∷ xs) u h = elim (Bool-cases (x == sep)) [
  | inl e ↦ let k : false ≡ true = rw e at h in cc
  | inr e ↦ rw (e, split-sep xs u (rw e at h)) refl
]

split-two : (t u : Text) → is_plain t ≡ true → is_plain u ≡ true → split (t ++ sep ∷ u) ≡ t ∷ u ∷ []
split-two t u p q = split-sep t u p ∙ ap (λ fs. t ∷ fs) (split-plain u q)

nonempty-sep : (t u : Text) → is_unset (t ++ sep ∷ u) ≡ false
nonempty-sep [] u = refl
nonempty-sep (x ∷ t) u = refl

ascii-sep : (t u : Text) → is_ascii t ≡ true → is_ascii u ≡ true → is_ascii (t ++ sep ∷ u) ≡ true
ascii-sep [] u p q = q
ascii-sep (x ∷ t) u p q = ground (arith, ascii-sep t u (ground (arith, p)) q)

apart : (x : ℕ) → (x == 97) ≡ true → (x == 109) ≡ false
apart x e = ground arith

module _ (k : Codec) where
  and_none : (b : Bool) (o : Option (k.Uuid × ℤ)) → o ≡ none → (b && is_some o) ≡ false
  and_none true o e = rw e refl
  and_none false o e = refl

  case-scoped :
      (scope : Text) (now : ℕ) (fs : List Text)
      → (is_some (read_case k now (two_fields fs))
          && is_some (read_scoped k scope now (three_fields fs)))
        ≡ false
  case-scoped scope now [] = refl
  case-scoped scope now (a ∷ []) = refl
  case-scoped scope now (a ∷ b ∷ []) = and_none _ _ refl
  case-scoped scope now (a ∷ b ∷ c ∷ []) = refl
  case-scoped scope now (a ∷ b ∷ c ∷ d ∷ fs) = refl

  account-customer :
      (now : ℕ) (fs : List Text)
      → (is_some (read_scoped k account_scope now (three_fields fs))
          && is_some (read_scoped k customer_scope now (three_fields fs)))
        ≡ false
  account-customer now [] = refl
  account-customer now (a ∷ []) = refl
  account-customer now (a ∷ b ∷ []) = refl
  account-customer now ([] ∷ b ∷ c ∷ []) = refl
  account-customer now ((x ∷ xs) ∷ b ∷ c ∷ []) = elim (Bool-cases (x == 97)) [
    | inl e ↦ rw (apart x e) (and_none _ none refl)
    | inr e ↦ rw e refl
  ]
  account-customer now (a ∷ b ∷ c ∷ d ∷ fs) = refl

  -- The three kinds of link are never confused: no token is accepted by two of the verifications,
  -- of a case, of an account and of a customer, whoever made it.
  pub verify-disjoint :
      (secret : Text) (now : ℕ) (token : Text)
      → let case = is_some (verify_with_expiry k secret now token) in
        let account = is_some (verify_scoped k account_scope secret now token) in
        let customer = is_some (verify_scoped k customer_scope secret now token) in
        ((case && account) ≡ false) × ((case && customer) ≡ false) × ((account && customer) ≡ false)
  unfolding verify_with_expiry verify_scoped
  verify-disjoint secret now token = elim (Option-cases (unseal k secret token)) [
    | inl e ↦ rw e (refl, refl, refl)
    | inr (payload, e) ↦ rw e (
      case-scoped account_scope now (split payload),
      case-scoped customer_scope now (split payload),
      account-customer now (split payload),
    )
  ]

  opened :
      (late : Bool) (x : k.Uuid × ℤ)
      → k.has_datetime x.1 ≡ true
      → with_datetime k (if late then none else some x) ≡ (if late then none else some x)
  opened true x h = refl
  opened false x h = rw h refl

  -- What was sealed is unsealed.
  unseal-seal :
      IsCodec k
      → (secret payload : Text) → is_unset secret ≡ false
      → is_ascii payload ≡ true
      → unseal k secret (k.b64 payload ++ sep ∷ k.sign payload secret) ≡ some payload
  unfolding unseal
  unseal-seal law secret payload h a =
      rw
        (
          h,
          nonempty-sep (k.b64 payload) (k.sign payload secret),
          split-two (k.b64 payload) (k.sign payload secret) (law.b64_plain payload a)
              (law.sign_plain payload secret a),
          law.b64_read payload a,
          text_eq_refl (k.sign payload secret),
        )
        refl

  -- A link to a case that is minted under some secret opens that case, with its own deadline, as
  -- long as the deadline has not passed, and is rejected from then on. The deadline lies before the
  -- year 10000; what the encodings write of ASCII texts and of such numbers they read back, and none
  -- of them writes a full stop.
  pub verify_with_expiry-mint :
      IsCodec k
      → (cfg : Settings) (secret : Text) (ttl_hours : Option ℕ) (now later : ℕ) (i : k.Uuid)
      → is_unset secret ≡ false
      → expiry_of cfg ttl_hours now ≤ last_second
      → (token : Text) × (mint k cfg secret ttl_hours now i ≡ some token)
        × (verify_with_expiry k secret later token ≡ (
            if ltb (expiry_of cfg ttl_hours now) later
            then none
            else some (i, pos (expiry_of cfg ttl_hours now))))
  unfolding mint seal verify_with_expiry
  verify_with_expiry-mint law cfg secret ttl_hours now later i h le =
      let n = expiry_of cfg ttl_hours now in
      let payload = k.hex i ++ sep ∷ k.int_text n in
      (
        k.b64 payload ++ sep ∷ k.sign payload secret,
        rw h refl,
        rw
            (
              unseal-seal law secret payload h
                  (ascii-sep (k.hex i) (k.int_text n) (law.hex_ascii i) (law.int_ascii n le)),
              split-two (k.hex i) (k.int_text n) (law.hex_plain i) (law.int_plain n le),
              law.int_read n le,
              law.hex_read i,
            )
            (opened (ltb n later) (i, pos n) (law.dated n le)),
      )
