-- ===== src/RecoveryLink/Examples.antt =====
-- A link of a case with simple encodings: texts are shifted past the full stop.
use payment_recovery_engine.Prelude.{
  ℕ, zero, suc, Bool, length, ap, ◌==◌, ◌+◌, ◌-◌, ◌≡◌, true, false, ◌&&◌, Option, none, some, [],
  ◌∷◌, ◌++◌, ltb, refl, arith, is_some, map, if◌then◌else◌,
}
use payment_recovery_engine.Prelude.Int.{pos}
use payment_recovery_engine.Settings.{default_settings}
use payment_recovery_engine.RecoveryLink.{
  Text, is_plain, is_ascii, Codec, IsCodec, expiry_of, account_scope, customer_scope, mint,
  verify_with_expiry, verify_scoped,
}
use payment_recovery_engine.RecoveryLink.Scope.{verify-disjoint, verify_with_expiry-mint}

abbrev shift : Text → Text
shift = map (λ x. x + 47)

abbrev unshift : Text → Text
unshift = map (λ x. x - 47)

abbrev strokes : ℕ → Text
strokes zero = []
strokes (suc n) = 49 ∷ strokes n

abbrev one_bit : Text → Option Bool
one_bit (x ∷ []) = some (x == 49)
one_bit _ = none

-- A number is that many strokes.
abbrev shifting : Codec
shifting = record {
  Uuid = Bool;
  hex = λ i. (if i then 49 else 48) ∷ [];
  parse_hex = one_bit;
  int_text = strokes;
  parse_int = λ t. some (pos (length t));
  b64 = shift;
  unb64 = λ t. some (unshift t);
  has_datetime = λ n. true;
  sign = λ payload secret. shift (payload ++ secret);
}

length-strokes : (n : ℕ) → length (strokes n) ≡ n
length-strokes zero = refl
length-strokes (suc n) = omega (arith, length-strokes n)

strokes-plain : (n : ℕ) → is_plain (strokes n) ≡ true
strokes-plain zero = refl
strokes-plain (suc n) = strokes-plain n

strokes-ascii : (n : ℕ) → is_ascii (strokes n) ≡ true
strokes-ascii zero = refl
strokes-ascii (suc n) = strokes-ascii n

bit-read : (b : Bool) → one_bit ((if b then 49 else 48) ∷ []) ≡ some b
bit-read true = refl
bit-read false = refl

bit-plain : (b : Bool) → is_plain ((if b then 49 else 48) ∷ []) ≡ true
bit-plain true = refl
bit-plain false = refl

bit-ascii : (b : Bool) → is_ascii ((if b then 49 else 48) ∷ []) ≡ true
bit-ascii true = refl
bit-ascii false = refl

shift-read : (t : Text) → unshift (shift t) ≡ t
shift-read [] = refl
shift-read (x ∷ xs) = ground (arith, shift-read xs)

shift-plain : (t : Text) → is_plain (shift t) ≡ true
shift-plain [] = refl
shift-plain (x ∷ xs) = ground (arith, shift-plain xs)

shifting-IsCodec : IsCodec shifting
shifting-IsCodec = record {
  hex_read = bit-read;
  hex_plain = bit-plain;
  hex_ascii = bit-ascii;
  int_read = λ n le. ap (λ m. some (pos m)) (length-strokes n);
  int_plain = λ n le. strokes-plain n;
  int_ascii = λ n le. strokes-ascii n;
  b64_read = λ t a. ap some (shift-read t);
  b64_plain = λ t a. shift-plain t;
  sign_plain = λ t secret a. shift-plain (t ++ secret);
  dated = λ n le. refl;
}

abbrev secret : Text
secret = 7 ∷ []

verify-disjoint_example :
    let case = is_some (verify_with_expiry shifting secret 1000 (58 ∷ 46 ∷ 65 ∷ [])) in
    let account = is_some (verify_scoped shifting account_scope secret 1000 (58 ∷ 46 ∷ 65 ∷ [])) in
    let customer =
      is_some (verify_scoped shifting customer_scope secret 1000 (58 ∷ 46 ∷ 65 ∷ [])) in
    ((case && account) ≡ false) × ((case && customer) ≡ false) × ((account && customer) ≡ false)
verify-disjoint_example = verify-disjoint shifting secret 1000 (58 ∷ 46 ∷ 65 ∷ [])

verify_with_expiry-mint_example :
    (token : Text) × (mint shifting default_settings secret none 1000 true ≡ some token)
    × (verify_with_expiry shifting secret 2000 token ≡ (
        if ltb (expiry_of default_settings none 1000) 2000
        then none
        else some (true, pos (expiry_of default_settings none 1000))))
unfolding expiry_of
verify_with_expiry-mint_example =
    verify_with_expiry-mint shifting shifting-IsCodec default_settings secret none 1000 2000 true
      refl (ground arith)
