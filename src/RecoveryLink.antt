-- ===== src/RecoveryLink.antt =====
-- The signed links that let a customer see a case (src/recovery_link.py). A text is the list of its
-- characters' codes. The encoding, the keyed hash and the forms of an id and of a number are what
-- Python's base64, hmac, uuid and int supply.
pub mod Scope
mod Examples
use payment_recovery_engine.Prelude.{
  ℕ, ◌+◌, ◌*◌, Bool, true, false, ◌&&◌, ◌||◌, Option, none, some, List, [], ◌∷◌, ◌++◌, min, ltb,
  ◌==◌, ◌≤◌, ◌≡◌, if◌then◌else◌,
}
use payment_recovery_engine.Prelude.Int.{ℤ, pos, negsuc}
use payment_recovery_engine.Settings.{Settings}

abbrev pub Text : Type 0
Text = List ℕ

-- `SEP`, a full stop.
abbrev pub sep : ℕ
sep = 46

-- The text has no full stop.
abbrev pub is_plain : Text → Bool
is_plain [] = true
is_plain (x ∷ xs) = if x == sep then false else is_plain xs

abbrev pub push : ℕ → List Text → List Text
push x [] = (x ∷ []) ∷ []
push x (f ∷ fs) = (x ∷ f) ∷ fs

-- The text is ASCII.
abbrev pub is_ascii : Text → Bool
is_ascii [] = true
is_ascii (x ∷ xs) = ltb x 128 && is_ascii xs

-- `text.split(SEP)`, one field more than there are separators.
abbrev pub split : Text → List Text
split [] = [] ∷ []
split (x ∷ xs) = if x == sep then [] ∷ split xs else push x (split xs)

abbrev pub text_eq : Text → Text → Bool
text_eq [] [] = true
text_eq (x ∷ xs) (y ∷ ys) = x == y && text_eq xs ys
text_eq _ _ = false

abbrev pub is_unset : Text → Bool
is_unset [] = true
is_unset _ = false

pub record Codec : Type 1 where
  -- `uuid.UUID`
  pub Uuid : Type 0
  -- `id.hex`, and the id of a text of 32 hexadecimal digits.
  pub hex : Uuid → Text
  pub parse_hex : Text → Option Uuid
  -- `str(n)` and `int(text)`
  pub int_text : ℕ → Text
  pub parse_int : Text → Option ℤ
  -- `b64(payload.encode())`, and `unb64(text).decode("ascii")` or nothing where it raises.
  pub b64 : Text → Text
  pub unb64 : Text → Option Text
  -- Whether `datetime.fromtimestamp` has a time for the number; it raises where it has none.
  pub has_datetime : ℤ → Bool
  -- The keyed hash of a payload under a secret, as text.
  pub sign : Text → Text → Text

-- The last second of the year 9999.
abbrev pub last_second : ℕ
last_second = 253402300799

-- What the code relies on: each form is read back as what was written, is ASCII, and has no full
-- stop; and the seconds up to the year 9999 have a datetime.
pub record IsCodec (k : Codec) : Type 0 where
  pub hex_read : (i : k.Uuid) → k.parse_hex (k.hex i) ≡ some i
  pub hex_plain : (i : k.Uuid) → is_plain (k.hex i) ≡ true
  pub hex_ascii : (i : k.Uuid) → is_ascii (k.hex i) ≡ true
  pub int_read : (n : ℕ) → n ≤ last_second → k.parse_int (k.int_text n) ≡ some (pos n)
  pub int_plain : (n : ℕ) → n ≤ last_second → is_plain (k.int_text n) ≡ true
  pub int_ascii : (n : ℕ) → n ≤ last_second → is_ascii (k.int_text n) ≡ true
  pub b64_read : (t : Text) → is_ascii t ≡ true → k.unb64 (k.b64 t) ≡ some t
  pub b64_plain : (t : Text) → is_ascii t ≡ true → is_plain (k.b64 t) ≡ true
  pub sign_plain : (t secret : Text) → is_ascii t ≡ true → is_plain (k.sign t secret) ≡ true
  pub dated : (n : ℕ) → n ≤ last_second → k.has_datetime (pos n) ≡ true

abbrev pub two_fields : List Text → Option (Text × Text)
two_fields (a ∷ b ∷ []) = some (a, b)
two_fields _ = none

abbrev pub three_fields : List Text → Option (Text × Text × Text)
three_fields (a ∷ b ∷ c ∷ []) = some (a, b, c)
three_fields _ = none

-- `int(expiry) < int(time.time())`
abbrev pub is_expired : ℤ → ℕ → Bool
is_expired (pos e) now = ltb e now
is_expired (negsuc e) now = true

abbrev pub hours_or : Option ℕ → ℕ → ℕ
hours_or none default = default
hours_or (some n) default = n

-- When a link that is minted now expires: a link never outlives the consent window.
unfoldable pub expiry_of : Settings → Option ℕ → ℕ → ℕ
expiry_of cfg ttl_hours now =
    now + min (hours_or ttl_hours cfg.recovery_link_ttl_hours) cfg.consent_window_hours * 3600

-- `"acct"` and `"mine"`
abbrev pub account_scope : Text
account_scope = 97 ∷ 99 ∷ 99 ∷ 116 ∷ []

abbrev pub customer_scope : Text
customer_scope = 109 ∷ 105 ∷ 110 ∷ 101 ∷ []

module _ (k : Codec) where
  open k use {Uuid, hex, parse_hex, int_text, parse_int, b64, unb64, has_datetime, sign}

  -- The token of a payload, or nothing if no secret is configured.
  unfoldable pub seal : Text → Text → Option Text
  seal secret payload =
      if is_unset secret then none else some (b64 payload ++ sep ∷ sign payload secret)

  unfoldable pub mint : Settings → Text → Option ℕ → ℕ → Uuid → Option Text
  mint cfg secret ttl_hours now i =
      seal secret (hex i ++ sep ∷ int_text (expiry_of cfg ttl_hours now))

  -- `mint_account` and `mint_customer`, by their scope.
  unfoldable pub mint_scoped : Text → Settings → Text → Option ℕ → ℕ → Uuid → Option Text
  mint_scoped scope cfg secret ttl_hours now i =
      seal secret (scope ++ sep ∷ hex i ++ sep ∷ int_text (expiry_of cfg ttl_hours now))

  abbrev pub if_signed : Text → Text → Option Text → Option Text
  if_signed secret signature none = none
  if_signed secret signature (some payload) =
      if text_eq (sign payload secret) signature then some payload else none

  abbrev pub unseal_fields : Text → Option (Text × Text) → Option Text
  unseal_fields secret none = none
  unseal_fields secret (some (encoded, signature)) = if_signed secret signature (unb64 encoded)

  -- The payload of a token whose signature is right: what every verification begins with.
  unfoldable pub unseal : Text → Text → Option Text
  unseal secret token =
      if is_unset secret || is_unset token
      then none
      else unseal_fields secret (two_fields (split token))

  abbrev pub in_time : ℕ → Text → Option ℤ → Option (Uuid × ℤ)
  in_time now id_text none = none
  in_time now id_text (some e) =
      if is_expired e now
      then none
      else elim (parse_hex id_text) [ none ↦ none | some i ↦ some (i, e) ]

  -- A deadline for which there is no datetime makes the verification fail or raise; neither
  -- accepts the token.
  abbrev pub with_datetime : Option (Uuid × ℤ) → Option (Uuid × ℤ)
  with_datetime none = none
  with_datetime (some (i, e)) = if has_datetime e then some (i, e) else none

  abbrev pub read_case : ℕ → Option (Text × Text) → Option (Uuid × ℤ)
  read_case now none = none
  read_case now (some (id_text, expiry)) = with_datetime (in_time now id_text (parse_int expiry))

  -- The account's verification returns no deadline.
  abbrev pub read_scoped : Text → ℕ → Option (Text × Text × Text) → Option (Uuid × ℤ)
  read_scoped scope now none = none
  read_scoped scope now (some (marker, id_text, expiry)) =
      let found = in_time now id_text (parse_int expiry) in
      if text_eq marker scope
      then (if text_eq scope customer_scope then with_datetime found else found)
      else none

  abbrev pub case_of_payload : ℕ → Option Text → Option (Uuid × ℤ)
  case_of_payload now none = none
  case_of_payload now (some payload) = read_case now (two_fields (split payload))

  abbrev pub scoped_of_payload : Text → ℕ → Option Text → Option (Uuid × ℤ)
  scoped_of_payload scope now none = none
  scoped_of_payload scope now (some payload) = read_scoped scope now (three_fields (split payload))

  unfoldable pub verify_with_expiry : Text → ℕ → Text → Option (Uuid × ℤ)
  verify_with_expiry secret now token = case_of_payload now (unseal secret token)

  -- `verify_account` and `verify_customer_with_expiry`, by their scope.
  unfoldable pub verify_scoped : Text → Text → ℕ → Text → Option (Uuid × ℤ)
  verify_scoped scope secret now token = scoped_of_payload scope now (unseal secret token)
