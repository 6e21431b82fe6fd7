-- ===== src/Json.antt =====
-- The interface to `serde_json` for a type with derived `Serialize` and `Deserialize`.
use rust_croc.Common.{◌≡◌, true, Bytes, Outcome, ok, []}
use rust_croc.Std.Utf8.{is_utf8}

pub record Json {ℓ} (A : Type ℓ) : Type ℓ where
  pub to_string : A → Outcome Bytes
  pub from_str : Bytes → Outcome A
  pub from_slice : Bytes → Outcome A
  -- A value of such a type has a text, a `String`, which is read back as the value.
  pub text : A → Bytes
  pub to_string_lem : (a : A) → to_string a ≡ ok (text a)
  pub from_str-text : (a : A) → from_str (text a) ≡ ok a
  pub from_slice-text : (a : A) → from_slice (text a) ≡ ok a
  pub text-utf8 : (a : A) → is_utf8 [] (text a) ≡ true
