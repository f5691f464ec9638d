-- ===== src/Platform.antt =====
-- What the program takes from outside its own code: package net/url, net.ParseIP, json.Valid, the
-- process environment (os.ExpandEnv), and the case of letters beyond ASCII. The theorems hold for
-- any such functions; what they need of them they state.
use Prim.Native.Char.{Char, code}
use wreckr.Prelude.{
  String, Bool, Option, ltb, translate, lower_letters, upper_letters, if◌then◌else◌,
}

-- A value, or an error by its text.
pub data Result {ℓ} (A : Type ℓ) : Type ℓ where
  ok : A → Result A
  err : String → Result A

pub record Platform : Type 1 where
  pub Url : Type 0
  pub parse_url : String → Result Url
  pub scheme : Url → String
  pub host : Url → String
  pub hostname : Url → String
  pub has_user : Url → Bool
  pub resolve_reference : Url → Url → Url
  pub url_text : Url → String
  pub Ip : Type 0
  pub parse_ip : String → Option Ip
  pub ip_equal : Ip → Ip → Bool
  pub expand_env : String → String
  pub json_valid : String → Bool
  pub upper_beyond : Char → Char
  pub lower_beyond : Char → Char

module _ (p : Platform) where
  unfoldable pub upper_char : Char → Char
  upper_char c =
      if ltb (code c) 128 then translate lower_letters upper_letters c else p.upper_beyond c

  unfoldable pub lower_char : Char → Char
  lower_char c =
      if ltb (code c) 128 then translate upper_letters lower_letters c else p.lower_beyond c

  -- strings.ToUpper and strings.ToLower
  unfoldable pub to_upper : String → String
  unfolding upper_char translate
  to_upper String.[] = ""
  to_upper (String.◌∷◌ c s) = String.◌∷◌ (upper_char c) (to_upper s)

  unfoldable pub to_lower : String → String
  unfolding lower_char translate
  to_lower String.[] = ""
  to_lower (String.◌∷◌ c s) = String.◌∷◌ (lower_char c) (to_lower s)
