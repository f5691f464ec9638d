-- ===== src/Examples/Web.antt =====
-- A small stand-in for package net/url: `scheme://host/path` and bare paths, without user, port or
-- query parts. It makes the hypotheses of the theorems concrete.
use Prim.Native.Char.{Char, code}
use wreckr.Prelude.{
  inl, inr, ◌⊎◌, Bool-cases, ltb, translate, lower_letters, upper_letters, ap, ◌∙◌, String, ◌==◌,
  ◌+++◌, true, false, some, eqb, if◌then◌else◌, is_nil, refl, ◌≡◌, has_prefix,
}
use wreckr.Platform.{Platform, Result, ok, err, upper_char}

-- The text before the first slash.
before_slash : String → String
before_slash String.[] = ""
before_slash (String.◌∷◌ c s) =
    let rest = before_slash s in if eqb (code c) 47 then "" else String.◌∷◌ c rest

drop_seven : String → String
drop_seven
      (String.◌∷◌ _ (
        String.◌∷◌ _
          (String.◌∷◌ _ (String.◌∷◌ _ (String.◌∷◌ _ (String.◌∷◌ _ (String.◌∷◌ _ s))))))) =
    s
drop_seven s = s

pub record Address : Type 0 where
  pub scheme : String
  pub host : String

unfoldable pub parse_address : String → Result Address
unfolding before_slash drop_seven has_prefix
parse_address raw =
    if has_prefix raw "http://"
    then ok (record { scheme = "http"; host = before_slash (drop_seven raw) })
    else if has_prefix raw "bad:"
    then err "parse error"
    else ok (record { scheme = ""; host = "" })

unfoldable pub resolve : Address → Address → Address
resolve base reference = if is_nil reference.host then base else reference

abbrev pub web : Platform
web = record {
  Url = Address;
  parse_url = parse_address;
  scheme = λ u. u.scheme;
  host = λ u. u.host;
  hostname = λ u. u.host;
  has_user = λ u. false;
  resolve_reference = resolve;
  url_text = λ u. u.scheme +++ "://" +++ u.host;
  Ip = String;
  parse_ip = some;
  ip_equal = λ a b. a == b;
  expand_env = λ s. s;
  json_valid = λ s. true;
  upper_beyond = λ c. c;
  lower_beyond = λ c. c;
}

parses : parse_address "http://localhost/x" ≡ ok (record { scheme = "http"; host = "localhost" })
unfolding parse_address
parses = refl

-- A character is one of a text's.
Picked : Char → String → Type 0
Picked r String.[] = ⊥
Picked r (String.◌∷◌ t ts) = (r ≡ t) ⊎ Picked r ts

-- What the upper case leaves alone.
Fixed : String → Type 0
Fixed String.[] = Unit
Fixed (String.◌∷◌ t ts) = (upper_char web t ≡ t) × Fixed ts

module _ (f t c : Char) (fs ts : String) where
  translate_here :
      eqb (code c) (code f) ≡ true → translate (String.◌∷◌ f fs) (String.◌∷◌ t ts) c ≡ t
  unfolding translate
  translate_here e = rw e refl

  translate_later :
      eqb (code c) (code f) ≡ false
      → translate (String.◌∷◌ f fs) (String.◌∷◌ t ts) c ≡ translate fs ts c
  unfolding translate
  translate_later e = rw e refl

translate-Picked :
    (fs ts : String) (c : Char) → (translate fs ts c ≡ c) ⊎ Picked (translate fs ts c) ts
translate-Picked String.[] ts c = unfold translate in inl refl
translate-Picked (String.◌∷◌ f fs) String.[] c = unfold translate in inl refl
translate-Picked (String.◌∷◌ f fs) (String.◌∷◌ t ts) c = elim (Bool-cases (eqb (code c) (code f))) [
  | inl e ↦ rw (translate_here f t c fs ts e) (inr (unfold Picked in inl refl))
  | inr e ↦
      rw (translate_later f t c fs ts e)
        (elim (translate-Picked fs ts c) [ inl q ↦ inl q | inr q ↦ inr (unfold Picked in inr q) ])
]

Picked-Fixed : (r : Char) (ts : String) → Picked r ts → Fixed ts → upper_char web r ≡ r
unfolding Picked Fixed
Picked-Fixed r String.[] h k = absurd h
Picked-Fixed r (String.◌∷◌ t ts) (inl q) k = rw q k.0
Picked-Fixed r (String.◌∷◌ t ts) (inr q) k = Picked-Fixed r ts q k.1

letters-Fixed : Fixed upper_letters
unfolding Fixed upper_char translate
letters-Fixed = (
  refl,
  (
    refl,
    (
      refl,
      (
        refl,
        (
          refl,
          (
            refl,
            (
              refl,
              (
                refl,
                (
                  refl,
                  (
                    refl,
                    (
                      refl,
                      (
                        refl,
                        (
                          refl,
                          (
                            refl,
                            (
                              refl,
                              (
                                refl,
                                (
                                  refl,
                                  (
                                    refl,
                                    (
                                      refl,
                                      (refl, (refl, (refl, (refl, (refl, (refl, (refl, tt))))))),
                                    ),
                                  ),
                                ),
                              ),
                            ),
                          ),
                        ),
                      ),
                    ),
                  ),
                ),
              ),
            ),
          ),
        ),
      ),
    ),
  ),
)

pub upper_char_idem : (c : Char) → upper_char web (upper_char web c) ≡ upper_char web c
upper_char_idem c = elim (Bool-cases (ltb (code c) 128)) [
  | inl h ↦
      let same : upper_char web c ≡ translate lower_letters upper_letters c =
        unfold upper_char in rw h refl in
      elim (translate-Picked lower_letters upper_letters c) [
        | inl q ↦ let k : upper_char web c ≡ c = same ∙ q in ap (upper_char web) k
        | inr q ↦
            rw same
              (Picked-Fixed (translate lower_letters upper_letters c) upper_letters q letters-Fixed)
      ]
  | inr h ↦
      let same : upper_char web c ≡ c = unfold upper_char in rw h refl in ap (upper_char web) same
]
