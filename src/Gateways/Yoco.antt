-- ===== src/Gateways/Yoco.antt =====
-- src/gateways/yoco.config.ts: the keys of a merchant's Yoco account and their mode.
use text.Mathlib.Text.{starts_with}
use stackaura_checkout_api.Base.{
  String, Bool, true, false, not, Option, none, some, ◌≡◌, refl, ◌==◌, string_eq, if◌then◌else◌,
  arith, ◌↔◌, ◌or_else◌, ◌otherwise◌,
}
use stackaura_checkout_api.Base.Result.{Result, ok, err, plain, ◌>>=◌, require, >>=-eq-ok}
use stackaura_checkout_api.Base.Text.{trim_to_null, trim_to_null_idem}
use stackaura_checkout_api.Domain.{Env}

-- `YocoConfigSource`
pub record YocoConfigSource : Type 0 where
  pub yoco_public_key : Option String
  pub yoco_secret_key : Option String
  pub yoco_test_mode : Option Bool

-- `ResolvedYocoConfig`, without its constant `checkoutApiUrl`.
pub record YocoConfig : Type 0 where
  pub public_key : Option String
  pub secret_key : Option String
  pub test_mode : Bool

-- `inferKeyMode`: whether the key is a test key, where its prefix says so.
abbrev pub infer_key_mode : Option String → String → String → Option Bool
infer_key_mode none test live = none
infer_key_mode (some key) test live =
    if starts_with key test then some true else if starts_with key live then some false else none

abbrev pub bool_beq : Bool → Bool → Bool
bool_beq true b = b
bool_beq false b = not b

-- Both are known, and they differ.
abbrev pub conflicts : Option Bool → Option Bool → Bool
conflicts (some a) (some b) = not (bool_beq a b)
conflicts (some a) none = false
conflicts none b = false

-- The outcome of the detection, from the modes of the two keys.
abbrev detected_from : Option Bool → Option Bool → Result (Option Bool)
detected_from public_mode secret_mode =
    if conflicts public_mode secret_mode
    then err (plain "Yoco public and secret keys must belong to the same environment")
    else ok (secret_mode or_else public_mode)

unfoldable pub detect_yoco_mode_from_keys : Option String → Option String → Result (Option Bool)
detect_yoco_mode_from_keys public_key secret_key =
    let public_mode = infer_key_mode (trim_to_null public_key) "pk_test_" "pk_live_" in
    let secret_mode = infer_key_mode (trim_to_null secret_key) "sk_test_" "sk_live_" in
    detected_from public_mode secret_mode

-- `process.env.NODE_ENV !== 'production'`
abbrev is_production : Option String → Bool
is_production none = false
is_production (some s) = s == "production"

abbrev pub not_production : Env → Bool
not_production env = not (is_production (env.var "NODE_ENV"))

abbrev resolved : Env → YocoConfigSource → Option Bool → YocoConfig
resolved env source detected_mode = record {
  public_key = trim_to_null source.yoco_public_key;
  secret_key = trim_to_null source.yoco_secret_key;
  test_mode = source.yoco_test_mode otherwise detected_mode otherwise not_production env;
}

unfoldable pub resolve_yoco_config : Env → YocoConfigSource → Result YocoConfig
resolve_yoco_config env source = do
  let public_key = trim_to_null source.yoco_public_key
  let secret_key = trim_to_null source.yoco_secret_key
  detected_mode ← detect_yoco_mode_from_keys public_key secret_key
  ok (resolved env source detected_mode)

unfoldable pub assert_yoco_config_consistency : YocoConfig → Result (Unit {0})
assert_yoco_config_consistency config = do
  detected_mode ← detect_yoco_mode_from_keys config.public_key config.secret_key
  require (not (conflicts detected_mode (some config.test_mode)))
      (plain "Yoco keys do not match the selected testMode")

-- What a resolved configuration is when it is handed on as a source.
abbrev pub yoco_source_of : YocoConfig → YocoConfigSource
yoco_source_of config = record {
  yoco_public_key = config.public_key;
  yoco_secret_key = config.secret_key;
  yoco_test_mode = some config.test_mode;
}

-- Resolving a resolved configuration again changes nothing: the services resolve a merchant's
-- row once, and the routing engine resolves the result a second time.
pub resolve_yoco_config_idem :
    (env : Env) (source : YocoConfigSource) (config : YocoConfig)
    → resolve_yoco_config env source ≡ ok config
    → resolve_yoco_config env (yoco_source_of config) ≡ ok config
unfolding resolve_yoco_config
resolve_yoco_config_idem env source config h =
    let (mode, detected, e) =
      >>=-eq-ok
        (detect_yoco_mode_from_keys (trim_to_null source.yoco_public_key)
          (trim_to_null source.yoco_secret_key))
        (λ m. ok (resolved env source m)) h in
    let same : resolved env source mode ≡ config = cc in
    rw (← same, trim_to_null_idem, trim_to_null_idem, detected)

-- A known mode agrees with the selected one.
abbrev pub Agrees : Option Bool → Bool → Type 0
Agrees none b = Unit
Agrees (some a) b = a ≡ b

modes_iff :
    (p s : Option Bool) (t : Bool)
    → ((detected_from p s >>= λ m.
          require
            (not (conflicts m (some t)))
            (plain "Yoco keys do not match the selected testMode"))
        ≡ ok tt)
      ↔ (Agrees p t × Agrees s t)
modes_iff none none t = ((λ h. (tt, tt)), (λ h. refl))
modes_iff none (some s) t = ((λ h. (tt, ground arith)), (λ h. ground arith))
modes_iff (some p) none t = ((λ h. (ground arith, tt)), (λ h. ground arith))
modes_iff (some p) (some s) t = ((λ h. (ground arith, ground arith)), (λ h. ground arith))

-- A configuration passes the assertion exactly when the mode that each of its two keys shows by
-- its prefix, where it shows one, is the selected mode.
pub assert_yoco_config_consistency_iff :
    (config : YocoConfig)
    → (assert_yoco_config_consistency config ≡ ok tt) ↔ (
        Agrees
          (infer_key_mode (trim_to_null config.public_key) "pk_test_" "pk_live_")
          config.test_mode
        × Agrees
            (infer_key_mode (trim_to_null config.secret_key) "sk_test_" "sk_live_")
            config.test_mode)
unfolding assert_yoco_config_consistency detect_yoco_mode_from_keys
assert_yoco_config_consistency_iff config =
    modes_iff (infer_key_mode (trim_to_null config.public_key) "pk_test_" "pk_live_")
      (infer_key_mode (trim_to_null config.secret_key) "sk_test_" "sk_live_") config.test_mode
