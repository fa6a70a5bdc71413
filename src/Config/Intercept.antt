-- ===== src/Config/Intercept.antt =====
-- Interception rules of src/core/config.rs: `InterceptRule` and `InterceptAction`.
use hakimi_hub.Prelude.{Bool, Option}
use hakimi_hub.Prelude.Str.{Text}

pub data InterceptAction : Type 0 where
  proxy : Text → InterceptAction
  sni_spoof : Text → Text → InterceptAction
  redirect : Text → InterceptAction
  abort : Bool → InterceptAction

pub record InterceptRule : Type 0 where
  pub from : Text
  pub from_pattern : Option Text
  pub action : InterceptAction
