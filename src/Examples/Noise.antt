-- ===== src/Examples/Noise.antt =====
-- What `_is_no_reply` and `_is_gateway_status_noise` say of known texts.
use aap_hermes.Prelude.{◌≡◌, refl, true, false}
use aap_hermes.Prelude.Text.{strip, is_space}
use aap_hermes.Adapter.Noise.{is_no_reply, is_gateway_status_noise}

sentinel_alone : is_no_reply " [No-Reply]  " ≡ true
unfolding is_no_reply strip
sentinel_alone = refl

other_parenthesis : is_no_reply "(See attached)" ≡ false
unfolding is_no_reply strip
other_parenthesis = refl

meta_comment : is_no_reply "(No Reply needed)" ≡ true
unfolding is_no_reply strip
meta_comment = refl

sentinel_and_text : is_no_reply "[NO_REPLY] but call me" ≡ false
unfolding is_no_reply strip
sentinel_and_text = refl

status_notice : is_gateway_status_noise "  ⚠\u{fe0f}  Max  retries (3)" ≡ true
unfolding is_gateway_status_noise is_space
status_notice = refl

no_emoji : is_gateway_status_noise "Max retries" ≡ false
unfolding is_gateway_status_noise is_space
no_emoji = refl
