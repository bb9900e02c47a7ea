-- ===== src/Capabilities/Tests.antt =====
-- Runs of src/capabilities.c, and its theorems at concrete inputs.
use venus_vaapi_driver.Common.{◌≡◌, refl, true, List, [], ◌∷◌}
use venus_vaapi_driver.Capabilities.{
  PixelFormat, pix_h264, pix_vp9, pix_nv12, Role, decoder, encoder, codec_h264, codec_vp9,
  add_fourcc, has, reset,
}
use venus_vaapi_driver.Capabilities.Allowlist.{add_all, add_all-has}

abbrev reports : List (Role × PixelFormat)
reports = (decoder, pix_vp9) ∷ (encoder, pix_vp9) ∷ (encoder, pix_h264) ∷ (decoder, pix_nv12) ∷ []

decodes_vp9 : has (add_all reports reset) decoder codec_vp9 ≡ true
unfolding has add_fourcc
decodes_vp9 = refl

add_all-has_example : has (add_all reports reset) encoder codec_h264 ≡ true
add_all-has_example = add_all-has reports encoder codec_h264
