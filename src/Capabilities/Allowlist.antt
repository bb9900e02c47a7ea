-- ===== src/Capabilities/Allowlist.antt =====
-- What src/capabilities.c reports after a sequence of formats has been added.
use venus_vaapi_driver.Common.{
  ◌<◌, ◌≡◌, refl, ◌∙◌, ◌≤◌, Bool, true, false, ◌&&◌, ◌||◌, List, [], ◌∷◌, arith, ◌==◌,
}
use venus_vaapi_driver.Common.Bits.{bit_and-bit_or, bit_or_lt}
use venus_vaapi_driver.Capabilities.{
  PixelFormat, pix_h264, pix_hevc, pix_vp8, pix_vp9, pix_nv12, pix_p010, other_pix, Codec,
  codec_h264, codec_hevc, codec_vp8, codec_vp9, Role, decoder, encoder, codec_index, Capabilities,
  add_codec, add_fourcc, has, reset, eq_format, pix_code,
}

-- The format of a codec's stream.
abbrev pub format_of : Codec → PixelFormat
format_of codec_h264 = pix_h264
format_of codec_hevc = pix_hevc
format_of codec_vp8 = pix_vp8
format_of codec_vp9 = pix_vp9

-- The driver encodes everything that it decodes but VP9.
abbrev pub is_allowed : Role → Codec → Bool
is_allowed encoder codec_vp9 = false
is_allowed role codec = true

abbrev pub is_listed : Role → Codec → PixelFormat → Bool
is_listed role codec fourcc = is_allowed role codec && eq_format (format_of codec) fourcc

abbrev pub same_role : Role → Role → Bool
same_role decoder decoder = true
same_role encoder encoder = true
same_role role other = false

-- The masks have the four flags at most.
pub record IsMask (caps : Capabilities) : Type 0 where
  pub decode_mask : caps.decode_codecs < 16
  pub encode_mask : caps.encode_codecs < 16

pub reset-IsMask : IsMask reset
reset-IsMask = record { decode_mask = omega arith; encode_mask = omega arith }

codec_index_lt : (codec : Codec) → codec_index codec < 4
codec_index_lt codec_h264 = omega arith
codec_index_lt codec_hevc = omega arith
codec_index_lt codec_vp8 = omega arith
codec_index_lt codec_vp9 = omega arith

add_codec-IsMask :
    (caps : Capabilities) (role : Role) (codec : Codec)
    → IsMask caps
    → IsMask (add_codec caps role codec)
add_codec-IsMask caps decoder codec h = record {
  decode_mask =
      bit_or_lt (codec_index codec) caps.decode_codecs (codec_index_lt codec) h.decode_mask;
  encode_mask = h.encode_mask;
}
add_codec-IsMask caps encoder codec h = record {
  decode_mask = h.decode_mask;
  encode_mask =
      bit_or_lt (codec_index codec) caps.encode_codecs (codec_index_lt codec) h.encode_mask;
}

eq_codec : Codec → Codec → Bool
eq_codec a b = codec_index a == codec_index b

add_codec-has :
    (caps : Capabilities) (role other : Role) (added codec : Codec)
    → IsMask caps
    → has (add_codec caps role added) other codec
      ≡ (has caps other codec || (same_role role other && eq_codec added codec))
unfolding has eq_codec
add_codec-has caps decoder decoder added codec h = ground (
  arith,
  bit_and-bit_or (codec_index added) (codec_index codec) caps.decode_codecs (codec_index_lt added)
      (codec_index_lt codec) h.decode_mask,
)
add_codec-has caps encoder encoder added codec h = ground (
  arith,
  bit_and-bit_or (codec_index added) (codec_index codec) caps.encode_codecs (codec_index_lt added)
      (codec_index_lt codec) h.encode_mask,
)
add_codec-has caps decoder encoder added codec h = ground arith
add_codec-has caps encoder decoder added codec h = ground arith

IsAdded : Capabilities → Capabilities → Role → PixelFormat → Role → Codec → Type 0
IsAdded caps after role fourcc other codec =
    (has after other codec
      ≡ (has caps other codec || (same_role role other && is_listed role codec fourcc)))
    × IsMask after

added :
    (caps : Capabilities) (role other : Role) (new codec : Codec)
    → IsMask caps
    → is_listed role codec (format_of new) ≡ eq_codec new codec
    → IsAdded caps (add_codec caps role new) role (format_of new) other codec
unfolding IsAdded
added caps role other new codec h e =
    (rw e (add_codec-has caps role other new codec h), add_codec-IsMask caps role new h)

unchanged :
    (caps : Capabilities) (role other : Role) (fourcc : PixelFormat) (codec : Codec)
    → IsMask caps
    → is_listed role codec fourcc ≡ false
    → IsAdded caps caps role fourcc other codec
unfolding IsAdded
unchanged caps role other fourcc codec h e = (ground (arith, e), h)

pix_code-format_of : (codec : Codec) → pix_code (format_of codec) ≡ codec_index codec
pix_code-format_of codec_h264 = refl
pix_code-format_of codec_hevc = refl
pix_code-format_of codec_vp8 = refl
pix_code-format_of codec_vp9 = refl

listed_decoder : (new codec : Codec) → is_listed decoder codec (format_of new) ≡ eq_codec new codec
unfolding eq_codec
listed_decoder new codec = ground (arith, pix_code-format_of new, pix_code-format_of codec)

listed_encoder :
    (new codec : Codec)
    → codec_index new < 3
    → is_listed encoder codec (format_of new) ≡ eq_codec new codec
unfolding eq_codec
listed_encoder new codec_h264 h = ground (arith, pix_code-format_of new)
listed_encoder new codec_hevc h = ground (arith, pix_code-format_of new)
listed_encoder new codec_vp8 h = ground (arith, pix_code-format_of new)
listed_encoder new codec_vp9 h = ground (arith)

not_listed :
    (role : Role) (codec : Codec) (fourcc : PixelFormat)
    → 4 ≤ pix_code fourcc
    → is_listed role codec fourcc ≡ false
not_listed role codec_h264 fourcc h = ground arith
not_listed role codec_hevc fourcc h = ground arith
not_listed role codec_vp8 fourcc h = ground arith
not_listed role codec_vp9 fourcc h = ground arith

vp9_not_encoded : (codec : Codec) → is_listed encoder codec pix_vp9 ≡ false
vp9_not_encoded codec_h264 = refl
vp9_not_encoded codec_hevc = refl
vp9_not_encoded codec_vp8 = refl
vp9_not_encoded codec_vp9 = refl

add_fourcc_added :
    (caps : Capabilities) (role other : Role) (fourcc : PixelFormat) (codec : Codec)
    → IsMask caps
    → IsAdded caps (add_fourcc caps role fourcc).0 role fourcc other codec
unfolding add_fourcc
add_fourcc_added caps decoder other pix_h264 codec h =
    added caps decoder other codec_h264 codec h (listed_decoder codec_h264 codec)
add_fourcc_added caps decoder other pix_hevc codec h =
    added caps decoder other codec_hevc codec h (listed_decoder codec_hevc codec)
add_fourcc_added caps decoder other pix_vp8 codec h =
    added caps decoder other codec_vp8 codec h (listed_decoder codec_vp8 codec)
add_fourcc_added caps decoder other pix_vp9 codec h =
    added caps decoder other codec_vp9 codec h (listed_decoder codec_vp9 codec)
add_fourcc_added caps encoder other pix_h264 codec h =
    added caps encoder other codec_h264 codec h (listed_encoder codec_h264 codec (omega arith))
add_fourcc_added caps encoder other pix_hevc codec h =
    added caps encoder other codec_hevc codec h (listed_encoder codec_hevc codec (omega arith))
add_fourcc_added caps encoder other pix_vp8 codec h =
    added caps encoder other codec_vp8 codec h (listed_encoder codec_vp8 codec (omega arith))
add_fourcc_added caps encoder other pix_vp9 codec h =
    unchanged caps encoder other pix_vp9 codec h (vp9_not_encoded codec)
add_fourcc_added caps role other pix_nv12 codec h =
    unchanged caps role other pix_nv12 codec h (not_listed role codec pix_nv12 (omega arith))
add_fourcc_added caps role other pix_p010 codec h =
    unchanged caps role other pix_p010 codec h (not_listed role codec pix_p010 (omega arith))
add_fourcc_added caps role other other_pix codec h =
    unchanged caps role other other_pix codec h (not_listed role codec other_pix (omega arith))

-- Adding a format that a device reports makes the driver claim the codec of that format in that
-- role, when the allowlist has it, and changes no other claim.
pub add_fourcc-has :
    (caps : Capabilities) (role other : Role) (fourcc : PixelFormat) (codec : Codec)
    → IsMask caps
    → has (add_fourcc caps role fourcc).0 other codec
      ≡ (has caps other codec || (same_role role other && is_listed role codec fourcc))
unfolding IsAdded
add_fourcc-has caps role other fourcc codec h = (add_fourcc_added caps role other fourcc codec h).0

-- What the probe does: it adds each format that it finds, from the empty record on.
abbrev pub add_all : List (Role × PixelFormat) → Capabilities → Capabilities
add_all [] caps = caps
add_all ((role, fourcc) ∷ reports) caps = add_all reports (add_fourcc caps role fourcc).0

abbrev pub is_reported : List (Role × PixelFormat) → Role → Codec → Bool
is_reported [] role codec = false
is_reported ((reporter, fourcc) ∷ reports) role codec =
    (same_role reporter role && is_listed reporter codec fourcc) || is_reported reports role codec

add_all-from :
    (reports : List (Role × PixelFormat)) (caps : Capabilities) (role : Role) (codec : Codec)
    → IsMask caps
    → has (add_all reports caps) role codec
      ≡ (has caps role codec || is_reported reports role codec)
unfolding IsAdded
add_all-from [] caps role codec h = ground arith
add_all-from ((reporter, fourcc) ∷ reports) caps role codec h =
    let (e, mask) = add_fourcc_added caps reporter role fourcc codec h in
    ground (arith, e, add_all-from reports (add_fourcc caps reporter fourcc).0 role codec mask)

none_yet :
    (reports : List (Role × PixelFormat)) (role : Role) (codec : Codec)
    → (has reset role codec || is_reported reports role codec) ≡ is_reported reports role codec
unfolding has
none_yet reports decoder codec_h264 = refl
none_yet reports decoder codec_hevc = refl
none_yet reports decoder codec_vp8 = refl
none_yet reports decoder codec_vp9 = refl
none_yet reports encoder codec_h264 = refl
none_yet reports encoder codec_hevc = refl
none_yet reports encoder codec_vp8 = refl
none_yet reports encoder codec_vp9 = refl

-- After any sequence of reports, the driver claims a codec in a role exactly when a device
-- reported in that role the format of the codec and the allowlist has it.
pub add_all-has :
    (reports : List (Role × PixelFormat)) (role : Role) (codec : Codec)
    → has (add_all reports reset) role codec ≡ is_reported reports role codec
add_all-has reports role codec =
    add_all-from reports reset role codec reset-IsMask ∙ none_yet reports role codec

vp9_not_reported :
    (reports : List (Role × PixelFormat)) → is_reported reports encoder codec_vp9 ≡ false
vp9_not_reported [] = refl
vp9_not_reported ((decoder, fourcc) ∷ reports) = vp9_not_reported reports
vp9_not_reported ((encoder, fourcc) ∷ reports) = vp9_not_reported reports

-- However the devices report, the driver never claims to encode VP9.
pub never_encodes_vp9 :
    (reports : List (Role × PixelFormat)) → has (add_all reports reset) encoder codec_vp9 ≡ false
never_encodes_vp9 reports = add_all-has reports encoder codec_vp9 ∙ vp9_not_reported reports
