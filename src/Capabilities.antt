-- ===== src/Capabilities.antt =====
-- src/capabilities.c and src/capabilities.h: the codecs and raw formats that the probed devices
-- report, behind an allowlist. The device paths of the structure are not modelled.
pub mod Allowlist
mod Tests
use venus_vaapi_driver.Common.{
  ℕ, ◌^◌, bit_and, bit_or, Bool, true, false, not, List, [], ◌∷◌, ◌==◌, if◌then◌else◌,
}

-- The `V4L2_PIX_FMT_` constants that the driver compares with; the enumerator at the end is each
-- other one.
pub data PixelFormat : Type 0 where
  pix_h264 pix_hevc pix_vp8 pix_vp9 pix_nv12 pix_p010 other_pix : PixelFormat

pub data Codec : Type 0 where
  codec_h264 codec_hevc codec_vp8 codec_vp9 : Codec

pub data Role : Type 0 where
  decoder encoder : Role

pub data RawFormat : Type 0 where
  raw_nv12 raw_p010 : RawFormat

abbrev pub codec_index : Codec → ℕ
codec_index codec_h264 = 0
codec_index codec_hevc = 1
codec_index codec_vp8 = 2
codec_index codec_vp9 = 3

abbrev pub codec_bit : Codec → ℕ
codec_bit codec = 2 ^ codec_index codec

abbrev pub raw_index : RawFormat → ℕ
raw_index raw_nv12 = 0
raw_index raw_p010 = 1

abbrev pub raw_bit : RawFormat → ℕ
raw_bit format = 2 ^ raw_index format

pub record Capabilities : Type 0 where
  pub decode_codecs : ℕ
  pub encode_codecs : ℕ
  pub decode_raw_formats : ℕ
  pub encode_raw_formats : ℕ

pub record CodecMap : Type 0 where
  pub fourcc : PixelFormat
  pub codec : Codec
  pub decode : Bool
  pub encode : Bool

abbrev pub entry : PixelFormat → Codec → Bool → Bool → CodecMap
entry fourcc codec decode encode = record {
  fourcc = fourcc;
  codec = codec;
  decode = decode;
  encode = encode;
}

abbrev pub codec_map : List CodecMap
codec_map =
    entry pix_h264 codec_h264 true true
    ∷ entry pix_hevc codec_hevc true true
    ∷ entry pix_vp8 codec_vp8 true true
    ∷ entry pix_vp9 codec_vp9 true false
    ∷ []

abbrev pub pix_code : PixelFormat → ℕ
pix_code pix_h264 = 0
pix_code pix_hevc = 1
pix_code pix_vp8 = 2
pix_code pix_vp9 = 3
pix_code pix_nv12 = 4
pix_code pix_p010 = 5
pix_code other_pix = 6

abbrev pub eq_format : PixelFormat → PixelFormat → Bool
eq_format a b = pix_code a == pix_code b

abbrev pub reset : Capabilities
reset = record {
  decode_codecs = 0;
  encode_codecs = 0;
  decode_raw_formats = 0;
  encode_raw_formats = 0;
}

abbrev pub add_codec : Capabilities → Role → Codec → Capabilities
add_codec caps decoder codec = record caps {
  decode_codecs = bit_or caps.decode_codecs (codec_bit codec);
}
add_codec caps encoder codec = record caps {
  encode_codecs = bit_or caps.encode_codecs (codec_bit codec);
}

abbrev pub allows : Role → CodecMap → Bool
allows decoder item = item.decode
allows encoder item = item.encode

-- The loop of `venus_capabilities_add_fourcc`.
abbrev pub add_from : List CodecMap → Capabilities → Role → PixelFormat → Capabilities × Bool
add_from [] caps role fourcc = (caps, false)
add_from (item ∷ items) caps role fourcc =
    let rest = add_from items caps role fourcc in
    if not (eq_format item.fourcc fourcc)
    then rest
    else if allows role item
    then (add_codec caps role item.codec, true)
    else (caps, false)

unfoldable pub add_fourcc : Capabilities → Role → PixelFormat → Capabilities × Bool
add_fourcc caps role fourcc = add_from codec_map caps role fourcc

abbrev pub add_raw : Capabilities → Role → RawFormat → Capabilities × Bool
add_raw caps decoder format =
    (record caps { decode_raw_formats = bit_or caps.decode_raw_formats (raw_bit format) }, true)
add_raw caps encoder format =
    (record caps { encode_raw_formats = bit_or caps.encode_raw_formats (raw_bit format) }, true)

unfoldable pub add_raw_fourcc : Capabilities → Role → PixelFormat → Capabilities × Bool
add_raw_fourcc caps role pix_nv12 = add_raw caps role raw_nv12
add_raw_fourcc caps role pix_p010 = add_raw caps role raw_p010
add_raw_fourcc caps role _ = (caps, false)

abbrev pub codecs_of : Capabilities → Role → ℕ
codecs_of caps decoder = caps.decode_codecs
codecs_of caps encoder = caps.encode_codecs

abbrev pub raw_formats_of : Capabilities → Role → ℕ
raw_formats_of caps decoder = caps.decode_raw_formats
raw_formats_of caps encoder = caps.encode_raw_formats

unfoldable pub has_raw : Capabilities → Role → RawFormat → Bool
has_raw caps role format = not (bit_and (raw_formats_of caps role) (raw_bit format) == 0)

unfoldable pub has : Capabilities → Role → Codec → Bool
has caps role codec = not (bit_and (codecs_of caps role) (codec_bit codec) == 0)
