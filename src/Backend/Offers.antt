-- ===== src/Backend/Offers.antt =====
-- What the profile and entrypoint queries of src/backend.c offer, and what the rest of it accepts.
use venus_vaapi_driver.Common.{
  ℕ, ◌+◌, ◌≡◌, refl, Bool, true, false, ◌&&◌, ◌||◌, Option, List, [], ◌∷◌, ◌++◌, arith,
  if◌then◌else◌,
}
use venus_vaapi_driver.VaTypes.{
  Profile, h264_constrained_baseline, h264_main, h264_high, hevc_main, hevc_main10, vp8_version0_3,
  vp9_profile0, other_profile, Entrypoint, vld, enc_slice, eq_profile, eq_entrypoint, VaResult,
  va_ok, va_err,
}
use venus_vaapi_driver.Capabilities.{Capabilities}
use venus_vaapi_driver.Backend.Profiles.{
  is_supported, query_profiles, query_entrypoints, entrypoints_of, when, unless_empty,
  h264_profiles, h264_vld_supported, h264_enc_supported, hevc_vld_supported, hevc_enc_supported,
  vpx_vld_supported, vp8_enc_supported,
}

-- How often an entrypoint stands in a list.
abbrev pub count_entrypoint : Entrypoint → List Entrypoint → ℕ
count_entrypoint entrypoint [] = 0
count_entrypoint entrypoint (x ∷ xs) =
    (if eq_entrypoint entrypoint x then 1 else 0) + count_entrypoint entrypoint xs

abbrev pub count_profile : Profile → List Profile → ℕ
count_profile profile [] = 0
count_profile profile (x ∷ xs) = (if eq_profile profile x then 1 else 0) + count_profile profile xs

abbrev pub offered : VaResult (List Entrypoint) → List Entrypoint
offered (va_ok entrypoints) = entrypoints
offered (va_err status) = []

count_entrypoint-append :
    (e : Entrypoint) (xs ys : List Entrypoint)
    → count_entrypoint e (xs ++ ys) ≡ count_entrypoint e xs + count_entrypoint e ys
count_entrypoint-append e [] ys = omega arith
count_entrypoint-append e (x ∷ xs) ys = omega (arith, count_entrypoint-append e xs ys)

count_entrypoint-when :
    (e : Entrypoint) (b : Bool) (x : Entrypoint)
    → count_entrypoint e (when b x) ≡ (if eq_entrypoint e x && b then 1 else 0)
count_entrypoint-when e true x = ground arith
count_entrypoint-when e false x = ground arith

count_profile-append :
    (p : Profile) (xs ys : List Profile)
    → count_profile p (xs ++ ys) ≡ count_profile p xs + count_profile p ys
count_profile-append p [] ys = omega arith
count_profile-append p (x ∷ xs) ys = omega (arith, count_profile-append p xs ys)

count_profile-when :
    (p : Profile) (b : Bool) (x : Profile)
    → count_profile p (when b x) ≡ (if eq_profile p x && b then 1 else 0)
count_profile-when p true x = ground arith
count_profile-when p false x = ground arith

offered-unless_empty : (xs : List Entrypoint) → offered (unless_empty xs) ≡ xs
offered-unless_empty [] = refl
offered-unless_empty (x ∷ xs) = refl

module _ (caps : Capabilities) (variable : Option (List ℕ)) where
  tally :
      (profile : Profile) (e : Entrypoint)
      → (if eq_entrypoint e vld && h264_vld_supported caps variable profile vld then 1 else 0)
          + (if eq_entrypoint e enc_slice && h264_enc_supported caps variable profile enc_slice
              then 1
              else 0)
          + (if eq_entrypoint e enc_slice
                && (hevc_enc_supported caps variable profile enc_slice
                    || vp8_enc_supported caps variable profile enc_slice)
              then 1
              else 0)
          + (if eq_entrypoint e vld
                && (vpx_vld_supported caps variable profile vld
                    || hevc_vld_supported caps variable profile vld)
              then 1
              else 0)
        ≡ (if is_supported caps variable profile e then 1 else 0)
  unfolding h264_vld_supported h264_enc_supported hevc_vld_supported hevc_enc_supported
      vpx_vld_supported vp8_enc_supported
  tally h264_constrained_baseline e = ground arith
  tally h264_main e = ground arith
  tally h264_high e = ground arith
  tally hevc_main e = ground arith
  tally hevc_main10 e = ground arith
  tally vp8_version0_3 e = ground arith
  tally vp9_profile0 e = ground arith
  tally other_profile e = ground arith

  count-entrypoints_of :
      (profile : Profile) (e : Entrypoint)
      → count_entrypoint e (entrypoints_of caps variable profile)
        ≡ (if is_supported caps variable profile e then 1 else 0)
  unfolding entrypoints_of
  count-entrypoints_of profile e =
      rw
        (
          count_entrypoint-append, count_entrypoint-append, count_entrypoint-append,
          count_entrypoint-when, count_entrypoint-when, count_entrypoint-when,
          count_entrypoint-when,
        )
        (omega (arith, tally profile e))

  -- A query for the entrypoints of a profile lists each entrypoint that a configuration of that
  -- profile can have, once, and no other.
  pub query_entrypoints-count :
      (profile : Profile) (e : Entrypoint)
      → count_entrypoint e (offered (query_entrypoints caps variable profile))
        ≡ (if is_supported caps variable profile e then 1 else 0)
  unfolding query_entrypoints h264_vld_supported h264_enc_supported hevc_vld_supported
      hevc_enc_supported vpx_vld_supported vp8_enc_supported
  query_entrypoints-count h264_constrained_baseline e =
      rw offered-unless_empty (count-entrypoints_of h264_constrained_baseline e)
  query_entrypoints-count h264_main e = rw offered-unless_empty (count-entrypoints_of h264_main e)
  query_entrypoints-count h264_high e = rw offered-unless_empty (count-entrypoints_of h264_high e)
  query_entrypoints-count hevc_main e = rw offered-unless_empty (count-entrypoints_of hevc_main e)
  query_entrypoints-count hevc_main10 e =
      rw offered-unless_empty (count-entrypoints_of hevc_main10 e)
  query_entrypoints-count vp8_version0_3 e =
      rw offered-unless_empty (count-entrypoints_of vp8_version0_3 e)
  query_entrypoints-count vp9_profile0 e =
      rw offered-unless_empty (count-entrypoints_of vp9_profile0 e)
  query_entrypoints-count other_profile e = ground arith

  tally_profiles :
      (profile : Profile)
      → count_profile profile (h264_profiles caps variable)
          + (if eq_profile profile hevc_main
                && (hevc_enc_supported caps variable hevc_main enc_slice
                    || hevc_vld_supported caps variable hevc_main vld)
              then 1
              else 0)
          + (if eq_profile profile hevc_main10
                && (hevc_enc_supported caps variable hevc_main10 enc_slice
                    || hevc_vld_supported caps variable hevc_main10 vld)
              then 1
              else 0)
          + (if eq_profile profile vp8_version0_3
                && (vpx_vld_supported caps variable vp8_version0_3 vld
                    || vp8_enc_supported caps variable vp8_version0_3 enc_slice)
              then 1
              else 0)
          + (if eq_profile profile vp9_profile0 && vpx_vld_supported caps variable vp9_profile0 vld
              then 1
              else 0)
        ≡ (if is_supported caps variable profile vld || is_supported caps variable profile enc_slice
            then 1
            else 0)
  unfolding h264_vld_supported h264_enc_supported hevc_vld_supported hevc_enc_supported
      vpx_vld_supported vp8_enc_supported
  tally_profiles h264_constrained_baseline = ground arith
  tally_profiles h264_main = ground arith
  tally_profiles h264_high = ground arith
  tally_profiles hevc_main = ground arith
  tally_profiles hevc_main10 = ground arith
  tally_profiles vp8_version0_3 = ground arith
  tally_profiles vp9_profile0 = ground arith
  tally_profiles other_profile = ground arith

  -- The list of profiles has each profile that a configuration can have for decoding or for
  -- encoding, once, and no other.
  pub query_profiles-count :
      (profile : Profile)
      → count_profile profile (query_profiles caps variable) ≡ (
          if is_supported caps variable profile vld || is_supported caps variable profile enc_slice
          then 1
          else 0)
  unfolding query_profiles
  query_profiles-count profile =
      rw
        (
          count_profile-append, count_profile-append, count_profile-append, count_profile-append,
          count_profile-when, count_profile-when, count_profile-when, count_profile-when,
        )
        (tally_profiles profile)
