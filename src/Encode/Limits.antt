-- ===== src/Encode/Limits.antt =====
-- What the rates and dimensions that src/encode.c computes are bounded by.
use native.Mathlib.Nat.{
  div-mul-le_self, lt-div-mul-add, mul-le-mul_left, mul-le-mul, le-div_iff_mul-le,
}
use venus_vaapi_driver.Common.{
  sym, ℕ, ◌+◌, ◌-◌, ◌*◌, ◌/◌, ◌%◌, ◌^◌, ◌≤◌, ◌<◌, ◌≡◌, refl, subst, ◌⊎◌, inl, inr, Bool, true,
  false, not, ◌&&◌, ◌||◌, Option, none, some, List, [], ◌∷◌, arith, ltb, ◌==◌, if◌then◌else◌,
  Bool-cases, le→ltb,
}
use venus_vaapi_driver.Common.Int.{pos, pos_part}
use venus_vaapi_driver.Common.Results.{ok, einval, ok-injective, guard-eq-ok}
use venus_vaapi_driver.Encode.Rates.{
  in_limits, parse_frame_rate, rounded_rate, at_least_one, scanned, apply_native_mode, aligned,
  cqp_bitrate, clamped, default_bitrate, max_bitrate, uint64_max, quality_qp_from_bitrate,
}

-- The sizes that the driver encodes.
pub record IsEncodable (width height : ℕ) : Type 0 where
  pub min_w : 48 ≤ width
  pub max_w : width ≤ 4096
  pub min_h : 32 ≤ height
  pub max_h : height ≤ 4096
  pub even_w : width % 2 ≡ 0
  pub even_h : height % 2 ≡ 0

in_limits-IsEncodable :
    (width height : ℕ) → in_limits width height ≡ true → IsEncodable width height
in_limits-IsEncodable width height h = record {
  min_w = ground arith;
  max_w = ground arith;
  min_h = ground arith;
  max_h = ground arith;
  even_w = ground arith;
  even_h = ground arith;
}

-- An accepted frame rate is the quotient of the two halves of the word to the nearest whole
-- number, an absent denominator counting as 1, and lies between 1 and 240.
pub parse_frame_rate_ok :
    (value rate : ℕ)
    → parse_frame_rate value ≡ ok rate
    → (1 ≤ rate)
      × (rate ≤ 240)
      × (rate * at_least_one (value / 2 ^ 16) ≤ value % 2 ^ 16 + at_least_one (value / 2 ^ 16) / 2)
      × (value % 2 ^ 16 + at_least_one (value / 2 ^ 16) / 2
          < rate * at_least_one (value / 2 ^ 16) + at_least_one (value / 2 ^ 16))
unfolding parse_frame_rate
parse_frame_rate_ok value rate h =
    let (a, h1) = guard-eq-ok (value % 2 ^ 16 == 0) einval _ h in
    let (b, h2) = guard-eq-ok (rounded == 0 || ltb 240 rounded) einval (ok rounded) h1 in
    let e = ok-injective h2 in
    (
      ground (arith, b, e),
      ground (arith, b, e),
      subst (λ (r : ℕ). r * d ≤ value % 2 ^ 16 + d / 2) e
          (div-mul-le_self (value % 2 ^ 16 + d / 2) d),
      subst (λ (r : ℕ). value % 2 ^ 16 + d / 2 < r * d + d) e (lt-div-mul-add (ground arith)),
    )
  where
    d : ℕ
    d = at_least_one (value / 2 ^ 16)

    rounded : ℕ
    rounded = rounded_rate (value % 2 ^ 16) d

-- A bitrate for constant quality is within the driver's limits.
pub cqp_bitrate_bounds :
    (width height frames_per_second qp bitrate : ℕ)
    → cqp_bitrate width height frames_per_second qp ≡ ok bitrate
    → (default_bitrate ≤ bitrate) × (bitrate ≤ max_bitrate)
unfolding cqp_bitrate
cqp_bitrate_bounds width height frames_per_second qp bitrate h = ground (arith, h)

clamped_mono : (a b : ℕ) → a ≤ b → clamped a ≤ clamped b
clamped_mono a b h = ground arith

cqp_bitrate-value :
    (width height frames_per_second qp bitrate : ℕ)
    → cqp_bitrate width height frames_per_second qp ≡ ok bitrate
    → clamped (width * height * frames_per_second * (52 - qp) / 90) ≡ bitrate
unfolding cqp_bitrate
cqp_bitrate-value width height frames_per_second qp bitrate h = ground (arith, h)

-- A coarser QP never asks for a higher bitrate.
pub cqp_bitrate_mono :
    (width height frames_per_second fine coarse more less : ℕ)
    → cqp_bitrate width height frames_per_second fine ≡ ok more
    → cqp_bitrate width height frames_per_second coarse ≡ ok less
    → fine ≤ coarse
    → less ≤ more
cqp_bitrate_mono width height frames_per_second fine coarse more less f c le =
    let samples = width * height * frames_per_second in
    let order =
      clamped_mono (samples * (52 - coarse) / 90) (samples * (52 - fine) / 90)
        (omega (arith, mul-le-mul_left {m = 52 - coarse} {n = 52 - fine} samples (omega arith))) in
    omega (
      arith,
      order,
      cqp_bitrate-value width height frames_per_second coarse less c,
      cqp_bitrate-value width height frames_per_second fine more f,
    )

-- Every size that the driver encodes has a bitrate at each frame rate up to 240 and each valid QP.
pub cqp_bitrate_total :
    (width height frames_per_second qp : ℕ)
    → IsEncodable width height
    → 1 ≤ frames_per_second
    → frames_per_second ≤ 240
    → 1 ≤ qp
    → qp ≤ 51
    → (bitrate : ℕ) × (cqp_bitrate width height frames_per_second qp ≡ ok bitrate)
unfolding cqp_bitrate
cqp_bitrate_total width height frames qp size low high fine coarse = (
  clamped (width * height * frames * (52 - qp) / 90),
  rw
      (
        valid,
        quotient width height (omega (arith, size.min_h)) (omega (arith, pixels)),
        quotient (width * height) frames (omega arith) (omega (arith, samples)),
        quotient (width * height * frames) (52 - qp) (omega arith) (omega (arith, weighted)),
      )
      refl,
)
  where
    quotient : (n m : ℕ) → 0 < m → n * m ≤ uint64_max → ltb (uint64_max / m) n ≡ false
    quotient n m positive le = le→ltb (uint64_max / m) n ((le-div_iff_mul-le positive).1 le)

    pixels : width * height ≤ 4096 * 4096
    pixels =
        mul-le-mul {n₂ = 4096} {m₂ = 4096} (omega (arith, size.max_w)) (omega (arith, size.max_h))

    samples : width * height * frames ≤ 4096 * 4096 * 240
    samples = mul-le-mul pixels high

    weighted : width * height * frames * (52 - qp) ≤ 4096 * 4096 * 240 * 51
    weighted = mul-le-mul {m₂ = 51} samples (omega arith)

    valid : (width == 0 || height == 0 || frames == 0 || ltb qp 1 || ltb 51 qp) ≡ false
    valid = ground (arith, size.min_w, size.min_h)

-- From a client's QP, which is not negative, the QP that is set is never worse, and it is better
-- than the client's only down to 18.
pub quality_qp_from_bitrate_bounds :
    (width height frames_per_second bitrate qp : ℕ)
    → let result = quality_qp_from_bitrate width height frames_per_second bitrate (pos qp) in
      (pos_part result ≤ qp) × ((result ≡ pos qp) ⊎ (18 ≤ pos_part result))
unfolding quality_qp_from_bitrate
quality_qp_from_bitrate_bounds width height frames_per_second bitrate qp =
    (ground arith, ground arith)

module _ (cw ch w h : ℕ) where
  -- A size that has the context's in whole macroblocks.
  abbrev pub HasSize : ℕ → ℕ → Type 0
  HasSize a b = ((a + 15) / 16 * 16 ≡ cw) × ((b + 15) / 16 * 16 ≡ ch)

  -- What a mode of the size `a` by `b` does to the dimensions: it replaces them if it has the size of
  -- the context, else by the turned mode if that has the size, and else it leaves them.
  pub data IsFitted (a b : ℕ) : ℕ × ℕ × Bool → Type 0 where
    upright : HasSize a b → IsFitted a b (a, b, true)
    turned : ¬ HasSize a b → HasSize b a → IsFitted a b (b, a, true)
    unfit : ¬ HasSize a b → ¬ HasSize b a → IsFitted a b (w, h, false)

  -- What the two numbers of a mode do, which have to be there and to be encodable.
  abbrev pub IsScanned : Option (ℕ × ℕ) → ℕ × ℕ × Bool → Type 0
  IsScanned none result = ⊥
  IsScanned (some (a, b)) result = IsEncodable a b × IsFitted a b result

  -- What a mode does: without one, or with an empty one, the dimensions stay.
  abbrev pub IsNative : (List ℕ → Option (ℕ × ℕ)) → Option (List ℕ) → ℕ × ℕ × Bool → Type 0
  IsNative scan none result = result ≡ (w, h, false)
  IsNative scan (some []) result = result ≡ (w, h, false)
  IsNative scan (some (c ∷ mode)) result = IsScanned (scan (c ∷ mode)) result

  fitted :
      (a b : ℕ) {result : ℕ × ℕ × Bool}
      → in_limits a b ≡ true
      → (if aligned a == cw && aligned b == ch
          then ok (a, b, true)
          else if aligned b == cw && aligned a == ch
          then ok (b, a, true)
          else ok (w, h, false))
        ≡ ok result
      → IsFitted a b result
  fitted a b limits e = elim (Bool-cases (aligned a == cw && aligned b == ch)) [
    | inl own ↦
        subst (IsFitted a b) (ok-injective (rw own at e))
          (upright (ground (arith, own), ground (arith, own)))
    | inr other ↦ elim (Bool-cases (aligned b == cw && aligned a == ch)) [
      | inl swapped ↦ subst (IsFitted a b) (ok-injective (rw (other, swapped) at e)) (
          turned (λ (x, y). absurd (ground (arith, other, x, y)))
            (ground (arith, swapped), ground (arith, swapped)))
      | inr neither ↦ subst (IsFitted a b) (ok-injective (rw (other, neither) at e)) (
          unfit (λ (x, y). absurd (ground (arith, other, x, y)))
            (λ (x, y). absurd (ground (arith, neither, x, y))))
    ]
  ]

-- When a native mode is accepted, its two numbers are within the driver's limits upright, and
-- replace the dimensions if they have the size of the context in whole macroblocks; else they
-- replace them turned if they have that size turned; else, and without a mode or with an empty one,
-- the dimensions are what they were.
pub apply_native_mode_ok :
    (scan : List ℕ → Option (ℕ × ℕ)) (mode : Option (List ℕ)) (cw ch w h : ℕ)
    (result : ℕ × ℕ × Bool)
    → apply_native_mode scan mode cw ch w h ≡ ok result
    → IsNative cw ch w h scan mode result
unfolding apply_native_mode
apply_native_mode_ok scan none cw ch w h result e = sym (ok-injective e)
apply_native_mode_ok scan (some []) cw ch w h result e = sym (ok-injective e)
apply_native_mode_ok scan (some (c ∷ mode)) cw ch w h result e = from (scan (c ∷ mode)) e
  where
    from :
        (found : Option (ℕ × ℕ))
        → scanned found cw ch w h ≡ ok result
        → IsScanned cw ch w h found result
    from none g = cc
    from (some (a, b)) g =
        let (limits, g') = guard-eq-ok (not (in_limits a b)) einval _ g in
        (
          in_limits-IsEncodable a b (ground (arith, limits)),
          fitted cw ch w h a b (ground (arith, limits)) g',
        )
