-- ===== src/H264Annexb/Pps.antt =====
-- The picture parameter set of src/h264_annexb.c against a reader of the H.264 syntax (7.3.2.2).
use venus_vaapi_driver.Common.{
  ℕ, zero, suc, ◌-◌, ◌%◌, ◌^◌, ◌<◌, ◌≡◌, refl, Bool, true, false, some, List, [], ◌∷◌, ◌++◌, arith,
  replicate, if◌then◌else◌, Bool-cases, inl, inr,
}
use venus_vaapi_driver.Common.Int.{ℤ, eq_ℤ→eq}
use mathlib.Core.Path.{ap₂}
use venus_vaapi_driver.VaTypes.{PictureH264, SliceH264}
use venus_vaapi_driver.BitWriter.{BitWriter, se_code, bit_at}
use venus_vaapi_driver.BitWriter.Refines.{low_bits, trailing_bits}
use venus_vaapi_driver.BitWriter.Golomb.{
  Reader, ◌>>=◌, read_u, read_ue, read_se, then_read, then_u, then_ue, then_se,
}
use venus_vaapi_driver.BitWriter.Fields.{Field, u, ue, se, write_fields, fields_then}
use venus_vaapi_driver.H264Annexb.Headers.{write_pps, has_extension}

-- The last three fields hold what the syntax infers where the set ends before them.
pub record Pps : Type 0 where
  pub pic_parameter_set_id : ℕ
  pub seq_parameter_set_id : ℕ
  pub entropy_coding_mode_flag : ℕ
  pub bottom_field_pic_order_in_frame_present_flag : ℕ
  pub num_slice_groups_minus1 : ℕ
  pub num_ref_idx_l0_default_active_minus1 : ℕ
  pub num_ref_idx_l1_default_active_minus1 : ℕ
  pub weighted_pred_flag : ℕ
  pub weighted_bipred_idc : ℕ
  pub pic_init_qp_minus26 : ℤ
  pub pic_init_qs_minus26 : ℤ
  pub chroma_qp_index_offset : ℤ
  pub deblocking_filter_control_present_flag : ℕ
  pub constrained_intra_pred_flag : ℕ
  pub redundant_pic_cnt_present_flag : ℕ
  pub transform_8x8_mode_flag : ℕ
  pub pic_scaling_matrix_present_flag : ℕ
  pub second_chroma_qp_index_offset : ℤ

abbrev pub Extension : Type 0
Extension = record { transform : ℕ; scaling : ℕ; second : ℤ }

has_one : List Bool → Bool
has_one [] = false
has_one (true ∷ bits) = true
has_one (false ∷ bits) = has_one bits

-- `more_rbsp_data()`: something stands before the last one, which is the stop bit.
more_rbsp_data : List Bool → Bool
unfolding has_one
more_rbsp_data [] = false
more_rbsp_data (true ∷ bits) = has_one bits
more_rbsp_data (false ∷ bits) = has_one bits

-- Without an extension the 8x8 transform is off and both chroma planes share one offset.
read_extension : ℤ → Reader Extension
unfolding more_rbsp_data
read_extension chroma bits =
    if more_rbsp_data bits
    then (read_u 1 >>= λ transform. read_u 1 >>= λ scaling. read_se >>= λ second rest.
          some (record { transform = transform; scaling = scaling; second = second }, rest))
        bits
    else some (record { transform = 0; scaling = 0; second = chroma }, bits)

unfoldable pub read_pps : Reader Pps
unfolding read_extension
read_pps = read_ue >>= λ id. read_ue >>= λ sps_id. read_u 1 >>= λ entropy. read_u 1 >>= λ order.
    read_ue >>= λ groups. read_ue >>= λ l0. read_ue >>= λ l1. read_u 1 >>= λ weighted.
    read_u 2 >>= λ bipred. read_se >>= λ qp. read_se >>= λ qs. read_se >>= λ chroma.
    read_u 1 >>= λ deblocking. read_u 1 >>= λ intra. read_u 1 >>= λ redundant.
    read_extension chroma >>= λ extension rest. some (
      record {
        pic_parameter_set_id = id;
        seq_parameter_set_id = sps_id;
        entropy_coding_mode_flag = entropy;
        bottom_field_pic_order_in_frame_present_flag = order;
        num_slice_groups_minus1 = groups;
        num_ref_idx_l0_default_active_minus1 = l0;
        num_ref_idx_l1_default_active_minus1 = l1;
        weighted_pred_flag = weighted;
        weighted_bipred_idc = bipred;
        pic_init_qp_minus26 = qp;
        pic_init_qs_minus26 = qs;
        chroma_qp_index_offset = chroma;
        deblocking_filter_control_present_flag = deblocking;
        constrained_intra_pred_flag = intra;
        redundant_pic_cnt_present_flag = redundant;
        transform_8x8_mode_flag = extension.transform;
        pic_scaling_matrix_present_flag = extension.scaling;
        second_chroma_qp_index_offset = extension.second;
      },
      rest,
    )

-- The numbers of the picture and of the slice fit the C types that hold them.
pub record IsTyped (picture : PictureH264) (slice : SliceH264) : Type 0 where
  pub entropy : picture.entropy_coding_mode_flag < 2
  pub order : picture.pic_order_present_flag < 2
  pub l0 : slice.num_ref_idx_l0_active_minus1 < 2 ^ 32
  pub l1 : slice.num_ref_idx_l1_active_minus1 < 2 ^ 32
  pub weighted : picture.weighted_pred_flag < 2
  pub bipred : picture.weighted_bipred_idc < 4
  pub qp : se_code picture.pic_init_qp_minus26 < 2 ^ 32
  pub qs : se_code picture.pic_init_qs_minus26 < 2 ^ 32
  pub chroma : se_code picture.chroma_qp_index_offset < 2 ^ 32
  pub deblocking : picture.deblocking_filter_control_present_flag < 2
  pub intra : picture.constrained_intra_pred_flag < 2
  pub redundant : picture.redundant_pic_cnt_present_flag < 2
  pub transform : picture.transform_8x8_mode_flag < 2
  pub second : se_code picture.second_chroma_qp_index_offset < 2 ^ 32

-- What the set says of a picture and its first slice.
abbrev pub pps_of : PictureH264 → SliceH264 → Pps
pps_of picture slice = record {
  pic_parameter_set_id = 0;
  seq_parameter_set_id = 0;
  entropy_coding_mode_flag = picture.entropy_coding_mode_flag;
  bottom_field_pic_order_in_frame_present_flag = picture.pic_order_present_flag;
  num_slice_groups_minus1 = 0;
  num_ref_idx_l0_default_active_minus1 = slice.num_ref_idx_l0_active_minus1;
  num_ref_idx_l1_default_active_minus1 = slice.num_ref_idx_l1_active_minus1;
  weighted_pred_flag = picture.weighted_pred_flag;
  weighted_bipred_idc = picture.weighted_bipred_idc;
  pic_init_qp_minus26 = picture.pic_init_qp_minus26;
  pic_init_qs_minus26 = picture.pic_init_qs_minus26;
  chroma_qp_index_offset = picture.chroma_qp_index_offset;
  deblocking_filter_control_present_flag = picture.deblocking_filter_control_present_flag;
  constrained_intra_pred_flag = picture.constrained_intra_pred_flag;
  redundant_pic_cnt_present_flag = picture.redundant_pic_cnt_present_flag;
  transform_8x8_mode_flag = picture.transform_8x8_mode_flag;
  pic_scaling_matrix_present_flag = 0;
  second_chroma_qp_index_offset = picture.second_chroma_qp_index_offset;
}

abbrev extension_fields : PictureH264 → List Field
extension_fields picture =
    if has_extension picture
    then u picture.transform_8x8_mode_flag 1 ∷ u 0 1 ∷ se picture.second_chroma_qp_index_offset ∷ []
    else []

abbrev pub pps_fields : PictureH264 → SliceH264 → List Field
pps_fields picture slice =
    ue 0
    ∷ ue 0
    ∷ u picture.entropy_coding_mode_flag 1
    ∷ u picture.pic_order_present_flag 1
    ∷ ue 0
    ∷ ue slice.num_ref_idx_l0_active_minus1
    ∷ ue slice.num_ref_idx_l1_active_minus1
    ∷ u picture.weighted_pred_flag 1
    ∷ u picture.weighted_bipred_idc 2
    ∷ se picture.pic_init_qp_minus26
    ∷ se picture.pic_init_qs_minus26
    ∷ se picture.chroma_qp_index_offset
    ∷ u picture.deblocking_filter_control_present_flag 1
    ∷ u picture.constrained_intra_pred_flag 1
    ∷ u picture.redundant_pic_cnt_present_flag 1
    ∷ extension_fields picture

pub write_pps-fields :
    (picture : PictureH264) (slice : SliceH264) (w : BitWriter)
    → write_pps picture slice w ≡ write_fields w (pps_fields picture slice)
unfolding write_pps
write_pps-fields picture slice w = elim (Bool-cases (has_extension picture)) [
  | inl extended ↦ rw extended refl
  | inr plain ↦ rw plain refl
]

has_one-append : (bits more : List Bool) → has_one (bits ++ true ∷ more) ≡ true
unfolding has_one
has_one-append [] more = refl
has_one-append (true ∷ bits) more = refl
has_one-append (false ∷ bits) more = has_one-append bits more

has_one-replicate : (n : ℕ) → has_one (replicate n false) ≡ false
unfolding has_one
has_one-replicate zero = refl
has_one-replicate (suc n) = has_one-replicate n

-- There is more data before the trailing bits exactly if anything stands there.
more_rbsp_data-append :
    (b : Bool) (bits : List Bool) (n : ℕ) → more_rbsp_data (b ∷ (bits ++ trailing_bits n)) ≡ true
unfolding more_rbsp_data
more_rbsp_data-append true bits n = has_one-append bits _
more_rbsp_data-append false bits n = has_one-append bits _

extended_more :
    (transform n : ℕ) (bits : List Bool)
    → more_rbsp_data (low_bits transform 1 ++ (low_bits 0 1 ++ (bits ++ trailing_bits n))) ≡ true
unfolding low_bits
extended_more transform n bits = more_rbsp_data-append (bit_at transform 0) (bit_at 0 0 ∷ bits) n

plain_more : (n : ℕ) → more_rbsp_data (trailing_bits n) ≡ false
unfolding more_rbsp_data
plain_more n = has_one-replicate (7 - n % 8)

-- An extension that is left out would have said what the syntax infers.
extension_inferred :
    (picture : PictureH264)
    → has_extension picture ≡ false
    → (0 ≡ picture.transform_8x8_mode_flag)
      × (picture.chroma_qp_index_offset ≡ picture.second_chroma_qp_index_offset)
extension_inferred picture h =
    ground (arith, eq_ℤ→eq picture.second_chroma_qp_index_offset picture.chroma_qp_index_offset)

read_extension-fields :
    (picture : PictureH264) (slice : SliceH264) (n : ℕ)
    → IsTyped picture slice
    → read_extension picture.chroma_qp_index_offset
        (fields_then (extension_fields picture) (trailing_bits n))
      ≡ some (
        record {
          transform = picture.transform_8x8_mode_flag;
          scaling = 0;
          second = picture.second_chroma_qp_index_offset;
        },
        trailing_bits n,
      )
unfolding read_extension
read_extension-fields picture slice n t = elim (Bool-cases (has_extension picture)) [
  | inl extended ↦
      rw (extended, extended_more picture.transform_8x8_mode_flag n _)
        (then_u picture.transform_8x8_mode_flag 1 _ _ t.transform (
          then_u 0 1 _ _ (omega arith)
            (then_se picture.second_chroma_qp_index_offset _ _ t.second refl)))
  | inr plain ↦
      let (off, shared) = extension_inferred picture plain in
      rw (plain, plain_more n)
        (ap₂
          (λ (transform : ℕ) (second : ℤ).
            let e : Extension = record { transform = transform; scaling = 0; second = second } in
            some (e, trailing_bits n))
          off shared)
]

-- The reader gets back what the picture and the slice say, whether or not the set has the
-- extension, and leaves the trailing bits.
pub read_pps-fields :
    (picture : PictureH264) (slice : SliceH264) (n : ℕ)
    → IsTyped picture slice
    → read_pps (fields_then (pps_fields picture slice) (trailing_bits n))
      ≡ some (pps_of picture slice, trailing_bits n)
unfolding read_pps
read_pps-fields picture slice n t = then_ue 0 _ _ (omega arith) (
    then_ue 0 _ _ (omega arith) (
      then_u picture.entropy_coding_mode_flag 1 _ _ t.entropy (
        then_u picture.pic_order_present_flag 1 _ _ t.order (
          then_ue 0 _ _ (omega arith) (
            then_ue slice.num_ref_idx_l0_active_minus1 _ _ t.l0 (
              then_ue slice.num_ref_idx_l1_active_minus1 _ _ t.l1 (
                then_u picture.weighted_pred_flag 1 _ _ t.weighted (
                  then_u picture.weighted_bipred_idc 2 _ _ t.bipred (
                    then_se picture.pic_init_qp_minus26 _ _ t.qp (
                      then_se picture.pic_init_qs_minus26 _ _ t.qs (
                        then_se picture.chroma_qp_index_offset _ _ t.chroma (
                          then_u picture.deblocking_filter_control_present_flag 1 _ _ t.deblocking (
                            then_u picture.constrained_intra_pred_flag 1 _ _ t.intra (
                              then_u picture.redundant_pic_cnt_present_flag 1 _ _ t.redundant (
                                then_read (read_extension picture.chroma_qp_index_offset) _ _
                                  (read_extension-fields picture slice n t) refl)))))))))))))))
