-- ===== src/Objects/Allocation.antt =====
-- The buffers that src/objects.c allocates keep the tables sound.
use mathlib.Core.Option.{some-injective}
use native.Mathlib.Nat.{le-div_iff_mul-le}
use venus_vaapi_driver.Common.{
  ℕ, ◌≡◌, refl, sym, ap, subst, ◌∙◌, Bool, false, not, ◌&&◌, ◌||◌, Option, none, some, List, length,
  length-replicate, length-overwrite, get_elem?, replicate, arith, ◌==◌, Bool-cases, inl, inr,
}
use venus_vaapi_driver.VaTypes.{BufferType, VaResult, va_ok, va_ok-injective, va_guard-eq-ok}
use venus_vaapi_driver.Backend.{Backend, Buffer, Context, buffer_slot, find_context}
use venus_vaapi_driver.Backend.Table.{first_free, first_free-some}
use venus_vaapi_driver.Objects.Buffers.{
  Allocation, bad_size, new_buffer, initial_bytes, allocate_at, allocate_buffer, put_buffer,
  created_id, in_context, create_buffer,
}
use venus_vaapi_driver.Objects.Soundness.{IsWhole, IsSound, put_buffer-IsSound}

-- A buffer that is made stands in a slot that was free.
pub record IsAllocated (before after : Backend) (request : Allocation) (index : ℕ) : Type 0 where
  pub old : Buffer
  pub there : get_elem? before.buffers index ≡ some old
  pub was_free : old.used ≡ false
  pub good_size : bad_size request ≡ false
  pub result : after ≡ put_buffer before index (new_buffer request index)

allocate_at-IsAllocated :
    (has_memory : Bool) (backend : Backend) (request : Allocation) (free : Option ℕ) {index : ℕ}
    {after : Backend}
    → first_free buffer_slot 0 backend.buffers ≡ free
    → bad_size request ≡ false
    → allocate_at has_memory backend request free ≡ some (index, after)
    → IsAllocated backend after request index
allocate_at-IsAllocated has_memory backend request none e good h = cc
allocate_at-IsAllocated has_memory backend request (some found) {index} {after} e good h =
    let (k, old, place, there, free) = first_free-some buffer_slot 0 backend.buffers e in
    elim (Bool-cases (request.owns_data && not has_memory)) [
      | inl refused ↦ absurd (let h' = rw refused at h in cc)
      | inr granted ↦
          let same = some-injective _ _ (rw granted at h) in
          let here : k ≡ index = omega (arith, place, ap (λ pair. pair.0) same) in
          record {
            old = old;
            there = subst (λ i. get_elem? backend.buffers i ≡ some old) here there;
            was_free = free;
            good_size = good;
            result =
                sym (ap (λ pair. pair.1) same)
                ∙ ap (λ i. put_buffer backend i (new_buffer request i)) (ap (λ pair. pair.0) same);
          }
    ]

pub allocate_buffer-IsAllocated :
    (has_memory : Bool) (backend : Backend) (request : Allocation) {index : ℕ} {after : Backend}
    → allocate_buffer has_memory backend request ≡ some (index, after)
    → IsAllocated backend after request index
unfolding allocate_buffer
allocate_buffer-IsAllocated has_memory backend request h = elim (Bool-cases (bad_size request)) [
  | inl bad ↦ absurd (let h' = rw bad at h in cc)
  | inr good ↦
      allocate_at-IsAllocated has_memory backend request (first_free buffer_slot 0 backend.buffers)
        refl good (rw good at h)
]

length-initial_bytes :
    (size : ℕ) (bytes : Option (List ℕ)) → length (initial_bytes size bytes) ≡ size
length-initial_bytes size none = length-replicate size 0
length-initial_bytes size (some bytes) =
    length-overwrite (replicate size 0) bytes ∙ length-replicate size 0

new_buffer-IsWhole :
    (request : Allocation) (index : ℕ)
    → bad_size request ≡ false
    → IsWhole (new_buffer request index)
new_buffer-IsWhole request index good = record {
  has_size = ground (arith, good);
  has_elements = ground (arith, good);
  in_capacity = omega arith;
  no_overflow = (le-div_iff_mul-le (ground (arith, good))).0 (ground (arith, good));
  owned = λ own. rw own (length-initial_bytes _ request.bytes);
}

pub allocated-IsSound :
    {before after : Backend} {request : Allocation} {index : ℕ}
    → IsSound before
    → IsAllocated before after request index
    → IsSound after
allocated-IsSound {before} {after} {request} {index} sound made = subst IsSound (sym made.result) (
    put_buffer-IsSound before index sound made.there (new_buffer request index) refl refl
      (new_buffer-IsWhole request index made.good_size))

created-IsSound :
    (backend : Backend) (request : Allocation) (made : Option (ℕ × Backend)) {id : ℕ}
    {after : Backend}
    → IsSound backend
    → ((index : ℕ) (next : Backend)
        → made ≡ some (index, next)
        → IsAllocated backend next request index)
    → created_id made ≡ va_ok (id, after)
    → IsSound after
created-IsSound backend request none sound allocated h = cc
created-IsSound backend request (some (index, next)) sound allocated h =
    subst IsSound (ap (λ pair. pair.1) (va_ok-injective h))
      (allocated-IsSound sound (allocated index next refl))

in_context-eq-ok :
    (found : Option (ℕ × Context)) (rest : VaResult (ℕ × Backend)) {result : ℕ × Backend}
    → in_context found rest ≡ va_ok result
    → rest ≡ va_ok result
in_context-eq-ok none rest h = cc
in_context-eq-ok (some context) rest h = h

-- A buffer that is created keeps the tables sound.
pub create_buffer-IsSound :
    (has_memory : Bool) (backend : Backend) (context_id : ℕ) (kind : BufferType)
    (size num_elements : ℕ) (bytes : Option (List ℕ)) {id : ℕ} {after : Backend}
    → IsSound backend
    → create_buffer has_memory backend context_id kind size num_elements bytes ≡ va_ok (id, after)
    → IsSound after
unfolding create_buffer
create_buffer-IsSound has_memory backend context_id kind size num_elements bytes sound h =
    let (sized, h') = va_guard-eq-ok (size == 0 || num_elements == 0) _ _ h in
    created-IsSound backend _ _ sound
      (λ index next e. allocate_buffer-IsAllocated has_memory backend _ e)
      (in_context-eq-ok (find_context backend context_id) _ h')
