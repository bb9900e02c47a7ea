-- ===== src/V4l2Decoder/Submitting.antt =====
-- What src/v4l2_decoder.c does with the data that it is given to decode.
use mathlib.Core.Option.{some-injective}
use venus_vaapi_driver.Common.{
  overwrite-append, ℕ, zero, suc, ◌+◌, ◌≤◌, ◌≡◌, ◌≢◌, refl, sym, ap, subst, ◌∙◌, true, false,
  Option, none, some, List, [], ◌∷◌, ◌++◌, length, get_elem?, drop, arith, ltb, ◌==◌, if-holds,
  Bool-cases, inl, inr,
}
use venus_vaapi_driver.Common.Results.{Result, ok, err, ok-injective}
use venus_vaapi_driver.Decode.{Frame}
use venus_vaapi_driver.V4l2Decoder.Device.{
  output_queue, MappedBuffer, Decoder, Device, Wake, update, mark, fill_buffer, mapped_length,
  is_eagain, commit,
}
use venus_vaapi_driver.V4l2Decoder.Queues.{pump}
use venus_vaapi_driver.V4l2Decoder.Submission.{
  free_output, found_or, retried, find_free_output, output_request, filled_output, queued_output,
  submit_to, submit_found, submit,
}

-- The buffers after data has been put into one that was free, and handed to the device.
pub record IsSubmitted (bytes : List ℕ) (before after : List MappedBuffer) : Type 0 where
  pub index : ℕ
  pub buffer : MappedBuffer
  pub there : get_elem? before index ≡ some buffer
  pub was_free : buffer.queued ≡ false
  pub room : length bytes ≤ length buffer.bytes
  pub holds_data :
      get_elem? after index
      ≡ some (record { bytes = bytes ++ drop (length bytes) buffer.bytes; queued = true })
  pub others : (other : ℕ) → index ≢ other → get_elem? after other ≡ get_elem? before other

module _ {ℓ} {A : Type ℓ} (change : A → A) where
  get_elem?-update_self :
      (xs : List A) (index : ℕ) {x : A}
      → get_elem? xs index ≡ some x
      → get_elem? (update change xs index) index ≡ some (change x)
  get_elem?-update_self [] index e = cc
  get_elem?-update_self (y ∷ xs) zero {x} e = ap (λ a. some (change a)) (some-injective y x e)
  get_elem?-update_self (y ∷ xs) (suc index) e = get_elem?-update_self xs index e

  get_elem?-update_ne :
      (xs : List A) (index other : ℕ)
      → index ≢ other
      → get_elem? (update change xs index) other ≡ get_elem? xs other
  get_elem?-update_ne [] index other apart = refl
  get_elem?-update_ne (y ∷ xs) zero zero apart = absurd (apart refl)
  get_elem?-update_ne (y ∷ xs) zero (suc other) apart = refl
  get_elem?-update_ne (y ∷ xs) (suc index) zero apart = refl
  get_elem?-update_ne (y ∷ xs) (suc index) (suc other) apart =
      get_elem?-update_ne xs index other (λ e. apart (ap suc e))

-- A buffer that is not queued.
abbrev IsFree : List MappedBuffer → ℕ → Type 0
IsFree buffers index =
    (buffer : MappedBuffer) × (get_elem? buffers index ≡ some buffer) × (buffer.queued ≡ false)

free_output-IsFree :
    (start : ℕ) (buffers : List MappedBuffer) {found : ℕ}
    → free_output start buffers ≡ some found
    → (index : ℕ) × (found ≡ start + index) × IsFree buffers index
free_output-IsFree start [] e = cc
free_output-IsFree start (buffer ∷ buffers) {found} e = elim (Bool-cases buffer.queued) [
  | inl queued ↦
      let (index, place, free) = free_output-IsFree (suc start) buffers (rw queued at e) in
      (suc index, omega (arith, place), free)
  | inr free ↦ (0, omega (arith, some-injective start found (rw free at e)), (buffer, refl, free))
]

mapped_length-get :
    (buffers : List MappedBuffer) (index : ℕ) {buffer : MappedBuffer}
    → get_elem? buffers index ≡ some buffer
    → mapped_length buffers index ≡ length buffer.bytes
mapped_length-get buffers index e =
    ap
      (λ (found : Option MappedBuffer). elim found [ none ↦ 0 | some buffer ↦ length buffer.bytes ])
      e

submitted :
    (bytes : List ℕ) (index : ℕ) (decoder : Decoder)
    → IsFree decoder.output index
    → length bytes ≤ mapped_length decoder.output index
    → IsSubmitted bytes decoder.output
        (queued_output index (filled_output bytes index decoder)).output
submitted bytes index decoder (buffer, there, free) room =
    let fits : length bytes ≤ length buffer.bytes =
      omega (arith, room, mapped_length-get decoder.output index there) in
    let filled = update (fill_buffer bytes) decoder.output index in
    record {
      index = index;
      buffer = buffer;
      there = there;
      was_free = free;
      room = fits;
      holds_data =
          get_elem?-update_self (mark true) filled index
            (get_elem?-update_self (fill_buffer bytes) decoder.output index there)
          ∙ ap (λ content. some (record buffer { bytes = content; queued = true }))
              (overwrite-append buffer.bytes bytes fits);
      others = λ other apart.
          get_elem?-update_ne (mark true) filled index other apart
          ∙ get_elem?-update_ne (fill_buffer bytes) decoder.output index other apart;
    }

commit-ok :
    {Answer : Type 0} (change : Answer → Decoder) (state : Decoder) (result : Result Answer)
    → (commit change state result).1 ≡ ok tt
    → (answer : Answer) × ((commit change state result).0 ≡ change answer)
commit-ok change state (ok answer) e = (answer, refl)
commit-ok change state (err code) e = cc

module _ (device : Device) (bytes : List ℕ) (tag : ℕ) where
  submit_to-IsSubmitted :
      (index : ℕ) (decoder : Decoder)
      → IsFree decoder.output index
      → (submit_to device bytes tag index decoder).1 ≡ ok tt
      → IsSubmitted bytes decoder.output (submit_to device bytes tag index decoder).0.output
  unfolding submit_to
  submit_to-IsSubmitted index decoder free e =
      elim (Bool-cases (ltb (mapped_length decoder.output index) (length bytes))) [
        | inl long ↦ absurd (let run = rw long at e in cc)
        | inr fits ↦
            let (queued, same) =
              commit-ok
                (λ (queued : Unit {0}). queued_output index (filled_output bytes index decoder))
                (filled_output bytes index decoder)
                (device.queue_buffer output_queue (output_request decoder index (length bytes) tag))
                (rw fits at e) in
            rw fits (
              subst (λ (d : Decoder). IsSubmitted bytes decoder.output d.output) (sym same)
                (submitted bytes index decoder free (ground (arith, fits))))
      ]

module _ {Client : Type 0} (callback : Client → Frame → Client × Result (Unit {0})) where
  -- An index that is answered is that of a free buffer.
  abbrev FindsFree : (Decoder × Client) × Result ℕ → Type 0
  FindsFree ((decoder, client), answer) =
      (index : ℕ) → answer ≡ ok index → IsFree decoder.output index

  found_or-FindsFree :
      (decoder : Decoder) (client : Client) (free : Option ℕ) (rest : (Decoder × Client) × Result ℕ)
      → free_output 0 decoder.output ≡ free
      → FindsFree rest
      → FindsFree (found_or callback free (decoder, client) rest)
  found_or-FindsFree decoder client none rest e later = later
  found_or-FindsFree decoder client (some found) rest e later = λ index answered.
      let (place, same, free) = free_output-IsFree 0 decoder.output e in
      subst (IsFree decoder.output) (let run = ok-injective answered in omega (arith, same, run))
        free

  retried-FindsFree :
      (status : Result (Unit {0})) (state : Decoder × Client) (rest : (Decoder × Client) × Result ℕ)
      → FindsFree rest
      → FindsFree (retried callback status state rest)
  retried-FindsFree (ok done) state rest later = later
  retried-FindsFree (err code) state rest later =
      if-holds FindsFree (is_eagain code) (λ again. later) (λ failed index e. absurd cc)

  find_free_output-IsFree :
      (wakes : List Wake) (decoder : Decoder) (client : Client)
      → FindsFree (find_free_output callback wakes decoder client)
  unfolding find_free_output
  find_free_output-IsFree [] decoder client =
      found_or-FindsFree decoder client (free_output 0 decoder.output) _ refl (λ index e. absurd cc)
  find_free_output-IsFree (wake ∷ wakes) decoder client =
      let call = pump callback wake decoder client in
      found_or-FindsFree decoder client (free_output 0 decoder.output) _ refl (
        retried-FindsFree call.1 (call.0.decoder, call.0.client) _
          (find_free_output-IsFree wakes call.0.decoder call.0.client))

  submit_found-IsSubmitted :
      (device : Device) (bytes : List ℕ) (tag : ℕ) (found : (Decoder × Client) × Result ℕ)
      → FindsFree found
      → (submit_found callback device bytes tag found).1 ≡ ok tt
      → IsSubmitted bytes found.0.0.output (submit_found callback device bytes tag found).0.0.output
  submit_found-IsSubmitted device bytes tag ((decoder, client), err code) finds e = absurd cc
  submit_found-IsSubmitted device bytes tag ((decoder, client), ok index) finds e =
      submit_to-IsSubmitted device bytes tag index decoder (finds index refl) e

  -- A submission that returns 0 has found, after the pumps that it needed, a buffer that the device
  -- does not hold and that is long enough; the data stands at its start, the rest of it is as it
  -- was, the device holds it, and no other buffer has changed.
  pub submit-IsSubmitted :
      (device : Device) (wakes : List Wake) (bytes : List ℕ) (tag : ℕ) (decoder : Decoder)
      (client : Client)
      → (submit callback device wakes bytes tag decoder client).1 ≡ ok tt
      → IsSubmitted bytes
          (find_free_output callback wakes decoder client).0.0.output
          (submit callback device wakes bytes tag decoder client).0.0.output
  unfolding submit
  submit-IsSubmitted device wakes bytes tag decoder client e =
      elim (Bool-cases (length bytes == 0)) [
        | inl empty ↦ absurd (let run = rw empty at e in cc)
        | inr full ↦ rw full (
            submit_found-IsSubmitted device bytes tag
              (find_free_output callback wakes decoder client)
              (find_free_output-IsFree wakes decoder client) (rw full at e))
      ]
