-- ===== src/Encode/Packets.antt =====
-- The coded packets that src/encode.c stores.
use mathlib.Core.Option.{some-injective}
use venus_vaapi_driver.Common.{
  All, All-get, All-set, take-append-copy, length-append, length-take, length-drop, ℕ, zero, suc,
  ◌+◌, ◌-◌, ◌≤◌, ◌<◌, ◌≡◌, refl, subst, ◌∙◌, Bool, true, ◌&&◌, ◌||◌, Option, none, some, List, ◌++◌,
  arith, ◌==◌, length, set, take, drop, if◌then◌else◌, Bool-cases, inl, inr,
}
use venus_vaapi_driver.Backend.{
  Surface, Buffer, Context, Backend, max_buffers, find_buffer, buffer_slot,
}
use venus_vaapi_driver.Backend.Table.{find-some}
use venus_vaapi_driver.Encode.Ring.{waiting, IsRing, found_after}
use venus_vaapi_driver.Encode.{
  copy_to, appended, Packet, buffer_capacity, find_tagged, entry_tagged, release_source, entry_at,
  set_buffer, is_coded,
}

-- What a coded buffer has been allocated and filled with.
pub record IsCodedBuffer (buffer : Buffer) : Type 0 where
  pub allocated : length buffer.bytes ≡ buffer_capacity buffer
  pub filled : buffer.coded_size ≤ buffer_capacity buffer

-- The stream that a coded buffer holds.
abbrev pub stream : Buffer → List ℕ
stream buffer = take buffer.coded_size buffer.bytes

length-copy_to :
    (bytes : List ℕ) (offset : ℕ) (source : List ℕ)
    → offset + length source ≤ length bytes
    → length (copy_to bytes offset source) ≡ length bytes
length-copy_to bytes offset source le =
    length-append (take offset bytes ++ source) (drop (offset + length source) bytes)
    ∙ omega (
      arith,
      length-append (take offset bytes) source,
      length-take offset bytes (omega arith),
      length-drop (offset + length source) bytes,
    )

module _ (buffer : Buffer) (packet : Packet) where
  pub appended-stream :
      IsCodedBuffer buffer
      → length packet.payload ≤ buffer_capacity buffer - buffer.coded_size
      → (stream (appended buffer packet) ≡ stream buffer ++ packet.payload)
        × IsCodedBuffer (appended buffer packet)
  appended-stream h fits = (
    take-append-copy buffer.coded_size buffer.bytes packet.payload
        (drop (buffer.coded_size + length packet.payload) buffer.bytes)
        (omega (arith, h.allocated, h.filled)),
    record {
      allocated =
          length-copy_to buffer.bytes buffer.coded_size packet.payload
            (omega (arith, h.allocated, h.filled))
          ∙ h.allocated;
      filled = omega (arith, h.filled);
    },
  )

pub find_tagged-some :
    (backend : Backend) (queue : List ℕ) (head offset n tag : ℕ) {k i : ℕ} {buffer : Buffer}
    → find_tagged backend queue head offset n tag ≡ some (k, i, buffer)
    → (offset ≤ k)
      × (k < offset + n)
      × (find_buffer backend (entry_at queue head k) ≡ some (i, buffer))
      × (is_coded buffer.kind ≡ true)
      × (buffer.coded_tag ≡ tag)
find_tagged-some backend queue head offset zero tag h = cc
find_tagged-some backend queue head offset (suc n) tag {k} {i} {buffer} h =
    step (find_buffer backend (entry_at queue head offset)) refl h
      (find_tagged-some backend queue head (offset + 1) n tag)
  where
    later : Type 0
    later =
        find_tagged backend queue head (offset + 1) n tag ≡ some (k, i, buffer)
        → (offset + 1 ≤ k)
          × (k < offset + 1 + n)
          × (find_buffer backend (entry_at queue head k) ≡ some (i, buffer))
          × (is_coded buffer.kind ≡ true)
          × (buffer.coded_tag ≡ tag)

    step :
        (found : Option (ℕ × Buffer))
        → find_buffer backend (entry_at queue head offset) ≡ found
        → entry_tagged offset tag found (find_tagged backend queue head (offset + 1) n tag)
          ≡ some (k, i, buffer)
        → later
        → (offset ≤ k)
          × (k < offset + suc n)
          × (find_buffer backend (entry_at queue head k) ≡ some (i, buffer))
          × (is_coded buffer.kind ≡ true)
          × (buffer.coded_tag ≡ tag)
    step none e g rest =
        let (a, b, c, d, f) = rest g in (omega (arith, a), omega (arith, b), c, d, f)
    step (some (i', found)) e g rest =
        elim (Bool-cases (is_coded found.kind && found.coded_tag == tag)) [
          | inl hit ↦
              subst
                (λ (t : ℕ × ℕ × Buffer).
                  (offset ≤ t.0)
                  × (t.0 < offset + suc n)
                  × (find_buffer backend (entry_at queue head t.0) ≡ some (t.1, t.2))
                  × (is_coded t.2.kind ≡ true)
                  × (t.2.coded_tag ≡ tag))
                (some-injective (offset, i', found) (k, i, buffer) (rw hit at g))
                (omega arith, omega arith, e, ground (arith, hit), ground (arith, hit))
          | inr miss ↦
              let (a, b, c, d, f) = rest (rw miss at g) in
              (omega (arith, a), omega (arith, b), c, d, f)
        ]

-- Each coded buffer is allocated and filled within its capacity.
abbrev pub AreCoded : Backend → Type 0
AreCoded backend = All (λ (b : Buffer). is_coded b.kind ≡ true → IsCodedBuffer b) backend.buffers

-- What a stored packet has done to the buffer `before` of the entry at `offset`.
pub record IsStored (backend : Backend) (context : Context) (packet : Packet)
    (result : Backend × Context) : Type 0 where
  pub offset : ℕ
  pub index : ℕ
  pub before : Buffer
  pub after : Buffer
  pub waits : offset < context.encode_queue_count
  pub found :
      find_buffer backend (entry_at context.encode_queue context.encode_queue_head offset)
      ≡ some (index, before)
  pub tagged : before.coded_tag ≡ packet.tag
  pub stored :
      find_buffer result.0 (entry_at context.encode_queue context.encode_queue_head offset)
      ≡ some (index, after)
  pub content : stream after ≡ stream before ++ packet.payload
  pub ready : after.coded_ready ≡ (before.coded_ready || packet.has_frame_type)
  pub queue : waiting result.1 ≡ (
      if packet.has_frame_type
      then take offset (waiting context) ++ drop (offset + 1) (waiting context)
      else waiting context)
  pub ring : IsRing result.1
  pub coded : AreCoded result.0

pub release_source-buffers :
    (backend : Backend) (id : ℕ) (done : Bool) (found : Option (ℕ × Surface))
    → (release_source backend id done found).buffers ≡ backend.buffers
release_source-buffers backend id done none = refl
release_source-buffers backend id done (some (index, surface)) =
    elim (Bool-cases (surface.coded_buffer_id == id && done)) [
      | inl released ↦ rw released refl
      | inr kept ↦ rw kept refl
    ]

find_buffer-buffers :
    (a b : Backend) (id : ℕ) → a.buffers ≡ b.buffers → find_buffer a id ≡ find_buffer b id
unfolding find_buffer
find_buffer-buffers a b id e = rw e refl

module _ (backend : Backend) (context : Context) (packet : Packet) (ring : IsRing context)
    (sized : length backend.buffers ≡ max_buffers) (coded : AreCoded backend) where
  pub coded_of :
      (id : ℕ) {i : ℕ} {buffer : Buffer}
      → find_buffer backend id ≡ some (i, buffer)
      → is_coded buffer.kind ≡ true
      → IsCodedBuffer buffer
  unfolding find_buffer
  coded_of id {i} found kind =
      let (there, used, own, lt, e) =
        find-some buffer_slot 4 max_buffers backend.buffers id found in
      All-get (λ (b : Buffer). is_coded b.kind ≡ true → IsCodedBuffer b) backend.buffers i coded
        there kind

  -- The state that a packet leaves, `last` when it completes the picture.
  pub IsStored-at :
      (offset i : ℕ) (before after : Buffer) (result : Backend) (next : Context)
      → offset < context.encode_queue_count
      → find_buffer backend (entry_at context.encode_queue context.encode_queue_head offset)
        ≡ some (i, before)
      → is_coded before.kind ≡ true
      → before.coded_tag ≡ packet.tag
      → length packet.payload ≤ buffer_capacity before - before.coded_size
      → after ≡ record (appended before packet) {
        coded_ready = before.coded_ready || packet.has_frame_type;
      }
      → result.buffers ≡ set backend.buffers i after
      → (waiting next ≡ (
          if packet.has_frame_type
          then take offset (waiting context) ++ drop (offset + 1) (waiting context)
          else waiting context))
      → IsRing next
      → IsStored backend context packet (result, next)
  IsStored-at offset i before after result next waits found kind tagged fits same buffers queue
        whole =
      let (content, safe) = appended-stream before packet (coded_of _ found kind) fits in
      record {
        offset = offset;
        index = i;
        before = before;
        after = after;
        waits = waits;
        found = found;
        tagged = tagged;
        stored =
            find_buffer-buffers result (set_buffer backend i after) _ buffers
            ∙ found_after backend _ i after sized found (rw same refl) (rw same refl);
        content = rw same content;
        ready = rw same refl;
        queue = queue;
        ring = whole;
        coded = rw buffers (
            All-set (λ (b : Buffer). is_coded b.kind ≡ true → IsCodedBuffer b) backend.buffers i
              after coded
              (λ k. rw same (record { allocated = safe.allocated; filled = safe.filled })));
      }
