-- ===== src/Encode/Storage.antt =====
-- What `venus_encode_store_packet_locked` of src/encode.c does with a packet.
use venus_vaapi_driver.Common.{
  ◌/◌, ℕ, ◌-◌, ◌≤◌, ◌<◌, ◌≡◌, refl, ap, subst, Bool, true, false, ◌||◌, Option, none, some, arith,
  ltb, ◌==◌, length, ltb→le, Bool-cases, inl, inr,
}
use venus_vaapi_driver.Common.Results.{Errno, einval, eoverflow, enospc, Result, ok, err, enoent}
use venus_vaapi_driver.Backend.{find_surface, Buffer, Context, Backend, max_buffers, find_buffer}
use venus_vaapi_driver.Encode.Ring.{IsRing}
use venus_vaapi_driver.Encode.Packets.{
  AreCoded, IsStored, find_tagged-some, release_source-buffers, IsStored-at,
}
use venus_vaapi_driver.Encode.Removal.{remove_entry-waiting}
use venus_vaapi_driver.Encode.{
  appended, Packet, buffer_capacity, size_max, find_tagged, store_found, store_packet,
  release_source, remove_entry, entry_at, set_buffer, is_coded,
}

abbrev Outcome : Type 0
Outcome = (Backend × Context) × Result (Unit {0})

refused : (s t : Backend × Context) (e : Errno) → ◌≡◌ {A = Outcome} (s, err e) (t, ok tt) → ⊥
refused s t e h = ground (arith, ap (λ (p : Outcome). p.1) h)

or_false : (b : Bool) → (b || false) ≡ b
or_false true = refl
or_false false = refl

or_true : (b : Bool) → (b || true) ≡ true
or_true true = refl
or_true false = refl

module _ (backend : Backend) (context : Context) (packet : Packet) (ring : IsRing context)
    (sized : length backend.buffers ≡ max_buffers) (coded : AreCoded backend) where
  unfinished :
      (offset i : ℕ) (before : Buffer)
      → offset < context.encode_queue_count
      → find_buffer backend (entry_at context.encode_queue context.encode_queue_head offset)
        ≡ some (i, before)
      → is_coded before.kind ≡ true
      → before.coded_tag ≡ packet.tag
      → length packet.payload ≤ buffer_capacity before - before.coded_size
      → packet.has_frame_type ≡ false
      → IsStored backend context packet (set_buffer backend i (appended before packet), context)
  unfinished offset i before waits found kind tagged fits part =
      IsStored-at backend context packet ring sized coded offset i before (appended before packet) _
        context waits found kind tagged fits (rw (part, or_false) refl) refl (rw part refl) ring

  finished :
      (offset i : ℕ) (before : Buffer)
      → offset < context.encode_queue_count
      → find_buffer backend (entry_at context.encode_queue context.encode_queue_head offset)
        ≡ some (i, before)
      → is_coded before.kind ≡ true
      → before.coded_tag ≡ packet.tag
      → length packet.payload ≤ buffer_capacity before - before.coded_size
      → packet.has_frame_type ≡ true
      → IsStored backend context packet (
        release_source
            (set_buffer backend i (record (appended before packet) { coded_ready = true }))
            before.id
            before.input_done
            (find_surface
              (set_buffer backend i (record (appended before packet) { coded_ready = true }))
              before.source_surface_id),
        remove_entry context offset,
      )
  finished offset i before waits found kind tagged fits whole =
      let (queue, next) = remove_entry-waiting context offset ring waits in
      IsStored-at backend context packet ring sized coded offset i before
        (record (appended before packet) { coded_ready = true }) _ (remove_entry context offset)
        waits found kind tagged fits (rw (whole, or_true) refl)
        (release_source-buffers
          (set_buffer backend i (record (appended before packet) { coded_ready = true })) before.id
          before.input_done
          (find_surface
            (set_buffer backend i (record (appended before packet) { coded_ready = true }))
            before.source_surface_id))
        (rw whole queue) next

  IsStored-found :
      (offset i : ℕ) (before : Buffer) (result : Backend × Context)
      → offset < context.encode_queue_count
      → find_buffer backend (entry_at context.encode_queue context.encode_queue_head offset)
        ≡ some (i, before)
      → is_coded before.kind ≡ true
      → before.coded_tag ≡ packet.tag
      → store_found backend context packet (some (offset, i, before)) ≡ (result, ok tt)
      → IsStored backend context packet result
  IsStored-found offset i before result waits found kind tagged h =
      elim (Bool-cases (ltb (size_max / before.capacity_elements) before.element_size)) [
        | inl long ↦ absurd (refused _ result eoverflow (rw long at h))
        | inr short ↦
            elim (Bool-cases
              (ltb (buffer_capacity before - before.coded_size) (length packet.payload))) [
                | inl full ↦ absurd (refused _ result enospc (rw (short, full) at h))
                | inr room ↦ elim (Bool-cases packet.has_frame_type) [
                  | inl whole ↦
                      subst (IsStored backend context packet) (first (rw (short, room, whole) at h))
                        (finished offset i before waits found kind tagged (ltb→le _ _ room) whole)
                  | inr part ↦
                      subst (IsStored backend context packet) (first (rw (short, room, part) at h))
                        (unfinished offset i before waits found kind tagged (ltb→le _ _ room) part)
                ]
              ]
      ]
    where
      first :
          {s t : Backend × Context} {r : Result (Unit {0})}
          → ◌≡◌ {A = Outcome} (s, r) (t, r)
          → s ≡ t
      first e = ap (λ (p : Outcome). p.0) e

  -- A packet that is stored goes to the buffer of a queue entry with the tag of the packet: the
  -- payload is appended to the stream there, within the capacity, the buffer is ready from the
  -- packet on that has a frame type, and exactly then its entry leaves the queue, in which the
  -- others keep their order.
  pub store_packet_ok :
      (result : Backend × Context)
      → store_packet backend context packet ≡ (result, ok tt)
      → IsStored backend context packet result
  unfolding store_packet
  store_packet_ok result h =
      elim (Bool-cases (packet.tag == 0 || context.encode_queue_count == 0)) [
        | inl invalid ↦ absurd (refused _ result einval (rw invalid at h))
        | inr valid ↦
            from_found
              (find_tagged backend context.encode_queue context.encode_queue_head 0
                context.encode_queue_count packet.tag)
              refl (rw valid at h)
      ]
    where
      from_found :
          (found : Option (ℕ × ℕ × Buffer))
          → find_tagged backend context.encode_queue context.encode_queue_head 0
              context.encode_queue_count packet.tag
            ≡ found
          → store_found backend context packet found ≡ (result, ok tt)
          → IsStored backend context packet result
      from_found none found g = absurd (refused _ result enoent g)
      from_found (some (offset, i, before)) found g =
          let (from, to, there, kind, tagged) =
            find_tagged-some backend context.encode_queue context.encode_queue_head 0
              context.encode_queue_count packet.tag found in
          IsStored-found offset i before result (omega (arith, to)) there kind tagged g
