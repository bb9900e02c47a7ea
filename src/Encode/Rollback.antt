-- ===== src/Encode/Rollback.antt =====
-- The rollback of a queued buffer in src/encode.c.
use venus_vaapi_driver.Common.{
  ℕ, ◌+◌, ◌-◌, ◌<◌, ◌≡◌, refl, subst, ◌∙◌, true, false, Option, none, some, arith, ◌==◌, length,
  length-set,
}
use venus_vaapi_driver.Common.Results.{ok, ok-injective}
use venus_vaapi_driver.Backend.{Buffer, Context, Backend, max_surfaces, max_buffers, find_buffer}
use venus_vaapi_driver.Encode.Ring.{
  waiting, view-ext, IsRing, written, same_entry, found_after, queue_found-eq-ok,
}
use venus_vaapi_driver.Encode.{
  entry_at, set_buffer, queue_found, stamped, pushed, queue_coded_buffer, rollback_coded_buffer,
}

-- What the rollback of a call leaves: the queue is what it was, and the buffer carries no tag.
pub record IsRolledBack (context : Context) (result : Backend × Context) (id : ℕ) : Type 0 where
  pub ring : IsRing result.1
  pub same : waiting result.1 ≡ waiting context
  pub index : ℕ
  pub buffer : Buffer
  pub stored : find_buffer result.0 id ≡ some (index, buffer)
  pub untagged : buffer.coded_tag ≡ 0

rolled_back :
    (backend : Backend) (context : Context) (id i : ℕ) (buffer : Buffer)
    → length backend.buffers ≡ max_buffers
    → IsRing context
    → context.encode_queue_count < max_surfaces
    → find_buffer backend id ≡ some (i, buffer)
    → IsRolledBack context (rollback_coded_buffer backend (pushed context id) id) id
unfolding rollback_coded_buffer pushed
rolled_back backend context id i buffer sized ring small found =
    rw (nonempty, let e : n + 1 - 1 ≡ n = omega arith in e, newest, found)
      (record {
        ring = record {
          whole = length-set context.encode_queue _ id ∙ ring.whole;
          fits = ring.fits;
        };
        same =
            view-ext (written context id) (entry_at context.encode_queue context.encode_queue_head)
              0 n (λ j le lt. rw (same_entry context id ring small j (omega arith)) (ground arith));
        index = i;
        buffer = record buffer { coded_sequence = 0; coded_tag = 0 };
        stored = found_after backend id i _ sized found refl refl;
        untagged = refl;
      })
  where
    n : ℕ
    n = context.encode_queue_count

    nonempty : (n + 1 == 0) ≡ false
    nonempty = ground arith

    newest : (written context id n == id) ≡ true
    newest = rw (same_entry context id ring small n small) (ground arith)

-- The rollback that follows a failed submission undoes `queue_coded_buffer`: the queue is what it
-- was before, the ring stays whole, and the buffer carries no tag.
pub rollback-queue_coded_buffer :
    (backend : Backend) (context : Context) (id tag : ℕ) (backend' : Backend) (after : Context)
    → IsRing context
    → length backend.buffers ≡ max_buffers
    → queue_coded_buffer backend context id tag ≡ ok (backend', after)
    → IsRolledBack context (rollback_coded_buffer backend' after id) id
unfolding queue_coded_buffer
rollback-queue_coded_buffer backend context id tag backend' after ring sized h =
    from_found (find_buffer backend id) refl (ground (arith, h)) (ground (arith, h))
  where
    from_found :
        (found : Option (ℕ × Buffer))
        → find_buffer backend id ≡ found
        → context.encode_queue_count < max_surfaces
        → queue_found backend context id tag found ≡ ok (backend', after)
        → IsRolledBack context (rollback_coded_buffer backend' after id) id
    from_found none found small g = cc
    from_found (some (i, buffer)) found small g =
        let (valid, new, done) = queue_found-eq-ok backend context id tag i buffer g in
        subst
          (λ (p : Backend × Context). IsRolledBack context (rollback_coded_buffer p.0 p.1 id) id)
          (ok-injective done)
          (rolled_back (set_buffer backend i (stamped context buffer tag)) context id i
            (stamped context buffer tag) (length-set backend.buffers i _ ∙ sized) ring small
            (found_after backend id i _ sized found refl refl))
