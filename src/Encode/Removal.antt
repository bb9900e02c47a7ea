-- ===== src/Encode/Removal.antt =====
-- Removal from the ring of src/encode.c.
use venus_vaapi_driver.Common.{
  ℕ, zero, suc, ◌+◌, ◌-◌, ◌≤◌, ◌<◌, ◌≡◌, refl, subst, ◌∙◌, ◌&&◌, List, ◌++◌, arith, ltb, leb, ◌==◌,
  length, length-set, take, drop, ltb→lt, if◌then◌else◌, Bool-cases, inl, inr,
}
use venus_vaapi_driver.Backend.{Context, max_surfaces}
use venus_vaapi_driver.Encode.Ring.{view, waiting, IsRing, entry_at-set_entry}
use venus_vaapi_driver.Encode.{remove_entry, move_up, entry_at, set_entry}

pub length-move_up :
    (queue : List ℕ) (head i n : ℕ) → length (move_up queue head i n) ≡ length queue
length-move_up queue head i zero = refl
length-move_up queue head i (suc n) =
    length-move_up (set_entry queue head i (entry_at queue head (i + 1))) head (i + 1) n
    ∙ length-set queue _ _

-- The entries from `i` on are each replaced by the next.
entry_at-move_up :
    (queue : List ℕ) (head i n j : ℕ)
    → length queue ≡ max_surfaces
    → i + n < max_surfaces
    → j < max_surfaces
    → entry_at (move_up queue head i n) head j
      ≡ (if leb i j && ltb j (i + n) then entry_at queue head (j + 1) else entry_at queue head j)
entry_at-move_up queue head i zero j whole hi hj = ground arith
entry_at-move_up queue head i (suc n) j whole hi hj =
    rw
      (entry_at-move_up (set_entry queue head i (entry_at queue head (i + 1))) head (i + 1) n j
        (length-set queue _ _ ∙ whole) (omega arith) hj)
      (elim (Bool-cases (ltb j (i + suc n))) [
        | inl inside ↦
            rw (kept j hj, kept (j + 1) (omega (arith, ltb→lt j (i + suc n) inside))) (ground arith)
        | inr outside ↦ rw (kept j hj) (ground arith)
      ])
  where
    kept :
        (k : ℕ)
        → k < max_surfaces
        → entry_at (set_entry queue head i (entry_at queue head (i + 1))) head k
          ≡ (if i == k then entry_at queue head (i + 1) else entry_at queue head k)
    kept k lt =
        entry_at-set_entry queue head i k (entry_at queue head (i + 1)) whole (omega arith) lt

moved :
    (p q : ℕ → ℕ) (start n : ℕ)
    → ((j : ℕ) → start ≤ j → j < start + n → q j ≡ p (j + 1))
    → view q start n ≡ view p (start + 1) n
moved p q start zero next = refl
moved p q start (suc n) next =
    rw
      (
        next start (omega arith) (omega arith),
        moved p q (start + 1) n (λ j from to. next j (omega arith) (omega arith)),
      )
      refl

view-skip :
    (p q : ℕ → ℕ) (start k n : ℕ)
    → ((j : ℕ) → start ≤ j → j < start + k → q j ≡ p j)
    → ((j : ℕ) → start + k ≤ j → j < start + n → q j ≡ p (j + 1))
    → k ≤ n
    → view q start n ≡ take k (view p start (suc n)) ++ drop (suc k) (view p start (suc n))
view-skip p q start zero n same next le = moved p q start n (λ j from to. next j (omega arith) to)
view-skip p q start (suc k) zero same next le = absurd (omega arith)
view-skip p q start (suc k) (suc n) same next le =
    rw
      (
        same start (omega arith) (omega arith),
        view-skip p q (start + 1) k n (λ j from to. same j (omega arith) (omega arith))
            (λ j from to. next j (omega arith) (omega arith)) (omega arith),
      )
      refl

removed_view :
    (queue : List ℕ) (head offset m : ℕ)
    → length queue ≡ max_surfaces
    → offset ≤ m
    → m < max_surfaces
    → view (entry_at (move_up queue head offset (m - offset)) head) 0 m
      ≡ take offset (view (entry_at queue head) 0 (suc m))
        ++ drop (suc offset) (view (entry_at queue head) 0 (suc m))
removed_view queue head offset m whole le lt =
    view-skip (entry_at queue head) (entry_at (move_up queue head offset (m - offset)) head) 0
      offset m (λ j from to. rw (at j (omega arith)) (ground arith))
      (λ j from to. rw (at j (omega arith)) (ground arith)) le
  where
    at :
        (j : ℕ)
        → j < max_surfaces
        → entry_at (move_up queue head offset (m - offset)) head j ≡ (
            if leb offset j && ltb j (offset + (m - offset))
            then entry_at queue head (j + 1)
            else entry_at queue head j)
    at j hj = entry_at-move_up queue head offset (m - offset) j whole (omega arith) hj

-- Removing the entry at an offset of the queue leaves the others in their order, and the ring whole.
pub remove_entry-waiting :
    (context : Context) (offset : ℕ)
    → IsRing context
    → offset < context.encode_queue_count
    → (waiting (remove_entry context offset)
        ≡ take offset (waiting context) ++ drop (offset + 1) (waiting context))
      × IsRing (remove_entry context offset)
unfolding remove_entry
remove_entry-waiting context offset ring lt = (
  rw (let e : offset + 1 ≡ suc offset = omega arith in e) (
      subst
        (λ (n : ℕ).
          view
            (entry_at
              (move_up context.encode_queue context.encode_queue_head offset
                (context.encode_queue_count - 1 - offset))
              context.encode_queue_head)
            0 (context.encode_queue_count - 1)
          ≡ take offset (view p 0 n) ++ drop (suc offset) (view p 0 n))
        (let e : suc (context.encode_queue_count - 1) ≡ context.encode_queue_count = omega arith in
          e)
        (removed_view context.encode_queue context.encode_queue_head offset
          (context.encode_queue_count - 1) ring.whole (omega arith) (omega (arith, ring.fits)))),
  record {
    whole =
        length-move_up context.encode_queue context.encode_queue_head offset
          (context.encode_queue_count - 1 - offset)
        ∙ ring.whole;
    fits = omega (arith, ring.fits);
  },
)
  where
    p : ℕ → ℕ
    p = entry_at context.encode_queue context.encode_queue_head
