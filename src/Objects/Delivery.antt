-- ===== src/Objects/Delivery.antt =====
-- The order in which src/objects.c hands coded buffers to the client.
use venus_vaapi_driver.Common.{
  ◌≤◌, ℕ, zero, suc, ◌+◌, ◌%◌, ◌^◌, ◌<◌, ◌≡◌, refl, Bool, true, false, ◌||◌, Option, none, some,
  set, arith, ltb, ◌==◌, if◌then◌else◌, if-holds, Bool-cases, inl, inr,
}
use venus_vaapi_driver.VaTypes.{
  VaResult, va_ok, va_err, invalid_context, invalid_buffer, operation_failed, hw_busy,
}
use venus_vaapi_driver.Backend.{Backend, Buffer, Context, find_buffer, find_context}

-- A coded buffer and its context, as the two lookups find them.
pub record Waiting : Type 0 where
  pub buffer_index : ℕ
  pub buffer : Buffer
  pub context_index : ℕ
  pub context : Context

abbrev pub with_context : ℕ → Buffer → Option (ℕ × Context) → Option Waiting
with_context buffer_index buffer none = none
with_context buffer_index buffer (some (context_index, context)) = some (record {
  buffer_index = buffer_index;
  buffer = buffer;
  context_index = context_index;
  context = context;
})

abbrev pub waiting_of : Backend → Option (ℕ × Buffer) → Option Waiting
waiting_of backend none = none
waiting_of backend (some (index, buffer)) =
    with_context index buffer (find_context backend buffer.context_id)

unfoldable pub find_waiting_buffer : Backend → ℕ → Option Waiting
find_waiting_buffer backend id = waiting_of backend (find_buffer backend id)

abbrev pub is_due : Waiting → Bool
is_due waiting =
    waiting.buffer.coded_delivered
    || waiting.buffer.coded_sequence == waiting.context.encode_delivery_sequence

abbrev pub counted_delivery : Context → Context
counted_delivery context = record context {
  encode_delivery_sequence = (context.encode_delivery_sequence + 1) % 2 ^ 64;
}

-- The first delivery of a buffer counts, and is marked.
abbrev pub deliver_once : Backend → Waiting → Backend
deliver_once backend waiting = if waiting.buffer.coded_delivered then backend else record backend {
  buffers =
      set backend.buffers waiting.buffer_index (record waiting.buffer { coded_delivered = true });
  contexts = set backend.contexts waiting.context_index (counted_delivery waiting.context);
}

abbrev pub max_attempts : ℕ
max_attempts = 5000

module _ (others : ℕ → Backend → Backend) where
  -- The loop of `wait_coded_delivery_locked`, which sleeps at most `remaining` times more. What the
  -- other threads do in a sleep is `others`, since the mutex is released.
  unfoldable pub wait_loop :
      (remaining : ℕ) → Backend → (id : ℕ) → Option Waiting → Backend × VaResult (Unit {0})
  wait_loop remaining backend id none = (backend, va_err invalid_buffer)
  wait_loop zero backend id (some waiting) =
      if is_due waiting
      then (deliver_once backend waiting, va_ok tt)
      else if ltb waiting.buffer.coded_sequence waiting.context.encode_delivery_sequence
      then (backend, va_err operation_failed)
      else (backend, va_err hw_busy)
  wait_loop (suc remaining) backend id (some waiting) =
      let later = others remaining backend in
      let rest = wait_loop remaining later id (find_waiting_buffer later id) in
      if is_due waiting
      then (deliver_once backend waiting, va_ok tt)
      else if ltb waiting.buffer.coded_sequence waiting.context.encode_delivery_sequence
      then (backend, va_err operation_failed)
      else rest

  abbrev pub wait_found : Backend → (id : ℕ) → Option Waiting → Backend × VaResult (Unit {0})
  wait_found backend id none = (backend, va_err invalid_context)
  wait_found backend id (some waiting) =
      if waiting.buffer.coded_tag == 0
      then (backend, va_err invalid_context)
      else if waiting.buffer.coded_delivered
      then (backend, va_ok tt)
      else wait_loop max_attempts backend id (some waiting)

  -- `wait_coded_delivery_locked`, of a coded buffer that is found.
  unfoldable pub wait_coded_delivery : Backend → (id : ℕ) → Backend × VaResult (Unit {0})
  wait_coded_delivery backend id = wait_found backend id (find_waiting_buffer backend id)

-- The tables after some sleeps of a wait that has `turns` turns left before them.
abbrev pub slept : (others : ℕ → Backend → Backend) (sleeps turns : ℕ) → Backend → Backend
slept others zero turns backend = backend
slept others (suc sleeps) zero backend = backend
slept others (suc sleeps) (suc turns) backend = slept others sleeps turns (others turns backend)

-- How a wait hands a buffer out: either it had been delivered before, and the tables stay, or its
-- sequence is that of the next delivery of its context, and the buffer is marked and the context
-- counts one delivery more, in 64 bits.
pub data IsHandedOut (last : Backend) (waiting : Waiting) : Backend → Type 0 where
  again : waiting.buffer.coded_delivered ≡ true → IsHandedOut last waiting last
  next :
      waiting.buffer.coded_delivered ≡ false
      → waiting.buffer.coded_sequence ≡ waiting.context.encode_delivery_sequence
      → IsHandedOut last waiting (record last {
        buffers =
            set last.buffers waiting.buffer_index
              (record waiting.buffer { coded_delivered = true });
        contexts = set last.contexts waiting.context_index (record waiting.context {
          encode_delivery_sequence = (waiting.context.encode_delivery_sequence + 1) % 2 ^ 64;
        });
      })

-- A wait of at most `turns` sleeps has handed the buffer out.
pub record IsInTurn (others : ℕ → Backend → Backend) (id turns : ℕ) (before after : Backend)
    : Type 0 where
  pub sleeps : ℕ
  pub few : sleeps ≤ turns
  pub waiting : Waiting
  pub found : find_waiting_buffer (slept others sleeps turns before) id ≡ some waiting
  pub handed_out : IsHandedOut (slept others sleeps turns before) waiting after

deliver_once-IsHandedOut :
    (last : Backend) (waiting : Waiting)
    → is_due waiting ≡ true
    → IsHandedOut last waiting (deliver_once last waiting)
deliver_once-IsHandedOut last waiting due = elim (Bool-cases waiting.buffer.coded_delivered) [
  | inl delivered ↦ simp delivered (again delivered)
  | inr fresh ↦ simp fresh (next fresh (ground (arith, fresh, due)))
]

module _ (others : ℕ → Backend → Backend) (id : ℕ) where
  at_once :
      (turns : ℕ) (backend : Backend) (waiting : Waiting)
      → find_waiting_buffer backend id ≡ some waiting
      → is_due waiting ≡ true
      → IsInTurn others id turns backend (deliver_once backend waiting)
  at_once turns backend waiting found due = record {
    sleeps = 0;
    few = omega arith;
    waiting = waiting;
    found = found;
    handed_out = deliver_once-IsHandedOut backend waiting due;
  }

  later_on :
      {turns : ℕ} {backend after : Backend}
      → IsInTurn others id turns (others turns backend) after
      → IsInTurn others id (suc turns) backend after
  later_on waited = record {
    sleeps = suc waited.sleeps;
    few = omega (arith, waited.few);
    waiting = waited.waiting;
    found = waited.found;
    handed_out = waited.handed_out;
  }

  wait_loop-IsInTurn :
      (turns : ℕ) (backend : Backend) (found : Option Waiting)
      → find_waiting_buffer backend id ≡ found
      → (wait_loop others turns backend id found).1 ≡ va_ok tt
      → IsInTurn others id turns backend (wait_loop others turns backend id found).0
  unfolding wait_loop
  wait_loop-IsInTurn turns backend none e = λ h. absurd cc
  wait_loop-IsInTurn zero backend (some waiting) e =
      let Kept : Backend × VaResult (Unit {0}) → Type 0 =
        λ call. call.1 ≡ va_ok tt → IsInTurn others id zero backend call.0 in
      if-holds Kept (is_due waiting) (λ due h. at_once zero backend waiting e due)
        (λ early.
          if-holds Kept (ltb waiting.buffer.coded_sequence waiting.context.encode_delivery_sequence)
            (λ missed h. absurd cc) (λ ahead h. absurd cc))
  wait_loop-IsInTurn (suc turns) backend (some waiting) e =
      let Kept : Backend × VaResult (Unit {0}) → Type 0 =
        λ call. call.1 ≡ va_ok tt → IsInTurn others id (suc turns) backend call.0 in
      if-holds Kept (is_due waiting) (λ due h. at_once (suc turns) backend waiting e due)
        (λ early.
          if-holds Kept (ltb waiting.buffer.coded_sequence waiting.context.encode_delivery_sequence)
            (λ missed h. absurd cc)
            (λ ahead h. later_on (
              wait_loop-IsInTurn turns (others turns backend)
                (find_waiting_buffer (others turns backend) id) refl h)))

  wait_found-IsInTurn :
      (backend : Backend) (found : Option Waiting)
      → find_waiting_buffer backend id ≡ found
      → (wait_found others backend id found).1 ≡ va_ok tt
      → IsInTurn others id max_attempts backend (wait_found others backend id found).0
  wait_found-IsInTurn backend none e = λ h. absurd cc
  wait_found-IsInTurn backend (some waiting) e =
      let Kept : Backend × VaResult (Unit {0}) → Type 0 =
        λ call. call.1 ≡ va_ok tt → IsInTurn others id max_attempts backend call.0 in
      if-holds Kept (waiting.buffer.coded_tag == 0) (λ untagged h. absurd cc)
        (λ tagged.
          if-holds Kept waiting.buffer.coded_delivered
            (λ delivered h. record {
              sleeps = 0;
              few = omega arith;
              waiting = waiting;
              found = e;
              handed_out = again delivered;
            })
            (λ fresh. wait_loop-IsInTurn max_attempts backend (some waiting) e))

  -- A wait that succeeds, whatever other threads do while it sleeps, ends after at most 5000 sleeps.
  -- In the tables that these leave the buffer is found with its context, and either it had been
  -- delivered before, and the tables stay, or its sequence is that of the next delivery of the
  -- context; then the buffer is marked and the context counts one delivery more.
  pub wait_coded_delivery-IsInTurn :
      (backend : Backend)
      → (wait_coded_delivery others backend id).1 ≡ va_ok tt
      → IsInTurn others id 5000 backend (wait_coded_delivery others backend id).0
  unfolding wait_coded_delivery
  wait_coded_delivery-IsInTurn backend h =
      wait_found-IsInTurn backend (find_waiting_buffer backend id) refl h

module _ (backend : Backend) (id : ℕ) (waiting : Waiting)
    (found : find_waiting_buffer backend id ≡ some waiting)
    (fresh : waiting.buffer.coded_delivered ≡ false)
    (ahead : waiting.context.encode_delivery_sequence < waiting.buffer.coded_sequence) where
  abbrev alone : ℕ → Backend → Backend
  alone remaining tables = tables

  not_due : is_due waiting ≡ false
  not_due = rw fresh (ground (arith, ahead))

  not_late : ltb waiting.buffer.coded_sequence waiting.context.encode_delivery_sequence ≡ false
  not_late = ground (arith, ahead)

  stalls :
      (remaining : ℕ)
      → wait_loop alone remaining backend id (some waiting) ≡ (backend, va_err hw_busy)
  unfolding wait_loop
  stalls zero = rw (not_due, not_late) refl
  stalls (suc remaining) = rw (not_due, not_late, found) (stalls remaining)

  -- A coded buffer whose sequence lies ahead of the next delivery is never handed out while no other
  -- thread changes the tables: the wait gives up with `VA_STATUS_ERROR_HW_BUSY`.
  pub wait_coded_delivery_stalls :
      (waiting.buffer.coded_tag == 0) ≡ false
      → wait_coded_delivery alone backend id ≡ (backend, va_err hw_busy)
  unfolding wait_coded_delivery
  wait_coded_delivery_stalls tagged =
      let Stalled : Backend × VaResult (Unit {0}) → Type 0 =
        λ call. call ≡ (backend, va_err hw_busy) in
      rw found (
        if-holds Stalled (waiting.buffer.coded_tag == 0) (λ untagged. absurd cc)
          (λ unused.
            if-holds Stalled waiting.buffer.coded_delivered (λ delivered. absurd cc)
              (λ undelivered. stalls max_attempts)))
