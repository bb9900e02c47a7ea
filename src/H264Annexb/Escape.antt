-- ===== src/H264Annexb/Escape.antt =====
-- Emulation prevention of src/h264_annexb.c against the rules of H.264: what a decoder removes, and
-- which byte patterns may not occur.
use venus_vaapi_driver.Common.{
  ℕ, ◌+◌, ◌≤◌, ◌≡◌, refl, sym, ap, subst, ◌∙◌, inl, inr, ◌&&◌, List, [], ◌∷◌, ◌++◌, append_assoc,
  append-nil, arith, leb, ◌==◌, length-append, Bool-cases, if◌then◌else◌,
}
use mathlib.Core.Path.{fun_ext}
use venus_vaapi_driver.Common.Results.{Result, ok, ◌>>=◌}
use venus_vaapi_driver.H264Annexb.{
  ByteWriter, append_bytes, start_code, append_start_code, needs_prevention, append_escaped,
  append_escaped_nal,
}

-- The bytes that the loop adds, were there no bound.
unfoldable pub escape : ℕ → List ℕ → List ℕ
escape zero_count [] = []
escape zero_count (byte ∷ rbsp) =
    let rest = escape (if byte == 0 then zero_count + 1 else 0) rbsp in
    let fresh = escape (if byte == 0 then 1 else 0) rbsp in
    if needs_prevention zero_count byte then 3 ∷ byte ∷ fresh else byte ∷ rest

-- What a decoder does: a 3 behind two zero_count is dropped.
unfoldable pub unescape : ℕ → List ℕ → List ℕ
unescape zero_count [] = []
unescape zero_count (byte ∷ nal) =
    let rest = unescape (if byte == 0 then zero_count + 1 else 0) nal in
    let fresh = unescape 0 nal in if leb 2 zero_count && byte == 3 then fresh else byte ∷ rest

-- A decoder gets back the RBSP.
pub unescape-escape :
    (zero_count : ℕ) (rbsp : List ℕ) → unescape zero_count (escape zero_count rbsp) ≡ rbsp
unfolding escape unescape
unescape-escape zero_count [] = refl
unescape-escape zero_count (byte ∷ rbsp) = ground (
  arith,
  unescape-escape (if byte == 0 then zero_count + 1 else 0) rbsp,
  unescape-escape (if byte == 0 then 1 else 0) rbsp,
)

-- No byte below 3 stands behind two zero_count, of which `zero_count` stood before the list.
abbrev IsSafe : ℕ → List ℕ → Type 0
IsSafe zero_count [] = Unit {0}
IsSafe zero_count (byte ∷ nal) =
    (2 ≤ zero_count → 3 ≤ byte) × IsSafe (if byte == 0 then zero_count + 1 else 0) nal

escape-IsSafe : (zero_count : ℕ) (rbsp : List ℕ) → IsSafe zero_count (escape zero_count rbsp)
unfolding escape
escape-IsSafe zero_count [] = tt
escape-IsSafe zero_count (byte ∷ rbsp) = elim (Bool-cases (needs_prevention zero_count byte)) [
  | inl set ↦ rw set (
    (λ _. omega arith),
    ((λ h. absurd (omega arith)), escape-IsSafe (if byte == 0 then 1 else 0) rbsp),
  )
  | inr free ↦
      rw free ((λ h. ground arith), escape-IsSafe (if byte == 0 then zero_count + 1 else 0) rbsp)
]

IsSafe-split :
    (zero_count : ℕ) (front back : List ℕ) (x : ℕ)
    → IsSafe zero_count (front ++ 0 ∷ 0 ∷ x ∷ back)
    → 3 ≤ x
IsSafe-split zero_count [] back x safe = safe.1.1.0 (omega arith)
IsSafe-split zero_count (f ∷ front) back x safe =
    IsSafe-split (if f == 0 then zero_count + 1 else 0) front back x safe.1

-- No start code, and none of its prefixes that the standard reserves, occurs in an escaped RBSP.
pub escape_no_start_code :
    (rbsp front back : List ℕ) (x : ℕ) → escape 0 rbsp ≡ front ++ 0 ∷ 0 ∷ x ∷ back → 3 ≤ x
escape_no_start_code rbsp front back x e =
    IsSafe-split 0 front back x (subst (IsSafe 0) e (escape-IsSafe 0 rbsp))

pub append_bytes-nil : (output : ByteWriter) → append_bytes output [] ≡ ok output
unfolding append_bytes
append_bytes-nil output = ground (arith, append-nil output.written)

pub append_bytes-append :
    (output : ByteWriter) (xs ys : List ℕ)
    → (append_bytes output xs >>= λ next. append_bytes next ys) ≡ append_bytes output (xs ++ ys)
unfolding append_bytes
append_bytes-append output xs ys =
    ground (
      arith,
      length-append xs ys,
      length-append output.written xs,
      append_assoc output.written xs ys,
    )

-- What a step does behind an append, where the step appends `ys`.
pub append_bytes-then :
    (output : ByteWriter) (xs ys : List ℕ) (f : ByteWriter → Result ByteWriter)
    → ((next : ByteWriter) → f next ≡ append_bytes next ys)
    → (append_bytes output xs >>= f) ≡ append_bytes output (xs ++ ys)
append_bytes-then output xs ys f h =
    ap (λ (g : ByteWriter → Result ByteWriter). append_bytes output xs >>= g) (fun_ext h)
    ∙ append_bytes-append output xs ys

append_escaped-escape :
    (output : ByteWriter) (zero_count : ℕ) (rbsp : List ℕ)
    → append_escaped output zero_count rbsp ≡ append_bytes output (escape zero_count rbsp)
unfolding append_escaped escape
append_escaped-escape output zero_count [] = sym (append_bytes-nil output)
append_escaped-escape output zero_count (byte ∷ rbsp) =
    elim (Bool-cases (needs_prevention zero_count byte)) [
      | inl set ↦
          let next = if byte == 0 then 1 else 0 in
          rw set (
            append_bytes-then output (3 ∷ []) (byte ∷ escape next rbsp) _ λ prevented.
              append_bytes-then prevented (byte ∷ []) (escape next rbsp) _
                λ appended. append_escaped-escape appended next rbsp)
      | inr free ↦
          let next = if byte == 0 then zero_count + 1 else 0 in
          rw free (
            append_bytes-then output (byte ∷ []) (escape next rbsp) _
              λ appended. append_escaped-escape appended next rbsp)
    ]

-- append_escaped_nal appends the start code, the header byte and the escaped RBSP as a whole, or
-- answers that there is no room for them.
pub append_escaped_nal-escape :
    (output : ByteWriter) (nal_header : ℕ) (rbsp : List ℕ)
    → append_escaped_nal output nal_header rbsp
      ≡ append_bytes output (start_code ++ nal_header ∷ escape 0 rbsp)
unfolding append_escaped_nal append_start_code
append_escaped_nal-escape output nal_header rbsp =
    append_bytes-then output start_code (nal_header ∷ escape 0 rbsp) _ λ started.
      append_bytes-then started (nal_header ∷ []) (escape 0 rbsp) _
        λ headed. append_escaped-escape headed 0 rbsp

appended_bytes :
    (writer : ByteWriter) (bytes : List ℕ) {w : ByteWriter}
    → append_bytes writer bytes ≡ ok w
    → w.written ≡ writer.written ++ bytes
unfolding append_bytes
appended_bytes writer bytes e = ground arith

-- A NAL unit that append_escaped_nal has appended stands behind a start code and its header byte.
-- Its payload holds no byte below 3 behind two zeros, so that no start code occurs in it, and a
-- decoder that drops the prevention bytes gets back the RBSP.
pub append_escaped_nal-safe :
    (output : ByteWriter) (nal_header : ℕ) (rbsp : List ℕ) {w : ByteWriter}
    → append_escaped_nal output nal_header rbsp ≡ ok w
    → (nal : List ℕ) × (w.written ≡ output.written ++ (start_code ++ nal_header ∷ nal))
      × (unescape 0 nal ≡ rbsp)
      × ((front back : List ℕ) (x : ℕ) → nal ≡ front ++ 0 ∷ 0 ∷ x ∷ back → 3 ≤ x)
append_escaped_nal-safe output nal_header rbsp h = (
  escape 0 rbsp,
  appended_bytes output _ (sym (append_escaped_nal-escape output nal_header rbsp) ∙ h),
  unescape-escape 0 rbsp,
  escape_no_start_code rbsp,
)
