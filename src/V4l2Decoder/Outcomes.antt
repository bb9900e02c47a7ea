-- ===== src/V4l2Decoder/Outcomes.antt =====
-- Rules for the calls of src/v4l2_decoder.c that change a state whether or not they fail.
use venus_vaapi_driver.Common.{◌≡◌, refl}
use venus_vaapi_driver.Common.Results.{Errno, Result, ok, err}
use venus_vaapi_driver.V4l2Decoder.Device.{Outcome, commit, ◌>>>◌}

-- `Good` holds of the state that a success leaves, and `Bad` of the one that a failure leaves.
abbrev pub Ensures {ℓ κ} :
    {State : Type ℓ} (Good : State → Type κ) (Bad : Errno → State → Type κ) → Outcome State → Type κ
Ensures Good Bad (state, ok done) = Good state
Ensures Good Bad (state, err code) = Bad code state

-- `Same` holds of the state that a call leaves.
abbrev pub Leaves {ℓ κ} : {State : Type ℓ} → (Same : State → Type κ) → Outcome State → Type κ
Leaves Same (state, status) = Same state

module _ {ℓ κ} {State : Type ℓ} where
  pub commit-Ensures {ι} :
      {Answer : Type ι} (Good : State → Type κ) (Bad : Errno → State → Type κ)
      (change : Answer → State) (state : State) (result : Result Answer)
      → ((answer : Answer) → result ≡ ok answer → Good (change answer))
      → ((code : Errno) → Bad code state)
      → Ensures Good Bad (commit change state result)
  commit-Ensures Good Bad change state (err code) good bad = bad code
  commit-Ensures Good Bad change state (ok answer) good bad = good answer refl

  pub commit-Leaves {ι} :
      {Answer : Type ι} (Same : State → Type κ) (change : Answer → State) (state : State)
      (result : Result Answer)
      → ((answer : Answer) → result ≡ ok answer → Same (change answer))
      → Same state
      → Leaves Same (commit change state result)
  commit-Leaves Same change state (err code) good same = same
  commit-Leaves Same change state (ok answer) good same = good answer refl

  pub Ensures-seq :
      (Good Last : State → Type κ) (Bad : Errno → State → Type κ) (first : Outcome State)
      (next : State → Outcome State)
      → Ensures Good Bad first
      → ((state : State) → Good state → Ensures Last Bad (next state))
      → Ensures Last Bad (first >>> next)
  Ensures-seq Good Last Bad (state, ok done) next good go = go state good
  Ensures-seq Good Last Bad (state, err code) next bad go = bad

  pub Ensures-mono :
      (Good Better : State → Type κ) (Bad Worse : Errno → State → Type κ) (call : Outcome State)
      → Ensures Good Bad call
      → ((state : State) → Good state → Better state)
      → ((code : Errno) (state : State) → Bad code state → Worse code state)
      → Ensures Better Worse call
  Ensures-mono Good Better Bad Worse (state, ok done) holds good bad = good state holds
  Ensures-mono Good Better Bad Worse (state, err code) holds good bad = bad code state holds

  pub Leaves-seq :
      (Same : State → Type κ) (first : Outcome State) (next : State → Outcome State)
      → Leaves Same first
      → ((state : State) → Same state → Leaves Same (next state))
      → Leaves Same (first >>> next)
  Leaves-seq Same (state, ok done) next same go = go state same
  Leaves-seq Same (state, err code) next same go = same

  pub Leaves→Ensures :
      (Same : State → Type κ) (call : Outcome State)
      → Leaves Same call
      → Ensures Same (λ code. Same) call
  Leaves→Ensures Same (state, ok done) same = same
  Leaves→Ensures Same (state, err code) same = same

  pub Ensures→Leaves :
      (Same : State → Type κ) (call : Outcome State)
      → Ensures Same (λ code. Same) call
      → Leaves Same call
  Ensures→Leaves Same (state, ok done) same = same
  Ensures→Leaves Same (state, err code) same = same

  pub Ensures-ok :
      (Good : State → Type κ) (Bad : Errno → State → Type κ) (call : Outcome State)
      → Ensures Good Bad call
      → call.1 ≡ ok tt
      → Good call.0
  Ensures-ok Good Bad (state, ok passed) good done = good
  Ensures-ok Good Bad (state, err code) bad done = cc
