-- ===== src/FrameBuffer/Laws.antt =====
-- What the frame buffer finds, hands out and keeps.
use test.Prelude.{
  ℕ, zero, suc, ◌+◌, ◌≤◌, ◌<◌, ◌≡◌, refl, ap, ◌∙◌, List, [], ◌∷◌, ◌++◌, some, true, false, leb,
  ◌==◌, length, take, drop, get_or, arith, length-take, length-drop, Bool-cases, inl, inr, ◌≢◌, ◌⊎◌,
  le→leb, lt→leb_false, ==_iff, length-append,
}
use test.Prelude.Int.{pos, minus_one}
use test.MessageBlock
use test.MessageBlock.{MessageBlock, contents, max_data_length}
use test.MessageBlock.Laws.{IsValid, copy_appends, copy_refused, reset-IsValid}
use test.FrameBuffer.{
  FrameBuffer, find, find_from, at, get_value, size, remove, get_block, extract_block, copy_out,
}

module _ (b n : ℕ) (mb : MessageBlock) (fb : FrameBuffer) (inside : b + n ≤ length fb.buffer) where
  copy_out-fits :
      n ≤ max_data_length
      → (mb' : MessageBlock) × (copy_out (pos b) (pos n) fb (MessageBlock.reset mb) ≡ some mb')
        × (contents mb' ≡ take n (drop b fb.buffer))
        × IsValid mb'
  unfolding copy_out
  copy_out-fits h =
      let (v, e) = reset-IsValid mb in
      let (mb', p, c, w) =
        copy_appends (drop b fb.buffer) n (MessageBlock.reset mb) v
          (omega (arith, length-drop b fb.buffer)) (unfold MessageBlock.reset in omega arith) in
      (mb', rw (p, le→leb b (length fb.buffer) (omega arith)), c ∙ rw e, w)

  copy_out-large :
      max_data_length < n
      → copy_out (pos b) (pos n) fb (MessageBlock.reset mb) ≡ some (MessageBlock.reset mb)
  unfolding copy_out
  copy_out-large h =
      let (v, e) = reset-IsValid mb in
      let p =
        copy_refused (drop b fb.buffer) n (MessageBlock.reset mb) v
          (unfold MessageBlock.reset in omega arith) in
      rw (p, le→leb b (length fb.buffer) (omega arith))

  removed : FrameBuffer
  removed = record { buffer = take b fb.buffer ++ drop (b + n) fb.buffer }

  remove_lem : remove (pos b) (pos n) fb ≡ some removed
  unfolding remove removed
  remove_lem = rw (le→leb (b + n) (length fb.buffer) inside)

  -- A block of at most 1536 bytes that lies in the buffer is handed out whole: the message block
  -- holds exactly those bytes, and the buffer keeps what stood before and behind them.
  pub extract_block_lem :
      n ≤ max_data_length
      → (mb' : MessageBlock) × (fb' : FrameBuffer) × (extract_block (pos b) (pos n) mb fb
          ≡ some (true, mb', fb'))
        × (contents mb' ≡ take n (drop b fb.buffer))
        × (fb'.buffer ≡ take b fb.buffer ++ drop (b + n) fb.buffer)
        × IsValid mb'
  unfolding extract_block removed
  extract_block_lem h =
      let (mb', p, c, w) = copy_out-fits h in
      (mb', removed, ground (arith, p, remove_lem), c, refl, w)

  -- `get_block` hands out the same bytes.
  pub get_block_lem :
      n ≤ max_data_length
      → (mb' : MessageBlock) × (get_block (pos b) (pos n) mb fb ≡ some (true, mb'))
        × (contents mb' ≡ take n (drop b fb.buffer))
        × IsValid mb'
  unfolding get_block
  get_block_lem h = let (mb', p, c, w) = copy_out-fits h in (mb', ground (arith, p), c, w)

  -- Of a block of more than 1536 bytes that lies in the buffer nothing is handed out, the answer is
  -- still true, and the bytes are gone from the buffer.
  pub extract_block_loses :
      max_data_length < n
      → (fb' : FrameBuffer) × (extract_block (pos b) (pos n) mb fb
          ≡ some (true, MessageBlock.reset mb, fb'))
        × (contents (MessageBlock.reset mb) ≡ [])
        × (length fb'.buffer + n ≡ length fb.buffer)
  unfolding extract_block removed
  extract_block_loses h = (
    removed,
    ground (arith, copy_out-large h, remove_lem),
    (reset-IsValid mb).1,
    omega (
      arith,
      length-append (take b fb.buffer) (drop (b + n) fb.buffer),
      length-take b fb.buffer,
      length-drop (b + n) fb.buffer,
    ),
  )

-- A request that reaches behind the end changes nothing and answers false.
pub extract_block_short :
    (b n : ℕ) (mb : MessageBlock) (fb : FrameBuffer)
    → length fb.buffer < b + n
    → extract_block (pos b) (pos n) mb fb ≡ some (false, mb, fb)
unfolding extract_block
extract_block_short b n mb fb h = ground arith

-- No byte before index `n` has the value.
abbrev pub AbsentBelow : ℕ → ℕ → List ℕ → Type 0
AbsentBelow n value bs = (j : ℕ) → j < n → get_or bs j 0 ≢ value

AbsentBelow-cons :
    (n value b : ℕ) (bs : List ℕ)
    → (b == value) ≡ false
    → AbsentBelow n value bs
    → AbsentBelow (suc n) value (b ∷ bs)
AbsentBelow-cons n value b bs e h zero lt = λ eq. ground arith
AbsentBelow-cons n value b bs e h (suc j) lt = h j (omega arith)

find_from_lem :
    (value i : ℕ) (bs : List ℕ)
    → ((find_from value i bs ≡ minus_one) × AbsentBelow (length bs) value bs)
      ⊎ ((k : ℕ) × (find_from value i bs ≡ pos (i + k))
          × (k < length bs)
          × (get_or bs k 0 ≡ value)
          × AbsentBelow k value bs)
unfolding find_from
find_from_lem value i [] = inl (refl, λ j h. absurd (omega arith))
find_from_lem value i (b ∷ bs) = elim (Bool-cases (b == value)) [
  | inl e ↦ inr (
    0,
    rw e (ap pos (omega arith)),
    omega arith,
    (==_iff b value).0 e,
    λ j h. absurd (omega arith),
  )
  | inr e ↦ elim (find_from_lem value (i + 1) bs) [
    | inl (p, q) ↦ inl (rw e p, AbsentBelow-cons (length bs) value b bs e q)
    | inr (k, p, lt, v, q) ↦
        inr (
          suc k,
          rw (e, p) (ap pos (omega arith)),
          omega arith,
          v,
          AbsentBelow-cons k value b bs e q,
        )
  ]
]

-- `find` from the start answers the first index of the value, and -1 exactly where it is absent.
pub find_lem :
    (value : ℕ) (fb : FrameBuffer)
    → ((find (pos 0) value fb ≡ minus_one) × AbsentBelow (size fb) value fb.buffer)
      ⊎ ((k : ℕ) × (find (pos 0) value fb ≡ pos k)
          × (at (pos k) fb ≡ value)
          × (get_value (pos k) fb ≡ some value)
          × AbsentBelow k value fb.buffer)
unfolding find at get_value
find_lem value fb = elim (find_from_lem value 0 fb.buffer) [
  | inl h ↦ inl h
  | inr (k, p, lt, v, q) ↦
      let far : leb (length fb.buffer) k ≡ false = lt→leb_false (length fb.buffer) k lt in
      inr (k, p ∙ ap pos (omega arith), rw (far, v), rw (far, v), q)
]
