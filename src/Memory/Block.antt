-- ===== src/Memory/Block.antt =====
-- Copies into memory and the bytes read back from it.
use test.Prelude.{
  ℕ, zero, suc, ◌+◌, ◌≤◌, ◌<◌, ◌≡◌, refl, ◌∙◌, ◌≢◌, List, [], ◌∷◌, ◌++◌, length, get_or, arith,
}
use test.Memory.{Memory, store, copy_to, bytes}

pub store_self : (m : Memory) (i v : ℕ) → store m i v i ≡ v
unfolding store
store_self m i v = ground arith

pub store_ne : (m : Memory) (i v j : ℕ) → i ≢ j → store m i v j ≡ m j
unfolding store
store_ne m i v j h = ground arith

-- A copy leaves alone what lies before it and behind it.
pub copy_to_before : (bs : List ℕ) (m : Memory) (off j : ℕ) → j < off → copy_to m off bs j ≡ m j
unfolding copy_to
copy_to_before [] m off j h = refl
copy_to_before (b ∷ bs) m off j h =
    copy_to_before bs (store m off b) (off + 1) j (omega arith) ∙ store_ne m off b j (omega arith)

pub copy_to_behind :
    (bs : List ℕ) (m : Memory) (off j : ℕ) → off + length bs ≤ j → copy_to m off bs j ≡ m j
unfolding copy_to
copy_to_behind [] m off j h = refl
copy_to_behind (b ∷ bs) m off j h =
    copy_to_behind bs (store m off b) (off + 1) j (omega arith) ∙ store_ne m off b j (omega arith)

-- Equal bytes are read from memories that agree on the range.
pub bytes_agree :
    (n : ℕ) (m k : Memory) (off : ℕ)
    → ((j : ℕ) → off ≤ j → j < off + n → m j ≡ k j)
    → bytes m off n ≡ bytes k off n
unfolding bytes
bytes_agree zero m k off h = refl
bytes_agree (suc n) m k off h = ground (
  arith,
  h off (omega arith) (omega arith),
  bytes_agree n m k (off + 1) (λ j lo hi. h j (omega arith) (omega arith)),
)

pub length-bytes : (n : ℕ) (m : Memory) (off : ℕ) → length (bytes m off n) ≡ n
unfolding bytes
length-bytes zero m off = refl
length-bytes (suc n) m off = omega (arith, length-bytes n m (off + 1))

-- What was copied is read back.
pub bytes-copy_to :
    (bs : List ℕ) (m : Memory) (off : ℕ) → bytes (copy_to m off bs) off (length bs) ≡ bs
unfolding bytes copy_to store
bytes-copy_to [] m off = refl
bytes-copy_to (b ∷ bs) m off = ground (
  arith,
  copy_to_before bs (store m off b) (off + 1) off (omega arith),
  bytes-copy_to bs (store m off b) (off + 1),
)

-- Reading on from where a first part ends.
pub bytes-add :
    (n k : ℕ) (m : Memory) (off : ℕ) → bytes m off (n + k) ≡ bytes m off n ++ bytes m (off + n) k
unfolding bytes
bytes-add zero k m off =
    let e : 0 + k ≡ k = omega arith in let f : off + 0 ≡ off = omega arith in rw (e, f)
bytes-add (suc n) k m off =
    let e : suc n + k ≡ suc (n + k) = omega arith in
    let f : off + suc n ≡ off + 1 + n = omega arith in rw (e, f, bytes-add n k m (off + 1))

-- A copy right behind the bytes of a range adds to them.
pub bytes-append :
    (n : ℕ) (bs : List ℕ) (m : Memory) (off : ℕ)
    → bytes (copy_to m (off + n) bs) off (n + length bs) ≡ bytes m off n ++ bs
bytes-append n bs m off = ground (
  arith,
  bytes-add n (length bs) (copy_to m (off + n) bs) off,
  bytes-copy_to bs m (off + n),
  bytes_agree n (copy_to m (off + n) bs) m off (λ j lo hi. copy_to_before bs m (off + n) j hi),
)

-- Bytes that are copied to the offset that they were read from.
pub copy_to-bytes :
    (n : ℕ) (m k : Memory) (off j : ℕ)
    → off ≤ j
    → j < off + n
    → copy_to m off (bytes k off n) j ≡ k j
unfolding copy_to bytes store
copy_to-bytes zero m k off j lo hi = absurd (omega arith)
copy_to-bytes (suc n) m k off j lo hi = ground (
  arith,
  copy_to_before (bytes k (off + 1) n) (store m off (k off)) (off + 1) j,
  copy_to-bytes n (store m off (k off)) k (off + 1) j,
)

-- A copied byte, by its index.
pub copy_to_at :
    (bs : List ℕ) (m : Memory) (off i : ℕ)
    → i < length bs
    → copy_to m off bs (off + i) ≡ get_or bs i 0
unfolding copy_to
copy_to_at [] m off i h = absurd (omega arith)
copy_to_at (b ∷ bs) m off zero h =
    let e : off + 0 ≡ off = omega arith in
    rw e (copy_to_before bs (store m off b) (off + 1) off (omega arith) ∙ store_self m off b)
copy_to_at (b ∷ bs) m off (suc i) h =
    let e : off + suc i ≡ off + 1 + i = omega arith in
    rw e (copy_to_at bs (store m off b) (off + 1) i (omega arith))

-- Copied bytes, from an index on.
pub bytes-copy_to_behind :
    (xs ys : List ℕ) (m : Memory) (off : ℕ)
    → bytes (copy_to m off (xs ++ ys)) (off + length xs) (length ys) ≡ ys
unfolding copy_to
bytes-copy_to_behind [] ys m off =
    let e : off + 0 ≡ off = omega arith in rw e (bytes-copy_to ys m off)
bytes-copy_to_behind (x ∷ xs) ys m off =
    let e : off + suc (length xs) ≡ off + 1 + length xs = omega arith in
    rw e (bytes-copy_to_behind xs ys (store m off x) (off + 1))
