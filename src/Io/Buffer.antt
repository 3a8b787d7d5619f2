-- ===== src/Io/Buffer.antt =====
-- `buffer` of include/frenzykv/io/inner_buffer.h. The storage is the memory of `m_capa` bytes, of
-- which the first `size` are valid.
use frenzy_kv.Prelude.{
  ℕ, ◌+◌, ◌-◌, ◌≡◌, ◌≤◌, ◌<◌, refl, ap, ◌∙◌, arith, [], ◌++◌, Bool, true, false, not, ◌&&◌, ◌==◌,
  leb, sym, if◌then◌else◌, Result, ok, ◌>>=◌, ◌>>◌, assert, length, take, drop, length-take,
  length-drop, length-append, take-append, append_assoc,
}
use frenzy_kv.Bytes.{Bytes, within, overwrite, length-overwrite}

pub record Buffer : Type 0 where
  pub storage : Bytes
  pub capacity : ℕ
  pub left : ℕ

-- `allocate n` is the memory of `n` bytes that the allocator gives.
unfoldable pub new_buffer : (ℕ → Bytes) → ℕ → Buffer
new_buffer allocate capacity = record {
  storage = allocate capacity;
  capacity = capacity;
  left = capacity;
}

unfoldable pub size : Buffer → ℕ
size b = b.capacity - b.left

unfoldable pub empty : Buffer → Bool
unfolding size
empty b = size b == 0

unfoldable pub full : Buffer → Bool
full b = b.left == 0

unfoldable pub valid : Buffer → Bool
valid b = not (length b.storage == 0) && not (b.capacity == 0)

unfoldable pub fit : ℕ → Buffer → Bool
fit want_to_append_nbytes b = leb want_to_append_nbytes b.left

unfoldable pub valid_span : Buffer → Bytes
unfolding size
valid_span b = take (size b) b.storage

unfoldable pub whole_span : Buffer → Bytes
whole_span b = take b.capacity b.storage

unfoldable pub writable_span : Buffer → Bytes
unfolding size
writable_span b = drop (size b) b.storage

-- The buffer after the caller has written into the writable span.
unfoldable pub write_to_span : (Bytes → Bytes) → Buffer → Buffer
unfolding size
write_to_span write b = record b { storage = within (size b) write b.storage }

unfoldable pub commit : ℕ → Buffer → Result Buffer
commit wrote_len b = do assert (leb wrote_len b.left); ok (record b { left = b.left - wrote_len })

unfoldable pub append : Bytes → Buffer → Result (Bool × Buffer)
append bytes b =
    if fit (length bytes) b
    then commit (length bytes) (write_to_span (overwrite bytes) b) >>= (λ c. ok (true, c))
    else ok (false, b)

unfoldable pub turncate : Buffer → Buffer
turncate b = record b { left = b.capacity }

pub record IsValid (b : Buffer) : Type 0 where
  pub whole : length b.storage ≡ b.capacity
  pub bounded : b.left ≤ b.capacity

pub new_buffer-IsValid :
    (allocate : ℕ → Bytes) (n : ℕ) → length (allocate n) ≡ n → IsValid (new_buffer allocate n)
unfolding new_buffer
new_buffer-IsValid allocate n h = record { whole = h; bounded = omega arith }

pub turncate-IsValid : (b : Buffer) → IsValid b → IsValid (turncate b)
unfolding turncate
turncate-IsValid b v = record { whole = v.whole; bounded = omega arith }

pub valid_span-turncate : (b : Buffer) → valid_span (turncate b) ≡ []
unfolding valid_span turncate
valid_span-turncate b =
    let none_valid : b.capacity - b.capacity ≡ 0 = omega arith in rw none_valid refl

pub length-valid_span : (b : Buffer) → IsValid b → length (valid_span b) ≡ size b
unfolding valid_span size
length-valid_span b v =
    omega (arith, v.whole, v.bounded, length-take (b.capacity - b.left) b.storage)

-- The buffer after `bytes` have been written into the writable span and committed.
pub record Appended (bytes : Bytes) (b c : Buffer) : Type 0 where
  pub still_valid : IsValid c
  pub content : valid_span c ≡ valid_span b ++ bytes
  pub same_capacity : c.capacity ≡ b.capacity
  pub less_left : c.left + length bytes ≡ b.left

pub committed :
    (bytes : Bytes) (b : Buffer)
    → IsValid b
    → length bytes ≤ b.left
    → (c : Buffer) × (commit (length bytes) (write_to_span (overwrite bytes) b) ≡ ok c)
      × Appended bytes b c
unfolding commit write_to_span size within valid_span overwrite
committed bytes b v h = (
  record b { storage = written; left = b.left - length bytes },
  ground arith,
  record {
    still_valid = record { whole = lengths; bounded = omega (arith, v.bounded) };
    content = taken;
    same_capacity = refl;
    less_left = omega arith;
  },
)
  where
    front : Bytes
    front = take (b.capacity - b.left) b.storage

    behind : Bytes
    behind = drop (b.capacity - b.left) b.storage

    written : Bytes
    written = within (b.capacity - b.left) (overwrite bytes) b.storage

    lengths : length written ≡ b.capacity
    lengths = omega (
      arith,
      length-append front (overwrite bytes behind),
      length-overwrite bytes behind,
      length-take (b.capacity - b.left) b.storage,
      length-drop (b.capacity - b.left) b.storage,
      v.whole,
      v.bounded,
    )

    taken : take (b.capacity - (b.left - length bytes)) written ≡ front ++ bytes
    taken =
        ap (take (b.capacity - (b.left - length bytes)))
          (sym (append_assoc front bytes (drop (length bytes) behind)))
        ∙ take-append (b.capacity - (b.left - length bytes)) (front ++ bytes)
            (drop (length bytes) behind)
            (omega (
              arith,
              length-append front bytes,
              length-take (b.capacity - b.left) b.storage,
              v.whole,
              v.bounded,
            ))

-- What fits is appended, and anything else is refused and changes nothing.
pub append_fits :
    (bytes : Bytes) (b : Buffer)
    → IsValid b
    → length bytes ≤ b.left
    → (c : Buffer) × (append bytes b ≡ ok (true, c)) × Appended bytes b c
unfolding append fit
append_fits bytes b v h =
    let (c, e, a) = committed bytes b v h in
    let fits : leb (length bytes) b.left ≡ true = ground arith in (c, rw (fits, e) refl, a)

pub append_refused :
    (bytes : Bytes) (b : Buffer) → b.left < length bytes → append bytes b ≡ ok (false, b)
unfolding append fit
append_refused bytes b h =
    let large : leb (length bytes) b.left ≡ false = ground arith in rw large refl
