-- ===== src/Uploads/Chunks/Sizes.antt =====
-- The chunks of a session, of server/internal/handler/upload.go, beside the size of its file.
use native.Mathlib.Nat.{div-add-mod}
use file_share_manager.Prelude.{
  ℕ, zero, suc, ◌+◌, ◌-◌, ◌*◌, ◌/◌, ◌%◌, ◌≤◌, ◌<◌, ◌≡◌, ◌≢◌, Result, ok, ◌>>=◌, arith, ◌⊎◌, sym, ap,
  ◌∙◌, subst, inl, inr,
}
use file_share_manager.Uploads.Chunks.{
  ChunkError, max_upload_chunks, Dimensions, calculate_upload_chunk_count,
  validate_upload_session_dimensions, expected_upload_part_size,
}

-- The division with its remainder.
div_mod : (t c : ℕ) → 0 < c → (t ≡ t / c * c + t % c) × (t % c < c)
div_mod t c h = (grind (arith, div-add-mod), omega arith)

round_up :
    (t c q r : ℕ)
    → t ≡ q * c + r
    → r < c
    → (r ≡ 0 → (t ≤ q * c) × (q * c < t + c)) × (r ≢ 0 → (t ≤ (q + 1) * c) × ((q + 1) * c < t + c))
round_up t c q r e l = (λ z. (omega arith, omega arith), λ z. (omega arith, omega arith))

-- The count is the size divided by the chunk size, rounded up, and lies within the limits.
pub calculate_upload_chunk_count_bounds :
    (total_size chunk_size max_file_bytes : ℕ) {chunks : ℕ}
    → calculate_upload_chunk_count total_size chunk_size max_file_bytes ≡ ok chunks
    → (total_size ≤ chunks * chunk_size)
      × (chunks * chunk_size < total_size + chunk_size)
      × (0 < chunks)
      × (chunks ≤ max_upload_chunks)
      × (total_size ≤ max_file_bytes)
unfolding calculate_upload_chunk_count
calculate_upload_chunk_count_bounds t c m h =
    ground (arith, div_mod t c, round_up t c (t / c) (t % c))

-- The sizes of the first parts, added up.
pub expected_parts_total : Dimensions → ℕ → Result ChunkError ℕ
expected_parts_total d zero = ok 0
expected_parts_total d (suc parts) = do
  size ← expected_upload_part_size d parts
  total ← expected_parts_total d parts
  ok (total + size)

pred_mul : (q c : ℕ) → 0 < q → (q - 1) * c + c ≡ q * c
pred_mul zero c h = absurd (omega arith)
pred_mul (suc k) c h = let e : suc k - 1 ≡ k = omega arith in rw e (omega arith)

full_part :
    (d : Dimensions) (k : ℕ)
    → k + 1 < d.total_chunks
    → expected_upload_part_size d k ≡ ok d.chunk_size
unfolding expected_upload_part_size
full_part d k h = ground arith

count_shape :
    (t c m n : ℕ)
    → calculate_upload_chunk_count t c m ≡ ok n
    → (0 < c) × (0 < n) × (((t % c ≡ 0) × (n ≡ t / c)) ⊎ ((t % c ≢ 0) × (n ≡ t / c + 1)))
unfolding calculate_upload_chunk_count
count_shape t c m n h = (ground arith, ground arith, ground arith)

module _ (d : Dimensions) (max_file_bytes : ℕ)
    (valid : validate_upload_session_dimensions d max_file_bytes ≡ ok tt) where
  count : calculate_upload_chunk_count d.total_size d.chunk_size max_file_bytes ≡ ok d.total_chunks
  unfolding validate_upload_session_dimensions
  count = ground arith

  full_parts : (k : ℕ) → k < d.total_chunks → expected_parts_total d k ≡ ok (k * d.chunk_size)
  unfolding expected_parts_total
  full_parts zero h = ground arith
  full_parts (suc k) h = rw (full_part d k (omega arith), full_parts k (omega arith)) (ground arith)

  last_part :
      (size : ℕ) × (expected_upload_part_size d (d.total_chunks - 1) ≡ ok size)
      × ((d.total_chunks - 1) * d.chunk_size + size ≡ d.total_size)
  unfolding expected_upload_part_size
  last_part =
      let (c, n, shape) =
        count_shape d.total_size d.chunk_size max_file_bytes d.total_chunks count in
      let (e, l) = div_mod d.total_size d.chunk_size c in
      elim shape [
        | inl (z, q) ↦ (
          d.chunk_size,
          ground arith,
          pred_mul d.total_chunks d.chunk_size n ∙ rw q (omega arith),
        )
        | inr (z, q) ↦ (d.total_size % d.chunk_size, ground arith, rw q (up_to q e))
      ]
    where
      up_to :
          d.total_chunks ≡ d.total_size / d.chunk_size + 1
          → d.total_size ≡ d.total_size / d.chunk_size * d.chunk_size + d.total_size % d.chunk_size
          → (d.total_size / d.chunk_size + 1 - 1) * d.chunk_size + d.total_size % d.chunk_size
            ≡ d.total_size
      up_to q e =
          let p : d.total_size / d.chunk_size + 1 - 1 ≡ d.total_size / d.chunk_size = omega arith in
          rw p (sym e)

  all_parts :
      0 < d.total_chunks → expected_parts_total d (suc (d.total_chunks - 1)) ≡ ok d.total_size
  unfolding expected_parts_total
  all_parts n =
      let (size, h, whole) = last_part in
      rw (h, full_parts (d.total_chunks - 1) (omega arith)) (ap ok whole)

  -- The expected sizes of the parts of a valid session add up to the size of the file.
  pub expected_parts_total-total_size : expected_parts_total d d.total_chunks ≡ ok d.total_size
  expected_parts_total-total_size =
      let (_, n, _) = count_shape d.total_size d.chunk_size max_file_bytes d.total_chunks count in
      let last : suc (d.total_chunks - 1) ≡ d.total_chunks = omega arith in
      subst (λ k. expected_parts_total d k ≡ ok d.total_size) last (all_parts n)
