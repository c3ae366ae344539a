-- ===== src/Uploads/Chunks.antt =====
-- The chunk arithmetic of server/internal/handler/upload.go. The sizes are int64 in the source and
-- numbers here: a size that is not positive is 0, and is refused.
pub mod Sizes
use file_share_manager.Prelude.{
  ℕ, zero, suc, ◌+◌, ◌-◌, ◌*◌, ◌/◌, ◌%◌, ◌^◌, ltb, leb, ◌==◌, Bool, ◌&&◌, ◌||◌, not, Result, ok,
  err, ◌>>=◌, ◌>>◌, guard, if◌then◌else◌,
}

abbrev pub min_chunk_size : ℕ
min_chunk_size = 2 ^ 20

abbrev pub max_chunk_size : ℕ
max_chunk_size = 64 * 2 ^ 20

abbrev pub max_upload_chunks : ℕ
max_upload_chunks = 2 ^ 20

abbrev pub default_max_upload_file_bytes : ℕ
default_max_upload_file_bytes = 100 * 2 ^ 30

-- `int64(^uint(0)>>1)`: the greatest int.
abbrev pub max_int : ℕ
max_int = 2 ^ 63 - 1

pub data ChunkError : Type 0 where
  size_not_positive file_too_large bad_chunk_size too_many_chunks : ChunkError
  over_current_limit bad_dimensions part_out_of_range : ChunkError

unfoldable pub calculate_upload_chunk_count : ℕ → ℕ → ℕ → Result ChunkError ℕ
calculate_upload_chunk_count total_size chunk_size max_file_bytes =
    if total_size == 0 || chunk_size == 0
    then err size_not_positive
    else if max_file_bytes == 0 || ltb max_file_bytes total_size
    then err file_too_large
    else if ltb chunk_size min_chunk_size || ltb max_chunk_size chunk_size
    then err bad_chunk_size
    else let chunks : ℕ =
        if total_size % chunk_size == 0
        then total_size / chunk_size
        else total_size / chunk_size + 1 in
      if chunks == 0 || ltb max_upload_chunks chunks || ltb max_int chunks
      then err too_many_chunks
      else ok chunks

-- The sizes of an upload session.
pub record Dimensions : Type 0 where
  pub total_size : ℕ
  pub chunk_size : ℕ
  pub total_chunks : ℕ

-- The test on the count that `calculateUploadChunkCount` returns.
abbrev pub agree : ℕ → Result ChunkError ℕ → Result ChunkError (Unit {0})
agree total_chunks (err _) = err over_current_limit
agree total_chunks (ok chunks) = if total_chunks == chunks then ok tt else err bad_dimensions

unfoldable pub validate_upload_session_dimensions : Dimensions → ℕ → Result ChunkError (Unit {0})
validate_upload_session_dimensions d max_file_bytes =
    agree d.total_chunks (calculate_upload_chunk_count d.total_size d.chunk_size max_file_bytes)

unfoldable pub expected_upload_part_size : Dimensions → ℕ → Result ChunkError ℕ
expected_upload_part_size d part_no =
    if leb d.total_chunks part_no
    then err part_out_of_range
    else if not (part_no == d.total_chunks - 1)
    then ok d.chunk_size
    else if d.total_size % d.chunk_size == 0
    then ok d.chunk_size
    else ok (d.total_size % d.chunk_size)
