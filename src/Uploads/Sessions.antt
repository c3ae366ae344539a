-- ===== src/Uploads/Sessions.antt =====
-- The operations of `UploadDAO` in server/internal/dao/upload.go. Each is one transaction: an error
-- leaves the store as it was. Times are numbers, and `now` is the clock that the source reads.
use Prim.Native.String.{String}
use text.Mathlib.Text.{◌==◌ as str_eq}
use file_share_manager.Prelude.{
  ℕ, ◌==◌, ltb, leb, Bool, ◌&&◌, not, List, [], ◌∷◌, ◌++◌, map, Result, ok, err, ◌>>=◌, ◌>>◌, guard,
  or_fail, find_first, select, any, update_first, if◌then◌else◌,
}
use file_share_manager.Uploads.Store.{
  SessionStatus, uploading, expired, ChunkIndex, index, negative, ReceivedChunks, blank, garbled,
  listed, UploadSession, Store, Error, upload_not_found, upload_state, record_not_found,
  bad_chunk_list, duplicated_key, is_closed, is_writable, is_session,
}
use file_share_manager.Uploads.Quota.{reserve_quota, release_quota}

-- `sort.Ints`.
unfoldable pub insert_sorted : ℕ → List ℕ → List ℕ
insert_sorted n [] = n ∷ []
insert_sorted n (x ∷ xs) = if leb n x then n ∷ x ∷ xs else x ∷ insert_sorted n xs

unfoldable pub sort_ints : List ℕ → List ℕ
unfolding insert_sorted
sort_ints [] = []
sort_ints (x ∷ xs) = insert_sorted x (sort_ints xs)

unfoldable pub contains_int : List ℕ → ℕ → Bool
contains_int values target = any (λ v. v == target) values

-- The loop of `DecodeReceivedChunks` over the indexes.
unfoldable pub plain_indexes : List ChunkIndex → Result Error (List ℕ)
plain_indexes [] = ok []
plain_indexes (negative _ ∷ chunks) = err bad_chunk_list
plain_indexes (index n ∷ chunks) = do ok (n ∷ (← plain_indexes chunks))

unfoldable pub decode_received_chunks : ReceivedChunks → Result Error (List ℕ)
unfolding plain_indexes sort_ints
decode_received_chunks blank = ok []
decode_received_chunks garbled = err bad_chunk_list
decode_received_chunks (listed chunks) = do ok (sort_ints (← plain_indexes chunks))

-- `json.Marshal` of the sorted indexes.
abbrev pub encode_chunks : List ℕ → ReceivedChunks
encode_chunks received = listed (map index received)

-- The identity of a session is its primary key.
unfoldable pub create_session : UploadSession → Store → Result Error Store
create_session session s = do
  t ← reserve_quota session.workspace_id session.created_by session.total_size s
  guard (not (any (λ x. str_eq x.id session.id) t.sessions)) duplicated_key
  ok (record t { sessions = t.sessions ++ session ∷ [] })

abbrev pub with_status : SessionStatus → UploadSession → UploadSession
with_status status session = record session { status = status }

-- Marking a session as expired and giving back its reservation.
unfoldable pub close_session : ℕ → ℕ → String → ℕ → Store → Store
unfolding release_quota is_session
close_session workspace_id user_id session_id size s =
    release_quota workspace_id user_id size (record s {
      sessions =
          update_first (is_session workspace_id user_id session_id) (with_status expired)
            s.sessions;
    })

unfoldable pub expire_session : ℕ → ℕ → String → Store → Result Error Store
unfolding is_session
expire_session workspace_id user_id session_id s = do
  session ←
      or_fail (find_first (is_session workspace_id user_id session_id) s.sessions) record_not_found
  if is_closed session.status
      then ok s
      else ok (close_session workspace_id user_id session_id session.total_size s)

unfoldable pub get_session : ℕ → ℕ → String → ℕ → Store → Result Error (UploadSession × Store)
unfolding is_session
get_session workspace_id user_id session_id now s = do
  session ←
      or_fail (find_first (is_session workspace_id user_id session_id) s.sessions) upload_not_found
  let expiry = expire_session workspace_id user_id session_id s
  if not (is_closed session.status) && ltb session.expires_at now
      then (expiry >>= λ t. ok (with_status expired session, t))
      else ok (session, s)

-- The received indexes with the new one.
abbrev pub with_part : List ℕ → ℕ → List ℕ
with_part received part_no =
    if contains_int received part_no then received else sort_ints (received ++ part_no ∷ [])

unfoldable pub mark_part_received : ℕ → ℕ → String → ℕ → Store → Result Error (List ℕ × Store)
unfolding is_session
mark_part_received workspace_id user_id session_id part_no s = do
  session ←
      or_fail (find_first (is_session workspace_id user_id session_id) s.sessions) upload_not_found
  guard (is_writable session.status) upload_state
  received ← decode_received_chunks session.received_chunks
  ok (
    with_part received part_no,
    record s {
      sessions =
          update_first (is_session workspace_id user_id session_id)
            (λ x. record x {
              received_chunks = encode_chunks (with_part received part_no);
              status = uploading;
            })
            s.sessions;
    },
  )

unfoldable pub cancel : ℕ → ℕ → String → Store → Result Error Store
unfolding is_session
cancel workspace_id user_id session_id s = do
  session ←
      or_fail (find_first (is_session workspace_id user_id session_id) s.sessions) upload_not_found
  guard (not (is_closed session.status)) upload_state
  ok (close_session workspace_id user_id session_id session.total_size s)

-- The loop of `ExpireSessions` over the sessions that the query returned.
unfoldable pub expire_each : List UploadSession → Store → Store
expire_each [] s = s
expire_each (x ∷ sessions) s =
    expire_each sessions (close_session x.workspace_id x.created_by x.id x.total_size s)

unfoldable pub expire_sessions : ℕ → Store → List String × Store
expire_sessions now s =
    let stale = select (λ x. not (is_closed x.status) && leb x.expires_at now) s.sessions in
    (map (λ x. x.id) stale, expire_each stale s)
