-- ===== src/Audit/Chain.antt =====
-- Verifying a chain: `verifyAuditChainSnapshot` of server/internal/dao/operation_log.go.
use Prim.Native.String.{String}
use text.Mathlib.Text.{◌==◌ as str_eq}
use file_share_manager.Prelude.{
  ℕ, suc, ◌+◌, ◌-◌, ◌==◌, ltb, leb, eq_option, Bool, true, false, ◌&&◌, ◌||◌, not, List, [], ◌∷◌,
  Option, none, some, length, find_first, select, if◌then◌else◌,
}
use file_share_manager.Audit.Store.{
  Entry, OperationLog, AuditStream, AuditArchive, Store, audit_stream_key, has_key, calculate_hash,
}

pub data BrokenKind : Type 0 where
  archive_sequence archive_manifest archive_previous_hash : BrokenKind
  stream_sequence previous_hash current_hash stream_tail stream_missing : BrokenKind

pub record AuditVerification : Type 0 where
  pub checked : ℕ
  pub archived : ℕ
  pub last_seq : ℕ
  pub broken_id : Option ℕ
  -- The result is valid if nothing is broken.
  pub broken_kind : Option BrokenKind

-- The state of the loops: the next sequence number, the last hash, and the counters.
pub record Progress : Type 0 where
  pub expected_seq : ℕ
  pub previous : Option String
  pub archived : ℕ
  pub last_seq : ℕ
  pub broken_id : Option ℕ
  pub broken_kind : Option BrokenKind

abbrev pub break_at : Option ℕ → BrokenKind → Progress → Progress
break_at id kind p = record p { broken_id = id; broken_kind = some kind }

unfoldable pub same_hash : Option String → Option String → Bool
same_hash none none = true
same_hash (some left) (some right) = str_eq left right
same_hash _ _ = false

abbrev pub is_set : Option ℕ → Bool
is_set none = false
is_set (some _) = true

-- Rows in the order of a number, equal ones in the order of the table.
unfoldable pub insert_log :
    (OperationLog → ℕ) → OperationLog → List OperationLog → List OperationLog
insert_log key x [] = x ∷ []
insert_log key x (y ∷ logs) =
    if leb (key x) (key y) then x ∷ y ∷ logs else y ∷ insert_log key x logs

unfoldable pub sort_logs : (OperationLog → ℕ) → List OperationLog → List OperationLog
sort_logs key [] = []
sort_logs key (x ∷ logs) = insert_log key x (sort_logs key logs)

unfoldable pub insert_archive : AuditArchive → List AuditArchive → List AuditArchive
insert_archive x [] = x ∷ []
insert_archive x (y ∷ archives) =
    if leb x.from_seq y.from_seq then x ∷ y ∷ archives else y ∷ insert_archive x archives

unfoldable pub sort_archives : List AuditArchive → List AuditArchive
sort_archives [] = []
sort_archives (x ∷ archives) = insert_archive x (sort_archives archives)

-- The logs of a workspace, in the order of the stream.
unfoldable pub logs_of : ℕ → List OperationLog → List OperationLog
logs_of workspace_id logs =
    sort_logs (λ x. x.stream_seq)
      (select (λ (x : OperationLog). eq_option x.workspace_id (some workspace_id)) logs)

unfoldable pub archives_of : ℕ → List AuditArchive → List AuditArchive
archives_of workspace_id archives = sort_archives (
    select
      (λ (x : AuditArchive).
        str_eq x.stream_key (audit_stream_key (some workspace_id)) && x.is_completed)
      archives)

abbrev pub last_id : Option ℕ → List OperationLog → Option ℕ
last_id id [] = id
last_id id (x ∷ logs) = last_id (some x.id) logs

-- The parameters: `digest` as in `Audit.Store`, and `is_valid_manifest`, which recomputes the hash
-- of an archive's manifest.
module _ (digest : String → ℕ → Option ℕ → Entry → Option String → String)
    (is_valid_manifest : AuditArchive → Bool) where
  -- The hash in front of an archive: none for the first.
  abbrev pub follows : AuditArchive → Option String → Bool
  follows x previous =
      if x.from_seq == 1
      then str_eq x.first_prev_hash ""
      else same_hash previous (some x.first_prev_hash)

  unfoldable pub check_archive : AuditArchive → Progress → Progress
  check_archive x p =
      if not (x.from_seq == p.expected_seq)
        || ltb x.to_seq x.from_seq
        || not (x.event_count == x.to_seq - x.from_seq + 1)
        || not (is_set x.verified_at)
        || str_eq x.object_sha256 ""
      then break_at none archive_sequence p
      else if not (is_valid_manifest x)
      then break_at none archive_manifest p
      else if not (follows x p.previous)
      then break_at none archive_previous_hash p
      else record p {
        expected_seq = x.to_seq + 1;
        previous = some x.last_hash;
        archived = p.archived + x.event_count;
        last_seq = x.to_seq;
      }

  unfoldable pub check_log : OperationLog → Progress → Progress
  check_log x p =
      if not (x.stream_seq == p.expected_seq)
      then break_at (some x.id) stream_sequence p
      else if not (same_hash p.previous x.prev_hash)
      then break_at (some x.id) previous_hash p
      else if not (same_hash x.current_hash (some (calculate_hash digest x p.previous)))
      then break_at (some x.id) current_hash p
      else record p {
        expected_seq = suc p.expected_seq;
        previous = x.current_hash;
        last_seq = x.stream_seq;
      }

  -- The loops end at the first break.
  abbrev pub unless_broken : Option BrokenKind → Progress → Progress → Progress
  unless_broken none rest p = rest
  unless_broken (some _) rest p = p

  unfoldable pub check_archives : List AuditArchive → Progress → Progress
  check_archives [] p = p
  check_archives (x ∷ archives) p =
      unless_broken (check_archive x p).broken_kind (check_archives archives (check_archive x p))
        (check_archive x p)

  unfoldable pub check_logs : List OperationLog → Progress → Progress
  check_logs [] p = p
  check_logs (x ∷ logs) p =
      unless_broken (check_log x p).broken_kind (check_logs logs (check_log x p)) (check_log x p)

  abbrev pub start : Progress
  start = record {
    expected_seq = 1;
    previous = none;
    archived = 0;
    last_seq = 0;
    broken_id = none;
    broken_kind = none;
  }

  abbrev pub is_tail : Progress → AuditStream → Bool
  is_tail p stream =
      stream.next_seq == p.expected_seq && same_hash p.previous (some stream.last_hash)

  -- The test of the stream's own row, for a chain that is not empty.
  unfoldable pub check_tail : ℕ → Option ℕ → Option AuditStream → Progress → Progress
  check_tail checked last none p = if ltb 0 checked then break_at last stream_missing p else p
  check_tail checked last (some stream) p =
      if ltb 0 checked && not (is_tail p stream) then break_at last stream_tail p else p

  abbrev pub report : ℕ → Progress → AuditVerification
  report checked p = record {
    checked = checked;
    archived = p.archived;
    last_seq = p.last_seq;
    broken_id = p.broken_id;
    broken_kind = p.broken_kind;
  }

  -- The loop over the logs, behind that over the archives.
  unfoldable pub check_chain : List AuditArchive → List OperationLog → Progress
  check_chain archives logs =
      let p = check_archives archives start in unless_broken p.broken_kind (check_logs logs p) p

  -- A break in the loops returns at once.
  abbrev pub choose_report :
      Option BrokenKind → AuditVerification → AuditVerification → AuditVerification
  choose_report none full broken = full
  choose_report (some _) full broken = broken

  unfoldable pub verify_chain : ℕ → Store → AuditVerification
  verify_chain workspace_id s =
      let archives = archives_of workspace_id s.archives in
      let logs = logs_of workspace_id s.logs in
      let p = check_chain archives logs in
      let checked = p.archived + length logs in
      let stream = find_first (has_key (audit_stream_key (some workspace_id))) s.streams in
      choose_report p.broken_kind (report checked (check_tail checked (last_id none logs) stream p))
        (report 0 p)
