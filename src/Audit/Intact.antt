-- ===== src/Audit/Intact.antt =====
-- What it is for the chain of a workspace to be intact, and the store behind
-- `createOperationLogWithTx` of server/internal/dao/operation_log.go.
use Prim.Native.String.{String}
use text.Mathlib.Text.{◌==◌ as str_eq}
use file_share_manager.Prelude.{
  ℕ, suc, ◌<◌, ◌==◌, ==_refl, eq_option, ◌≡◌, ◌≢◌, refl, sym, ap, ◌∙◌, ◌⊎◌, inl, inr, Bool, true,
  false, [], ◌∷◌, ◌++◌, Option, none, some, find_first, In, update_where, Bool-cases, arith,
  find_first-update, find_first-other, option_map,
}
use file_share_manager.Audit.Store.{
  Entry, OperationLog, AuditStream, AuditArchive, Store, audit_stream_key, has_key, started,
  lock_audit_stream, previous_hash, calculate_hash, draft, advanced, write_log,
}
use file_share_manager.Audit.Chain.{Progress, same_hash, logs_of, check_log, check_logs, start}
use file_share_manager.Audit.Keys.{audit_stream_key-injective}
use file_share_manager.Audit.Appending.{
  tail_of, same_hash_refl, eq_of_str, locked-key, locked-row, locked-other,
}

abbrev pub in_workspace : ℕ → OperationLog → Bool
in_workspace w x = eq_option x.workspace_id (some w)

abbrev pub row_of : Option ℕ → Store → Option AuditStream
row_of w s = find_first (has_key (audit_stream_key w)) s.streams

pub started_number : (x : AuditStream) → 0 < x.next_seq → (started x).next_seq ≡ x.next_seq
started_number x l = ground arith

pub previous_hash-some : (h : String) → str_eq h "" ≡ false → previous_hash h ≡ some h
previous_hash-some h e = rw e refl

module _ (digest : String → ℕ → Option ℕ → Entry → Option String → String)
    (is_valid_manifest : AuditArchive → Bool) where
  -- The state of the verification behind all logs of the workspace.
  abbrev pub chain : ℕ → Store → Progress
  chain w s =
      check_logs digest is_valid_manifest (logs_of w s.logs) (start digest is_valid_manifest)

  -- No event of the workspace breaks the chain, the row of the stream continues it, and no number
  -- is taken that is still to be given out.
  pub record IsIntact (w : ℕ) (s : Store) : Type 0 where
    pub whole : (chain w s).broken_kind ≡ none
    pub plain : (chain w s).archived ≡ 0
    pub next : (chain w s).expected_seq ≡ (tail_of (row_of (some w) s)).0
    pub last : (chain w s).previous ≡ previous_hash (tail_of (row_of (some w) s)).1
    pub below :
        (x : OperationLog)
        → In x s.logs
        → in_workspace w x ≡ true
        → x.stream_seq < (chain w s).expected_seq
    pub kept :
        (logs_of w s.logs ≡ [])
        ⊎ ((r : AuditStream) × (row_of (some w) s ≡ some r)
            × (0 < r.next_seq)
            × (str_eq r.last_hash "" ≡ false))

  -- What the check of a log that continues the chain leaves.
  abbrev pub passed : OperationLog → Progress → Progress
  passed x p = record p {
    expected_seq = suc p.expected_seq;
    previous = x.current_hash;
    last_seq = x.stream_seq;
  }

  check_log-passed :
      (x : OperationLog) (p : Progress)
      → x.stream_seq ≡ p.expected_seq
      → p.previous ≡ x.prev_hash
      → x.current_hash ≡ some (calculate_hash digest x x.prev_hash)
      → check_log digest is_valid_manifest x p ≡ passed x p
  unfolding check_log
  check_log-passed x p n e h = rw (number, before, own) refl
    where
      number : (x.stream_seq == p.expected_seq) ≡ true
      number = rw n (==_refl p.expected_seq)

      before : same_hash p.previous x.prev_hash ≡ true
      before = rw e (same_hash_refl x.prev_hash)

      own : same_hash x.current_hash (some (calculate_hash digest x p.previous)) ≡ true
      own =
          ap (λ o. same_hash o (some (calculate_hash digest x p.previous))) h
          ∙ ap
              (λ q.
                same_hash (some (calculate_hash digest x x.prev_hash))
                  (some (calculate_hash digest x q)))
              e
          ∙ same_hash_refl (some (calculate_hash digest x x.prev_hash))

  hash_ignores :
      (x : OperationLog) (h p : Option String)
      → calculate_hash digest (record x { current_hash = h }) p ≡ calculate_hash digest x p
  unfolding calculate_hash
  hash_ignores x h p = refl

  module _ (s : Store) (w : Option ℕ) (entry : Entry) (sanitize : Entry → Entry)
      (classify : Entry → Option Entry) where
    unfoldable pub stream : AuditStream
    stream = (lock_audit_stream w s.streams).0

    unfoldable pub log : OperationLog
    log = draft digest sanitize classify s.next_log_id w entry stream

    -- The row as it is stored.
    unfoldable pub stored : OperationLog
    stored = record log { current_hash = some (calculate_hash digest log log.prev_hash) }

    abbrev pub after : Store
    after = write_log digest sanitize classify log stream (lock_audit_stream w s.streams).1 s

    pub after-logs : after.logs ≡ s.logs ++ stored ∷ []
    unfolding write_log stored
    after-logs = refl

    pub stored-passed :
        (p : Progress)
        → p.expected_seq ≡ stream.next_seq
        → p.previous ≡ previous_hash stream.last_hash
        → check_log digest is_valid_manifest stored p ≡ passed stored p
    unfolding stored log
    stored-passed p n e = check_log-passed stored p (sym n) e (
        ap some
          (sym (hash_ignores log (some (calculate_hash digest log log.prev_hash)) log.prev_hash)))

    pub row_after : (other : Option ℕ) → other ≢ w → row_of other after ≡ row_of other s
    unfolding write_log stored log stream
    row_after other n =
        find_first-other (has_key (audit_stream_key other)) (has_key stream.stream_key)
          (advanced digest sanitize classify (calculate_hash digest log log.prev_hash)
            log.entry.created_at stream)
          (lock_audit_stream w s.streams).1 (λ x. refl) apart
        ∙ locked-other w s.streams other n
      where
        apart :
            (x : AuditStream)
            → has_key (audit_stream_key other) x ≡ true
            → has_key stream.stream_key x ≡ false
        apart x k = elim (Bool-cases (has_key stream.stream_key x)) [
          | inl e ↦ absurd (
              n (
                audit_stream_key-injective other w (
                  sym (eq_of_str x.stream_key (audit_stream_key other) k)
                  ∙ eq_of_str x.stream_key stream.stream_key e
                  ∙ locked-key w s.streams)))
          | inr e ↦ e
        ]

    -- The row of the stream behind the event.
    abbrev pub appended : AuditStream → AuditStream
    appended =
        advanced digest sanitize classify (calculate_hash digest log log.prev_hash)
          log.entry.created_at stream

    pub row_own :
        (r : AuditStream) × (row_of w after
          ≡ some (
              advanced digest sanitize classify
                (calculate_hash digest log log.prev_hash)
                log.entry.created_at
                stream
                r))
    unfolding write_log log stream
    row_own =
        let (r, e) = locked-row w s.streams in
        (
          r,
          ap
                (λ k. find_first (has_key k) (
                  update_where (has_key stream.stream_key)
                    (advanced digest sanitize classify (calculate_hash digest log log.prev_hash)
                      log.entry.created_at stream)
                    (lock_audit_stream w s.streams).1))
                (sym (locked-key w s.streams))
              ∙ find_first-update (has_key stream.stream_key)
                  (advanced digest sanitize classify (calculate_hash digest log log.prev_hash)
                    log.entry.created_at stream)
                  (lock_audit_stream w s.streams).1 (λ x. refl)
              ∙ ap
                  (option_map (
                    advanced digest sanitize classify (calculate_hash digest log log.prev_hash)
                      log.entry.created_at stream))
                  (ap (λ k. find_first (has_key k) (lock_audit_stream w s.streams).1)
                      (locked-key w s.streams)
                    ∙ e),
        )
