-- ===== src/Audit/Appending.antt =====
-- Rows, streams and chains behind `createOperationLogWithTx` of
-- server/internal/dao/operation_log.go: lemmas on sorting, on the locked stream and on
-- `verifyAuditChainSnapshot`.
use Prim.Native.String.{String}
use text.Mathlib.Text.{◌==◌ as str_eq}
use text.Mathlib.TextEquality.{eq_iff}
use text.Mathlib.TextPositions.{eq_refl}
use file_share_manager.Prelude.{
  ℕ, ◌≤◌, leb, ◌≡◌, ◌≢◌, refl, sym, ap, ◌∙◌, ◌⊎◌, inl, inr, Bool, true, false, List, [], ◌∷◌, ◌++◌,
  Option, none, some, find_first, find_first_sound, In, Bool-cases, Option-cases, arith,
  find_first-append, find_first-append_other,
}
use file_share_manager.Audit.Store.{
  Entry, OperationLog, AuditStream, AuditArchive, audit_stream_key, has_key, started, new_stream,
  lock_audit_stream,
}
use file_share_manager.Audit.Chain.{
  BrokenKind, Progress, unless_broken, same_hash, insert_log, sort_logs, check_log, check_logs,
}
use file_share_manager.Audit.Keys.{audit_stream_key-injective}

-- The number of the next event of a stream, and its last hash.
abbrev pub tail_of : Option AuditStream → ℕ × String
tail_of none = (1, "")
tail_of (some x) = ((started x).next_seq, x.last_hash)

-- A row behind all others of its order stays behind them.
insert_log-append :
    (key : OperationLog → ℕ) (a x : OperationLog) (logs : List OperationLog)
    → key a ≤ key x
    → insert_log key a (logs ++ x ∷ []) ≡ insert_log key a logs ++ x ∷ []
unfolding insert_log
insert_log-append key a x [] l = ground arith
insert_log-append key a x (y ∷ logs) l = elim (Bool-cases (leb (key a) (key y))) [
  | inl e ↦ rw e refl
  | inr e ↦ rw e (ap (λ z. y ∷ z) (insert_log-append key a x logs l))
]

insert_log-nil : (key : OperationLog → ℕ) (x : OperationLog) → insert_log key x [] ≡ x ∷ []
unfolding insert_log
insert_log-nil key x = refl

pub sort_logs-append :
    (key : OperationLog → ℕ) (x : OperationLog) (logs : List OperationLog)
    → ((y : OperationLog) → In y logs → key y ≤ key x)
    → sort_logs key (logs ++ x ∷ []) ≡ sort_logs key logs ++ x ∷ []
unfolding sort_logs
sort_logs-append key x [] l = insert_log-nil key x
sort_logs-append key x (y ∷ logs) l =
    ap (insert_log key y) (sort_logs-append key x logs (λ z i. l z (inr i)))
    ∙ insert_log-append key y x (sort_logs key logs) (l y (inl refl))

pub str_eq_refl : (s : String) → str_eq s s ≡ true
str_eq_refl s = eq_refl s

pub same_hash_refl : (o : Option String) → same_hash o o ≡ true
unfolding same_hash
same_hash_refl none = refl
same_hash_refl (some s) = str_eq_refl s

pub eq_of_str : (a b : String) → str_eq a b ≡ true → a ≡ b
eq_of_str a b h = (eq_iff a b).0 h

-- The stream that is locked: its key, its tail, its row, and the rows of the other streams.
module _ (workspace_id : Option ℕ) (xs : List AuditStream) where
  abbrev found : Option AuditStream
  found = find_first (has_key (audit_stream_key workspace_id)) xs

  pub locked-key : (lock_audit_stream workspace_id xs).0.stream_key ≡ audit_stream_key workspace_id
  unfolding lock_audit_stream
  locked-key = elim (Option-cases found) [
    | inl e ↦ rw e refl
    | inr (x, e) ↦
        let (_, k) = find_first_sound (has_key (audit_stream_key workspace_id)) xs x e in
        rw e (started_key x ∙ eq_of_str x.stream_key (audit_stream_key workspace_id) k)
  ]
    where
      started_key : (x : AuditStream) → (started x).stream_key ≡ x.stream_key
      started_key x = ground arith

  pub locked-tail :
      ((lock_audit_stream workspace_id xs).0.next_seq ≡ (tail_of found).0)
      × ((lock_audit_stream workspace_id xs).0.last_hash ≡ (tail_of found).1)
  unfolding lock_audit_stream
  locked-tail = elim (Option-cases found) [
    | inl e ↦ rw e (refl, refl)
    | inr (x, e) ↦ rw e (refl, started_hash x)
  ]
    where
      started_hash : (x : AuditStream) → (started x).last_hash ≡ x.last_hash
      started_hash x = ground arith

  pub locked-row :
      (x : AuditStream) × (find_first
          (has_key (audit_stream_key workspace_id))
          (lock_audit_stream workspace_id xs).1
        ≡ some x)
  unfolding lock_audit_stream
  locked-row = elim (Option-cases found) [
    | inl e ↦ (
      new_stream workspace_id,
      rw e (
          find_first-append (has_key (audit_stream_key workspace_id)) xs
            (new_stream workspace_id ∷ []) e
          ∙ rw (str_eq_refl (audit_stream_key workspace_id)) refl),
    )
    | inr (x, e) ↦ (x, rw e e)
  ]

  pub locked-other :
      (other : Option ℕ)
      → other ≢ workspace_id
      → find_first (has_key (audit_stream_key other)) (lock_audit_stream workspace_id xs).1
        ≡ find_first (has_key (audit_stream_key other)) xs
  unfolding lock_audit_stream
  locked-other other n = elim (Option-cases found) [
    | inl e ↦ rw e (
        find_first-append_other (has_key (audit_stream_key other)) xs (new_stream workspace_id)
          (away (Bool-cases (str_eq (audit_stream_key workspace_id) (audit_stream_key other)))))
    | inr (x, e) ↦ rw e refl
  ]
    where
      away :
          (str_eq (audit_stream_key workspace_id) (audit_stream_key other) ≡ true)
            ⊎ (str_eq (audit_stream_key workspace_id) (audit_stream_key other) ≡ false)
          → str_eq (audit_stream_key workspace_id) (audit_stream_key other) ≡ false
      away (inl e) = absurd (
          n (
            audit_stream_key-injective other workspace_id
              (sym (eq_of_str (audit_stream_key workspace_id) (audit_stream_key other) e))))
      away (inr e) = e

module _ (digest : String → ℕ → Option ℕ → Entry → Option String → String)
    (is_valid_manifest : AuditArchive → Bool) where
  unless-none :
      (o : Option BrokenKind) (rest q : Progress)
      → o ≡ none
      → unless_broken digest is_valid_manifest o rest q ≡ rest
  unless-none none rest q e = refl
  unless-none (some b) rest q e = absurd (some_none e)
    where
      some_none : some b ≢ none
      some_none h = cc

  unless-whole :
      (o : Option BrokenKind) (rest q : Progress)
      → q.broken_kind ≡ o
      → (unless_broken digest is_valid_manifest o rest q).broken_kind ≡ none
      → o ≡ none
  unless-whole none rest q e h = refl
  unless-whole (some b) rest q e h = sym e ∙ h

  unless_same :
      (o : Option BrokenKind) (q : Progress) → unless_broken digest is_valid_manifest o q q ≡ q
  unless_same none q = refl
  unless_same (some b) q = refl

  pub check_logs-append :
      (logs : List OperationLog) (x : OperationLog) (p : Progress)
      → (check_logs digest is_valid_manifest logs p).broken_kind ≡ none
      → check_logs digest is_valid_manifest (logs ++ x ∷ []) p
        ≡ check_log digest is_valid_manifest x (check_logs digest is_valid_manifest logs p)
  unfolding check_logs
  check_logs-append [] x p h =
      unless_same (check_log digest is_valid_manifest x p).broken_kind
        (check_log digest is_valid_manifest x p)
  check_logs-append (y ∷ logs) x p h =
      let q : Progress = check_log digest is_valid_manifest y p in
      let rest = check_logs digest is_valid_manifest logs q in
      let e = unless-whole q.broken_kind rest q refl h in
      let same = unless-none q.broken_kind rest q e in
      unless-none q.broken_kind (check_logs digest is_valid_manifest (logs ++ x ∷ []) q) q e
      ∙ check_logs-append logs x q (ap (λ z. z.broken_kind) (sym same) ∙ h)
      ∙ ap (check_log digest is_valid_manifest x) (sym same)
